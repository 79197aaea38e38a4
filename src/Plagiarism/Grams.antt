-- ===== src/Plagiarism/Grams.antt =====
-- The k-grams of a text and of a run of tokens within it.
use code_warzz.Plagiarism.Fingerprint.{Token, first_code, hash_loop, rolling_hash, k_grams_from}
use code_warzz.Prelude.{
  ℕ, zero, suc, ◌+◌, ◌*◌, ◌%◌, ◌≤◌, ◌≡◌, refl, ap, ◌∙◌, List, [], ◌∷◌, ◌++◌, arith, length, drop,
}

pub add_zero : (i : ℕ) → i + 0 ≡ i
add_zero i = omega arith

pub zero_add : (i : ℕ) → 0 + i ≡ i
zero_add i = omega arith

pub suc_add : (i a : ℕ) → suc i + a ≡ suc (i + a)
suc_add i a = omega arith

pub add_suc : (i a : ℕ) → i + suc a ≡ i + 1 + a
add_suc i a = omega arith

pub k_grams_from-append :
    (tokens : List Token) (k i a b : ℕ)
    → k_grams_from tokens k i (a + b) ≡ k_grams_from tokens k i a ++ k_grams_from tokens k (i + a) b
unfolding k_grams_from
k_grams_from-append tokens k i zero b =
    ground (arith, ap (λ j. k_grams_from tokens k j b) (add_zero i))
k_grams_from-append tokens k i (suc a) b = ground (
  arith,
  k_grams_from-append tokens k (i + 1) a b,
  ap (λ j. k_grams_from tokens k j b) (add_suc i a),
  ap (λ m. k_grams_from tokens k i m) (suc_add a b),
)

pub length-k_grams_from : (tokens : List Token) (k i n : ℕ) → length (k_grams_from tokens k i n) ≡ n
unfolding k_grams_from
length-k_grams_from tokens k i zero = refl
length-k_grams_from tokens k i (suc n) = omega (arith, length-k_grams_from tokens k (i + 1) n)

-- A hash reads only `k` tokens.
pub hash_loop-append :
    (hash k : ℕ) (xs ys : List Token)
    → k ≤ length xs
    → hash_loop hash k (xs ++ ys) ≡ hash_loop hash k xs
unfolding hash_loop
hash_loop-append hash zero xs ys l = refl
hash_loop-append hash (suc k) [] ys l = absurd (omega arith)
hash_loop-append hash (suc k) (x ∷ xs) ys l =
    hash_loop-append ((hash * 31 + first_code x) % 4294967296) k xs ys (omega arith)

pub drop-append : (i : ℕ) (pre ts : List Token) → drop (length pre + i) (pre ++ ts) ≡ drop i ts
drop-append i [] ts = ap (λ j. drop j ts) (zero_add i)
drop-append i (p ∷ pre) ts =
    ap (λ j. drop j (p ∷ (pre ++ ts))) (suc_add (length pre) i) ∙ drop-append i pre ts

pub drop-append_within :
    (j : ℕ) (xs ys : List Token) → j ≤ length xs → drop j (xs ++ ys) ≡ drop j xs ++ ys
drop-append_within zero xs ys l = refl
drop-append_within (suc j) [] ys l = absurd (omega arith)
drop-append_within (suc j) (x ∷ xs) ys l = drop-append_within j xs ys (omega arith)

pub length-drop : (j : ℕ) (xs : List Token) → j ≤ length xs → length (drop j xs) + j ≡ length xs
length-drop zero xs l = omega arith
length-drop (suc j) [] l = absurd (omega arith)
length-drop (suc j) (x ∷ xs) l = omega (arith, length-drop j xs (omega arith))

module _ (k : ℕ) (pre run post : List Token) where
  pub rolling_hash-within :
      (j : ℕ)
      → j + k ≤ length run
      → rolling_hash (pre ++ (run ++ post)) (length pre + j) k ≡ rolling_hash run j k
  unfolding rolling_hash
  rolling_hash-within j l =
      rw (drop-append j pre (run ++ post), drop-append_within j run post (omega arith))
        (hash_loop-append 0 k (drop j run) post (omega (arith, length-drop j run)))

  -- The k-grams within a run do not depend on where the run stands.
  pub k_grams_from-within :
      (j n : ℕ)
      → j + n + k ≤ length run + 1
      → k_grams_from (pre ++ (run ++ post)) k (length pre + j) n ≡ k_grams_from run k j n
  unfolding k_grams_from
  k_grams_from-within j zero l = refl
  k_grams_from-within j (suc n) l = ground (
    arith,
    rolling_hash-within j (omega arith),
    k_grams_from-within (j + 1) n (omega arith),
    ap (λ i. k_grams_from (pre ++ (run ++ post)) k i n) (add_one (length pre) j),
  )
    where
      add_one : (a b : ℕ) → a + b + 1 ≡ a + (b + 1)
      add_one a b = omega arith
