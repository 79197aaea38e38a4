-- ===== src/Plagiarism/Winnowing.antt =====
-- Which hashes a fingerprint keeps, and that a common run of tokens leaves a common one.
use code_warzz.Plagiarism.Fingerprint.{
  Token, rolling_hash, k_grams_from, generate_k_grams, min_hash, add, winnow_from, winnowing,
  generate_fingerprint,
}
use code_warzz.Plagiarism.Grams.{k_grams_from-append, length-k_grams_from, k_grams_from-within}
use code_warzz.Prelude.{
  ℕ, zero, suc, ◌+◌, ◌-◌, ◌<◌, ◌≡◌, refl, ap, ◌∙◌, inl, inr, true, false, List, [], ◌∷◌, ◌++◌,
  arith, ltb, Bool-cases, length, take, length-append, contains,
}

contains-append_right :
    (h : ℕ) (xs ys : List ℕ) → contains h ys ≡ true → contains h (xs ++ ys) ≡ true
contains-append_right h [] ys e = e
contains-append_right h (x ∷ xs) ys e = ground (arith, contains-append_right h xs ys)

contains-append_left :
    (h : ℕ) (xs ys : List ℕ) → contains h xs ≡ true → contains h (xs ++ ys) ≡ true
contains-append_left h [] ys e = cc
contains-append_left h (x ∷ xs) ys e = ground (arith, contains-append_left h xs ys)

contains-add_self : (h : ℕ) (s : List ℕ) → contains h (add h s) ≡ true
unfolding add
contains-add_self h s = ground (arith, contains-append_right h s (h ∷ []))

contains-add : (x h : ℕ) (s : List ℕ) → contains x s ≡ true → contains x (add h s) ≡ true
unfolding add
contains-add x h s e = ground (arith, contains-append_left x s (h ∷ []))

-- What is in the set stays there.
winnow_from-keeps :
    (x w rounds : ℕ) (hs s : List ℕ)
    → contains x s ≡ true
    → contains x (winnow_from w rounds hs s) ≡ true
unfolding winnow_from
winnow_from-keeps x w zero hs s e = e
winnow_from-keeps x w (suc rounds) [] s e = e
winnow_from-keeps x w (suc rounds) (h ∷ hs) s e =
    let m = min_hash h (take (w - 1) hs) in
    winnow_from-keeps x w rounds hs (add m s) (contains-add x m s e)

take-append : (xs ys : List ℕ) → take (length xs) (xs ++ ys) ≡ xs
take-append [] ys = refl
take-append (x ∷ xs) ys = ap (λ l. x ∷ l) (take-append xs ys)

winnow_from-step :
    (k rounds h : ℕ) (hs s window : List ℕ)
    → take k hs ≡ window
    → winnow_from (suc k) (suc rounds) (h ∷ hs) s
      ≡ winnow_from (suc k) rounds hs (add (min_hash h window) s)
unfolding winnow_from
winnow_from-step k rounds h hs s window e =
    let less : suc k - 1 ≡ k = omega arith in
    ap (λ n. winnow_from (suc k) rounds hs (add (min_hash h n) s)) (ap (λ j. take j hs) less ∙ e)

-- The least hash of a window is selected, wherever the window stands.
winnow_from-window :
    (h rounds : ℕ) (pre hs post s : List ℕ)
    → length pre < rounds
    → contains (min_hash h hs) (winnow_from (suc (length hs)) rounds (pre ++ ((h ∷ hs) ++ post)) s)
      ≡ true
winnow_from-window h zero pre hs post s l = absurd (omega arith)
winnow_from-window h (suc rounds) [] hs post s l =
    let m = min_hash h hs in
    rw (winnow_from-step (length hs) rounds h (hs ++ post) s hs (take-append hs post))
      (winnow_from-keeps m (suc (length hs)) rounds (hs ++ post) (add m s) (contains-add_self m s))
winnow_from-window h (suc rounds) (p ∷ pre) hs post s l =
    let rest = pre ++ ((h ∷ hs) ++ post) in
    rw (winnow_from-step (length hs) rounds p rest s (take (length hs) rest) refl) (
      winnow_from-window h rounds pre hs post (add (min_hash p (take (length hs) rest)) s)
        (omega arith))

winnow_from-window_of :
    (h v rounds : ℕ) (pre hs post s : List ℕ)
    → length hs ≡ v
    → length pre < rounds
    → contains (min_hash h hs) (winnow_from (suc v) rounds (pre ++ ((h ∷ hs) ++ post)) s) ≡ true
winnow_from-window_of h v rounds pre hs post s e l =
    rw (← e) (winnow_from-window h rounds pre hs post s l)

-- the least hash of a run of `k + v` tokens, a window of `v + 1` hashes
window_hash : ℕ → ℕ → List Token → ℕ
window_hash k v run = min_hash (rolling_hash run 0 k) (k_grams_from run k (0 + 1) v)

module _ (k v : ℕ) (pre run post : List Token) (l : length run ≡ k + v) where
  tokens_rounds : length (pre ++ (run ++ post)) + 1 - k ≡ length pre + (suc v + length post)
  tokens_rounds = omega (arith, length-append pre (run ++ post), length-append run post, l)

  run_k_grams :
      k_grams_from (pre ++ (run ++ post)) k (0 + length pre) (suc v) ≡ k_grams_from run k 0 (suc v)
  run_k_grams =
      let tokens = pre ++ (run ++ post) in
      let swapped : 0 + length pre ≡ length pre + 0 = omega arith in
      ap (λ i. k_grams_from tokens k i (suc v)) swapped
      ∙ k_grams_from-within k pre run post 0 (suc v) (omega (arith, l))

  generate_k_grams-split :
      generate_k_grams (pre ++ (run ++ post)) k
      ≡ k_grams_from (pre ++ (run ++ post)) k 0 (length pre)
        ++ (k_grams_from run k 0 (suc v)
            ++ k_grams_from (pre ++ (run ++ post)) k (0 + length pre + suc v) (length post))
  unfolding generate_k_grams
  generate_k_grams-split =
      let tokens = pre ++ (run ++ post) in
      let before = k_grams_from tokens k 0 (length pre) in
      let behind = k_grams_from tokens k (0 + length pre + suc v) (length post) in
      ap (k_grams_from tokens k 0) tokens_rounds
      ∙ k_grams_from-append tokens k 0 (length pre) (suc v + length post)
      ∙ ap (λ b. before ++ b)
          (k_grams_from-append tokens k (0 + length pre) (suc v) (length post)
            ∙ ap (λ b. b ++ behind) run_k_grams)

  generate_fingerprint-window :
      contains (window_hash k v run) (generate_fingerprint (pre ++ (run ++ post)) k (suc v)) ≡ true
  unfolding generate_fingerprint winnowing k_grams_from window_hash
  generate_fingerprint-window =
      let tokens = pre ++ (run ++ post) in
      let before = k_grams_from tokens k 0 (length pre) in
      let window = k_grams_from run k 0 (suc v) in
      let behind = k_grams_from tokens k (0 + length pre + suc v) (length post) in
      let long : ltb (length tokens) k ≡ false =
        ground (arith, length-append pre (run ++ post), length-append run post, l) in
      rw (long, generate_k_grams-split)
        (winnow_from-window_of (rolling_hash run 0 k) v
          (length (before ++ (window ++ behind)) + 1 - suc v) before (k_grams_from run k (0 + 1) v)
          behind [] (length-k_grams_from run k (0 + 1) v)
          (omega (
            arith,
            length-append before (window ++ behind),
            length-append window behind,
            length-k_grams_from run k 0 (suc v),
          )))

-- A run of at least `k + w - 1` tokens that two texts have in common leaves them
-- a common hash, whatever stands before and behind it in each.
pub generate_fingerprint-common :
    (k v : ℕ) (run pre post pre' post' : List Token)
    → length run ≡ k + v
    → (h : ℕ) × (contains h (generate_fingerprint (pre ++ (run ++ post)) k (suc v)) ≡ true)
      × (contains h (generate_fingerprint (pre' ++ (run ++ post')) k (suc v)) ≡ true)
generate_fingerprint-common k v run pre post pre' post' l = (
  window_hash k v run,
  generate_fingerprint-window k v pre run post l,
  generate_fingerprint-window k v pre' run post' l,
)

-- A text with fewer than `k + w - 1` tokens leaves no hash.
pub generate_fingerprint-short :
    (k v : ℕ) (tokens : List Token)
    → length tokens < k + v
    → generate_fingerprint tokens k (suc v) ≡ []
unfolding generate_fingerprint winnowing generate_k_grams winnow_from
generate_fingerprint-short k v tokens l =
    let few : length (k_grams_from tokens k 0 (length tokens + 1 - k)) + 1 - suc v ≡ 0 =
      omega (arith, length-k_grams_from tokens k 0 (length tokens + 1 - k)) in
    elim (Bool-cases (ltb (length tokens) k)) [ inl e ↦ rw e refl | inr e ↦ rw (e, few) refl ]
