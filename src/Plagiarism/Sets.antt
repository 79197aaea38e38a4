-- ===== src/Plagiarism/Sets.antt =====
-- Similarity as a function of two sets: the lists stand for sets without repetitions.
use code_warzz.Plagiarism.Fingerprint.{
  Token, generate_k_grams, add, winnow_from, winnowing, min_hash, generate_fingerprint,
}
use code_warzz.Plagiarism.Similarity.{count_common, jaccard_similarity}
use code_warzz.Prelude.{
  ℕ, zero, suc, ◌+◌, ◌-◌, ◌≤◌, ◌<◌, ◌≡◌, refl, sym, ap, ◌∙◌, ◌↔◌, inl, inr, Bool, true, false, ◌||◌,
  List, [], ◌∷◌, ◌++◌, arith, ltb, ◌==◌, if◌then◌else◌, ==_iff, Bool-cases, length, take, contains,
}

-- no element stands twice
abbrev pub Unique : List ℕ → Type 0
Unique [] = Unit
Unique (x ∷ xs) = (contains x xs ≡ false) × Unique xs

-- the same elements, in whatever order
abbrev pub SameSet : List ℕ → List ℕ → Type 0
SameSet a b = (h : ℕ) → contains h a ≡ contains h b

contains-snoc : (x h : ℕ) (s : List ℕ) → contains x (s ++ h ∷ []) ≡ contains x s || h == x
contains-snoc x h [] = ground arith
contains-snoc x h (y ∷ s) = ground (arith, contains-snoc x h s)

Unique-snoc : (h : ℕ) (s : List ℕ) → contains h s ≡ false → Unique s → Unique (s ++ h ∷ [])
Unique-snoc h [] e u = (refl, tt)
Unique-snoc h (y ∷ s) e (n, u) =
    (ground (arith, contains-snoc y h s), Unique-snoc h s (ground arith) u)

add-Unique : (h : ℕ) (s : List ℕ) → Unique s → Unique (add h s)
unfolding add
add-Unique h s u = elim (Bool-cases (contains h s)) [
  | inl e ↦ rw e u
  | inr e ↦ rw e (Unique-snoc h s e u)
]

winnow_from-Unique : (w rounds : ℕ) (hs s : List ℕ) → Unique s → Unique (winnow_from w rounds hs s)
unfolding winnow_from
winnow_from-Unique w zero hs s u = u
winnow_from-Unique w (suc rounds) [] s u = u
winnow_from-Unique w (suc rounds) (h ∷ hs) s u =
    let m = min_hash h (take (w - 1) hs) in
    winnow_from-Unique w rounds hs (add m s) (add-Unique m s u)

-- how often an element is counted in a set
abbrev occurrence : ℕ → List ℕ → ℕ
occurrence x b = if contains x b then 1 else 0

count_common-nil : (b : List ℕ) → count_common b [] ≡ 0
unfolding count_common
count_common-nil [] = refl
count_common-nil (x ∷ b) = omega (arith, count_common-nil b)

count_common-cons :
    (x : ℕ) (a b : List ℕ)
    → contains x a ≡ false
    → Unique b
    → count_common b (x ∷ a) ≡ occurrence x b + count_common b a
unfolding count_common
count_common-cons x a [] n u = refl
count_common-cons x a (y ∷ b) n (m, u) = ground (arith, count_common-cons x a b n u, ==_iff x y)

count_common_comm : (a b : List ℕ) → Unique a → Unique b → count_common a b ≡ count_common b a
unfolding count_common
count_common_comm [] b u v = sym (count_common-nil b)
count_common_comm (x ∷ a) b (n, u) v =
    omega (arith, count_common_comm a b u v, count_common-cons x a b n v)

count_common-le : (a b : List ℕ) → count_common a b ≤ length a
unfolding count_common
count_common-le [] b = omega arith
count_common-le (x ∷ a) b = ground (arith, count_common-le a b)

count_common-eq : (a b b' : List ℕ) → SameSet b b' → count_common a b ≡ count_common a b'
unfolding count_common
count_common-eq [] b b' e = refl
count_common-eq (x ∷ a) b b' e =
    rw (e x) (ap (λ n. (if contains x b' then 1 else 0) + n) (count_common-eq a b b' e))

-- A set lies in another exactly if all of its elements count.
count_common-full :
    (a b : List ℕ)
    → ((h : ℕ) → contains h a ≡ true → contains h b ≡ true)
    → count_common a b ≡ length a
unfolding count_common
count_common-full [] b f = refl
count_common-full (x ∷ a) b f =
    let here : contains x b ≡ true = f x (ground arith) in
    let later = count_common-full a b (λ h m. f h (ground arith)) in ground arith

count_common-full_inv :
    (a b : List ℕ) (h : ℕ) → count_common a b ≡ length a → contains h a ≡ true → contains h b ≡ true
unfolding count_common
count_common-full_inv [] b h e m = cc
count_common-full_inv (x ∷ a) b h e m = elim (Bool-cases (x == h)) [
  | inl same ↦
      let p : x ≡ h = (==_iff x h).0 same in
      let here : contains x b ≡ true = ground (arith, count_common-le a b) in rw p at here
  | inr other ↦ ground (arith, count_common-le a b, count_common-full_inv a b h)
]

length-eq_of_same : (a b : List ℕ) → Unique a → Unique b → SameSet a b → length a ≡ length b
length-eq_of_same a b u v e =
    let left = count_common-full a b (λ h m. sym (e h) ∙ m) in
    let right = count_common-full b a (λ h m. e h ∙ m) in
    omega (arith, left, right, count_common_comm a b u v)

-- The similarity is a fraction of at most one.
pub jaccard_similarity_bounds :
    (a b : List ℕ)
    → Unique a
    → Unique b
    → let s = jaccard_similarity a b in (0 < s.den) × (s.num ≤ s.den)
unfolding jaccard_similarity
jaccard_similarity_bounds a b u v =
    let left = count_common-le a b in
    let right = count_common-le b a in
    let same = count_common_comm a b u v in (ground arith, ground arith)

-- The order of the two sets does not matter.
pub jaccard_similarity_comm :
    (a b : List ℕ) → Unique a → Unique b → jaccard_similarity a b ≡ jaccard_similarity b a
unfolding jaccard_similarity
jaccard_similarity_comm a b u v = ground (arith, count_common_comm a b u v)

one_counts :
    (a b : List ℕ)
    → Unique a
    → Unique b
    → (jaccard_similarity a b).num ≡ (jaccard_similarity a b).den
    → (count_common a b ≡ length a) × (count_common b a ≡ length b)
unfolding jaccard_similarity
one_counts a b u v e =
    let left = count_common-le a b in
    let right = count_common-le b a in
    let same = count_common_comm a b u v in (ground arith, ground arith)

Bool-antisym : (p q : Bool) → (p ≡ true → q ≡ true) → (q ≡ true → p ≡ true) → p ≡ q
Bool-antisym true q f g = sym (f refl)
Bool-antisym false true f g = g refl
Bool-antisym false false f g = refl

-- The similarity is one exactly if the two sets have the same elements.
pub jaccard_similarity-one_iff :
    (a b : List ℕ)
    → Unique a
    → Unique b
    → ((jaccard_similarity a b).num ≡ (jaccard_similarity a b).den) ↔ SameSet a b
unfolding jaccard_similarity
jaccard_similarity-one_iff a b u v = (
  λ e h.
      let (left, right) = one_counts a b u v e in
      Bool-antisym (contains h a) (contains h b) (count_common-full_inv a b h left)
        (count_common-full_inv b a h right),
  λ e. ground (arith, length-eq_of_same a b u v e, count_common-full a b (λ h m. sym (e h) ∙ m)),
)

-- The similarity depends on the sets alone, not on the lists that stand for them.
pub jaccard_similarity-eq_of_same :
    (a a' b : List ℕ)
    → Unique a
    → Unique a'
    → Unique b
    → SameSet a a'
    → jaccard_similarity a b ≡ jaccard_similarity a' b
unfolding jaccard_similarity
jaccard_similarity-eq_of_same a a' b u u' v e = ground (
  arith,
  length-eq_of_same a a' u u' e,
  count_common_comm a b u v,
  count_common_comm a' b u' v,
  count_common-eq b a a' e,
)

pub generate_fingerprint-Unique :
    (tokens : List Token) (k w : ℕ) → Unique (generate_fingerprint tokens k w)
unfolding generate_fingerprint winnowing
generate_fingerprint-Unique tokens k w = elim (Bool-cases (ltb (length tokens) k)) [
  | inl e ↦ rw e tt
  | inr e ↦
      let hashes = generate_k_grams tokens k in
      rw e (winnow_from-Unique w (length hashes + 1 - w) hashes [] tt)
]
