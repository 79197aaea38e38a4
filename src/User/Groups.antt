-- ===== src/User/Groups.antt =====
-- The groups of a GROUP BY partition the rows.
use code_warzz.User.{group_keys, group}
use mathlib.Core.Path.{subst}
use code_warzz.Prelude.{
  ℕ, ◌+◌, ◌≡◌, refl, sym, ap, ◌∙◌, ◌↔◌, inl, inr, Bool, true, false, ◌||◌, List, [], ◌∷◌, arith,
  if◌then◌else◌, Bool-cases, length, any,
}

module _ {K : Type 0} (same : K → K → Bool) where
  abbrev pub has : K → List K → Bool
  has k = any (λ j. same j k)

  -- no key twice
  abbrev pub IsUnique : List K → Type 0
  IsUnique [] = Unit
  IsUnique (k ∷ ks) = (has k ks ≡ false) × IsUnique ks

abbrev pub sum_over : {K : Type 0} → (K → ℕ) → List K → ℕ
sum_over f [] = 0
sum_over f (k ∷ ks) = f k + sum_over f ks

module _ {A K : Type 0} (same : K → K → Bool) (key : A → K)
    (same_iff : (a b : K) → (same a b ≡ true) ↔ (a ≡ b)) where
  same_sym : (a b : K) → same a b ≡ same b a
  same_sym a b = elim (Bool-cases (same a b)) [
    | inl e ↦ e ∙ sym ((same_iff b a).1 (sym ((same_iff a b).0 e)))
    | inr e ↦ elim (Bool-cases (same b a)) [
      | inl f ↦ (same_iff a b).1 (sym ((same_iff b a).0 f)) ∙ sym f
      | inr f ↦ e ∙ sym f
    ]
  ]

  pub has-group_keys :
      (k : K) (xs : List A) → has same k (group_keys same key xs) ≡ any (λ x. same (key x) k) xs
  unfolding group_keys
  has-group_keys k [] = refl
  has-group_keys k (x ∷ xs) = elim (Bool-cases (any (λ y. same (key y) (key x)) xs)) [
    | inl e ↦ rw e (
        has-group_keys k xs ∙ elim (Bool-cases (same (key x) k)) [
          | inl s ↦
              let there : any (λ y. same (key y) k) xs ≡ true =
                subst (λ j. any (λ y. same (key y) j) xs ≡ true) ((same_iff (key x) k).0 s) e in
              rw (s, there) refl
          | inr s ↦ rw s refl
        ])
    | inr e ↦ rw e (ap (λ b. same (key x) k || b) (has-group_keys k xs))
  ]

  pub group_keys-IsUnique : (xs : List A) → IsUnique same (group_keys same key xs)
  unfolding group_keys
  group_keys-IsUnique [] = tt
  group_keys-IsUnique (x ∷ xs) = elim (Bool-cases (any (λ y. same (key y) (key x)) xs)) [
    | inl e ↦ rw e (group_keys-IsUnique xs)
    | inr e ↦ rw e (has-group_keys (key x) xs ∙ e, group_keys-IsUnique xs)
  ]

  sum_over-step :
      (x : A) (xs : List A) (ks : List K)
      → IsUnique same ks
      → sum_over (λ k. length (group same key k (x ∷ xs))) ks
        ≡ sum_over (λ k. length (group same key k xs)) ks + (if has same (key x) ks then 1 else 0)
  sum_over-step x xs [] u = refl
  sum_over-step x xs (k ∷ ks) (fresh, u) =
      let rest = sum_over-step x xs ks u in
      let turned = same_sym k (key x) in
      elim (Bool-cases (same (key x) k)) [
        | inl s ↦
            let gone : has same (key x) ks ≡ false =
              subst (λ j. has same j ks ≡ false) (sym ((same_iff (key x) k).0 s)) fresh in
            ground arith
        | inr s ↦ ground arith
      ]

  -- A key that occurs nowhere has an empty group.
  pub group-nil :
      (k : K) (xs : List A) → any (λ x. same (key x) k) xs ≡ false → group same key k xs ≡ []
  group-nil k [] h = refl
  group-nil k (x ∷ xs) h = ground (arith, group-nil k xs)

  pub sum_over-group_keys :
      (xs : List A)
      → sum_over (λ k. length (group same key k xs)) (group_keys same key xs) ≡ length xs
  unfolding group_keys
  sum_over-group_keys [] = refl
  sum_over-group_keys (x ∷ xs) =
      let rest = sum_over-group_keys xs in
      let step = sum_over-step x xs (group_keys same key xs) (group_keys-IsUnique xs) in
      let seen = has-group_keys (key x) xs in
      elim (Bool-cases (any (λ y. same (key y) (key x)) xs)) [
        | inl e ↦ rw e (omega (arith, rw (seen, e) at step, rest))
        | inr e ↦
            let self : same (key x) (key x) ≡ true = (same_iff (key x) (key x)).1 refl in
            let alone = ap length (group-nil (key x) xs e) in
            let others = rw (seen, e) at step in rw (e, self) (omega (arith, others, rest, alone))
      ]

  -- A key that is missing counts nothing.
  pub length-group_or_zero :
      (k : K) (xs : List A)
      → (if has same k (group_keys same key xs) then length (group same key k xs) else 0)
        ≡ length (group same key k xs)
  length-group_or_zero k xs = elim (Bool-cases (any (λ x. same (key x) k) xs)) [
    | inl e ↦ rw (has-group_keys k xs, e) refl
    | inr e ↦ rw (has-group_keys k xs, e, group-nil k xs e) refl
  ]
