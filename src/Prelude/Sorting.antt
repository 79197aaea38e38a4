-- ===== src/Prelude/Sorting.antt =====
-- `ORDER BY key ASC` and its like: a stable insertion sort.
use Prim.Native.Nat.{ℕ, zero, suc, ◌+◌, ◌≤◌}
use mathlib.Core.Path.{◌≡◌, refl, ap}
use mathlib.Core.Bool.{Bool}
use mathlib.Core.List.{List, [], ◌∷◌, ◌++◌}
use mathlib.Core.Logic.{inl, inr}
use native.Mathlib.Omega.{arith}
use code_warzz.Prelude.Tests.{leb, if◌then◌else◌, Bool-cases}
use code_warzz.Prelude.Lists.{All, All-take, length, select, take}

module _ {ℓ} {A : Type ℓ} (key : A → ℕ) where
  abbrev pub insert_by : A → List A → List A
  insert_by x [] = x ∷ []
  insert_by x (y ∷ ys) =
      let rest = insert_by x ys in if leb (key y) (key x) then y ∷ rest else x ∷ y ∷ ys

  -- The first of two equal keys stays first: the last element is inserted last.
  abbrev pub sort_onto : List A → List A → List A
  sort_onto acc [] = acc
  sort_onto acc (x ∷ xs) = sort_onto (insert_by x acc) xs

  abbrev pub sort_by : List A → List A
  sort_by = sort_onto []

  abbrev pub IsSorted : List A → Type 0
  IsSorted [] = Unit
  IsSorted (x ∷ xs) = All (λ y. key x ≤ key y) xs × IsSorted xs

module _ {ℓ} {A : Type ℓ} (key : A → ℕ) where
  pub All-insert_by {κ} :
      (P : A → Type κ) (x : A) (xs : List A) → P x → All P xs → All P (insert_by key x xs)
  All-insert_by P x [] p h = (p, tt)
  All-insert_by P x (y ∷ ys) p (q, h) = elim (Bool-cases (leb (key y) (key x))) [
    | inl e ↦ rw e (q, All-insert_by P x ys p h)
    | inr e ↦ rw e (p, (q, h))
  ]

  pub All-sort_onto {κ} :
      (P : A → Type κ) (acc xs : List A) → All P acc → All P xs → All P (sort_onto key acc xs)
  All-sort_onto P acc [] h k = h
  All-sort_onto P acc (x ∷ xs) h (p, k) =
      All-sort_onto P (insert_by key x acc) xs (All-insert_by P x acc p h) k

  pub All-sort_by {κ} : (P : A → Type κ) (xs : List A) → All P xs → All P (sort_by key xs)
  All-sort_by P xs h = All-sort_onto P [] xs tt h

  -- Inserting the greatest key appends.
  pub insert_by-last :
      (x : A) (xs : List A) → All (λ y. key y ≤ key x) xs → insert_by key x xs ≡ xs ++ x ∷ []
  insert_by-last x [] h = refl
  insert_by-last x (y ∷ ys) (p, h) = elim (Bool-cases (leb (key y) (key x))) [
    | inl e ↦ rw e (ap (λ l. y ∷ l) (insert_by-last x ys h))
    | inr e ↦ absurd (ground arith)
  ]

  insert_by-IsSorted : (x : A) (xs : List A) → IsSorted key xs → IsSorted key (insert_by key x xs)
  insert_by-IsSorted x [] s = (tt, tt)
  insert_by-IsSorted x (y ∷ ys) (h, s) = elim (Bool-cases (leb (key y) (key x))) [
    | inl e ↦
        rw e (All-insert_by (λ z. key y ≤ key z) x ys (ground arith) h, insert_by-IsSorted x ys s)
    | inr e ↦ rw e ((ground arith, All-weaken ys h (ground arith)), (h, s))
  ]
    where
      All-weaken :
          (zs : List A) → All (λ z. key y ≤ key z) zs → key x ≤ key y → All (λ z. key x ≤ key z) zs
      All-weaken [] k l = tt
      All-weaken (z ∷ zs) (p, k) l = (omega arith, All-weaken zs k l)

  sort_onto-IsSorted : (acc xs : List A) → IsSorted key acc → IsSorted key (sort_onto key acc xs)
  sort_onto-IsSorted acc [] h = h
  sort_onto-IsSorted acc (x ∷ xs) h =
      sort_onto-IsSorted (insert_by key x acc) xs (insert_by-IsSorted x acc h)

  pub sort_by-IsSorted : (xs : List A) → IsSorted key (sort_by key xs)
  sort_by-IsSorted xs = sort_onto-IsSorted [] xs tt

  length-insert_by : (x : A) (xs : List A) → length (insert_by key x xs) ≡ suc (length xs)
  length-insert_by x [] = refl
  length-insert_by x (y ∷ ys) = ground (arith, length-insert_by x ys)

  length-sort_onto : (acc xs : List A) → length (sort_onto key acc xs) ≡ length acc + length xs
  length-sort_onto acc [] = omega arith
  length-sort_onto acc (x ∷ xs) =
      omega (arith, length-sort_onto (insert_by key x acc) xs, length-insert_by x acc)

  pub length-sort_by : (xs : List A) → length (sort_by key xs) ≡ length xs
  length-sort_by xs = omega (arith, length-sort_onto [] xs)

  pub select-insert_by :
      (test : A → Bool) (x : A) (xs : List A)
      → length (select test (insert_by key x xs)) ≡ length (select test (x ∷ xs))
  select-insert_by test x [] = refl
  select-insert_by test x (y ∷ ys) = ground (arith, select-insert_by test x ys)

  select-sort_onto :
      (test : A → Bool) (acc xs : List A)
      → length (select test (sort_onto key acc xs))
        ≡ length (select test acc) + length (select test xs)
  select-sort_onto test acc [] = omega arith
  select-sort_onto test acc (x ∷ xs) =
      ground (arith, select-sort_onto test (insert_by key x acc) xs, select-insert_by test x acc)

  -- Sorting keeps what is counted.
  pub select-sort_by :
      (test : A → Bool) (xs : List A)
      → length (select test (sort_by key xs)) ≡ length (select test xs)
  select-sort_by test xs = omega (arith, select-sort_onto test [] xs)

pub IsSorted-take {ℓ} :
    {A : Type ℓ} (key : A → ℕ) (n : ℕ) (xs : List A) → IsSorted key xs → IsSorted key (take n xs)
IsSorted-take key zero xs s = tt
IsSorted-take key (suc n) [] s = tt
IsSorted-take key (suc n) (x ∷ xs) (h, s) =
    (All-take (λ y. key x ≤ key y) n xs h, IsSorted-take key n xs s)

module _ {ℓ κ} {A : Type ℓ} (key : A → ℕ) (P : A → Type κ) where
  All-insert_by_inv : (x : A) (xs : List A) → All P (insert_by key x xs) → P x × All P xs
  All-insert_by_inv x [] h = h
  All-insert_by_inv x (y ∷ ys) h = elim (Bool-cases (leb (key y) (key x))) [
    | inl e ↦
        let (q, k) : P y × All P (insert_by key x ys) = rw e at h in
        let (p, l) = All-insert_by_inv x ys k in (p, (q, l))
    | inr e ↦ rw e at h
  ]

  All-sort_onto_inv : (acc xs : List A) → All P (sort_onto key acc xs) → All P acc × All P xs
  All-sort_onto_inv acc [] h = (h, tt)
  All-sort_onto_inv acc (x ∷ xs) h =
      let (k, l) = All-sort_onto_inv (insert_by key x acc) xs h in
      let (p, q) = All-insert_by_inv x acc k in (q, (p, l))

  -- What holds of everything in the sorted list held before.
  pub All-sort_by_inv : (xs : List A) → All P (sort_by key xs) → All P xs
  All-sort_by_inv xs h = (All-sort_onto_inv [] xs h).1
