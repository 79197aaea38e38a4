-- ===== src/Prelude/Descending.antt =====
-- `ORDER BY key DESC` and `sort((a, b) => b.key - a.key)`: a stable insertion sort, greatest key first.
use Prim.Native.Nat.{ℕ, zero, suc, ◌≤◌}
use mathlib.Core.Path.{◌≡◌, refl}
use mathlib.Core.List.{List, [], ◌∷◌}
use mathlib.Core.Logic.{inl, inr}
use native.Mathlib.Omega.{arith}
use code_warzz.Prelude.Tests.{ltb, if◌then◌else◌, Bool-cases}
use code_warzz.Prelude.Lists.{All, All-take, length, take}

module _ {ℓ} {A : Type ℓ} (key : A → ℕ) where
  -- before the first element with a smaller key or the same one: what comes later is inserted first
  abbrev pub insert_desc : A → List A → List A
  insert_desc x [] = x ∷ []
  insert_desc x (y ∷ ys) =
      let rest = insert_desc x ys in if ltb (key x) (key y) then y ∷ rest else x ∷ y ∷ ys

  abbrev pub sort_desc : List A → List A
  sort_desc [] = []
  sort_desc (x ∷ xs) = insert_desc x (sort_desc xs)

  abbrev pub IsDescending : List A → Type 0
  IsDescending [] = Unit
  IsDescending (x ∷ xs) = All (λ y. key y ≤ key x) xs × IsDescending xs

module _ {ℓ} {A : Type ℓ} (key : A → ℕ) where
  All-insert_desc {κ} :
      (P : A → Type κ) (x : A) (xs : List A) → P x → All P xs → All P (insert_desc key x xs)
  All-insert_desc P x [] p h = (p, tt)
  All-insert_desc P x (y ∷ ys) p (q, h) = elim (Bool-cases (ltb (key x) (key y))) [
    | inl e ↦ rw e (q, All-insert_desc P x ys p h)
    | inr e ↦ rw e (p, (q, h))
  ]

  pub All-sort_desc {κ} : (P : A → Type κ) (xs : List A) → All P xs → All P (sort_desc key xs)
  All-sort_desc P [] h = tt
  All-sort_desc P (x ∷ xs) (p, h) = All-insert_desc P x (sort_desc key xs) p (All-sort_desc P xs h)

  All-weaken : (a b : ℕ) (zs : List A) → a ≤ b → All (λ z. key z ≤ a) zs → All (λ z. key z ≤ b) zs
  All-weaken a b [] l h = tt
  All-weaken a b (z ∷ zs) l (p, h) = (omega arith, All-weaken a b zs l h)

  insert_desc-IsDescending :
      (x : A) (xs : List A) → IsDescending key xs → IsDescending key (insert_desc key x xs)
  insert_desc-IsDescending x [] s = (tt, tt)
  insert_desc-IsDescending x (y ∷ ys) (h, s) = elim (Bool-cases (ltb (key x) (key y))) [
    | inl e ↦ rw e (
      All-insert_desc (λ z. key z ≤ key y) x ys (ground arith) h,
      insert_desc-IsDescending x ys s,
    )
    | inr e ↦
        let below : key y ≤ key x = ground arith in
        rw e ((below, All-weaken (key y) (key x) ys below h), (h, s))
  ]

  pub sort_desc-IsDescending : (xs : List A) → IsDescending key (sort_desc key xs)
  sort_desc-IsDescending [] = tt
  sort_desc-IsDescending (x ∷ xs) =
      insert_desc-IsDescending x (sort_desc key xs) (sort_desc-IsDescending xs)

  length-insert_desc : (x : A) (xs : List A) → length (insert_desc key x xs) ≡ suc (length xs)
  length-insert_desc x [] = refl
  length-insert_desc x (y ∷ ys) = ground (arith, length-insert_desc x ys)

  pub length-sort_desc : (xs : List A) → length (sort_desc key xs) ≡ length xs
  length-sort_desc [] = refl
  length-sort_desc (x ∷ xs) =
      omega (arith, length-insert_desc x (sort_desc key xs), length-sort_desc xs)

pub IsDescending-take {ℓ} :
    {A : Type ℓ} (key : A → ℕ) (n : ℕ) (xs : List A)
    → IsDescending key xs
    → IsDescending key (take n xs)
IsDescending-take key zero xs s = tt
IsDescending-take key (suc n) [] s = tt
IsDescending-take key (suc n) (x ∷ xs) (h, s) =
    (All-take (λ y. key y ≤ key x) n xs h, IsDescending-take key n xs s)
