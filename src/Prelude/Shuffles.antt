-- ===== src/Prelude/Shuffles.antt =====
-- Lists that differ in their order only, and sorting them by different keys.
use Prim.Native.Nat.{ℕ}
use mathlib.Core.Path.{◌≡◌, refl, sym, ap, ◌∙◌}
use mathlib.Core.Logic.{◌≢◌}
use mathlib.Core.List.{List, [], ◌∷◌}
use native.Mathlib.Omega.{arith}
use code_warzz.Prelude.Lists.{All, length}
use code_warzz.Prelude.Descending.{insert_desc, sort_desc}

pub data Shuffled {ℓ} {A : Type ℓ} : List A → List A → Type ℓ where
  done : Shuffled [] []
  keep_head : {xs ys : List A} (x : A) → Shuffled xs ys → Shuffled (x ∷ xs) (x ∷ ys)
  exchange : (x y : A) (xs : List A) → Shuffled (x ∷ y ∷ xs) (y ∷ x ∷ xs)
  then_also : {xs ys zs : List A} → Shuffled xs ys → Shuffled ys zs → Shuffled xs zs

All-Shuffled {ℓ κ} :
    {A : Type ℓ} (P : A → Type κ) {xs ys : List A} → Shuffled xs ys → All P xs → All P ys
All-Shuffled P done h = tt
All-Shuffled P (keep_head x s) (p, h) = (p, All-Shuffled P s h)
All-Shuffled P (exchange x y xs) (p, (q, h)) = (q, (p, h))
All-Shuffled P (then_also s t) h = All-Shuffled P t (All-Shuffled P s h)

pub length-Shuffled {ℓ} : {A : Type ℓ} {xs ys : List A} → Shuffled xs ys → length xs ≡ length ys
length-Shuffled done = refl
length-Shuffled (keep_head x s) = omega (arith, length-Shuffled s)
length-Shuffled (exchange x y xs) = refl
length-Shuffled (then_also s t) = length-Shuffled s ∙ length-Shuffled t

module _ {ℓ} {A : Type ℓ} (key : A → ℕ) where
  abbrev pub DistinctKeys : List A → Type 0
  DistinctKeys [] = Unit
  DistinctKeys (x ∷ xs) = All (λ y. key y ≢ key x) xs × DistinctKeys xs

module _ {ℓ} {A : Type ℓ} (key : A → ℕ) where
  DistinctKeys-Shuffled :
      {xs ys : List A} → Shuffled xs ys → DistinctKeys key xs → DistinctKeys key ys
  DistinctKeys-Shuffled done h = tt
  DistinctKeys-Shuffled (keep_head x s) (p, h) =
      (All-Shuffled (λ y. key y ≢ key x) s p, DistinctKeys-Shuffled s h)
  DistinctKeys-Shuffled (exchange x y xs) ((ne, p), (q, h)) = ((λ e. ne (sym e), q), (p, h))
  DistinctKeys-Shuffled (then_also s t) h = DistinctKeys-Shuffled t (DistinctKeys-Shuffled s h)

  insert_desc-exchange :
      (x y : A) (xs : List A)
      → key x ≢ key y
      → insert_desc key x (insert_desc key y xs) ≡ insert_desc key y (insert_desc key x xs)
  insert_desc-exchange x y [] ne = ground arith
  insert_desc-exchange x y (z ∷ xs) ne = ground (arith, insert_desc-exchange x y xs ne)

  -- Where the keys differ, the order before sorting does not matter.
  pub sort_desc-Shuffled :
      {xs ys : List A} → Shuffled xs ys → DistinctKeys key xs → sort_desc key xs ≡ sort_desc key ys
  sort_desc-Shuffled done h = refl
  sort_desc-Shuffled (keep_head x s) (p, h) = ap (insert_desc key x) (sort_desc-Shuffled s h)
  sort_desc-Shuffled (exchange x y xs) ((ne, p), h) =
      insert_desc-exchange x y (sort_desc key xs) (λ e. ne (sym e))
  sort_desc-Shuffled (then_also s t) h =
      sort_desc-Shuffled s h ∙ sort_desc-Shuffled t (DistinctKeys-Shuffled s h)
