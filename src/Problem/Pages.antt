-- ===== src/Problem/Pages.antt =====
-- The pages of the list of problems.
use code_warzz.Problem.{Problem, Overview, Tables, overview, ceil_div, get_all_problems}
use code_warzz.Prelude.{
  ℕ, zero, suc, ◌+◌, ◌-◌, ◌*◌, ◌≤◌, ◌<◌, ◌≡◌, refl, sym, ap, ◌∙◌, Option, List, [], ◌∷◌, ◌++◌, map,
  arith, length, take, drop, sort_desc, length-sort_desc, Shuffled, DistinctKeys,
  sort_desc-Shuffled,
}
use mathlib.Core.List.{map-append}
use native.Mathlib.Nat.{zero-mul}

-- What a reader sees who goes through the first pages; each page is a query with its own scan.
unfoldable pub read_pages : (ℕ → List Problem) → ℕ → ℕ → Option ℕ → Tables → List Overview
read_pages scans zero limit user t = []
read_pages scans (suc pages) limit user t =
    read_pages scans pages limit user t
    ++ (get_all_problems (scans (suc pages)) (suc pages) limit user t).overviews

module _ {ℓ} {A : Type ℓ} where
  take-nil : (n : ℕ) → take {A = A} n [] ≡ []
  take-nil zero = refl
  take-nil (suc n) = refl

  take-drop : (m n k : ℕ) (xs : List A) → m + n ≡ k → take m xs ++ take n (drop m xs) ≡ take k xs
  take-drop zero n k xs e = let same : n ≡ k = omega arith in ap (λ j. take j xs) same
  take-drop (suc m) n zero xs e = absurd (omega arith)
  take-drop (suc m) n (suc k) [] e = take-nil n
  take-drop (suc m) n (suc k) (x ∷ xs) e = ap (λ l. x ∷ l) (take-drop m n k xs (omega arith))

  take_all : (n : ℕ) (xs : List A) → length xs ≤ n → take n xs ≡ xs
  take_all zero [] h = refl
  take_all zero (x ∷ xs) h = absurd (omega arith)
  take_all (suc n) [] h = refl
  take_all (suc n) (x ∷ xs) h = ap (λ l. x ∷ l) (take_all n xs (omega arith))

ceil_div-enough : (total limit : ℕ) → 0 < limit → total ≤ ceil_div total limit * limit
ceil_div-enough total limit h = grind arith

module _ (scans : ℕ → List Problem) (limit : ℕ) (user : Option ℕ) (t : Tables)
    (shuffled : (n : ℕ) → Shuffled t.problems (scans n))
    (apart : DistinctKeys (λ p. p.created_at) t.problems) where
  abbrev newest : List Problem
  newest = sort_desc (λ p. p.created_at) t.problems

  abbrev show : Problem → Overview
  show = overview user t.submissions

  same_order : (n : ℕ) → sort_desc (λ p. p.created_at) (scans n) ≡ newest
  same_order n = sym (sort_desc-Shuffled (λ p. p.created_at) (shuffled n) apart)

  read_pages-take :
      (pages : ℕ) → read_pages scans pages limit user t ≡ map show (take (pages * limit) newest)
  unfolding read_pages get_all_problems
  read_pages-take zero = rw zero-mul refl
  read_pages-take (suc pages) =
      let begin : (suc pages - 1) * limit ≡ pages * limit =
        ap (λ (k : ℕ). k * limit) (omega arith) in
      rw (same_order (suc pages), read_pages-take pages, begin)
        (sym (
            map-append show (take (pages * limit) newest)
              (take limit (drop (pages * limit) newest)))
          ∙ ap (map show)
              (take-drop (pages * limit) limit (suc pages * limit) newest (grind arith)))

-- If no two problems were created at the same time, the pages up to the last one hold every problem
-- once, the newest first, with no gap and no overlap, in whatever order the database comes upon the
-- rows in each query.
pub read_pages-all :
    (scans : ℕ → List Problem) (limit : ℕ) (user : Option ℕ) (t : Tables)
    → ((n : ℕ) → Shuffled t.problems (scans n))
    → DistinctKeys (λ p. p.created_at) t.problems
    → 0 < limit
    → read_pages scans (get_all_problems (scans 1) 1 limit user t).total_pages limit user t
      ≡ map (overview user t.submissions) (sort_desc (λ p. p.created_at) t.problems)
unfolding get_all_problems
read_pages-all scans limit user t shuffled apart h =
    let newest = sort_desc (λ (p : Problem). p.created_at) t.problems in
    read_pages-take scans limit user t shuffled apart (ceil_div (length t.problems) limit)
    ∙ ap (map (overview user t.submissions)) (
        take_all (ceil_div (length t.problems) limit * limit) newest (
          rw (length-sort_desc (λ (p : Problem). p.created_at) t.problems)
            (ceil_div-enough (length t.problems) limit h)))
