-- ===== src/Submission/Best.antt =====
-- The best submission: the user's first accepted one.
use code_warzz.Prelude.{
  ℕ, ◌≤◌, ◌≡◌, refl, sym, ◌↔◌, true, none, some, List, [], ◌∷◌, arith, get_or, length, select, All,
  All-selected, sort_by, IsSorted, All-sort_by, sort_by-IsSorted, length-sort_by, All-sort_by_inv,
}
use code_warzz.Submission.{Submission, is_solve, first_row, get_best_submission, null_last}

-- the accepted submissions of a user to a problem
abbrev pub solves : ℕ → ℕ → List Submission → List Submission
solves user problem = select (is_solve user problem)

-- the order before the sort by time
abbrev by_time_taken : List Submission → List Submission
by_time_taken rows =
    sort_by (λ s. s.time_taken_ms)
      (sort_by (λ s. null_last s.memory_used_mb) (sort_by (λ s. get_or s.memory_used_mb 0) rows))

first-nonempty : (rows : List Submission) → ((first_row rows ≡ none) ↔ (length rows ≡ 0))
first-nonempty [] = (λ h. refl, λ h. refl)
first-nonempty (r ∷ rows) = (λ h. cc, λ h. absurd (omega arith))

length-by_time_taken : (rows : List Submission) → length (by_time_taken rows) ≡ length rows
length-by_time_taken rows = omega (
  arith,
  length-sort_by (λ (s : Submission). s.time_taken_ms)
      (sort_by (λ s. null_last s.memory_used_mb) (sort_by (λ s. get_or s.memory_used_mb 0) rows)),
  length-sort_by (λ (s : Submission). null_last s.memory_used_mb)
      (sort_by (λ s. get_or s.memory_used_mb 0) rows),
  length-sort_by (λ (s : Submission). get_or s.memory_used_mb 0) rows,
)

All-by_time_taken :
    (P : Submission → Type 0) (rows : List Submission) → All P rows → All P (by_time_taken rows)
All-by_time_taken P rows h =
    All-sort_by (λ s. s.time_taken_ms) P _
      (All-sort_by (λ s. null_last s.memory_used_mb) P _
        (All-sort_by (λ s. get_or s.memory_used_mb 0) P rows h))

All-by_time_taken_inv :
    (P : Submission → Type 0) (rows : List Submission) → All P (by_time_taken rows) → All P rows
All-by_time_taken_inv P rows h =
    All-sort_by_inv (λ s. get_or s.memory_used_mb 0) P rows
      (All-sort_by_inv (λ s. null_last s.memory_used_mb) P _
        (All-sort_by_inv (λ s. s.time_taken_ms) P _ h))

-- the head of a sorted list is below its elements
head_least :
    (key : Submission → ℕ) (s : Submission) (rows : List Submission)
    → IsSorted key rows
    → first_row rows ≡ some s
    → All (λ r. key s ≤ key r) rows
head_least key s [] h e = tt
head_least key s (r ∷ rows) (h, k) e =
    let same : r ≡ s = cc in (rw same (omega arith), rw same at h)

head_holds :
    (P : Submission → Type 0) (s : Submission) (rows : List Submission)
    → All P rows
    → first_row rows ≡ some s
    → P s
head_holds P s [] h e = absurd cc
head_holds P s (r ∷ rows) (p, h) e = let same : r ≡ s = cc in rw (sym same) p

module _ (user problem : ℕ) (rows : List Submission) where
  abbrev ranked : List Submission
  ranked = sort_by (λ s. s.created_at) (by_time_taken (solves user problem rows))

  -- There is no best submission exactly when the user has no accepted one to the problem.
  pub get_best_submission-none_iff :
      (get_best_submission user problem rows ≡ none) ↔ (length (solves user problem rows) ≡ 0)
  unfolding get_best_submission
  get_best_submission-none_iff =
      let same =
        length-sort_by (λ (s : Submission). s.created_at)
          (by_time_taken (solves user problem rows)) in
      let same' = length-by_time_taken (solves user problem rows) in
      let (to, from) = first-nonempty ranked in (λ h. omega (arith, to h), λ h. from (omega arith))

  -- The best submission is an accepted one of the user to the problem, and none of these was
  -- submitted before it.
  pub get_best_submission-earliest :
      (s : Submission)
      → get_best_submission user problem rows ≡ some s
      → (is_solve user problem s ≡ true)
        × All (λ r. s.created_at ≤ r.created_at) (solves user problem rows)
  unfolding get_best_submission
  get_best_submission-earliest s h = (
    head_holds (λ r. is_solve user problem r ≡ true) s ranked
        (All-sort_by (λ r. r.created_at) (λ r. is_solve user problem r ≡ true) _
          (All-by_time_taken (λ r. is_solve user problem r ≡ true) _
            (All-selected (is_solve user problem) rows)))
        h,
    All-by_time_taken_inv (λ r. s.created_at ≤ r.created_at) _
        (All-sort_by_inv (λ (r : Submission). r.created_at) (λ r. s.created_at ≤ r.created_at) _
          (head_least (λ (r : Submission). r.created_at) s ranked
            (sort_by-IsSorted (λ (r : Submission). r.created_at)
              (by_time_taken (solves user problem rows)))
            h)),
  )
