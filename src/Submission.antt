-- ===== src/Submission.antt =====
-- core/src/repository/submission.repository.ts: the submissions table and its queries.
-- The table is the list of its rows; texts are numbers that stand for them.
pub mod Service
pub mod Best
pub mod Update
pub mod Submit
mod Examples
use mathlib.Core.List.{reverse}
use code_warzz.Prelude.{
  ℕ, Bool, true, false, ◌&&◌, Option, none, some, List, [], ◌∷◌, map, ◌==◌, if◌then◌else◌, get_or,
  take, drop, select, sort_by,
}

-- `verdictEnum`
pub data Verdict : Type 0 where
  ac wa tle mle re ce pending : Verdict

abbrev pub is_ac : Verdict → Bool
is_ac ac = true
is_ac _ = false

pub record Submission : Type 0 where
  pub id : ℕ
  pub user_id : ℕ
  pub problem_id : ℕ
  pub contest_id : Option ℕ
  pub language : ℕ
  pub code : ℕ
  pub verdict : Verdict
  pub score : ℕ
  pub time_taken_ms : ℕ
  pub memory_used_mb : Option ℕ
  pub passed_testcases : ℕ
  pub total_testcases : ℕ
  pub created_at : ℕ

-- What a PATCH sets of it; an absent field stays as it is.
pub record SubmissionUpdate : Type 0 where
  pub verdict : Option Verdict
  pub score : Option ℕ
  pub time_taken_ms : Option ℕ
  pub memory_used_mb : Option ℕ
  pub passed_testcases : Option ℕ
  pub total_testcases : Option ℕ

abbrev pub first_some {ℓ} : {A : Type ℓ} → Option A → Option A → Option A
first_some none d = d
first_some (some a) d = some a

-- `set(data)` on one row
abbrev pub apply_update : SubmissionUpdate → Submission → Submission
apply_update d s = record s {
  verdict = get_or d.verdict s.verdict;
  score = get_or d.score s.score;
  time_taken_ms = get_or d.time_taken_ms s.time_taken_ms;
  memory_used_mb = first_some d.memory_used_mb s.memory_used_mb;
  passed_testcases = get_or d.passed_testcases s.passed_testcases;
  total_testcases = get_or d.total_testcases s.total_testcases;
}

-- `updateSubmissionWithTx`: the table; the row that it returns is `get_submission_by_id` of it
unfoldable pub update_rows : ℕ → SubmissionUpdate → List Submission → List Submission
update_rows id d [] = []
update_rows id d (s ∷ rows) =
    let rest = update_rows id d rows in (if s.id == id then apply_update d s else s) ∷ rest

-- `findFirst`
abbrev pub find_first {ℓ} : {A : Type ℓ} → (A → Bool) → List A → Option A
find_first test [] = none
find_first test (x ∷ xs) = let rest = find_first test xs in if test x then some x else rest

-- `getSubmissionByIdWithTx`
unfoldable pub get_submission_by_id : ℕ → List Submission → Option Submission
get_submission_by_id id = find_first (λ s. s.id == id)

abbrev pub is_solve : ℕ → ℕ → Submission → Bool
is_solve user problem s = s.user_id == user && s.problem_id == problem && is_ac s.verdict

abbrev pub first_row {ℓ} : {A : Type ℓ} → List A → Option A
first_row [] = none
first_row (x ∷ xs) = some x

-- `ASC` puts NULL last
abbrev pub null_last : Option ℕ → ℕ
null_last none = 1
null_last (some n) = 0

-- `getBestSubmission(WithTx)`; sorting is stable, so the last key is sorted by first
unfoldable pub get_best_submission : ℕ → ℕ → List Submission → Option Submission
get_best_submission user problem rows = first_row (
    sort_by (λ s. s.created_at)
      (sort_by (λ s. s.time_taken_ms)
        (sort_by (λ s. null_last s.memory_used_mb)
          (sort_by (λ s. get_or s.memory_used_mb 0) (select (is_solve user problem) rows)))))

-- `DESC`
abbrev pub newest_first : List Submission → List Submission
newest_first rows = reverse (sort_by (λ s. s.created_at) rows)

-- a filter that is absent lets everything through
abbrev pub passes : Option ℕ → Option ℕ → Bool
passes none value = true
passes (some wanted) none = false
passes (some wanted) (some n) = n == wanted

-- `getSubmissions`: newest first, a page of them
unfoldable pub get_submissions :
    Option ℕ → Option ℕ → Option ℕ → ℕ → ℕ → List Submission → List Submission
get_submissions user problem contest limit offset rows = take limit (
    drop offset (
      newest_first (
        select
          (λ s.
            passes user (some s.user_id)
            && passes problem (some s.problem_id)
            && passes contest s.contest_id)
          rows)))

-- `getUserSolvedProblemIds`, as a list
unfoldable pub get_user_solved_problem_ids : ℕ → ℕ → List Submission → List ℕ
get_user_solved_problem_ids contest user rows =
    map (λ s. s.problem_id)
      (select (λ s. passes (some contest) s.contest_id && s.user_id == user && is_ac s.verdict)
        rows)
