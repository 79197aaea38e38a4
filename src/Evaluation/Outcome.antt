-- ===== src/Evaluation/Outcome.antt =====
-- consumer.queue.ts: the handler, from the job to its effects and its end.
use code_warzz.Prelude.{
  ℕ, Bool, Option, none, some, List, [], ◌∷◌, ◌++◌, ◌==◌, if◌then◌else◌, get_or,
}
use code_warzz.Sandbox.Judge.{Verdict, is_ac}
use code_warzz.Evaluation.{
  Contest, TimeTaken, calculate_time_taken, final_encoded_score, VerdictMessage, Effect,
  store_run_result, persist, publish_verdict, publish_plagiarism, mark_processed, SaddAnswer,
  handle_leaderboard_update,
}

pub record Job : Type 0 where
  pub submission_id : ℕ
  pub user_id : ℕ
  pub contest_id : Option ℕ
  pub problem_id : ℕ
  pub submission_created_at : Option (Option ℕ)
  pub is_run_only : Bool
  pub job_id : Option ℕ

pub record Sandboxed : Type 0 where
  pub verdict : Verdict
  pub time_taken_ms : ℕ

-- What the others answer while the job is handled.
pub record Answers : Type 0 where
  pub already_processed : Bool
  pub problem : Option (Option ℕ)  -- not fetched, or its `maxScore`
  pub sandbox : Sandboxed
  pub contest : Option Contest
  pub persisted : Bool
  pub solved : SaddAnswer
  pub verdict_published : Bool
  pub plagiarism_published : Bool
  pub marked : Bool

pub data Ending : Type 0 where
  returns throws : Ending

-- `problem.maxScore || 100`
abbrev pub max_score_or_default : Option ℕ → ℕ
max_score_or_default none = 100
max_score_or_default (some n) = if n == 0 then 100 else n

abbrev pub score_of : Verdict → Option ℕ → ℕ
score_of verdict max_score = if is_ac verdict then max_score_or_default max_score else 0

-- `markProcessed`, and the end of the handler
abbrev pub finish : Answers → List Effect × Ending
finish a = if a.marked then (mark_processed ∷ [], returns) else ([], throws)

abbrev pub run_effects : Option ℕ → List Effect
run_effects none = []
run_effects (some job_id) = store_run_result job_id ∷ []

abbrev pub prepend : List Effect → List Effect × Ending → List Effect × Ending
prepend effects (later, ending) = (effects ++ later, ending)

abbrev pub time_of : Job → Answers → TimeTaken
time_of j a =
    calculate_time_taken j.contest_id j.submission_created_at a.sandbox.time_taken_ms a.contest

abbrev pub message_of : Job → Answers → ℕ → ℕ → VerdictMessage
message_of j a score contest = record {
  submission_id = j.submission_id;
  contest_id = contest;
  user_id = j.user_id;
  score_units = final_encoded_score score (time_of j a).time_taken_in_ms;
  contest_end_time = (time_of j a).contest_end_time;
  time_taken_in_ms = (time_of j a).time_taken_in_ms;
}

-- the plagiarism check is published behind the verdict
abbrev pub after_verdict : Job → Answers → List Effect × Ending
after_verdict j a =
    if a.plagiarism_published
    then prepend (publish_plagiarism j.submission_id ∷ []) (finish a)
    else ([], throws)

abbrev pub publish : Job → Answers → Option VerdictMessage → List Effect × Ending
publish j a none = after_verdict j a
publish j a (some message) =
    if a.verdict_published
    then prepend (publish_verdict message ∷ []) (after_verdict j a)
    else ([], throws)

-- the branch of an accepted submission, once it is persisted
unfoldable pub accepted : Job → Answers → ℕ → List Effect × Ending
accepted j a score =
    let (effects, message) =
      handle_leaderboard_update j.contest_id j.user_id j.problem_id a.sandbox.verdict
        (message_of j a score (get_or j.contest_id 0)) a.solved in
    prepend effects (publish j a message)

unfoldable pub judged : Job → Answers → Option ℕ → List Effect × Ending
judged j a max_score =
    let score = score_of a.sandbox.verdict max_score in
    if a.persisted
    then prepend (persist a.sandbox.verdict score ∷ [])
        (if is_ac a.sandbox.verdict then accepted j a score else finish a)
    else ([], throws)

-- the handler
unfoldable pub handle : Job → Answers → List Effect × Ending
handle j a = if a.already_processed then ([], returns) else elim (a.problem) [
  | none ↦ ([], throws)
  | some max_score ↦
      if j.is_run_only then prepend (run_effects j.job_id) (finish a) else judged j a max_score
]
