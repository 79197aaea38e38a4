-- ===== src/Evaluation.antt =====
-- evaluation-service/src/queues/submission/consumer.queue.ts: what the consumer does with a job.
-- The other services' answers are arguments; what the consumer does to them is a list of effects.
pub mod Outcome
pub mod Flow
pub mod Publication
pub mod Loss
pub mod Scoring
mod Examples
use code_warzz.Prelude.{
  ℕ, ◌+◌, ◌-◌, ◌*◌, ◌/◌, Bool, true, false, Option, none, some, List, [], ◌∷◌, map, if◌then◌else◌,
  select,
}
use code_warzz.Sandbox.Judge.{Verdict, is_ac}
use code_warzz.Leaderboard.{max_penalty_mins, expiry_seconds}

pub record ProblemTestcase : Type 0 where
  pub input : ℕ
  pub output : ℕ
  pub is_sample : Bool

abbrev pub as_pair : ProblemTestcase → ℕ × ℕ
as_pair tc = (tc.input, tc.output)

-- `prepareTestcases`
unfoldable pub prepare_testcases : Bool → List (ℕ × ℕ) → List ProblemTestcase → List (ℕ × ℕ)
prepare_testcases true (c ∷ custom) problem = c ∷ custom
prepare_testcases true [] problem = map as_pair (select (λ tc. tc.is_sample) problem)
prepare_testcases false custom problem = map as_pair problem

-- The contest that the core service answers; `none` is no date, or no end time.
pub record Contest : Type 0 where
  pub start_time : Option ℕ
  pub end_time : Option (Option ℕ)

pub record TimeTaken : Type 0 where
  pub time_taken_in_ms : ℕ
  pub contest_end_time : Option (Option ℕ)

-- `Math.max(0, submissionTime - contestStartTime)` where both are dates
abbrev pub since : Option ℕ → Option ℕ → ℕ → ℕ
since (some start) (some submitted) otherwise = submitted - start
since _ _ otherwise = otherwise

-- `calculateTimeTaken`; `fetched` is `none` where the fetch fails or finds nothing, and `submitted`
-- is absent, or `none` inside where it is no date
unfoldable pub calculate_time_taken : Option ℕ → Option (Option ℕ) → ℕ → Option Contest → TimeTaken
calculate_time_taken (some contest_id) (some submitted) execution_ms (some contest) = record {
  time_taken_in_ms = since contest.start_time submitted execution_ms;
  contest_end_time = contest.end_time;
}
calculate_time_taken _ _ execution_ms _ = record {
  time_taken_in_ms = execution_ms;
  contest_end_time = none;
}

-- A score in units of 1 / MAX_PENALTY_MINS: `score + (MAX - floor(ms / 60000)) / MAX`. The difference
-- is taken last, so it is exact up to `(score + 1) * MAX` minutes.
unfoldable pub final_encoded_score : ℕ → ℕ → ℕ
final_encoded_score score time_taken_in_ms =
    score * max_penalty_mins + max_penalty_mins - time_taken_in_ms / 60000

pub record VerdictMessage : Type 0 where
  pub submission_id : ℕ
  pub contest_id : ℕ
  pub user_id : ℕ
  pub score_units : ℕ
  pub contest_end_time : Option (Option ℕ)
  pub time_taken_in_ms : ℕ

-- what the consumer does to the other services, in order
pub data Effect : Type 0 where
  store_run_result : ℕ → Effect
  persist : Verdict → ℕ → Effect  -- the PATCH to the core service: verdict and score
  add_solved : ℕ → ℕ → ℕ → Effect  -- SADD: contest, user, problem
  expire_solved : ℕ → Effect  -- EXPIREAT, in seconds
  publish_verdict : VerdictMessage → Effect
  publish_plagiarism : ℕ → Effect
  mark_processed : Effect

-- `if (contestEndTime)` and `!isNaN`: the expiry of the solved set
abbrev pub expiry_effects : Option (Option ℕ) → List Effect
expiry_effects (some (some end_ms)) = expire_solved (expiry_seconds end_ms) ∷ []
expiry_effects _ = []

-- the answer of SADD: it throws, or says whether the member is new
pub data SaddAnswer : Type 0 where
  sadd_throws added present : SaddAnswer

abbrev pub after_sadd : SaddAnswer → Option (Option ℕ) → List Effect
after_sadd sadd_throws end_time = []
after_sadd added end_time = expiry_effects end_time
after_sadd present end_time = []

abbrev pub is_present : SaddAnswer → Bool
is_present present = true
is_present _ = false

-- `handleLeaderboardUpdate`: the effects up to the verdict's publication, and the verdict to publish
unfoldable pub handle_leaderboard_update :
    Option ℕ → ℕ → ℕ → Verdict → VerdictMessage → SaddAnswer → List Effect × Option VerdictMessage
handle_leaderboard_update none user problem verdict message answer = ([], none)
handle_leaderboard_update (some contest) user problem verdict message answer =
    if is_ac verdict
    then (
      add_solved contest user problem ∷ after_sadd answer message.contest_end_time,
      if is_present answer then none else some message,
    )
    else ([], none)
