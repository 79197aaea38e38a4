-- ===== src/Submission/Service.antt =====
-- core/src/service/submission.service.ts: submitting, running and updating.
-- What the database and the broker do is an argument.
use code_warzz.Prelude.{
  ℕ, ◌+◌, Bool, true, false, not, Option, none, some, List, [], ◌∷◌, ◌++◌, ◌==◌, if◌then◌else◌,
  is_some, get_or,
}
use code_warzz.Submission.{
  pending, is_ac, Submission, SubmissionUpdate, update_rows, get_submission_by_id,
  get_best_submission,
}
use code_warzz.Outbox.{OutboxRow, OutboxMessage, save_outbox_message}
use code_warzz.EventStore.{
  EventPayload, EventRow, submission_created, submission_completed, AppendResult, appended, Weather,
  append_event,
}

pub data RunStatus : Type 0 where
  queued : RunStatus
  completed : ℕ → RunStatus

-- The tables that the service writes, and the run results in Redis.
pub record Core : Type 0 where
  pub submissions : List Submission
  pub solved_count : ℕ → ℕ  -- `users.solvedCount`
  pub daily_activity : ℕ → ℕ  -- today's, by user
  pub outbox : List OutboxRow
  pub events : List EventRow
  pub run_results : ℕ → Option RunStatus

abbrev pub add_one : ℕ → (ℕ → ℕ) → ℕ → ℕ
add_one user counts u = if u == user then counts u + 1 else counts u

-- the loop over the ongoing contests, with the `break`
unfoldable pub registered_in : (ℕ → ℕ → Bool) → ℕ → List ℕ → Bool
registered_in is_registered user [] = false
registered_in is_registered user (c ∷ contests) =
    let rest = registered_in is_registered user contests in
    if is_registered c user then true else rest

-- nobody needs a registration while no contest with the problem is on
unfoldable pub is_authorized : (ℕ → ℕ → Bool) → List ℕ → Option ℕ → Bool
is_authorized is_registered [] user = true
is_authorized is_registered (c ∷ contests) none = false
is_authorized is_registered (c ∷ contests) (some user) =
    registered_in is_registered user (c ∷ contests)

-- The data of a submission: the controller's body and user.
pub record SubmissionData : Type 0 where
  pub user_id : Option ℕ
  pub problem_id : ℕ
  pub contest_id : Option ℕ
  pub language : ℕ
  pub code : ℕ

-- the job that the evaluation service receives
pub record SubmissionJob : Type 0 where
  pub submission_id : ℕ
  pub fields : SubmissionData
  pub submission_created_at : ℕ

-- `{ ...data, isRunOnly: true, submissionCreatedAt, jobId }`
pub record RunJob : Type 0 where
  pub fields : SubmissionData
  pub submission_created_at : ℕ
  pub job_id : ℕ

-- The constants that the outbox rows carry, and JSON.
pub record Encoding : Type 0 where
  pub submission_type : ℕ
  pub submission_queued_event : ℕ
  pub run_type : ℕ
  pub run_queued_event : ℕ
  pub exchange : ℕ
  pub routing_key : ℕ
  pub job_to_json : SubmissionJob → ℕ
  pub run_to_json : RunJob → ℕ
  pub created_payload : SubmissionData → EventPayload
  pub completed_payload : SubmissionUpdate → EventPayload

-- what the others do: fresh ids and the time, and whether things go through
pub record Circumstances : Type 0 where
  pub fresh_id : ℕ
  pub fresh_outbox_id : ℕ
  pub now : ℕ
  pub commits : Bool
  pub activity_saved : Bool
  pub run_saved : Bool
  pub appends : ℕ → Weather

pub data SubmitResult : Type 0 where
  forbidden under_load rolled_back : SubmitResult
  submitted : Submission → SubmitResult

-- the row with the controller's initial values
abbrev pub new_submission : Circumstances → SubmissionData → ℕ → Submission
new_submission c d user = record {
  id = c.fresh_id;
  user_id = user;
  problem_id = d.problem_id;
  contest_id = d.contest_id;
  language = d.language;
  code = d.code;
  verdict = pending;
  score = 0;
  time_taken_ms = 0;
  memory_used_mb = none;
  passed_testcases = 0;
  total_testcases = 0;
  created_at = c.now;
}

abbrev pub store_run : ℕ → RunStatus → (ℕ → Option RunStatus) → ℕ → Option RunStatus
store_run job status results j = if j == job then some status else results j

-- the `verdict === 'AC'` branch of the transaction, on the rows already updated
unfoldable pub count_solve : ℕ → SubmissionUpdate → List Submission → (ℕ → ℕ) → ℕ → ℕ
count_solve id d rows counts =
    if is_ac (get_or d.verdict pending)
    then elim (get_submission_by_id id rows) [
      | none ↦ counts
      | some s ↦ elim (get_best_submission s.user_id s.problem_id rows) [
        | none ↦ add_one s.user_id counts
        | some best ↦ counts
      ]
    ]
    else counts

abbrev pub is_appended : AppendResult → Bool
is_appended (appended v) = true
is_appended _ = false

module _ (e : Encoding) where
  abbrev pub submission_message : Circumstances → SubmissionData → OutboxMessage
  submission_message c d = record {
    aggregate_type = e.submission_type;
    aggregate_id = c.fresh_id;
    event_type = e.submission_queued_event;
    exchange = e.exchange;
    routing_key = e.routing_key;
    payload =
        e.job_to_json
          (record { submission_id = c.fresh_id; fields = d; submission_created_at = c.now });
    max_attempts = some 5;
  }

  -- the transaction: the row and its outbox message
  unfoldable pub store_submission : Circumstances → SubmissionData → ℕ → Core → Core
  store_submission c d user db = record db {
    submissions = db.submissions ++ new_submission c d user ∷ [];
    outbox = save_outbox_message (submission_message c d) c.fresh_outbox_id c.now db.outbox;
  }

  -- behind the commit, where failures are logged only
  unfoldable pub after_commit : Circumstances → SubmissionData → ℕ → Core → Core
  after_commit c d user db = record db {
    daily_activity = if c.activity_saved then add_one user db.daily_activity else db.daily_activity;
    events =
        (append_event c.fresh_id submission_created (e.created_payload d) c.appends db.events).0;
  }

  -- `submitSolution`; the column `user_id` is NOT NULL, so an insert without a user fails
  unfoldable pub submit_solution :
      (ℕ → ℕ → Bool) → List ℕ → Bool → Circumstances → SubmissionData → Core → Core × SubmitResult
  submit_solution is_registered ongoing is_overloaded c d db =
      if not (is_authorized is_registered ongoing d.user_id)
      then (db, forbidden)
      else if is_overloaded
      then (db, under_load)
      else elim (d.user_id) [
        | none ↦ (db, rolled_back)
        | some user ↦
            if c.commits
            then (
              after_commit c d user (store_submission c d user db),
              submitted (new_submission c d user),
            )
            else (db, rolled_back)
      ]

  abbrev pub run_message : Circumstances → SubmissionData → OutboxMessage
  run_message c d = record {
    aggregate_type = e.run_type;
    aggregate_id = c.fresh_id;
    event_type = e.run_queued_event;
    exchange = e.exchange;
    routing_key = e.routing_key;
    payload =
        e.run_to_json (record { fields = d; submission_created_at = c.now; job_id = c.fresh_id });
    max_attempts = none;
  }

  -- `runSolution`: the job id, or `none` where it throws; the message is saved before the result
  unfoldable pub run_solution :
      (ℕ → ℕ → Bool) → List ℕ → Circumstances → SubmissionData → Core → Core × Option ℕ
  run_solution is_registered ongoing c d db =
      let outbox' = save_outbox_message (run_message c d) c.fresh_outbox_id c.now db.outbox in
      if not (is_authorized is_registered ongoing d.user_id)
      then (db, none)
      else if not c.commits
      then (db, none)
      else if c.run_saved
      then (
        record db { outbox = outbox'; run_results = store_run c.fresh_id queued db.run_results },
        some c.fresh_id,
      )
      else (record db { outbox = outbox' }, none)

  -- `updateSubmission`: `none` where it throws, else the row it returns, if there is one. The event
  -- is appended outside the transaction: a rollback leaves it in the store.
  unfoldable pub update_submission :
      ℕ → SubmissionUpdate → (ℕ → Weather) → Core → Core × Option (Option Submission)
  update_submission id d appends db =
      let rows = update_rows id d db.submissions in
      let stored = record db {
        submissions = rows;
        solved_count = count_solve id d rows db.solved_count;
      } in
      let (events, result) =
        append_event id submission_completed (e.completed_payload d) appends db.events in
      if is_some d.verdict
      then if is_appended result
        then (record stored { events = events }, some (get_submission_by_id id rows))
        else (record db { events = events }, none)
      else (stored, some (get_submission_by_id id rows))
