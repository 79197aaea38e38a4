-- ===== src/Grpc/Examples.antt =====
-- A verdict for submission 30 of user 8, with the lock 1 free or taken.
use code_warzz.Grpc.{
  CoreState, internal, unauthenticated, not_found, get_problem, authenticate_internal_call,
  VerdictRequest, update_of, status_of_update, persist_verdict,
}
use code_warzz.Grpc.Locking.{persist_verdict-locked}
use code_warzz.Redis.{Strings}
use code_warzz.Redis.Lock.{LockStep, acquires, releases}
use code_warzz.Submission.{wa, ac, Submission, get_submission_by_id}
use code_warzz.Submission.Service.{Encoding, Core, update_submission}
use code_warzz.EventStore.{empty_object, Weather}
use code_warzz.Prelude.{
  ℕ, ◌+◌, ◌*◌, ◌≡◌, refl, true, false, Option, none, some, List, [], ◌∷◌, ◌⊎◌, ◌==◌, if◌then◌else◌,
  is_some,
}

-- the entry of one key is enough
abbrev single : Strings
single = record {
  Db = ℕ → Option ℕ;
  get = λ k db. db k;
  set = λ k v db. λ key. if key == k then some v else db key;
  set_nx = λ k v db.
      if is_some (db k) then (db, false) else (λ key. if key == k then some v else db key, true);
  del = λ k db. λ key. if key == k then none else db key;
  pexpire = λ k ms db. db;
  get-set = λ k v key db. refl;
  get-del = λ k key db. refl;
  get-pexpire = λ k ms key db. refl;
  set_nx_lem = λ k v db. refl;
}

abbrev encoding : Encoding
encoding = record {
  submission_type = 1;
  submission_queued_event = 2;
  run_type = 3;
  run_queued_event = 4;
  exchange = 5;
  routing_key = 6;
  job_to_json = λ job. job.submission_id;
  run_to_json = λ job. job.job_id;
  created_payload = λ d. empty_object;
  completed_payload = λ d. empty_object;
}

abbrev pending_row : Submission
pending_row = record {
  id = 30;
  user_id = 8;
  problem_id = 3;
  contest_id = none;
  language = 0;
  code = 0;
  verdict = wa;
  score = 0;
  time_taken_ms = 0;
  memory_used_mb = none;
  passed_testcases = 0;
  total_testcases = 2;
  created_at = 50;
}

abbrev core : Core
core = record {
  submissions = pending_row ∷ [];
  solved_count = λ u. 0;
  daily_activity = λ u. 0;
  outbox = [];
  events = [];
  run_results = λ j. none;
}

abbrev request : VerdictRequest
request = record {
  submission_id = 30;
  verdict = ac;
  score = 100;
  time_taken_ms = 12;
  passed_testcases = 2;
  total_testcases = 2;
}

abbrev calm : ℕ → Weather
calm n = record { rivals = []; database_up = true; publishes = true }

-- the lock's key for a user and a problem
abbrev lock_key : ℕ → ℕ → ℕ
lock_key user problem = user * 10 + problem

abbrev free : ℕ → Option ℕ
free key = none

abbrev tables : CoreState single lock_key encoding
tables = record { core = core; keys_at_write = none }

-- another process asks for the lock, and releases what it does not own
abbrev rivals : List LockStep
rivals = acquires 2 ∷ releases 2 ∷ acquires 3 ∷ []

wrong_key :
    (persist_verdict single lock_key encoding 7 (6 ∷ []) 1 request calm [] (free, tables)).1
    ≡ unauthenticated
unfolding persist_verdict
wrong_key = refl

no_problem : get_problem 7 (7 ∷ []) (some none) ≡ not_found
unfolding get_problem
no_problem = refl

persist_verdict-locked_example :
    let update = update_submission encoding 30 (update_of request) calm core in
    let after =
      persist_verdict single lock_key encoding 7 (7 ∷ []) 1 request calm rivals (free, tables) in
    ((false ≡ true) × (after ≡ ((free, tables), internal)))
    ⊎ ((inside : ℕ → Option ℕ) × (free 83 ≡ none)
        × (inside 83 ≡ some 1)
        × (after.0.1 ≡ record { core = update.0; keys_at_write = some inside })
        × (after.1 ≡ status_of_update update.1)
        × (after.0.0 83 ≡ none))
persist_verdict-locked_example =
    persist_verdict-locked single lock_key encoding 7 1 (7 ∷ []) request calm rivals free tables
      pending_row (unfold authenticate_internal_call in refl) refl
      (unfold get_submission_by_id in refl) refl
