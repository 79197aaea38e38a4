-- ===== src/Submission/Examples.antt =====
-- User 7 submits to problem 3 and is judged.
use code_warzz.Submission.{
  Submission, SubmissionUpdate, get_best_submission, get_submission_by_id, update_rows, ac,
}
use code_warzz.Submission.Update.{update_submission-solved_count}
use code_warzz.Submission.Submit.{submit_solution-stores, is_submitted, rows_after}
use code_warzz.Submission.Service.{
  Core, Encoding, Circumstances, SubmissionData, update_submission, submit_solution,
  submission_message, count_solve, store_submission, after_commit, is_authorized, registered_in,
}
use code_warzz.EventStore.{empty_object, Weather, append_event, append_loop, attempt_append}
use code_warzz.Outbox.{save_outbox_message}
use code_warzz.Prelude.{
  ℕ, ◌≡◌, refl, Bool, true, false, ◌&&◌, none, some, List, [], ◌∷◌, ◌==◌, if◌then◌else◌,
}

abbrev encoding : Encoding
encoding = record {
  submission_type = 1;
  submission_queued_event = 2;
  run_type = 3;
  run_queued_event = 4;
  exchange = 5;
  routing_key = 6;
  job_to_json = λ job. job.submission_id;
  run_to_json = λ job. job.job_id;
  created_payload = λ d. empty_object;
  completed_payload = λ d. empty_object;
}

abbrev weather : Bool → ℕ → Weather
weather publishes n = record { rivals = []; database_up = true; publishes = publishes }

abbrev circumstances : Circumstances
circumstances = record {
  fresh_id = 10;
  fresh_outbox_id = 20;
  now = 1000;
  commits = true;
  activity_saved = true;
  run_saved = true;
  appends = weather true;
}

abbrev solution : SubmissionData
solution = record { user_id = some 7; problem_id = 3; contest_id = some 5; language = 0; code = 42 }

abbrev empty : Core
empty = record {
  submissions = [];
  solved_count = λ u. 0;
  daily_activity = λ u. 0;
  outbox = [];
  events = [];
  run_results = λ j. none;
}

abbrev contests : List ℕ
contests = 5 ∷ []

-- only user 7 is registered for contest 5
abbrev registered : ℕ → ℕ → Bool
registered contest user = contest == 5 && user == 7

abbrev taken : Core
taken = (submit_solution encoding registered contests false circumstances solution empty).0

abbrev verdict_ac : SubmissionUpdate
verdict_ac = record {
  verdict = some ac;
  score = some 100;
  time_taken_ms = some 12;
  memory_used_mb = none;
  passed_testcases = some 4;
  total_testcases = some 4;
}

abbrev judged : Core
judged = (update_submission encoding 10 verdict_ac (weather true) taken).0

abbrev accepted_row : Submission
accepted_row = record {
  id = 10;
  user_id = 7;
  problem_id = 3;
  contest_id = some 5;
  language = 0;
  code = 42;
  verdict = ac;
  score = 100;
  time_taken_ms = 12;
  memory_used_mb = none;
  passed_testcases = 4;
  total_testcases = 4;
  created_at = 1000;
}

-- A first solve is stored, and the solved count of its user stays at 0.
first_solve : (judged.submissions ≡ accepted_row ∷ []) × (judged.solved_count 7 ≡ 0)
unfolding update_submission update_rows count_solve get_submission_by_id get_best_submission
    submit_solution store_submission after_commit is_authorized registered_in append_event
    append_loop attempt_append
first_solve = (refl, refl)

update_submission-solved_count_example : judged.solved_count ≡ taken.solved_count
update_submission-solved_count_example =
    update_submission-solved_count encoding 10 verdict_ac (weather true) taken

submit_solution-stores_example :
    let after = submit_solution encoding registered contests false circumstances solution empty in
    (after.0.submissions ≡ rows_after after.1 [])
    × (after.0.outbox ≡ (
        if is_submitted after.1
        then save_outbox_message (submission_message encoding circumstances solution) 20 1000 []
        else []))
    × (after.0 ≡ (if is_submitted after.1 then after.0 else empty))
submit_solution-stores_example =
    submit_solution-stores encoding registered contests false circumstances solution empty
