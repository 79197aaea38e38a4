-- ===== src/Evaluation/Examples.antt =====
-- A solution of 100 points in contest 5 after ten minutes.
use code_warzz.Prelude.{◌≡◌, refl, ◌↔◌, Bool, true, false, ◌&&◌, none, some, any}
use code_warzz.Sandbox.Judge.{ac}
use code_warzz.Evaluation.{added, present, SaddAnswer}
use code_warzz.Evaluation.Outcome.{Job, Answers, handle, throws}
use code_warzz.Evaluation.Flow.{is_verdict, starts_with_persist}
use code_warzz.Evaluation.Publication.{handle-publishes_iff, IsPublished}
use code_warzz.Evaluation.Loss.{handle-loses_verdict, is_addition}

abbrev submission : Job
submission = record {
  submission_id = 1;
  user_id = 7;
  contest_id = some 5;
  problem_id = 3;
  submission_created_at = some (some 600000);
  is_run_only = false;
  job_id = none;
}

-- all goes well, but for the answers given here
abbrev answers : SaddAnswer → Bool → Answers
answers solved verdict_published = record {
  already_processed = false;
  problem = some (some 100);
  sandbox = record { verdict = ac; time_taken_ms = 20 };
  contest = some (record { start_time = some 0; end_time = some (some 7200000) });
  persisted = true;
  solved = solved;
  verdict_published = verdict_published;
  plagiarism_published = true;
  marked = true;
}

handle-publishes_iff_example :
    let effects = (handle submission (answers added true)).0 in
    ((any is_verdict effects ≡ true) ↔ IsPublished submission (answers added true))
    × (any is_verdict effects ≡ any is_verdict effects && starts_with_persist effects)
handle-publishes_iff_example = handle-publishes_iff submission (answers added true)

handle-loses_verdict_example :
    ((handle submission (answers added false)).1 ≡ throws)
    × (any
          (is_addition submission 5 (answers added false))
          (handle submission (answers added false)).0
        ≡ true)
    × (any is_verdict (handle submission (answers added false)).0 ≡ false)
    × (any is_verdict (handle submission (answers present true)).0 ≡ false)
handle-loses_verdict_example =
    handle-loses_verdict submission 5 (answers added false) (answers present true)
      (record {
        is_new = refl;
        is_fetched = refl;
        is_submission = refl;
        in_contest = refl;
        is_persisted = refl;
        is_accepted = refl;
        is_first_solve = refl;
        is_refused = refl;
      })
      refl
