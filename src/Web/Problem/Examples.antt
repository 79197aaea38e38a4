-- ===== src/Web/Problem/Examples.antt =====
-- A submission that is judged after two rounds, and what goes wrong around it.
use code_warzz.Submission.{wa}
use code_warzz.Web.Problem.{
  runs, submits, Page, Event, edits, clicks, post_answers, ticks, poll_answers, posts, asks,
  fetches_submissions, handle, run,
}
use code_warzz.Web.Problem.Polling.{waiting, asking, submission_poll, run-shows}
use code_warzz.Prelude.{◌≡◌, refl, false, none, some, List, [], ◌∷◌, ◌++◌}

abbrev page : Page
page = record {
  code = 42;
  mounted_code = none;
  is_running = false;
  polls = [];
  poll_interval = none;
  submission_result = none;
}

abbrev judged : List Event
judged =
    clicks submits
    ∷ post_answers submits 8 3
    ∷ (waiting 2 (submission_poll 3 8) ++ ticks 3 ∷ poll_answers (submission_poll 3 8) wa ∷ [])

-- A click is ignored while the submission is running.
effects_of_clicks :
    (run (clicks submits ∷ edits 43 ∷ clicks runs ∷ []) page).1 ≡ posts submits 42 ∷ []
unfolding run handle
effects_of_clicks = refl

run-shows_example : run judged page ≡ (
  record page { submission_result = some wa },
  posts submits 42 ∷ (asking 2 (submission_poll 3 8) ++ asks submits 8 ∷ fetches_submissions ∷ []),
)
run-shows_example = run-shows 3 8 2 wa page refl refl refl
