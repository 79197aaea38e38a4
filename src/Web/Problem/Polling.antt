-- ===== src/Web/Problem/Polling.antt =====
-- How a submission's verdict reaches the page, and what keeps polling.
use code_warzz.Submission.{Verdict, pending}
use code_warzz.Web.Problem.{
  Action, runs, submits, Poll, Page, Event, edits, editor_mounts, clicks, shortcut, post_answers,
  ticks, poll_answers, unmounts, Effect, posts, asks, fetches_submissions, clear, is_pending,
  requests, handle, run,
}
use code_warzz.Prelude.{
  ℕ, zero, suc, ◌≡◌, refl, ap, ◌∙◌, true, false, none, some, List, [], ◌∷◌, ◌++◌, map, arith, ◌==◌,
  ==_refl, any,
}

-- `n` rounds in which the verdict is not there yet
abbrev pub waiting : ℕ → Poll → List Event
waiting zero q = []
waiting (suc n) q = ticks q.timer ∷ poll_answers q pending ∷ waiting n q

abbrev pub asking : ℕ → Poll → List Effect
asking zero q = []
asking (suc n) q = asks q.action q.job ∷ asking n q

abbrev pub submission_poll : ℕ → ℕ → Poll
submission_poll timer job = record { timer = timer; action = submits; job = job }

waiting_round :
    (timer job : ℕ) (p : Page)
    → p.polls ≡ submission_poll timer job ∷ []
    → (handle (ticks timer) p ≡ (p, asks submits job ∷ []))
      × (handle (poll_answers (submission_poll timer job) pending) p ≡ (p, []))
unfolding handle
waiting_round timer job p e = (rw (e, requests) (rw (==_refl timer) refl), refl)

run-waiting :
    (n timer job : ℕ) (rest : List Event) (p : Page)
    → p.polls ≡ submission_poll timer job ∷ []
    → run (waiting n (submission_poll timer job) ++ rest) p
      ≡ ((run rest p).0, asking n (submission_poll timer job) ++ (run rest p).1)
unfolding run
run-waiting zero timer job rest p e = refl
run-waiting (suc n) timer job rest p e =
    let (asked, quiet) = waiting_round timer job p e in
    rw (asked, quiet, run-waiting n timer job rest p e) refl

shown :
    (timer job : ℕ) (v : Verdict) (p : Page)
    → p.polls ≡ submission_poll timer job ∷ []
    → is_pending v ≡ false
    → handle (poll_answers (submission_poll timer job) v) p ≡ (
      record p { polls = []; is_running = false; submission_result = some v },
      fetches_submissions ∷ [],
    )
unfolding handle
shown timer job v p e done = ground (arith, ==_refl timer)

run-step :
    (e : Event) (events : List Event) (p : Page) {r : Page × List Effect}
    → handle e p ≡ r
    → run (e ∷ events) p ≡ ((run events r.0).0, r.1 ++ (run events r.0).1)
unfolding run
run-step e events p h = ap (λ r. ((run events r.0).0, r.1 ++ (run events r.0).1)) h

-- A submission on a page that is idle: the code is posted as it stands, the page asks for the submission
-- until its verdict is there, shows it, stops the timer and lets the user submit again.
pub run-shows :
    (timer job n : ℕ) (v : Verdict) (p : Page)
    → p.is_running ≡ false
    → p.polls ≡ []
    → is_pending v ≡ false
    → run
        (clicks submits
          ∷ post_answers submits job timer
          ∷ (waiting n (submission_poll timer job)
              ++ ticks timer ∷ poll_answers (submission_poll timer job) v ∷ []))
        p
      ≡ (
        record p { submission_result = some v },
        posts submits p.code
            ∷ (asking n (submission_poll timer job) ++ asks submits job ∷ fetches_submissions ∷ []),
      )
unfolding run
run-shows timer job n v p idle none_yet done =
    let polling = record p {
      is_running = true;
      submission_result = none;
      polls = submission_poll timer job ∷ [];
    } in
    let began : handle (clicks submits) p
        ≡ (record p { is_running = true; submission_result = none }, posts submits p.code ∷ []) =
      unfold handle in rw idle refl in
    let clicked = record p { is_running = true; submission_result = none } in
    let polled : handle (post_answers submits job timer)
          (record p { is_running = true; submission_result = none })
        ≡ (polling, []) =
      unfold handle in rw none_yet refl in
    let (asked, _) = waiting_round timer job polling refl in
    let ended = shown timer job v polling refl done in
    let last = ticks timer ∷ poll_answers (submission_poll timer job) v ∷ [] in
    let q = submission_poll timer job in
    let final = record p { submission_result = some v } in
    let told = asks submits job ∷ fetches_submissions ∷ [] in
    let settled : record polling { polls = []; is_running = false; submission_result = some v }
        ≡ final =
      ground arith in
    let tail : run last polling ≡ (final, told) =
      run-step (ticks timer) (poll_answers q v ∷ []) polling asked
      ∙ ap (λ r. (r.0, asks submits job ∷ r.1))
          (run-step (poll_answers q v) [] polling ended
            ∙ ap (λ r. (r, fetches_submissions ∷ [])) settled) in
    let middle : run (waiting n q ++ last) polling ≡ (final, asking n q ++ told) =
      run-waiting n timer job last polling refl ∙ ap (λ r. (r.0, asking n q ++ r.1)) tail in
    let second : run (post_answers submits job timer ∷ (waiting n q ++ last)) clicked
        ≡ (final, asking n q ++ told) =
      run-step (post_answers submits job timer) (waiting n q ++ last) clicked polled ∙ middle in
    run-step (clicks submits) (post_answers submits job timer ∷ (waiting n q ++ last)) p began
    ∙ ap (λ r. (r.0, posts submits p.code ∷ r.1)) second

abbrev pub repeat {ℓ} : {A : Type ℓ} → ℕ → A → List A
repeat zero a = []
repeat (suc n) a = a ∷ repeat n a

run-ticks :
    (n timer job : ℕ) (p : Page)
    → p.polls ≡ submission_poll timer job ∷ []
    → run (repeat n (ticks timer)) p ≡ (p, repeat n (asks submits job))
unfolding run
run-ticks zero timer job p e = refl
run-ticks (suc n) timer job p e =
    rw ((waiting_round timer job p e).0, run-ticks n timer job p e) refl

-- The interval of a submission is not held in the reference, so it goes on behind the end of the page:
-- every tick asks for the submission.
pub run-keeps_asking :
    (n timer job : ℕ) (p : Page)
    → p.polls ≡ []
    → p.poll_interval ≡ none
    → (run (post_answers submits job timer ∷ unmounts ∷ repeat n (ticks timer)) p).1
      ≡ repeat n (asks submits job)
unfolding run
run-keeps_asking n timer job p none_yet free =
    let polling = record p { polls = submission_poll timer job ∷ [] } in
    let both : handle unmounts (handle (post_answers submits job timer) p).0 ≡ (polling, []) =
      unfold handle in ground arith in
    rw (both, run-ticks n timer job polling refl) (unfold handle in refl)

clear-none :
    (timer : ℕ) (polls : List Poll)
    → any (λ q. q.timer == timer) polls ≡ false
    → clear timer polls ≡ polls
clear-none timer [] h = refl
clear-none timer (q ∷ polls) h = ground (arith, clear-none timer polls)

-- An answer that comes late, to a request that a submission's interval sent before it was cleared, unlocks
-- the buttons while another job is running: a second one can be posted beside it.
pub late_answer-unlocks :
    (a : Action) (timer job : ℕ) (v : Verdict) (p : Page)
    → any (λ q. q.timer == timer) p.polls ≡ false
    → is_pending v ≡ false
    → let (p', effects) = run (poll_answers (submission_poll timer job) v ∷ clicks a ∷ []) p in
      (p'.polls ≡ p.polls) × (effects ≡ fetches_submissions ∷ posts a p.code ∷ [])
unfolding run handle
late_answer-unlocks runs timer job v p h done = rw (done, clear-none timer p.polls h) (refl, refl)
late_answer-unlocks submits timer job v p h done =
    rw (done, clear-none timer p.polls h) (refl, refl)

run-edits :
    (a : Action) (code : ℕ) (written : List ℕ) (p : Page)
    → p.mounted_code ≡ some code
    → (run (map edits written ++ shortcut a ∷ []) p).1 ≡ posts a code ∷ []
unfolding run handle
run-edits runs code [] p e = rw e refl
run-edits submits code [] p e = rw e refl
run-edits a code (w ∷ written) p e = run-edits a code written (record p { code = w }) e

-- A shortcut posts the code that the editor held when it was mounted, whatever is written since, and also
-- while a job is running.
pub shortcut-posts_mounted :
    (a : Action) (written : List ℕ) (p : Page)
    → (run (editor_mounts ∷ (map edits written ++ shortcut a ∷ [])) p).1 ≡ posts a p.code ∷ []
unfolding run handle
shortcut-posts_mounted a written p =
    ap (λ r. r.1) (run-step editor_mounts (map edits written ++ shortcut a ∷ []) p mounting)
    ∙ run-edits a p.code written (record p { mounted_code = some p.code }) refl
  where
    mounting : handle editor_mounts p ≡ (record p { mounted_code = some p.code }, [])
    mounting = refl
