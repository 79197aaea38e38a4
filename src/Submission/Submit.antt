-- ===== src/Submission/Submit.antt =====
-- `submitSolution` and `runSolution`: who may, and what is stored.
use code_warzz.Submission.{Submission}
use code_warzz.Submission.Service.{
  Core, Encoding, Circumstances, SubmissionData, SubmitResult, submitted, forbidden, under_load,
  rolled_back, submit_solution, after_commit, store_submission, is_authorized, registered_in,
  submission_message, run_message, run_solution, queued,
}
use code_warzz.Outbox.{save_outbox_message}
use code_warzz.Prelude.{
  ℕ, ◌≡◌, refl, inl, inr, Bool, true, false, not, ◌&&◌, ◌||◌, Option, none, some, List, [], ◌∷◌,
  ◌++◌, arith, ◌==◌, if◌then◌else◌, Option-cases, is_some, get_or, length, any,
}

abbrev pub is_submitted : SubmitResult → Bool
is_submitted (submitted s) = true
is_submitted _ = false

-- the rows that a result leaves
abbrev pub rows_after : SubmitResult → List Submission → List Submission
rows_after (submitted s) rows = rows ++ s ∷ []
rows_after forbidden rows = rows
rows_after under_load rows = rows
rows_after rolled_back rows = rows

registered_in_lem :
    (is_registered : ℕ → ℕ → Bool) (user : ℕ) (contests : List ℕ)
    → registered_in is_registered user contests ≡ any (λ c. is_registered c user) contests
unfolding registered_in
registered_in_lem is_registered user [] = refl
registered_in_lem is_registered user (c ∷ contests) =
    ground (arith, registered_in_lem is_registered user contests)

-- registered for one of the contests
abbrev pub is_entrant : (ℕ → ℕ → Bool) → List ℕ → Option ℕ → Bool
is_entrant is_registered ongoing none = false
is_entrant is_registered ongoing (some user) = any (λ c. is_registered c user) ongoing

is_authorized_lem :
    (is_registered : ℕ → ℕ → Bool) (ongoing : List ℕ) (user : Option ℕ)
    → is_authorized is_registered ongoing user
      ≡ length ongoing == 0 || is_entrant is_registered ongoing user
unfolding is_authorized
is_authorized_lem is_registered [] user = refl
is_authorized_lem is_registered (c ∷ contests) none = ground arith
is_authorized_lem is_registered (c ∷ contests) (some user) =
    ground (arith, registered_in_lem is_registered user (c ∷ contests))

module _ (e : Encoding) (is_registered : ℕ → ℕ → Bool) (ongoing : List ℕ) (is_overloaded : Bool)
    (c : Circumstances) (d : SubmissionData) (db : Core) where
  abbrev after : Core × SubmitResult
  after = submit_solution e is_registered ongoing is_overloaded c d db

  -- A submission is taken exactly if no contest with the problem is on or its user is registered for
  -- one that is, the queue is not overloaded, the user is known and the transaction commits.
  pub submit_solution-submitted_iff :
      is_submitted after.1
      ≡ ((length ongoing == 0 || is_entrant is_registered ongoing d.user_id) && not is_overloaded)
        && (is_some d.user_id && c.commits)
  unfolding submit_solution
  submit_solution-submitted_iff =
      let who = is_authorized_lem is_registered ongoing d.user_id in
      elim (Option-cases d.user_id) [ inl u ↦ ground arith | inr (user, u) ↦ ground arith ]

  -- The submission and the message that queues it are stored together or not at all: a result other
  -- than `submitted` leaves both tables alone, and with it also the events, the activity, the
  -- solved counts and the run results.
  pub submit_solution-stores :
      (after.0.submissions ≡ rows_after after.1 db.submissions)
      × (after.0.outbox ≡ (
          if is_submitted after.1
          then save_outbox_message (submission_message e c d) c.fresh_outbox_id c.now db.outbox
          else db.outbox))
      × (after.0 ≡ (if is_submitted after.1 then after.0 else db))
  unfolding submit_solution after_commit store_submission
  submit_solution-stores = elim (Option-cases d.user_id) [
    | inl u ↦ (ground arith, ground arith, ground arith)
    | inr (user, u) ↦ (ground arith, ground arith, ground arith)
  ]

module _ (e : Encoding) (is_registered : ℕ → ℕ → Bool) (ongoing : List ℕ) (c : Circumstances)
    (d : SubmissionData) (db : Core) where
  abbrev after_run : Core × Option ℕ
  after_run = run_solution e is_registered ongoing c d db

  -- whether the message of the run is saved
  abbrev is_sent : Bool
  is_sent = (length ongoing == 0 || is_entrant is_registered ongoing d.user_id) && c.commits

  -- The message of a run is saved exactly if no contest with the problem is on or its user is
  -- registered for one that is, and the database takes it. The user gets an id exactly if then the
  -- result is stored in Redis, as queued under this id; every other run result and all
  -- submissions are as before.
  pub run_solution-queued :
      (is_some after_run.1 ≡ is_sent && c.run_saved)
      × ((job : ℕ)
          → after_run.0.run_results job ≡ (
              if is_some after_run.1 && job == get_or after_run.1 0
              then some queued
              else db.run_results job))
      × (after_run.0.submissions ≡ db.submissions)
      × (after_run.0.outbox ≡ (
          if is_sent
          then save_outbox_message (run_message e c d) c.fresh_outbox_id c.now db.outbox
          else db.outbox))
  unfolding run_solution
  run_solution-queued =
      let who = is_authorized_lem is_registered ongoing d.user_id in
      (ground arith, λ job. ground arith, ground arith, ground arith)
