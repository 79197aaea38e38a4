-- ===== src/Submission/Update.antt =====
-- `updateSubmission`: the row, the solved count and the event.
use code_warzz.Submission.{
  Verdict, Submission, is_solve, get_best_submission, get_submission_by_id, update_rows,
  apply_update, SubmissionUpdate, is_ac, pending,
}
use code_warzz.Submission.Service.{Core, Encoding, update_submission, count_solve}
use code_warzz.EventStore.{
  EventRow, AppendResult, rival_inserts, submission_completed, Weather, append_event, appended,
  stored_unpublished, get_latest_version, new_row,
}
use code_warzz.EventStore.Versions.{touches}
use code_warzz.EventStore.Append.{attempt_stores, loop_done}
use code_warzz.Prelude.{
  ℕ, ◌+◌, ◌<◌, ◌≡◌, refl, sym, ap, ◌∙◌, inl, inr, true, false, ◌&&◌, Option, none, some, List, [],
  ◌∷◌, arith, ◌==◌, if◌then◌else◌, ==_refl, Bool-cases, Option-cases, is_some, get_or, length,
}
use code_warzz.Submission.Best.{solves, get_best_submission-none_iff}

self_solves : (s : Submission) → is_ac s.verdict ≡ true → is_solve s.user_id s.problem_id s ≡ true
self_solves s v = rw (==_refl s.user_id, ==_refl s.problem_id, v)

head_solves :
    (rows rest : List Submission) (s : Submission)
    → rows ≡ s ∷ rest
    → is_ac s.verdict ≡ true
    → 0 < length (solves s.user_id s.problem_id rows)
head_solves rows rest s e v = rw (e, self_solves s v) (omega arith)

given_ac :
    (o : Option Verdict) (v : Verdict) → is_ac (get_or o pending) ≡ true → is_ac (get_or o v) ≡ true
given_ac none v h = absurd cc
given_ac (some w) v h = h

-- The row that was just set to `AC` is a solve of its user.
found_solves :
    (id : ℕ) (d : SubmissionUpdate) (rows : List Submission) (s : Submission)
    → is_ac (get_or d.verdict pending) ≡ true
    → get_submission_by_id id (update_rows id d rows) ≡ some s
    → 0 < length (solves s.user_id s.problem_id (update_rows id d rows))
unfolding get_submission_by_id update_rows
found_solves id d [] s v h = absurd cc
found_solves id d (r ∷ rows) s v h = elim (Bool-cases (r.id == id)) [
  | inl e ↦
      let found : get_submission_by_id id (update_rows id d (r ∷ rows)) ≡ some (apply_update d r) =
        rw (e, e) in
      let same : apply_update d r ≡ s = cc in
      let accepted : is_ac s.verdict ≡ true = rw (sym same) (given_ac d.verdict r.verdict v) in
      head_solves (update_rows id d (r ∷ rows)) (update_rows id d rows) s (rw (e, same) refl)
        accepted
  | inr e ↦ let later = found_solves id d rows s v (rw (e, e) at h) in rw e (ground (arith, later))
]

count_solve_same :
    (id : ℕ) (d : SubmissionUpdate) (rows : List Submission) (counts : ℕ → ℕ)
    → count_solve id d (update_rows id d rows) counts ≡ counts
unfolding count_solve
count_solve_same id d rows counts = elim (Bool-cases (is_ac (get_or d.verdict pending))) [
  | inr e ↦ rw e
  | inl e ↦ elim (Option-cases (get_submission_by_id id (update_rows id d rows))) [
    | inl n ↦ rw (e, n)
    | inr (s, f) ↦
        let solved = found_solves id d rows s e f in
        elim (Option-cases (get_best_submission s.user_id s.problem_id (update_rows id d rows))) [
          | inl n ↦ absurd (
              omega (
                arith,
                (get_best_submission-none_iff s.user_id s.problem_id (update_rows id d rows)).0 n,
              ))
          | inr (best, b) ↦ rw (e, f, b)
        ]
  ]
]

-- What a row is after the update.
abbrev pub updated_option : SubmissionUpdate → Option Submission → Option Submission
updated_option d none = none
updated_option d (some s) = some (apply_update d s)

find-update_rows :
    (id other : ℕ) (d : SubmissionUpdate) (rows : List Submission)
    → get_submission_by_id other (update_rows id d rows) ≡ (
        if other == id
        then updated_option d (get_submission_by_id other rows)
        else get_submission_by_id other rows)
unfolding get_submission_by_id update_rows
find-update_rows id other d [] = ground arith
find-update_rows id other d (r ∷ rows) = ground (arith, find-update_rows id other d rows)

module _ (e : Encoding) (id : ℕ) (d : SubmissionUpdate) (appends : ℕ → Weather) (db : Core) where
  abbrev after : Core × Option (Option Submission)
  after = update_submission e id d appends db

  -- No update ever changes a solved count: the row is set to `AC` before the best submission is
  -- looked up, so the user always has one and the count is never incremented.
  pub update_submission-solved_count : after.0.solved_count ≡ db.solved_count
  unfolding update_submission
  update_submission-solved_count =
      ground (arith, count_solve_same id d db.submissions db.solved_count)

  -- An update that returns has set the fields that it names in the row with its id and left every
  -- other row alone; one that throws has changed no row. It returns the row.
  pub update_submission-rows :
      (other : ℕ)
      → (get_submission_by_id other after.0.submissions ≡ (
          if is_some after.1 && other == id
          then updated_option d (get_submission_by_id other db.submissions)
          else get_submission_by_id other db.submissions))
        × (get_or after.1 none
            ≡ (if is_some after.1 then get_submission_by_id id after.0.submissions else none))
  unfolding update_submission
  update_submission-rows other =
      (ground (arith, find-update_rows id other d db.submissions), ground arith)

  -- If the event of a verdict is stored in the first attempt, without another writer of the
  -- submission's events in between, but its publication fails, then the update throws, its row is
  -- rolled back, and the completion event stays in the store.
  pub update_submission-event_survives :
      is_some d.verdict ≡ true
      → (appends 1).database_up ≡ true
      → (appends 1).publishes ≡ false
      → touches id (appends 1).rivals ≡ false
      → (after.1 ≡ none)
        × (after.0.submissions ≡ db.submissions)
        × (after.0.events
            ≡ new_row id submission_completed
                (e.completed_payload d)
                (get_latest_version id db.events + 1)
              ∷ rival_inserts (appends 1).rivals db.events)
  unfolding update_submission append_event
  update_submission-event_survives given up refused alone =
      let payload = e.completed_payload d in
      let next = get_latest_version id db.events + 1 in
      let stored = attempt_stores id submission_completed payload (appends 1) db.events up alone in
      let result =
        loop_done id submission_completed payload 4 1 appends db.events (stored_unpublished next)
          (ap (λ (q : List EventRow × Option AppendResult). q.1) stored ∙ rw refused refl) in
      rw (given, result, stored) (refl, refl, refl)

  -- If the event of a verdict is stored and published in the first attempt, without another writer of
  -- the submission's events in between, then the update returns the row with the fields set.
  pub update_submission-returns :
      (s : Submission)
      → get_submission_by_id id db.submissions ≡ some s
      → is_some d.verdict ≡ true
      → (appends 1).database_up ≡ true
      → (appends 1).publishes ≡ true
      → touches id (appends 1).rivals ≡ false
      → (after.1 ≡ some (some (apply_update d s)))
        × (get_submission_by_id id after.0.submissions ≡ some (apply_update d s))
  unfolding update_submission append_event
  update_submission-returns s stored_row given up works alone =
      let payload = e.completed_payload d in
      let next = get_latest_version id db.events + 1 in
      let stored = attempt_stores id submission_completed payload (appends 1) db.events up alone in
      let result =
        loop_done id submission_completed payload 4 1 appends db.events (appended next)
          (ap (λ (q : List EventRow × Option AppendResult). q.1) stored ∙ rw works refl) in
      let found : get_submission_by_id id (update_rows id d db.submissions)
          ≡ some (apply_update d s) =
        find-update_rows id id d db.submissions ∙ rw (==_refl id, stored_row) refl in
      rw (given, result, found) (refl, refl)
