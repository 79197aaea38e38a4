-- ===== src/EventStore/Append.antt =====
-- `appendEvent` among other writers to the same tables.
use code_warzz.Prelude.{
  ℕ, zero, suc, ◌+◌, ◌≤◌, ◌<◌, ◌≡◌, refl, sym, ap, ◌∙◌, ◌≢◌, ◌↔◌, inl, inr, true, false, none, some,
  List, ◌∷◌, arith, if◌then◌else◌, Bool-cases, Option-cases,
}
use code_warzz.EventStore.{
  EventType, EventPayload, EventRow, get_latest_version, insert_row, AppendResult, appended,
  stored_unpublished, database_error, collided, Weather, rival_inserts, new_row, attempt_append,
  append_loop, append_event, max_append_retries,
}
use code_warzz.EventStore.Versions.{
  WellVersioned, any-same_key, any-same_key_above, rival_inserts-WellVersioned, latest-untouched,
  latest-touched, touches,
}

module _ (id : ℕ) (event_type : EventType) (payload : EventPayload) where
  insert_taken :
      (v : ℕ) (rows : List EventRow)
      → WellVersioned rows
      → 0 < v
      → v ≤ get_latest_version id rows
      → insert_row (new_row id event_type payload v) rows ≡ none
  unfolding insert_row
  insert_taken v rows h pos le = rw (any-same_key id v rows h pos le)

  insert_free :
      (v : ℕ) (rows : List EventRow)
      → get_latest_version id rows < v
      → insert_row (new_row id event_type payload v) rows
        ≡ some (new_row id event_type payload v ∷ rows)
  unfolding insert_row
  insert_free v rows lt = rw (any-same_key_above id v rows lt)

  -- A round ends in a unique violation exactly if the database is up and a rival wrote to the entity.
  attempt_violates :
      (w : Weather) (rows : List EventRow)
      → WellVersioned rows
      → w.database_up ≡ true
      → touches id w.rivals ≡ true
      → attempt_append id event_type payload w rows ≡ (rival_inserts w.rivals rows, none)
  unfolding attempt_append
  attempt_violates w rows h up t = rw (
    up,
    insert_taken (get_latest_version id rows + 1) (rival_inserts w.rivals rows)
        (rival_inserts-WellVersioned w.rivals rows h) (omega arith)
        (omega (arith, latest-touched id w.rivals rows t)),
  )

  pub attempt_stores :
      (w : Weather) (rows : List EventRow)
      → w.database_up ≡ true
      → touches id w.rivals ≡ false
      → let next = get_latest_version id rows + 1 in
        attempt_append id event_type payload w rows ≡ (
          new_row id event_type payload next ∷ rival_inserts w.rivals rows,
          some (if w.publishes then appended next else stored_unpublished next),
        )
  unfolding attempt_append
  attempt_stores w rows up t = rw (
    up,
    insert_free (get_latest_version id rows + 1) (rival_inserts w.rivals rows)
        (omega (arith, latest-untouched id w.rivals rows t)),
  )

  attempt_down :
      (w : Weather) (rows : List EventRow)
      → w.database_up ≡ false
      → attempt_append id event_type payload w rows
        ≡ (rival_inserts w.rivals rows, some database_error)
  unfolding attempt_append
  attempt_down w rows down = rw down

  attempt-WellVersioned :
      (w : Weather) (rows : List EventRow)
      → WellVersioned rows
      → WellVersioned (attempt_append id event_type payload w rows).0
  attempt-WellVersioned w rows h = elim (Bool-cases w.database_up) [
    | inl up ↦ elim (Bool-cases (touches id w.rivals)) [
      | inl t ↦ rw (attempt_violates w rows h up t) (rival_inserts-WellVersioned w.rivals rows h)
      | inr t ↦ rw (attempt_stores w rows up t) (
        omega (arith, latest-untouched id w.rivals rows t),
        rival_inserts-WellVersioned w.rivals rows h,
      )
    ]
    | inr down ↦ rw (attempt_down w rows down) (rival_inserts-WellVersioned w.rivals rows h)
  ]

  loop_again :
      (left attempt : ℕ) (weather : ℕ → Weather) (rows : List EventRow)
      → (attempt_append id event_type payload (weather attempt) rows).1 ≡ none
      → append_loop id event_type payload (suc left) attempt weather rows
        ≡ append_loop id event_type payload left
            (attempt + 1)
            weather
            (attempt_append id event_type payload (weather attempt) rows).0
  unfolding append_loop
  loop_again left attempt weather rows e = rw (e, append_loop)

  pub loop_done :
      (left attempt : ℕ) (weather : ℕ → Weather) (rows : List EventRow) (r : AppendResult)
      → (attempt_append id event_type payload (weather attempt) rows).1 ≡ some r
      → append_loop id event_type payload (suc left) attempt weather rows
        ≡ ((attempt_append id event_type payload (weather attempt) rows).0, r)
  unfolding append_loop
  loop_done left attempt weather rows r e = rw (e, append_loop)

  append_loop-WellVersioned :
      (left attempt : ℕ) (weather : ℕ → Weather) (rows : List EventRow)
      → WellVersioned rows
      → WellVersioned (append_loop id event_type payload left attempt weather rows).0
  append_loop-WellVersioned zero attempt weather rows h = unfold append_loop in h
  append_loop-WellVersioned (suc left) attempt weather rows h =
      elim (Option-cases (attempt_append id event_type payload (weather attempt) rows).1) [
        | inl e ↦ rw (loop_again left attempt weather rows e) (
            append_loop-WellVersioned left (attempt + 1) weather
              (attempt_append id event_type payload (weather attempt) rows).0
              (attempt-WellVersioned (weather attempt) rows h))
        | inr (r, e) ↦
            rw (loop_done left attempt weather rows r e)
              (attempt-WellVersioned (weather attempt) rows h)
      ]

  -- Whatever the other writers do between its reads and its inserts, `appendEvent` leaves every
  -- entity's versions gapless and without repetition.
  pub append_event-WellVersioned :
      (weather : ℕ → Weather) (rows : List EventRow)
      → WellVersioned rows
      → WellVersioned (append_event id event_type payload weather rows).0
  unfolding append_event
  append_event-WellVersioned weather rows h =
      append_loop-WellVersioned max_append_retries 1 weather rows h

  -- Rounds `attempt`, …, `attempt + left - 1` all lose the race.
  abbrev pub AllLost : ℕ → ℕ → (ℕ → Weather) → Type 0
  AllLost zero attempt weather = Unit
  AllLost (suc left) attempt weather =
      ((weather attempt).database_up ≡ true)
      × (touches id (weather attempt).rivals ≡ true)
      × AllLost left (attempt + 1) weather

  attempt_none :
      (w : Weather) (rows : List EventRow)
      → WellVersioned rows
      → ((attempt_append id event_type payload w rows).1 ≡ none)
        ↔ ((w.database_up ≡ true) × (touches id w.rivals ≡ true))
  attempt_none w rows h =
      ground (arith, attempt_violates w rows h, attempt_stores w rows, attempt_down w rows)

  never_collided :
      (w : Weather) (rows : List EventRow)
      → WellVersioned rows
      → (attempt_append id event_type payload w rows).1 ≢ some collided
  never_collided w rows h =
      ground (arith, attempt_violates w rows h, attempt_stores w rows, attempt_down w rows)

  append_loop-collided_iff :
      (left attempt : ℕ) (weather : ℕ → Weather) (rows : List EventRow)
      → WellVersioned rows
      → ((append_loop id event_type payload left attempt weather rows).1 ≡ collided)
        ↔ AllLost left attempt weather
  unfolding append_loop
  append_loop-collided_iff zero attempt weather rows h = (λ e. tt, λ l. refl)
  append_loop-collided_iff (suc left) attempt weather rows h =
      elim (Option-cases (attempt_append id event_type payload (weather attempt) rows).1) [
        | inl e ↦
            let (up, lost) = (attempt_none (weather attempt) rows h).0 e in
            let (to, from) =
              append_loop-collided_iff left (attempt + 1) weather
                (attempt_append id event_type payload (weather attempt) rows).0
                (attempt-WellVersioned (weather attempt) rows h) in
            rw (loop_again left attempt weather rows e) (λ c. (up, lost, to c), λ l. from l.2)
        | inr (r, e) ↦ rw (loop_done left attempt weather rows r e) (
          λ c. absurd (never_collided (weather attempt) rows h (e ∙ ap some c)),
          λ l. cc (sym e ∙ (attempt_none (weather attempt) rows h).1 (l.0, l.1)),
        )
      ]

  -- On a well-versioned table `appendEvent` gives up with a unique violation exactly when in each of
  -- its five rounds another writer stores an event of the same entity between the read and the insert.
  pub append_event-collided_iff :
      (weather : ℕ → Weather) (rows : List EventRow)
      → WellVersioned rows
      → ((append_event id event_type payload weather rows).1 ≡ collided) ↔ AllLost 5 1 weather
  unfolding append_event
  append_event-collided_iff weather rows h = append_loop-collided_iff 5 1 weather rows h
