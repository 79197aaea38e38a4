-- ===== src/EventStore/Replay.antt =====
-- The stream of an entity's events, and the state that replaying them gives.
use mathlib.Core.Path.{ap₂}
use mathlib.Core.List.{append_assoc, append-nil, map-append}
use code_warzz.Prelude.{
  ℕ, zero, suc, ◌+◌, ◌≤◌, ◌<◌, ◌≡◌, refl, sym, ap, ◌∙◌, inl, inr, true, false, Option, some, List,
  [], ◌∷◌, ◌++◌, map, arith, ◌==◌, if◌then◌else◌, ==_refl, Bool-cases, get_or, select, All,
  insert_by, sort_onto,
}
use code_warzz.EventStore.{
  EventType, EventPayload, EventRow, get_latest_version, Weather, AppendResult, appended, new_row,
  apply_event, append_event, get_event_stream, replay_from, replay_stream, replay_events,
  empty_object, rival_inserts, rival_insert,
}
use code_warzz.EventStore.Versions.{
  latest-untouched, rival_inserts-WellVersioned, WellVersioned, touches,
}
use code_warzz.EventStore.Append.{attempt_stores, loop_done}

-- the entity's rows, oldest first
abbrev pub chronological : ℕ → List EventRow → List EventRow
chronological id [] = []
chronological id (r ∷ rows) =
    let rest = chronological id rows in if r.entity_id == id then rest ++ r ∷ [] else rest

insert_first :
    (r : EventRow) (acc : List EventRow)
    → All (λ y. r.version < y.version) acc
    → insert_by (λ x. x.version) r acc ≡ r ∷ acc
insert_first r [] h = refl
insert_first r (y ∷ acc) (p, h) = ground arith

All-weaken :
    (a b : ℕ) (acc : List EventRow)
    → a ≤ b
    → All (λ y. b < y.version) acc
    → All (λ y. a < y.version) acc
All-weaken a b [] le h = tt
All-weaken a b (y ∷ acc) le (p, h) = (omega arith, All-weaken a b acc le h)

-- 1, 2, …, n
abbrev pub upto : ℕ → List ℕ
upto zero = []
upto (suc n) = upto n ++ suc n ∷ []

module _ (id : ℕ) where
  latest_hit :
      (r : EventRow) (rows : List EventRow)
      → r.entity_id == id ≡ true
      → r.version ≡ get_latest_version r.entity_id rows + 1
      → (get_latest_version id (r ∷ rows) ≡ r.version) × (get_latest_version id rows < r.version)
  unfolding get_latest_version
  latest_hit r rows e v = ground arith

  latest_miss :
      (r : EventRow) (rows : List EventRow)
      → r.entity_id == id ≡ false
      → get_latest_version id (r ∷ rows) ≡ get_latest_version id rows
  unfolding get_latest_version
  latest_miss r rows e = rw e

  stream_onto :
      (rows acc : List EventRow)
      → WellVersioned rows
      → All (λ y. get_latest_version id rows < y.version) acc
      → sort_onto (λ x. x.version) acc (select (λ r. r.entity_id == id) rows)
        ≡ chronological id rows ++ acc
  stream_onto [] acc h a = refl
  stream_onto (r ∷ rows) acc (v, h) a = elim (Bool-cases (r.entity_id == id)) [
    | inl e ↦
        let (same, below) = latest_hit r rows e v in
        let a' : All (λ y. r.version < y.version) acc = rw same at a in
        rw e (
          ap (λ l. sort_onto (λ x. x.version) l (select (λ x. x.entity_id == id) rows))
            (insert_first r acc a')
          ∙ stream_onto rows (r ∷ acc) h
              (below, All-weaken (get_latest_version id rows) r.version acc (omega arith) a')
          ∙ sym (append_assoc (chronological id rows) (r ∷ []) acc))
    | inr e ↦ rw e (stream_onto rows acc h (rw (latest_miss r rows e) at a))
  ]

  -- On a well-versioned table the stream of an entity is its rows in the order of their insertion.
  pub get_event_stream-chronological :
      (rows : List EventRow) → WellVersioned rows → get_event_stream id rows ≡ chronological id rows
  unfolding get_event_stream
  get_event_stream-chronological rows h =
      stream_onto rows [] h tt ∙ append-nil (chronological id rows)

  latest-suc :
      (r : EventRow) (rows : List EventRow)
      → r.entity_id == id ≡ true
      → r.version ≡ get_latest_version r.entity_id rows + 1
      → (r.version ≡ suc (get_latest_version id rows))
        × (get_latest_version id (r ∷ rows) ≡ suc (get_latest_version id rows))
  unfolding get_latest_version
  latest-suc r rows e v = ground arith

  versions_upto :
      (rows : List EventRow)
      → WellVersioned rows
      → map (λ r. r.version) (chronological id rows) ≡ upto (get_latest_version id rows)
  versions_upto [] h = unfold get_latest_version in refl
  versions_upto (r ∷ rows) (v, h) = elim (Bool-cases (r.entity_id == id)) [
    | inl e ↦
        let (mine, all) = latest-suc r rows e v in
        rw e (
          map-append (λ r. r.version) (chronological id rows) (r ∷ [])
          ∙ ap₂ (λ l (n : ℕ). l ++ n ∷ []) (versions_upto rows h) mine
          ∙ ap upto (sym all))
    | inr e ↦ rw (e, latest_miss r rows e) (versions_upto rows h)
  ]

  -- On a well-versioned table the stream of an entity carries the versions 1, 2, …, up to the latest.
  pub get_event_stream-versions :
      (rows : List EventRow)
      → WellVersioned rows
      → map (λ r. r.version) (get_event_stream id rows) ≡ upto (get_latest_version id rows)
  get_event_stream-versions rows h =
      rw (get_event_stream-chronological rows h) (versions_upto rows h)

replay_from-append :
    (state : EventPayload) (es : List EventRow) (r : EventRow)
    → replay_from state (es ++ r ∷ []) ≡ apply_event (replay_from state es) r.event_type r.payload
unfolding replay_from
replay_from-append state [] r = refl
replay_from-append state (e ∷ es) r =
    replay_from-append (apply_event state e.event_type e.payload) es r

replay_stream-append :
    (es : List EventRow) (r : EventRow)
    → replay_stream (es ++ r ∷ [])
      ≡ some (apply_event (get_or (replay_stream es) empty_object) r.event_type r.payload)
unfolding replay_stream replay_from
replay_stream-append [] r = refl
replay_stream-append (e ∷ es) r = ap some (replay_from-append empty_object (e ∷ es) r)

replay_events-chronological :
    (id : ℕ) (rows : List EventRow)
    → WellVersioned rows
    → replay_events id rows ≡ replay_stream (chronological id rows)
unfolding replay_events
replay_events-chronological id rows h = ap replay_stream (get_event_stream-chronological id rows h)

replay_newest :
    (id : ℕ) (r : EventRow) (rows : List EventRow)
    → r.entity_id == id ≡ true
    → WellVersioned (r ∷ rows)
    → replay_events id (r ∷ rows)
      ≡ some (
          apply_event
            (get_or (replay_stream (chronological id rows)) empty_object)
            r.event_type
            r.payload)
replay_newest id r rows mine h =
    replay_events-chronological id (r ∷ rows) h
    ∙ rw mine (replay_stream-append (chronological id rows) r)

module _ (id : ℕ) (event_type : EventType) (payload : EventPayload) where
  calm_append :
      (weather : ℕ → Weather) (rows : List EventRow)
      → (weather 1).database_up ≡ true
      → (weather 1).publishes ≡ true
      → touches id (weather 1).rivals ≡ false
      → append_event id event_type payload weather rows ≡ (
        new_row id event_type payload (get_latest_version id rows + 1)
            ∷ rival_inserts (weather 1).rivals rows,
        appended (get_latest_version id rows + 1),
      )
  unfolding append_event
  calm_append weather rows up pub' t =
      let next = get_latest_version id rows + 1 in
      let stored = attempt_stores id event_type payload (weather 1) rows up t in
      loop_done id event_type payload 4 1 weather rows (appended next)
        (ap (λ (q : List EventRow × Option AppendResult). q.1) stored ∙ rw pub')
      ∙ ap (λ (q : List EventRow × Option AppendResult). (q.0, appended next)) stored

  untouched_parts :
      (r : EventRow) (rs : List EventRow)
      → touches id (r ∷ rs) ≡ false
      → (r.entity_id == id ≡ false) × (touches id rs ≡ false)
  untouched_parts r rs t = (ground arith, ground arith)

  chronological-untouched :
      (rivals rows : List EventRow)
      → touches id rivals ≡ false
      → chronological id (rival_inserts rivals rows) ≡ chronological id rows
  unfolding rival_inserts rival_insert
  chronological-untouched [] rows t = refl
  chronological-untouched (r ∷ rs) rows t =
      let (other, later) = untouched_parts r rs t in
      chronological-untouched rs (rival_insert r rows) later ∙ rw other

  -- An append whose first round meets no writer of the same entity, a database that is up and a
  -- broker that takes the event, stores it under the next version; replaying the entity afterwards
  -- gives what the event makes of the state replayed before (the empty object with no event).
  pub append_event-replay :
      (weather : ℕ → Weather) (rows : List EventRow)
      → WellVersioned rows
      → (weather 1).database_up ≡ true
      → (weather 1).publishes ≡ true
      → touches id (weather 1).rivals ≡ false
      → ((append_event id event_type payload weather rows).1
          ≡ appended (get_latest_version id rows + 1))
        × (replay_events id (append_event id event_type payload weather rows).0
            ≡ some (apply_event (get_or (replay_events id rows) empty_object) event_type payload))
  append_event-replay weather rows h up sent t =
      let next = get_latest_version id rows + 1 in
      let others = rival_inserts (weather 1).rivals rows in
      rw (calm_append weather rows up sent t) (
        refl,
        replay_newest id (new_row id event_type payload next) others (==_refl id) (
          omega (arith, latest-untouched id (weather 1).rivals rows t),
          rival_inserts-WellVersioned (weather 1).rivals rows h,
        )
            ∙ ap
                (λ l. some (apply_event (get_or (replay_stream l) empty_object) event_type payload))
                (chronological-untouched (weather 1).rivals rows t)
            ∙ sym (
                ap (λ o. some (apply_event (get_or o empty_object) event_type payload))
                  (replay_events-chronological id rows h)),
      )
