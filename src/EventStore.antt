-- ===== src/EventStore.antt =====
-- core/src/service/eventStore.service.ts: versioned events, optimistic appends and replay.
-- An entity's table is the list of its rows, the newest insert first. The JSON objects are functions
-- from keys to values.
pub mod Versions
pub mod Append
pub mod Replay
mod Examples
use text.Mathlib.Text.{◌==◌ as str_eq}
use code_warzz.Prelude.{
  ℕ, zero, suc, ◌+◌, max, String, Bool, ◌&&◌, Option, none, some, List, [], ◌∷◌, ◌==◌,
  if◌then◌else◌, select, any, sort_by,
}

-- a JSON value: a text, or any other by its encoding
pub data Value : Type 0 where
  txt : String → Value
  other_value : ℕ → Value

abbrev pub EventPayload : Type 0
EventPayload = String → Option Value

abbrev pub empty_object : EventPayload
empty_object k = none

-- `{ ...state, ...payload }`
abbrev pub spread : EventPayload → EventPayload → EventPayload
spread state payload k = elim (payload k) [ none ↦ state k | some v ↦ some v ]

-- `{ ...state, status: s }`
abbrev pub with_status : String → EventPayload → EventPayload
with_status s state k = if str_eq k "status" then some (txt s) else state k

pub data EventType : Type 0 where
  submission_created submission_queued submission_evaluating submission_completed : EventType
  submission_flagged_plagiarism : EventType
  contest_created contest_started contest_ended contest_frozen : EventType
  user_created user_solved_problem user_registered_contest : EventType
  problem_created problem_updated problem_deprecated : EventType
  other : ℕ → EventType

-- `applyEvent`
unfoldable pub apply_event : EventPayload → EventType → EventPayload → EventPayload
apply_event state submission_created payload = with_status "CREATED" (spread state payload)
apply_event state submission_queued payload = with_status "QUEUED" state
apply_event state submission_evaluating payload = with_status "EVALUATING" state
apply_event state submission_completed payload = with_status "COMPLETED" (spread state payload)
apply_event state submission_flagged_plagiarism payload =
    with_status "FLAGGED" (spread state payload)
apply_event state contest_created payload = with_status "CREATED" (spread state payload)
apply_event state contest_started payload = with_status "ACTIVE" state
apply_event state contest_ended payload = with_status "ENDED" state
apply_event state contest_frozen payload = with_status "FROZEN" state
apply_event state user_created payload = spread state payload
apply_event state user_solved_problem payload = spread state payload
apply_event state user_registered_contest payload = spread state payload
apply_event state problem_created payload = with_status "ACTIVE" (spread state payload)
apply_event state problem_updated payload = spread state payload
apply_event state problem_deprecated payload = with_status "DEPRECATED" state
apply_event state (other t) payload = spread state payload

pub record EventRow : Type 0 where
  pub entity_id : ℕ
  pub event_type : EventType
  pub payload : EventPayload
  pub version : ℕ

-- `getLatestVersion`, and the read of `appendEvent`: the greatest version, 0 with no event
unfoldable pub get_latest_version : ℕ → List EventRow → ℕ
get_latest_version id [] = 0
get_latest_version id (r ∷ rows) =
    let rest = get_latest_version id rows in if r.entity_id == id then max r.version rest else rest

abbrev pub same_key : ℕ → ℕ → EventRow → Bool
same_key id version r = r.entity_id == id && r.version == version

-- the insert: `none` is a violation of the unique index on (entity id, version)
unfoldable pub insert_row : EventRow → List EventRow → Option (List EventRow)
insert_row row rows =
    if any (same_key row.entity_id row.version) rows then none else some (row ∷ rows)

pub data AppendResult : Type 0 where
  appended : ℕ → AppendResult
  stored_unpublished : ℕ → AppendResult  -- inserted, then `publishEvent` threw
  database_error : AppendResult
  collided : AppendResult  -- the unique violation of the last attempt is rethrown

-- What happens during one attempt: the rows that other writers insert between the read and the
-- insert, whether the insert itself goes through, and whether the event is published.
pub record Weather : Type 0 where
  pub rivals : List EventRow
  pub database_up : Bool
  pub publishes : Bool

-- another writer's event, stored under the next version of its entity
unfoldable pub rival_insert : EventRow → List EventRow → List EventRow
unfolding get_latest_version
rival_insert r rows = record r { version = get_latest_version r.entity_id rows + 1 } ∷ rows

unfoldable pub rival_inserts : List EventRow → List EventRow → List EventRow
unfolding rival_insert
rival_inserts [] rows = rows
rival_inserts (r ∷ rs) rows = rival_inserts rs (rival_insert r rows)

abbrev pub max_append_retries : ℕ
max_append_retries = 5

module _ (id : ℕ) (event_type : EventType) (payload : EventPayload) where
  abbrev pub new_row : ℕ → EventRow
  new_row version = record {
    entity_id = id;
    event_type = event_type;
    payload = payload;
    version = version;
  }

  -- one round of the loop; `none` is a unique violation
  unfoldable pub attempt_append : Weather → List EventRow → List EventRow × Option AppendResult
  unfolding get_latest_version insert_row rival_inserts
  attempt_append weather rows =
      let next = get_latest_version id rows + 1 in
      let now = rival_inserts weather.rivals rows in
      if weather.database_up
      then elim (insert_row (new_row next) now) [
        | none ↦ (now, none)
        | some stored ↦
            (stored, some (if weather.publishes then appended next else stored_unpublished next))
      ]
      else (now, some database_error)

  -- the rounds left, and the number of the next one
  unfoldable pub append_loop : ℕ → ℕ → (ℕ → Weather) → List EventRow → List EventRow × AppendResult
  append_loop zero attempt weather rows = (rows, collided)
  append_loop (suc left) attempt weather rows =
      let (rows', result) = attempt_append (weather attempt) rows in
      let retry = append_loop left (attempt + 1) weather rows' in
      elim result [ none ↦ retry | some r ↦ (rows', r) ]

  -- `appendEvent`
  unfoldable pub append_event : (ℕ → Weather) → List EventRow → List EventRow × AppendResult
  append_event = append_loop max_append_retries 1

-- `getEventStream`
unfoldable pub get_event_stream : ℕ → List EventRow → List EventRow
get_event_stream id rows = sort_by (λ r. r.version) (select (λ r. r.entity_id == id) rows)

-- the loop of `replayEvents`
unfoldable pub replay_from : EventPayload → List EventRow → EventPayload
unfolding apply_event
replay_from state [] = state
replay_from state (e ∷ es) = replay_from (apply_event state e.event_type e.payload) es

-- `none` is the error "No events found"
unfoldable pub replay_stream : List EventRow → Option EventPayload
unfolding replay_from
replay_stream [] = none
replay_stream (e ∷ es) = some (replay_from empty_object (e ∷ es))

-- `replayEvents`
unfoldable pub replay_events : ℕ → List EventRow → Option EventPayload
unfolding get_event_stream replay_stream
replay_events id rows = replay_stream (get_event_stream id rows)
