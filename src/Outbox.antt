-- ===== src/Outbox.antt =====
-- core/src/service/outbox.service.ts: the transactional outbox and its relay.
-- The table is the list of its rows, without `publishedAt` and `updatedAt`, which nothing reads;
-- texts and JSON values are numbers that stand for them. Whether `publishToExchange` returns, and whether
-- PostgreSQL accepts the array of ids as the driver passes it, are arguments.
pub mod Batch
pub mod Claims
pub mod Untouched
mod Examples
use code_warzz.Prelude.{
  ℕ, ◌+◌, Bool, true, false, not, ◌&&◌, Option, none, some, List, [], ◌∷◌, ◌++◌, map, leb, ◌==◌,
  if◌then◌else◌, length, take, select, contains, sort_by,
}

pub data Status : Type 0 where
  pending in_flight published failed : Status

pub record OutboxRow : Type 0 where
  pub id : ℕ
  pub aggregate_type : ℕ
  pub aggregate_id : ℕ
  pub event_type : ℕ
  pub exchange : ℕ
  pub routing_key : ℕ
  pub payload : ℕ
  pub status : Status
  pub attempts : ℕ
  pub max_attempts : ℕ
  pub created_at : ℕ

abbrev pub is_status : Status → Status → Bool
is_status pending pending = true
is_status in_flight in_flight = true
is_status published published = true
is_status failed failed = true
is_status _ _ = false

-- the message that a caller saves
pub record OutboxMessage : Type 0 where
  pub aggregate_type : ℕ
  pub aggregate_id : ℕ
  pub event_type : ℕ
  pub exchange : ℕ
  pub routing_key : ℕ
  pub payload : ℕ
  pub max_attempts : Option ℕ

-- `message.maxAttempts || 3`: 3 where it is absent or 0
abbrev pub attempts_or_default : Option ℕ → ℕ
attempts_or_default none = 3
attempts_or_default (some n) = if n == 0 then 3 else n

-- `saveOutboxMessage`: the database gives the id and the time
unfoldable pub save_outbox_message : OutboxMessage → ℕ → ℕ → List OutboxRow → List OutboxRow
save_outbox_message m id now rows =
    rows
    ++ record {
      id = id;
      aggregate_type = m.aggregate_type;
      aggregate_id = m.aggregate_id;
      event_type = m.event_type;
      exchange = m.exchange;
      routing_key = m.routing_key;
      payload = m.payload;
      status = pending;
      attempts = 0;
      max_attempts = attempts_or_default m.max_attempts;
      created_at = now;
    }
      ∷ []

-- `update … set … where id = …`
unfoldable pub update_where : ℕ → (OutboxRow → OutboxRow) → List OutboxRow → List OutboxRow
update_where id g [] = []
update_where id g (r ∷ rows) =
    let rest = update_where id g rows in (if r.id == id then g r else r) ∷ rest

abbrev pub is_due : (ℕ → Bool) → OutboxRow → Bool
is_due locked r = is_status r.status pending && leb r.attempts r.max_attempts && not (locked r.id)

-- the rows that the batch claims: due, not locked by another transaction, oldest first
unfoldable pub claim : (ℕ → Bool) → ℕ → List OutboxRow → List OutboxRow
claim locked batch_size rows =
    take batch_size (sort_by (λ r. r.created_at) (select (is_due locked) rows))

abbrev pub ids : List OutboxRow → List ℕ
ids = map (λ r. r.id)

-- `update … set status = IN_FLIGHT where id = ANY(ids)`
unfoldable pub mark_in_flight : List ℕ → List OutboxRow → List OutboxRow
mark_in_flight claimed [] = []
mark_in_flight claimed (r ∷ rows) =
    let rest = mark_in_flight claimed rows in
    (if contains r.id claimed then record r { status = in_flight } else r) ∷ rest

-- the update after one message; `ok` says whether it was published
unfoldable pub settle : Bool → OutboxRow → OutboxRow → OutboxRow
settle ok msg row =
    if ok
    then record row { status = published }
    else if leb msg.max_attempts (msg.attempts + 1)
    then record row { status = failed; attempts = msg.attempts + 1 }
    else record row { status = pending; attempts = msg.attempts + 1 }

-- the loop: the rows, the number published, and the ids handed to the broker, in order
unfoldable pub relay :
    (ℕ → Bool) → List OutboxRow → List OutboxRow → ℕ → List ℕ → List OutboxRow × ℕ × List ℕ
unfolding settle update_where
relay publishes [] rows processed sent = (rows, processed, sent)
relay publishes (msg ∷ msgs) rows processed sent =
    let ok = publishes msg.id in
    relay publishes msgs (update_where msg.id (settle ok msg) rows)
      (if ok then processed + 1 else processed) (if ok then sent ++ msg.id ∷ [] else sent)

-- what the transaction does with the rows that it claimed: the table, the number that it returns,
-- `none` where it throws, and what was handed to the broker. `accepts` says whether the database runs
-- the update of the claimed rows, `= ANY(…)`; if not, the transaction is rolled back.
unfoldable pub process_claimed :
    (List ℕ → Bool)
    → (ℕ → Bool)
    → List OutboxRow
    → List OutboxRow
    → List OutboxRow × Option ℕ × List ℕ
unfolding mark_in_flight relay
process_claimed accepts publishes [] rows = (rows, some 0, [])
process_claimed accepts publishes (m ∷ ms) rows =
    let (rows', processed, sent) =
      relay publishes (m ∷ ms) (mark_in_flight (ids (m ∷ ms)) rows) 0 [] in
    if accepts (ids (m ∷ ms)) then (rows', some processed, sent) else (rows, none, [])

-- `processOutboxBatch`
unfoldable pub process_outbox_batch :
    (List ℕ → Bool)
    → (ℕ → Bool)
    → (ℕ → Bool)
    → ℕ
    → List OutboxRow
    → List OutboxRow × Option ℕ × List ℕ
unfolding claim process_claimed
process_outbox_batch accepts locked publishes batch_size rows =
    process_claimed accepts publishes (claim locked batch_size rows) rows

pub record OutboxStats : Type 0 where
  pub pending_count : ℕ
  pub failed_count : ℕ
  pub published_count : ℕ
  pub in_flight_count : ℕ

-- `count(*) where status = …`
unfoldable pub count_status : Status → List OutboxRow → ℕ
count_status s rows = length (select (λ r. is_status r.status s) rows)

-- `getOutboxStats`
unfoldable pub get_outbox_stats : List OutboxRow → OutboxStats
unfolding count_status
get_outbox_stats rows = record {
  pending_count = count_status pending rows;
  failed_count = count_status failed rows;
  published_count = count_status published rows;
  in_flight_count = count_status in_flight rows;
}
