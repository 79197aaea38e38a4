-- ===== src/Outbox/Batch.antt =====
-- What one batch of the relay hands to the broker.
use mathlib.Core.List.{append_assoc, append-nil}
use code_warzz.Prelude.{
  ℕ, ◌+◌, ◌≡◌, refl, sym, ap, ◌∙◌, ◌≢◌, inl, inr, Bool, true, false, List, [], ◌∷◌, ◌++◌, arith,
  Bool-cases, length, select, ◌||◌, ◌⊎◌, Option, none, some, All, contains,
}
use code_warzz.Outbox.Claims.{Picks, claim-Picks}
use code_warzz.Outbox.{
  in_flight, OutboxRow, update_where, claim, ids, mark_in_flight, settle, relay, process_claimed,
  process_outbox_batch,
}

abbrev pub is_nil : List OutboxRow → Bool
is_nil [] = true
is_nil (m ∷ msgs) = false

-- A row is in flight only while it waits for one of `msgs`.
abbrev Waits : List OutboxRow → OutboxRow → Type 0
Waits msgs r = r.status ≡ in_flight → contains r.id (ids msgs) ≡ true

settle_not-in_flight : (ok : Bool) (msg r : OutboxRow) → (settle ok msg r).status ≢ in_flight
unfolding settle
settle_not-in_flight ok msg r = ground arith

mark-Waits :
    (msgs rows : List OutboxRow)
    → All (λ r. r.status ≢ in_flight) rows
    → All (Waits msgs) (mark_in_flight (ids msgs) rows)
unfolding mark_in_flight
mark-Waits msgs [] h = tt
mark-Waits msgs (r ∷ rows) (p, h) = (ground arith, mark-Waits msgs rows h)

update-Waits :
    (ok : Bool) (msg : OutboxRow) (msgs rows : List OutboxRow)
    → All (Waits (msg ∷ msgs)) rows
    → All (Waits msgs) (update_where msg.id (settle ok msg) rows)
unfolding update_where
update-Waits ok msg msgs [] h = tt
update-Waits ok msg msgs (r ∷ rows) (p, h) =
    (ground (arith, settle_not-in_flight ok msg r), update-Waits ok msg msgs rows h)

Waits-nothing : (rows : List OutboxRow) → All (Waits []) rows → All (λ r. r.status ≢ in_flight) rows
Waits-nothing [] h = tt
Waits-nothing (r ∷ rows) (p, h) = (λ e. cc (p e), Waits-nothing rows h)

relay-settles :
    (publishes : ℕ → Bool) (msgs rows : List OutboxRow) (n : ℕ) (sent : List ℕ)
    → All (Waits msgs) rows
    → All (λ r. r.status ≢ in_flight) (relay publishes msgs rows n sent).0
unfolding relay
relay-settles publishes [] rows n sent h = Waits-nothing rows h
relay-settles publishes (m ∷ msgs) rows n sent h =
    relay-settles publishes msgs _ _ _ (update-Waits (publishes m.id) m msgs rows h)

-- If no row is in flight before a batch, none is after it: whatever the broker answers, every row
-- that the batch claimed ends published, failed or pending again.
pub process_outbox_batch-settles :
    (accepts : List ℕ → Bool) (locked publishes : ℕ → Bool) (batch_size : ℕ) (rows : List OutboxRow)
    → All (λ r. r.status ≢ in_flight) rows
    → All
        (λ r. r.status ≢ in_flight)
        (process_outbox_batch accepts locked publishes batch_size rows).0
unfolding process_outbox_batch
process_outbox_batch-settles accepts locked publishes batch_size rows h =
    claimed_settle (claim locked batch_size rows)
  where
    claimed_settle :
        (msgs : List OutboxRow)
        → All (λ r. r.status ≢ in_flight) (process_claimed accepts publishes msgs rows).0
    claimed_settle [] = h
    claimed_settle (m ∷ ms) = elim (Bool-cases (accepts (ids (m ∷ ms)))) [
      | inl e ↦ rw e (relay-settles publishes (m ∷ ms) _ 0 [] (mark-Waits (m ∷ ms) rows h))
      | inr e ↦ rw e h
    ]

relay-sent :
    (publishes : ℕ → Bool) (msgs rows : List OutboxRow) (n : ℕ) (sent : List ℕ)
    → ((relay publishes msgs rows n sent).2 ≡ sent ++ select publishes (ids msgs))
      × ((relay publishes msgs rows n sent).1 ≡ n + length (select publishes (ids msgs)))
unfolding relay
relay-sent publishes [] rows n sent = (sym (append-nil sent), omega arith)
relay-sent publishes (m ∷ msgs) rows n sent = elim (Bool-cases (publishes m.id)) [
  | inl e ↦
      let next = update_where m.id (settle true m) rows in
      let (order, count) = relay-sent publishes msgs next (n + 1) (sent ++ m.id ∷ []) in
      rw (e, relay)
        (order ∙ append_assoc sent (m.id ∷ []) (select publishes (ids msgs)), omega (arith, count))
  | inr e ↦
      rw (e, relay) (relay-sent publishes msgs (update_where m.id (settle false m) rows) n sent)
]

-- how the transaction ends with the rows that it claimed
abbrev pub Ends :
    (List ℕ → Bool)
    → (ℕ → Bool)
    → List OutboxRow
    → List OutboxRow
    → List OutboxRow × Option ℕ × List ℕ
    → Type 0
Ends accepts publishes msgs rows result =
    ((is_nil msgs || accepts (ids msgs) ≡ true)
      × (result.2 ≡ select publishes (ids msgs))
      × (result.1 ≡ some (length result.2)))
    ⊎ ((accepts (ids msgs) ≡ false) × (result ≡ (rows, none, [])))

process_claimed-Ends :
    (accepts : List ℕ → Bool) (publishes : ℕ → Bool) (msgs rows : List OutboxRow)
    → Ends accepts publishes msgs rows (process_claimed accepts publishes msgs rows)
unfolding process_claimed
process_claimed-Ends accepts publishes [] rows = inl (refl, refl, refl)
process_claimed-Ends accepts publishes (m ∷ ms) rows =
    let marked = mark_in_flight (ids (m ∷ ms)) rows in
    let (order, count) = relay-sent publishes (m ∷ ms) marked 0 [] in
    let same : (relay publishes (m ∷ ms) marked 0 []).1
        ≡ length (relay publishes (m ∷ ms) marked 0 []).2 =
      omega (arith, count, ap length order) in
    elim (Bool-cases (accepts (ids (m ∷ ms)))) [
      | inl e ↦ rw e (inl (refl, order, ap (λ n. some n) same))
      | inr e ↦ rw e (inr (refl, refl))
    ]

-- A batch claims as many of the due and unlocked messages as it may, at most `batchSize`, and the
-- oldest of them, in order: a due message that it leaves is not older than one that it takes. If it
-- claims nothing, or the database runs the update of the claimed rows, it hands the broker exactly those
-- of them that the broker accepts, each once and in that order, and returns their number. Otherwise
-- it throws, changes no row and hands over nothing.
pub process_outbox_batch-sent :
    (accepts : List ℕ → Bool) (locked publishes : ℕ → Bool) (batch_size : ℕ) (rows : List OutboxRow)
    → let msgs = claim locked batch_size rows in
      Picks locked batch_size rows msgs
      × Ends accepts publishes msgs rows
          (process_outbox_batch accepts locked publishes batch_size rows)
unfolding process_outbox_batch
process_outbox_batch-sent accepts locked publishes batch_size rows = (
  claim-Picks locked batch_size rows,
  process_claimed-Ends accepts publishes (claim locked batch_size rows) rows,
)
