-- ===== src/Outbox/Examples.antt =====
-- Three saved messages, a batch of two, and a broker that refuses one of them.
use code_warzz.Prelude.{
  ℕ, ◌≡◌, refl, ◌≢◌, Bool, true, false, not, Option, none, some, List, [], ◌∷◌, ◌==◌, All,
}
use code_warzz.Outbox.{
  in_flight, OutboxMessage, OutboxRow, save_outbox_message, process_outbox_batch, claim,
  get_outbox_stats,
}
use code_warzz.Outbox.Batch.{Ends, process_outbox_batch-sent}
use code_warzz.Outbox.Claims.{Picks}

abbrev message : Option ℕ → OutboxMessage
message n = record {
  aggregate_type = 0;
  aggregate_id = 7;
  event_type = 0;
  exchange = 0;
  routing_key = 0;
  payload = 0;
  max_attempts = n;
}

abbrev saved : List OutboxRow
saved =
    save_outbox_message (message (some 1)) 3 30
      (save_outbox_message (message none) 2 20 (save_outbox_message (message (some 1)) 1 10 []))

abbrev refuses_one : ℕ → Bool
refuses_one id = not (id == 1)

abbrev after_batch : List OutboxRow × Option ℕ × List ℕ
after_batch = process_outbox_batch (λ ids. true) (λ id. false) refuses_one 2 saved

batch_counts : (after_batch.1 ≡ some 1) × (after_batch.2 ≡ 2 ∷ [])
unfolding process_outbox_batch save_outbox_message
batch_counts = (refl, refl)

batch_stats :
    get_outbox_stats after_batch.0
    ≡ record { pending_count = 1; failed_count = 1; published_count = 1; in_flight_count = 0 }
unfolding get_outbox_stats process_outbox_batch save_outbox_message
batch_stats = refl

saved_settled : All (λ r. r.status ≢ in_flight) saved
unfolding save_outbox_message
saved_settled = (λ e. cc, (λ e. cc, (λ e. cc, tt)))

process_outbox_batch-sent_example :
    let msgs = claim (λ id. false) 2 saved in
    Picks (λ id. false) 2 saved msgs × Ends (λ ids. true) refuses_one msgs saved after_batch
process_outbox_batch-sent_example =
    process_outbox_batch-sent (λ ids. true) (λ id. false) refuses_one 2 saved
