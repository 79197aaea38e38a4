-- ===== src/Queue/Consumer/Delivery.antt =====
-- How one delivery is settled.
use code_warzz.Prelude.{
  ℕ, suc, ◌+◌, ◌*◌, ◌^◌, ◌≡◌, Bool, true, false, not, ◌&&◌, ◌||◌, List, [], ◌∷◌, arith, ltb, leb,
  if◌then◌else◌,
}
use code_warzz.Queue.Consumer.{
  ConsumerOptions, ChannelCall, ack, nack, publish_retry, Attempt, on_delivery,
}

abbrev pub settlements : List ChannelCall → ℕ
settlements [] = 0
settlements (ack ∷ cs) = suc (settlements cs)
settlements (nack q ∷ cs) = suc (settlements cs)
settlements (publish_retry n d ∷ cs) = settlements cs

abbrev pub acks : List ChannelCall → Bool
acks [] = false
acks (ack ∷ cs) = true
acks (_ ∷ cs) = acks cs

abbrev pub drops : List ChannelCall → Bool
drops [] = false
drops (nack false ∷ cs) = true
drops (_ ∷ cs) = drops cs

-- the retry copies that are handed to the broker: `x-retry-count`, and milliseconds
abbrev pub retry_copies : List ChannelCall → List (ℕ × ℕ)
retry_copies [] = []
retry_copies (publish_retry n delay ∷ cs) = (n, delay) ∷ retry_copies cs
retry_copies (_ ∷ cs) = retry_copies cs

-- what is called behind the first settlement
abbrev pub after_settlement : List ChannelCall → List ChannelCall
after_settlement [] = []
after_settlement (publish_retry n delay ∷ cs) = after_settlement cs
after_settlement (_ ∷ cs) = cs

-- Every delivery is settled by exactly one `ack` or `nack`, which is the last call on the channel. A
-- retry copy, with the count raised by one and a delay of `retryDelayMs * 2 ^ count`, is handed to the
-- broker exactly when the handler failed and retries are left, and once. The delivery is acknowledged
-- exactly if the handler returned, or retries are left and the broker took and confirmed that copy; it
-- is sent to the dead letters exactly when the handler failed and the retry count has reached
-- `maxRetries`.
pub on_delivery-settles :
    (o : ConsumerOptions) (r : ℕ) (a : Attempt)
    → let calls = on_delivery o r a in
      (settlements calls ≡ 1)
      × (after_settlement calls ≡ [])
      × (retry_copies calls ≡ (
          if not a.handled && ltb r o.max_retries
          then (r + 1, o.retry_delay_ms * 2 ^ r) ∷ []
          else []))
      × (acks calls ≡ a.handled || (ltb r o.max_retries && (a.published && a.confirmed)))
      × (drops calls ≡ not a.handled && leb o.max_retries r)
unfolding on_delivery
on_delivery-settles o r a = (ground arith, ground arith, ground arith, ground arith, ground arith)
