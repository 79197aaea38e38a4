-- ===== src/Queue/Consumer.antt =====
-- core/src/queues/rabbitmq/consumer.ts: what `consumeQueue` does with one delivery.
-- The channel's answers are arguments; the calls that the consumer makes on it are the result.
pub mod Delivery
pub mod Lifetime
mod Examples
use code_warzz.Prelude.{
  ℕ, zero, suc, ◌+◌, ◌*◌, ◌^◌, Bool, true, false, List, [], ◌∷◌, leb, if◌then◌else◌,
}

pub record ConsumerOptions : Type 0 where
  pub prefetch : ℕ
  pub max_retries : ℕ
  pub retry_delay_ms : ℕ

abbrev pub default_options : ConsumerOptions
default_options = record { prefetch = 10; max_retries = 3; retry_delay_ms = 1000 }

-- the calls on the channel
pub data ChannelCall : Type 0 where
  ack : ChannelCall
  nack : Bool → ChannelCall  -- `requeue`
  publish_retry : ℕ → ℕ → ChannelCall  -- `x-retry-count`, and the `expiration` in milliseconds

-- How a delivery goes: parsing and the handler, then `channel.publish` and `waitForConfirms`.
pub record Attempt : Type 0 where
  pub handled : Bool
  pub published : Bool
  pub confirmed : Bool

-- the body of the `channel.consume` callback, for a message with this `x-retry-count`
unfoldable pub on_delivery : ConsumerOptions → ℕ → Attempt → List ChannelCall
on_delivery o retry_count a =
    if a.handled
    then ack ∷ []
    else if leb o.max_retries retry_count
    then nack false ∷ []
    else let delay = o.retry_delay_ms * 2 ^ retry_count in
      publish_retry (retry_count + 1) delay
      ∷ (if a.published then (if a.confirmed then ack else nack true) else nack true)
      ∷ []

-- How a message ends, after how many retries and how long in the retry queue.
pub data Fate : Type 0 where
  acked : ℕ → ℕ → Fate
  dead_lettered : ℕ → ℕ → Fate
  requeued : Fate
  unsettled : Fate

-- What the broker does with the calls: a retry copy comes back with its count once its time has
-- passed; `again` is that delivery.
abbrev pub follow : List ChannelCall → ℕ → ℕ → (ℕ → ℕ → Fate) → Fate
follow (publish_retry n delay ∷ ack ∷ []) r waited again = again n (waited + delay)
follow (ack ∷ []) r waited again = acked r waited
follow (nack false ∷ []) r waited again = dead_lettered r waited
follow (nack true ∷ []) r waited again = requeued
follow (publish_retry n delay ∷ nack q ∷ []) r waited again = requeued
follow _ r waited again = unsettled

-- A message's life with a broker that accepts every publish; `handled r` says how the handler ends
-- at the delivery with retry count `r`. Fuel bounds the deliveries.
unfoldable pub lifetime : ℕ → ConsumerOptions → (ℕ → Bool) → ℕ → ℕ → Fate
unfolding on_delivery
lifetime zero o handled r waited = unsettled
lifetime (suc fuel) o handled r waited =
    follow (on_delivery o r (record { handled = handled r; published = true; confirmed = true })) r
      waited (lifetime fuel o handled)
