-- ===== src/Queue/Consumer/Lifetime.antt =====
-- How often a message is tried, and after what delays.
use native.Mathlib.Nat.{pow-suc}
use code_warzz.Prelude.{
  ℕ, zero, suc, ◌+◌, ◌*◌, ◌^◌, ◌≤◌, ◌<◌, ◌≡◌, ap, ◌∙◌, Bool, true, false, arith,
}
use mathlib.Core.Path.{subst}
use native.Mathlib.Numerals.{towards_suc}
use code_warzz.Queue.Consumer.{ConsumerOptions, acked, dead_lettered, lifetime}

retry_once :
    (fuel : ℕ) (o : ConsumerOptions) (handled : ℕ → Bool) (r waited : ℕ)
    → handled r ≡ false
    → r < o.max_retries
    → lifetime (suc fuel) o handled r waited
      ≡ lifetime fuel o handled (r + 1) (waited + o.retry_delay_ms * 2 ^ r)
unfolding lifetime
retry_once fuel o handled r waited f h = ground arith

doubles : (d r : ℕ) → d * 2 ^ (r + 1) ≡ d * 2 ^ r + d * 2 ^ r
doubles d r = simp (towards_suc, pow-suc) (omega arith)

always_fails :
    (k : ℕ) (o : ConsumerOptions) (handled : ℕ → Bool) (r waited : ℕ)
    → ((i : ℕ) → handled i ≡ false)
    → r + k ≡ o.max_retries
    → (t : ℕ) × (lifetime (suc k) o handled r waited ≡ dead_lettered o.max_retries t)
      × (t + o.retry_delay_ms * 2 ^ r ≡ waited + o.retry_delay_ms * 2 ^ o.max_retries)
unfolding lifetime
always_fails zero o handled r waited f e =
    let e' : r ≡ o.max_retries = omega arith in
    (waited, ground (arith, f r), ap (λ (x : ℕ). waited + o.retry_delay_ms * 2 ^ x) e')
always_fails (suc k) o handled r waited f e =
    let (t, life, time) =
      always_fails k o handled (r + 1) (waited + o.retry_delay_ms * 2 ^ r) f (omega arith) in
    (
      t,
      retry_once (suc k) o handled r waited (f r) (omega arith) ∙ life,
      omega (arith, doubles o.retry_delay_ms r),
    )

-- A message whose handler always fails, on a broker that accepts every publish, is delivered
-- `maxRetries + 1` times and then dead-lettered; it has waited `retryDelayMs * (2 ^ maxRetries - 1)`.
pub lifetime-dead_lettered :
    (o : ConsumerOptions) (handled : ℕ → Bool)
    → ((i : ℕ) → handled i ≡ false)
    → (t : ℕ) × (lifetime (suc o.max_retries) o handled 0 0 ≡ dead_lettered o.max_retries t)
      × (t + o.retry_delay_ms ≡ o.retry_delay_ms * 2 ^ o.max_retries)
lifetime-dead_lettered o handled f =
    let (t, life, time) = always_fails o.max_retries o handled 0 0 f (omega arith) in
    (t, life, omega arith)

acked_after :
    (n k : ℕ) (o : ConsumerOptions) (handled : ℕ → Bool) (r waited : ℕ)
    → ((i : ℕ) → i < n → handled i ≡ false)
    → handled n ≡ true
    → r + k ≡ n
    → n ≤ o.max_retries
    → (t : ℕ) × (lifetime (suc k) o handled r waited ≡ acked n t)
unfolding lifetime
acked_after n zero o handled r waited f s e h =
    let e' : n ≡ r = omega arith in
    (waited, rw e' (ground (arith, subst (λ i. handled i ≡ true) e' s)))
acked_after n (suc k) o handled r waited f s e h =
    let (t, life) =
      acked_after n k o handled (r + 1) (waited + o.retry_delay_ms * 2 ^ r) f s (omega arith) h in
    (t, retry_once (suc k) o handled r waited (f r (omega arith)) (omega arith) ∙ life)

-- A message whose handler first succeeds at the delivery with retry count `n`, within `maxRetries`,
-- is acknowledged there: `n` retries are enough and no failure before is fatal.
pub lifetime-acked :
    (o : ConsumerOptions) (handled : ℕ → Bool) (n : ℕ)
    → n ≤ o.max_retries
    → ((i : ℕ) → i < n → handled i ≡ false)
    → handled n ≡ true
    → (t : ℕ) × (lifetime (suc n) o handled 0 0 ≡ acked n t)
lifetime-acked o handled n h f s = acked_after n n o handled 0 0 f s (omega arith) h
