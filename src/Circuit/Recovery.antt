-- ===== src/Circuit/Recovery.antt =====
-- When a breaker trips, what it refuses, and how it recovers.
use code_warzz.Prelude.{
  ℕ, zero, suc, ◌+◌, ◌≤◌, ◌<◌, ◌≡◌, refl, ◌↔◌, inl, inr, Bool, true, none, some, arith, ltb,
  if◌then◌else◌, Bool-cases,
}
use code_warzz.Circuit.{
  closed, opened, half_open, CircuitBreaker, CircuitBreakerOptions, create, get_state, on_success,
  on_failure, execute, rejected,
}

-- `n` calls that fail one after another at the same clock reading
unfoldable pub fail_times : ℕ → ℕ → CircuitBreaker → CircuitBreaker
fail_times zero now b = b
fail_times (suc n) now b = fail_times n now (on_failure true now b).0

unfoldable pub succeed_times : ℕ → CircuitBreaker → CircuitBreaker
succeed_times zero b = b
succeed_times (suc n) b = succeed_times n (on_success b)

fail_once :
    (b : CircuitBreaker) (now : ℕ)
    → b.state ≡ closed
    → b.failure_count + 1 < b.options.failure_threshold
    → ((on_failure true now b).0.state ≡ closed)
      × ((on_failure true now b).0.failure_count ≡ b.failure_count + 1)
      × ((on_failure true now b).0.options ≡ b.options)
unfolding on_failure
fail_once b now c h = ground arith

stays_opened :
    (n now : ℕ) (b : CircuitBreaker) → b.state ≡ opened → (fail_times n now b).state ≡ opened
unfolding fail_times on_failure
stays_opened zero now b h = h
stays_opened (suc n) now b h = stays_opened n now (on_failure true now b).0 (ground arith)

trips :
    (n now : ℕ) (b : CircuitBreaker)
    → b.state ≡ closed
    → b.failure_count < b.options.failure_threshold
    → (fail_times n now b).state
      ≡ (if ltb (b.failure_count + n) b.options.failure_threshold then closed else opened)
unfolding fail_times on_failure
trips zero now b c h = ground arith
trips (suc n) now b c h =
    elim (Bool-cases (ltb (b.failure_count + 1) b.options.failure_threshold)) [
      | inl e ↦
          let (c', f, o) = fail_once b now c (ground arith) in
          let ih = trips n now (on_failure true now b).0 c' (rw (f, o) (ground arith)) in
          ground (arith, ih)
      | inr e ↦ ground (arith, stays_opened n now (on_failure true now b).0)
    ]

-- A new breaker with a positive threshold is open after `n` failures in a row exactly when `n` has
-- reached the threshold, and closed before.
pub fail_times-state :
    (o : CircuitBreakerOptions) (n now : ℕ)
    → 0 < o.failure_threshold
    → (fail_times n now (create o)).state ≡ (if ltb n o.failure_threshold then closed else opened)
unfolding create
fail_times-state o n now pos = ground (arith, trips n now (create o) refl pos)

stays_closed : (n : ℕ) (b : CircuitBreaker) → b.state ≡ closed → (succeed_times n b).state ≡ closed
unfolding succeed_times on_success
stays_closed zero b h = h
stays_closed (suc n) b h = stays_closed n (on_success b) (ground arith)

succeed_once :
    (b : CircuitBreaker)
    → b.state ≡ half_open
    → b.success_count + 1 < b.options.half_open_max_attempts
    → ((on_success b).state ≡ half_open)
      × ((on_success b).success_count ≡ b.success_count + 1)
      × ((on_success b).options ≡ b.options)
unfolding on_success
succeed_once b c h = ground arith

closes :
    (n : ℕ) (b : CircuitBreaker)
    → b.state ≡ half_open
    → b.success_count < b.options.half_open_max_attempts
    → (succeed_times n b).state
      ≡ (if ltb (b.success_count + n) b.options.half_open_max_attempts then half_open else closed)
unfolding succeed_times on_success
closes zero b c h = ground arith
closes (suc n) b c h =
    elim (Bool-cases (ltb (b.success_count + 1) b.options.half_open_max_attempts)) [
      | inl e ↦
          let (c', f, o) = succeed_once b c (ground arith) in
          let ih = closes n (on_success b) c' (rw (f, o) (ground arith)) in ground (arith, ih)
      | inr e ↦ ground (arith, stays_closed n (on_success b))
    ]

module _ (t : ℕ) (b : CircuitBreaker) (pos : 0 < t) (last : b.last_failure_time ≡ some t) where
  -- For a breaker that last failed at a time `t` other than 0: a call is refused exactly when the
  -- breaker is open and the recovery timeout since `t` has not passed; a refused call leaves the
  -- breaker as it was and publishes nothing, whatever else would have happened.
  pub execute-rejected_iff :
      (redis : Bool) (now : ℕ) (meanwhile : CircuitBreaker → CircuitBreaker) (ok : Bool) (later : ℕ)
      → (((execute redis now meanwhile ok later b).1 ≡ rejected)
          ↔ ((b.state ≡ opened) × (now < t + b.options.recovery_timeout_ms)))
        × ((execute redis now meanwhile ok later b ≡ (b, rejected, none))
            ↔ ((b.state ≡ opened) × (now < t + b.options.recovery_timeout_ms)))
  unfolding execute
  execute-rejected_iff redis now meanwhile ok later =
      ((λ h. ground arith, λ h. ground arith), (λ h. ground arith, λ h. ground arith))

  -- Once the timeout has passed, an open breaker that `getState` has looked at stays half open for
  -- the first `halfOpenMaxAttempts - 1` successes and is closed from then on.
  pub succeed_times-recovers :
      (now k : ℕ)
      → b.state ≡ opened
      → t + b.options.recovery_timeout_ms ≤ now
      → 0 < b.options.half_open_max_attempts
      → (succeed_times k (get_state now b)).state
        ≡ (if ltb k b.options.half_open_max_attempts then half_open else closed)
  unfolding get_state
  succeed_times-recovers now k o h m =
      ground (arith, closes k (record b { state = half_open; success_count = 0 }) refl m)
