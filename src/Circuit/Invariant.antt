-- ===== src/Circuit/Invariant.antt =====
-- What holds of a circuit breaker between two events, whatever the interleaving of its callers.
use code_warzz.Prelude.{
  ℕ, ◌<◌, ◌≡◌, refl, sym, inl, inr, Bool-cases, ◌++◌, if◌then◌else◌, Bool, true, false, List, [],
  ◌∷◌, arith, is_some,
}
use code_warzz.Circuit.{
  CircuitState, same_state, closed, opened, half_open, CircuitBreaker, CircuitBreakerOptions,
  create, get_state, on_success, on_failure, execute, force_state, reset,
}

-- Everything that changes a breaker, in the order in which the event loop runs it.
pub data Event : Type 0 where
  asked : ℕ → Event
  succeeded : Event
  failed : Bool → ℕ → Event
  forced_to : CircuitState → ℕ → Event
  was_reset : Bool → Event

pub step : Event → CircuitBreaker → CircuitBreaker
unfolding get_state on_success on_failure force_state reset
step (asked now) b = get_state now b
step succeeded b = on_success b
step (failed redis now) b = (on_failure redis now b).0
step (forced_to s now) b = force_state s now b
step (was_reset redis) b = (reset redis b).0

unfoldable pub run : List Event → CircuitBreaker → CircuitBreaker
run [] b = b
run (e ∷ es) b = run es (step e b)

pub record IsSound (o : CircuitBreakerOptions) (b : CircuitBreaker) : Type 0 where
  pub options_kept : b.options ≡ o
  pub closed_below : b.state ≡ closed → b.failure_count < o.failure_threshold
  pub opened_timed : b.state ≡ opened → is_some b.last_failure_time ≡ true

pub step-IsSound :
    (o : CircuitBreakerOptions) (e : Event) (b : CircuitBreaker)
    → 0 < o.failure_threshold
    → IsSound o b
    → IsSound o (step e b)
unfolding step
step-IsSound o (asked now) b pos h = ground arith
step-IsSound o succeeded b pos h = ground arith
step-IsSound o (failed redis now) b pos h = ground arith
step-IsSound o (forced_to closed now) b pos h = ground arith
step-IsSound o (forced_to opened now) b pos h = ground arith
step-IsSound o (forced_to half_open now) b pos h = ground arith
step-IsSound o (was_reset redis) b pos h = ground arith

create-IsSound : (o : CircuitBreakerOptions) → 0 < o.failure_threshold → IsSound o (create o)
unfolding create
create-IsSound o pos = ground arith

run_from-IsSound :
    (o : CircuitBreakerOptions) (es : List Event) (b : CircuitBreaker)
    → 0 < o.failure_threshold
    → IsSound o b
    → IsSound o (run es b)
unfolding run
run_from-IsSound o [] b pos h = h
run_from-IsSound o (e ∷ es) b pos h =
    run_from-IsSound o es (step e b) pos (step-IsSound o e b pos h)

-- After any sequence of `getState`, settled calls, forced states and resets, in any order: a closed
-- breaker has counted fewer failures than its threshold (which is positive), an open one knows when
-- it last failed, and the options are those of the constructor.
pub run-IsSound :
    (o : CircuitBreakerOptions) (es : List Event)
    → 0 < o.failure_threshold
    → IsSound o (run es (create o))
run-IsSound o es pos = run_from-IsSound o es (create o) pos (create-IsSound o pos)

-- `execute` while other callers do `es` is a run of these events.
pub events_of : Bool → ℕ → List Event → Bool → ℕ → CircuitBreaker → List Event
unfolding get_state
events_of redis now es ok later b =
    if same_state (get_state now b).state opened
    then asked now ∷ []
    else asked now ∷ es ++ (if ok then succeeded else failed redis later) ∷ []

run-append : (es fs : List Event) (b : CircuitBreaker) → run (es ++ fs) b ≡ run fs (run es b)
unfolding run
run-append [] fs b = refl
run-append (e ∷ es) fs b = run-append es fs (step e b)

execute-run :
    (redis : Bool) (now : ℕ) (es : List Event) (ok : Bool) (later : ℕ) (b : CircuitBreaker)
    → (execute redis now (run es) ok later b).0 ≡ run (events_of redis now es ok later b) b
unfolding execute events_of run step
execute-run redis now es true later b =
    elim (Bool-cases (same_state (get_state now b).state opened)) [
      | inl e ↦ rw e
      | inr e ↦ rw e (sym (run-append es (succeeded ∷ []) (get_state now b)))
    ]
execute-run redis now es false later b =
    elim (Bool-cases (same_state (get_state now b).state opened)) [
      | inl e ↦ rw e
      | inr e ↦ rw e (sym (run-append es (failed redis later ∷ []) (get_state now b)))
    ]

-- A call through the breaker keeps it sound, whatever the calls that overlap it do.
pub execute-IsSound :
    (o : CircuitBreakerOptions) (redis : Bool) (now : ℕ) (es : List Event) (ok : Bool) (later : ℕ)
    (b : CircuitBreaker)
    → 0 < o.failure_threshold
    → IsSound o b
    → IsSound o (execute redis now (run es) ok later b).0
execute-IsSound o redis now es ok later b pos h =
    rw (execute-run redis now es ok later b)
      (run_from-IsSound o (events_of redis now es ok later b) b pos h)
