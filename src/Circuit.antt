-- ===== src/Circuit.antt =====
-- core/src/utils/circuitBreaker/index.ts: the circuit breaker, its calls and its Redis sync.
-- `Date.now()` is an argument; what other callers do while the call is awaited is an argument too.
pub mod Invariant
pub mod Recovery
mod Examples
use code_warzz.Prelude.{
  ℕ, ◌+◌, String, Bool, true, false, not, ◌&&◌, Option, none, some, List, [], ◌∷◌, leb, ◌==◌,
  if◌then◌else◌,
}

pub data CircuitState : Type 0 where
  closed opened half_open : CircuitState

abbrev pub same_state : CircuitState → CircuitState → Bool
same_state closed closed = true
same_state opened opened = true
same_state half_open half_open = true
same_state _ _ = false

pub record CircuitBreakerOptions : Type 0 where
  pub failure_threshold : ℕ
  pub recovery_timeout_ms : ℕ
  pub half_open_max_attempts : ℕ

abbrev pub default_options : CircuitBreakerOptions
default_options = record {
  failure_threshold = 5;
  recovery_timeout_ms = 30000;
  half_open_max_attempts = 3;
}

pub record CircuitBreaker : Type 0 where
  pub state : CircuitState
  pub failure_count : ℕ
  pub success_count : ℕ
  pub last_failure_time : Option ℕ
  pub options : CircuitBreakerOptions

-- the constructor
unfoldable pub create : CircuitBreakerOptions → CircuitBreaker
create o = record {
  state = closed;
  failure_count = 0;
  success_count = 0;
  last_failure_time = none;
  options = o;
}

-- `this.lastFailureTime` is falsy at `null` and at 0; `now - last >= timeout` has no truncation here
abbrev pub timeout_elapsed : Option ℕ → ℕ → ℕ → Bool
timeout_elapsed none timeout now = false
timeout_elapsed (some last) timeout now = not (last == 0) && leb (last + timeout) now

-- the breaker that `getState` leaves; its answer is the `state` of that
unfoldable pub get_state : ℕ → CircuitBreaker → CircuitBreaker
get_state now b =
    if same_state b.state opened
      && timeout_elapsed b.last_failure_time b.options.recovery_timeout_ms now
    then record b { state = half_open; success_count = 0 }
    else b

unfoldable pub on_success : CircuitBreaker → CircuitBreaker
on_success b =
    if same_state b.state half_open
    then record b {
      failure_count = 0;
      success_count = b.success_count + 1;
      state =
          if leb b.options.half_open_max_attempts (b.success_count + 1) then closed else half_open;
    }
    else record b { failure_count = 0 }

-- A state published on `circuit-breaker:sync` under the breaker's name, if any.
abbrev pub Sync : Type 0
Sync = Option CircuitState

-- `redis` says whether the client is there
unfoldable pub on_failure : Bool → ℕ → CircuitBreaker → CircuitBreaker × Sync
on_failure redis now b =
    let b' = record b { failure_count = b.failure_count + 1; last_failure_time = some now } in
    if leb b.options.failure_threshold (b.failure_count + 1) && not (same_state b.state opened)
    then (record b' { state = opened }, if redis then some opened else none)
    else (b', none)

pub data Outcome : Type 0 where
  rejected : Outcome  -- "Circuit breaker … is OPEN", `fn` is not called
  returned : Outcome
  thrown : Outcome

-- `execute`: admitted at `now`; `meanwhile` is what the breaker goes through while `fn` is awaited;
-- `fn` resolves (`ok`) or rejects at `later`
unfoldable pub execute :
    Bool
    → ℕ
    → (CircuitBreaker → CircuitBreaker)
    → Bool
    → ℕ
    → CircuitBreaker
    → CircuitBreaker × Outcome × Sync
unfolding get_state on_success on_failure
execute redis now meanwhile ok later b =
    let b₁ = get_state now b in
    if same_state b₁.state opened
    then (b₁, rejected, none)
    else if ok
    then (on_success (meanwhile b₁), returned, none)
    else let (b₂, sync) = on_failure redis later (meanwhile b₁) in (b₂, thrown, sync)

abbrev forced : CircuitState → ℕ → CircuitBreaker → CircuitBreaker
forced opened now b = record b {
  state = opened;
  last_failure_time = some now;
  failure_count = b.options.failure_threshold;
}
forced closed now b = record b { state = closed; failure_count = 0; success_count = 0 }
forced half_open now b = record b { state = half_open }

unfoldable pub force_state : CircuitState → ℕ → CircuitBreaker → CircuitBreaker
force_state new now b = if same_state b.state new then b else forced new now b

unfoldable pub reset : Bool → CircuitBreaker → CircuitBreaker × Sync
reset redis b = (
  record b { state = closed; failure_count = 0; success_count = 0; last_failure_time = none },
  if redis then some closed else none,
)

-- `circuitBreakerRegistry`, by name
abbrev pub Registry : Type 0
Registry = List (ℕ × CircuitBreaker)

unfoldable pub find : ℕ → Registry → Option CircuitBreaker
find name [] = none
find name ((n, b) ∷ r) = if n == name then some b else find name r

unfoldable pub replace : ℕ → CircuitBreaker → Registry → Registry
replace name new [] = []
replace name new ((n, b) ∷ r) = if n == name then (n, new) ∷ r else (n, b) ∷ replace name new r

-- `breaker.getState() !== state` may itself turn an open breaker half open
unfoldable pub synced : CircuitState → ℕ → CircuitBreaker → CircuitBreaker
unfolding get_state force_state
synced remote now b =
    let b' = get_state now b in
    if not (same_state b'.state remote) then force_state remote now b' else b'

-- the body of `subscriber.on('message')` for a well-formed message on the channel
unfoldable pub on_message : ℕ → CircuitState → ℕ → Registry → Registry
unfolding find replace synced
on_message name remote now r = elim (find name r) [
  | none ↦ r
  | some b ↦ replace name (synced remote now b) r
]

-- `getCircuitBreaker`
unfoldable pub get_circuit_breaker :
    ℕ → CircuitBreakerOptions → Registry → Registry × CircuitBreaker
unfolding find create
get_circuit_breaker name o r = elim (find name r) [
  | none ↦ ((name, create o) ∷ r, create o)
  | some b ↦ (r, b)
]
