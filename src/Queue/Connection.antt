-- ===== src/Queue/Connection.antt =====
-- core/src/queues/rabbitmq/connection.ts: `RabbitMQConnection`, as steps between the events that the
-- event loop brings. Connections, channels and callers are numbers.
pub mod Attempts
pub mod Callers
mod Examples
use code_warzz.Prelude.{
  ℕ, ◌+◌, ◌*◌, Bool, true, false, not, Option, none, some, List, [], ◌∷◌, ◌++◌, map, leb, ◌==◌,
  if◌then◌else◌, select, contains,
}

abbrev pub max_retries : ℕ
max_retries = 10

abbrev pub retry_delay_ms : ℕ
retry_delay_ms = 3000

-- where the loop of `_connect` stands
pub data Attempt : Type 0 where
  idle : Attempt  -- `connectPromise` is null
  dialling : ℕ → Attempt  -- behind this many failures, `amqp.connect` and its like are under way
  delaying : ℕ → Attempt  -- it waits for its next round

pub record Connection : Type 0 where
  pub connection : Option ℕ
  pub channel : Option ℕ
  pub attempt : Attempt
  pub waiters : List ℕ  -- the callers that await `connectPromise`
  pub reconnect_timer : Bool
  pub shutting_down : Bool
  pub listened : List ℕ  -- the connections with a listener on 'close' that have not closed

pub data Event : Type 0 where
  asks : ℕ → Event  -- a call of `getChannel`
  dial_succeeds : ℕ → ℕ → Event
  dial_fails : Option ℕ → Option ℕ → Event  -- with the connection and the channel that it got before
  delay_ends : Event
  connection_closes : ℕ → Event
  timer_fires : Event
  close : Event  -- a call of `close`

pub data Effect : Type 0 where
  dials : Effect
  answers : ℕ → ℕ → Effect  -- a caller gets a channel
  rejects : ℕ → Effect  -- or "Failed to connect to RabbitMQ after 10 attempts"
  waits : ℕ → Effect  -- milliseconds
  closes_channel : ℕ → Effect
  closes_connection : ℕ → Effect

-- `connect`, for a caller or for the timer, which nobody waits for
unfoldable pub connect : List ℕ → Connection → Connection × List Effect
connect callers s = elim s.channel [
  | some ch ↦ (s, map (λ c. answers c ch) callers)
  | none ↦ elim s.attempt [
    | idle ↦ (record s { attempt = dialling 0; waiters = callers }, dials ∷ [])
    | dialling r ↦ (record s { waiters = s.waiters ++ callers }, [])
    | delaying r ↦ (record s { waiters = s.waiters ++ callers }, [])
  ]
]

-- what an assignment leaves that a throw may come before
abbrev pub assigned : Option ℕ → Option ℕ → Option ℕ
assigned none old = old
assigned (some n) old = some n

-- the `catch` of a round
unfoldable pub dial_failed : ℕ → Connection → Connection × List Effect
dial_failed retries s =
    if leb max_retries retries
    then (record s { attempt = idle; waiters = [] }, map rejects s.waiters)
    else (record s { attempt = delaying retries }, waits (retry_delay_ms * retries) ∷ [])

-- the listener on 'close', with `scheduleReconnect`
unfoldable pub connection_closed : Connection → Connection
connection_closed s =
    if s.shutting_down
    then s
    else record s { channel = none; connection = none; reconnect_timer = true }

abbrev pub closing : (ℕ → Effect) → Option ℕ → List Effect
closing f none = []
closing f (some n) = f n ∷ []

unfoldable pub handle : Event → Connection → Connection × List Effect
unfolding connect dial_failed connection_closed
handle (asks c) s = connect (c ∷ []) s
handle (dial_succeeds conn ch) s = elim s.attempt [
  | dialling r ↦ (
    record s {
      connection = some conn;
      channel = some ch;
      attempt = idle;
      waiters = [];
      listened = conn ∷ s.listened;
    },
    map (λ c. answers c ch) s.waiters,
  )
  | _ ↦ (s, [])
]
handle (dial_fails conn ch) s = elim s.attempt [
  | dialling r ↦
      dial_failed (r + 1)
        (record s { connection = assigned conn s.connection; channel = assigned ch s.channel })
  | _ ↦ (s, [])
]
handle delay_ends s = elim s.attempt [
  | delaying r ↦ (record s { attempt = dialling r }, dials ∷ [])
  | _ ↦ (s, [])
]
handle (connection_closes conn) s =
    if contains conn s.listened
    then (connection_closed (record s { listened = select (λ c. not (c == conn)) s.listened }), [])
    else (s, [])
handle timer_fires s =
    if s.reconnect_timer then connect [] (record s { reconnect_timer = false }) else (s, [])
handle close s = (
  record s { shutting_down = true; reconnect_timer = false; channel = none; connection = none },
  closing closes_channel s.channel ++ closing closes_connection s.connection,
)

unfoldable pub run : List Event → Connection → Connection × List Effect
unfolding handle
run [] s = (s, [])
run (e ∷ events) s =
    let (s', effects) = handle e s in let (last, more) = run events s' in (last, effects ++ more)

abbrev pub initial : Connection
initial = record {
  connection = none;
  channel = none;
  attempt = idle;
  waiters = [];
  reconnect_timer = false;
  shutting_down = false;
  listened = [];
}
