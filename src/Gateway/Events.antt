-- ===== src/Gateway/Events.antt =====
-- api-gateway/src/routes/leaderboard.sse.ts: the open event streams of a gateway.
use code_warzz.Prelude.{ℕ, Bool, not, List, [], ◌∷◌, ◌++◌, ◌==◌, if◌then◌else◌, select, contains}

-- a request that is open
pub record Stream : Type 0 where
  pub connection : ℕ
  pub contest_id : ℕ

-- `sseEmitter` and the timers of the heartbeats
pub record Hub : Type 0 where
  pub listeners : List Stream
  pub heartbeats : List ℕ

pub data Event : Type 0 where
  opens : ℕ → ℕ → Event  -- GET /:contestId on a connection
  message : Bool → ℕ → Event  -- of Redis, whether it is on leaderboard:invalidate, and its text
  interval : ℕ → Event  -- 15 s of a connection have passed
  closes : ℕ → Event
  shutdown : Event  -- `shutdownSse`

-- what is written to a response
pub data Frame : Type 0 where
  connected : ℕ → Frame
  update : Frame
  heartbeat : Frame

-- `sseEmitter.emit`
unfoldable pub emit : ℕ → List Stream → List (ℕ × Frame)
emit contest [] = []
emit contest (s ∷ listeners) =
    let rest = emit contest listeners in
    if s.contest_id == contest then (s.connection, update) ∷ rest else rest

unfoldable pub handle : Event → Hub → Hub × List (ℕ × Frame)
unfolding emit
handle (opens conn contest) h = (
  record {
    listeners = h.listeners ++ record { connection = conn; contest_id = contest } ∷ [];
    heartbeats = conn ∷ h.heartbeats;
  },
  (conn, connected contest) ∷ [],
)
handle (message is_invalidation contest) h =
    (h, if is_invalidation then emit contest h.listeners else [])
handle (interval conn) h = (h, if contains conn h.heartbeats then (conn, heartbeat) ∷ [] else [])
handle (closes conn) h = (
  record {
    listeners = select (λ s. not (s.connection == conn)) h.listeners;
    heartbeats = select (λ c. not (c == conn)) h.heartbeats;
  },
  [],
)
handle shutdown h = (record h { listeners = [] }, [])

abbrev pub started : Hub
started = record { listeners = []; heartbeats = [] }

unfoldable pub run : List Event → Hub → Hub × List (ℕ × Frame)
unfolding handle
run [] h = (h, [])
run (e ∷ events) h =
    let (h', frames) = handle e h in let (last, more) = run events h' in (last, frames ++ more)
