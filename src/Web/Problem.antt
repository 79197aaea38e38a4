-- ===== src/Web/Problem.antt =====
-- web/src/features/problems/routes/Problem.tsx: running and submitting a solution. The page is a state
-- machine over what the user does, the answers of the API and the ticks of the timers.
pub mod Polling
mod Examples
use code_warzz.Submission.{Verdict, pending}
use code_warzz.Prelude.{
  ℕ, Bool, true, false, not, Option, none, some, List, [], ◌∷◌, ◌++◌, ◌==◌, if◌then◌else◌, select,
}

pub data Action : Type 0 where
  runs submits : Action

-- an interval that `setInterval` started
pub record Poll : Type 0 where
  pub timer : ℕ
  pub action : Action
  pub job : ℕ

pub record Page : Type 0 where
  pub code : ℕ
  pub mounted_code : Option ℕ  -- what the handlers that `onMount` passes on have captured
  pub is_running : Bool
  pub polls : List Poll  -- the intervals that tick
  pub poll_interval : Option ℕ  -- `pollIntervalRef`
  pub submission_result : Option Verdict

pub data Event : Type 0 where
  edits : ℕ → Event
  editor_mounts : Event
  clicks : Action → Event
  shortcut : Action → Event  -- Ctrl+Enter and Ctrl+Shift+Enter
  post_answers : Action → ℕ → ℕ → Event  -- the id of the job, and the timer that is started for it
  post_fails : Event
  ticks : ℕ → Event
  poll_answers : Poll → Verdict → Event  -- a request of this poll, sent before, is answered
  poll_fails : Poll → Event
  unmounts : Event

pub data Effect : Type 0 where
  posts : Action → ℕ → Effect  -- with the code
  asks : Action → ℕ → Effect  -- for a job
  fetches_submissions : Effect

-- `handleRun` and `handleSubmit` up to the first `await`
unfoldable pub start : Action → ℕ → Page → Page × List Effect
start runs code p = (record p { is_running = true }, posts runs code ∷ [])
start submits code p =
    (record p { is_running = true; submission_result = none }, posts submits code ∷ [])

-- `clearInterval`
abbrev pub clear : ℕ → List Poll → List Poll
clear timer = select (λ q. not (q.timer == timer))

-- what the two callbacks do with their interval: only that of a run is held in the reference
abbrev pub end_poll : Poll → Page → Page
end_poll q p = record p {
  polls = clear q.timer p.polls;
  poll_interval = elim q.action [ runs ↦ none | submits ↦ p.poll_interval ];
  is_running = false;
}

abbrev pub is_pending : Verdict → Bool
is_pending pending = true
is_pending _ = false

-- the answer to one request of a poll, with a verdict for the status of a run
unfoldable pub poll_answered : Action → Poll → Verdict → Page → Page × List Effect
poll_answered runs q v p = if is_pending v then (p, []) else (end_poll q p, [])
poll_answered submits q v p =
    if is_pending v
    then (p, [])
    else (record (end_poll q p) { submission_result = some v }, fetches_submissions ∷ [])

-- the requests of an interval that ticks
unfoldable pub requests : ℕ → List Poll → List Effect
requests timer [] = []
requests timer (q ∷ polls) =
    let rest = requests timer polls in if q.timer == timer then asks q.action q.job ∷ rest else rest

-- the reference after `setInterval`
abbrev pub remember : Action → ℕ → Option ℕ → Option ℕ
remember runs timer old = some timer
remember submits timer old = old

abbrev pub clear_reference : Option ℕ → List Poll → List Poll
clear_reference none polls = polls
clear_reference (some timer) polls = clear timer polls

unfoldable pub handle : Event → Page → Page × List Effect
unfolding start poll_answered requests
handle (edits code) p = (record p { code = code }, [])
handle editor_mounts p = (record p { mounted_code = some p.code }, [])
handle (clicks a) p = if p.is_running then (p, []) else start a p.code p
handle (shortcut a) p = elim p.mounted_code [ none ↦ (p, []) | some code ↦ start a code p ]
handle (post_answers a job timer) p = (
  record p {
    polls = record { timer = timer; action = a; job = job } ∷ p.polls;
    poll_interval = remember a timer p.poll_interval;
  },
  [],
)
handle post_fails p = (record p { is_running = false }, [])
handle (ticks timer) p = (p, requests timer p.polls)
handle (poll_answers q v) p = poll_answered q.action q v p
handle (poll_fails q) p = (end_poll q p, [])
handle unmounts p =
    (record p { polls = clear_reference p.poll_interval p.polls; poll_interval = none }, [])

unfoldable pub run : List Event → Page → Page × List Effect
run [] p = (p, [])
run (e ∷ events) p =
    let (p', effects) = handle e p in let (last, more) = run events p' in (last, effects ++ more)
