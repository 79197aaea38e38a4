-- ===== src/Queue/Connection/Callers.antt =====
-- Every caller is served, and what the connection does not come back from.
use code_warzz.Queue.Connection.{
  Attempt, idle, Connection, Event, asks, dial_succeeds, dial_fails, delay_ends, connection_closes,
  timer_fires, close, Effect, answers, rejects, connect, handle, run, initial,
}
use code_warzz.Prelude.{
  ℕ, ◌+◌, ◌≡◌, refl, inl, inr, Bool, true, false, ◌&&◌, List, [], ◌∷◌, ◌++◌, map, arith, ltb,
  Option-cases, length, ◌==◌, if◌then◌else◌,
}

-- how often a caller stands in a list
abbrev pub times : ℕ → List ℕ → ℕ
times k [] = 0
times k (c ∷ cs) = (if c == k then 1 else 0) + times k cs

-- how often a caller asks among events, and is answered or rejected among effects
abbrev pub count_asks : ℕ → List Event → ℕ
count_asks k [] = 0
count_asks k (asks c ∷ events) = (if c == k then 1 else 0) + count_asks k events
count_asks k (_ ∷ events) = count_asks k events

abbrev pub count_served : ℕ → List Effect → ℕ
count_served k [] = 0
count_served k (answers c ch ∷ effects) = (if c == k then 1 else 0) + count_served k effects
count_served k (rejects c ∷ effects) = (if c == k then 1 else 0) + count_served k effects
count_served k (_ ∷ effects) = count_served k effects

times-append : (k : ℕ) (xs ys : List ℕ) → times k (xs ++ ys) ≡ times k xs + times k ys
times-append k [] ys = omega arith
times-append k (x ∷ xs) ys = omega (arith, times-append k xs ys)

times-none : (k : ℕ) (cs : List ℕ) → ltb 0 (length cs) ≡ false → times k cs ≡ 0
times-none k [] h = refl
times-none k (c ∷ cs) h = absurd (ground arith)

count_served-append :
    (k : ℕ) (xs ys : List Effect)
    → count_served k (xs ++ ys) ≡ count_served k xs + count_served k ys
count_served-append k [] ys = omega arith
count_served-append k (answers c ch ∷ xs) ys = omega (arith, count_served-append k xs ys)
count_served-append k (rejects c ∷ xs) ys = omega (arith, count_served-append k xs ys)
count_served-append k (_ ∷ xs) ys = count_served-append k xs ys

count_served-answers :
    (k ch : ℕ) (cs : List ℕ) → count_served k (map (λ c. answers c ch) cs) ≡ times k cs
count_served-answers k ch [] = refl
count_served-answers k ch (c ∷ cs) = omega (arith, count_served-answers k ch cs)

count_served-rejects : (k : ℕ) (cs : List ℕ) → count_served k (map rejects cs) ≡ times k cs
count_served-rejects k [] = refl
count_served-rejects k (c ∷ cs) = omega (arith, count_served-rejects k cs)

abbrev pub is_idle : Attempt → Bool
is_idle idle = true
is_idle _ = false

-- Callers wait only while an attempt is under way.
abbrev pub Attended : Attempt → List ℕ → Type 0
Attended a waiters = (is_idle a && ltb 0 (length waiters)) ≡ false

-- what an event does for a caller
abbrev Serves : ℕ → ℕ → Connection → Connection × List Effect → Type 0
Serves k asked s (s', effects) =
    Attended s'.attempt s'.waiters
    × (asked + times k s.waiters ≡ count_served k effects + times k s'.waiters)

connect-Serves :
    (k : ℕ) (callers : List ℕ) (s : Connection)
    → Attended s.attempt s.waiters
    → Serves k (times k callers) s (connect callers s)
unfolding connect
connect-Serves k callers s h = elim (Option-cases s.channel) [
  | inr (ch, e) ↦ rw e (h, omega (arith, count_served-answers k ch callers))
  | inl e ↦ ground (arith, times-append k s.waiters callers, times-none k s.waiters)
]

handle-Serves :
    (k : ℕ) (e : Event) (s : Connection)
    → Attended s.attempt s.waiters
    → Serves k (count_asks k (e ∷ [])) s (handle e s)
unfolding handle
handle-Serves k (asks c) s h = connect-Serves k (c ∷ []) s h
handle-Serves k (dial_succeeds conn ch) s h = ground (arith, count_served-answers k ch s.waiters)
handle-Serves k (dial_fails conn ch) s h = ground (arith, count_served-rejects k s.waiters)
handle-Serves k delay_ends s h = ground arith
handle-Serves k (connection_closes conn) s h = ground arith
handle-Serves k timer_fires s h =
    ground (arith, connect-Serves k [] (record s { reconnect_timer = false }))
handle-Serves k close s h = ground arith

count_asks-cons :
    (k : ℕ) (e : Event) (events : List Event)
    → count_asks k (e ∷ events) ≡ count_asks k (e ∷ []) + count_asks k events
count_asks-cons k (asks c) events = omega arith
count_asks-cons k _ events = omega arith

run-Serves :
    (k : ℕ) (events : List Event) (s : Connection)
    → Attended s.attempt s.waiters
    → Serves k (count_asks k events) s (run events s)
unfolding run
run-Serves k [] s h = (h, omega arith)
run-Serves k (e ∷ events) s h =
    let (h', here) = handle-Serves k e s h in
    let (last, later) = run-Serves k events (handle e s).0 h' in
    (
      last,
      omega (
        arith,
        here,
        later,
        count_asks-cons k e events,
        count_served-append k (handle e s).1 (run events (handle e s).0).1,
      ),
    )

-- Whatever happens to the connection, each caller gets as many answers, with a channel or a rejection, as
-- it has called `getChannel`, less the calls with which it still waits; so nobody is answered in
-- another's place. And callers wait only while an attempt to connect is under way.
pub run-serves :
    (k : ℕ) (events : List Event)
    → let (s, effects) = run events initial in
      (count_asks k events ≡ count_served k effects + times k s.waiters)
      × Attended s.attempt s.waiters
run-serves k events =
    let (h, served) = run-Serves k events initial refl in (omega (arith, served), h)
