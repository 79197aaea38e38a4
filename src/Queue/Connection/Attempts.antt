-- ===== src/Queue/Connection/Attempts.antt =====
-- How long the connection tries, and the two states it does not come back from.
use code_warzz.Queue.Connection.{
  idle, dialling, delaying, Connection, Event, asks, dial_succeeds, dial_fails, delay_ends, close,
  Effect, dials, answers, rejects, waits, connect, handle, run, assigned, max_retries,
  retry_delay_ms,
}
use mathlib.Core.List.{append-nil, append_assoc}
use code_warzz.Prelude.{
  ℕ, zero, suc, ◌+◌, ◌-◌, ◌*◌, ◌<◌, ◌≡◌, refl, sym, ap, ◌∙◌, true, false, Option, none, some, List,
  [], ◌∷◌, ◌++◌, map, arith, All,
}

-- `n` failures of a round, each with the delay behind it
abbrev pub failures : ℕ → List Event
failures zero = []
failures (suc n) = dial_fails none none ∷ delay_ends ∷ failures n

-- the effects of `n` such rounds behind `r` of them
abbrev pub tries : ℕ → ℕ → List Effect
tries r zero = []
tries r (suc n) = waits (retry_delay_ms * (r + 1)) ∷ dials ∷ tries (r + 1) n

run-append :
    (xs ys : List Event) (s : Connection)
    → run (xs ++ ys) s ≡ ((run ys (run xs s).0).0, (run xs s).1 ++ (run ys (run xs s).0).1)
unfolding run
run-append [] ys s = refl
run-append (x ∷ xs) ys s =
    let (s', effects) = handle x s in
    let ih = run-append xs ys (handle x s).0 in
    rw ih (
      ap (λ l. ((run ys (run xs (handle x s).0).0).0, l))
        (sym (
          append_assoc (handle x s).1 (run xs (handle x s).0).1
            (run ys (run xs (handle x s).0).0).1)))

-- one failure that is not the last, and the delay behind it
module _ (r : ℕ) (s : Connection) (e : s.attempt ≡ dialling r) (h : r + 1 < max_retries) where
  failed :
      handle (dial_fails none none) s
      ≡ (record s { attempt = delaying (r + 1) }, waits (retry_delay_ms * (r + 1)) ∷ [])
  unfolding handle
  failed = ground arith

  delayed :
      handle delay_ends (handle (dial_fails none none) s).0
      ≡ (record s { attempt = dialling (r + 1) }, dials ∷ [])
  delayed = rw failed (unfold handle in refl)

run-failures :
    (n r : ℕ) (s : Connection)
    → s.attempt ≡ dialling r
    → r + n < max_retries
    → run (failures n) s ≡ (record s { attempt = dialling (r + n) }, tries r n)
unfolding run
run-failures zero r s e h = ground arith
run-failures (suc n) r s e h =
    let next = record s { attempt = dialling (r + 1) } in
    let more = run-failures n (r + 1) next refl (omega arith) in
    let sum : r + 1 + n ≡ r + suc n = omega arith in
    rw (delayed r s e (omega arith), failed r s e (omega arith), more, sum) refl

-- A caller of a connection that is down is answered as long as one of the first ten rounds succeeds: `n`
-- rounds fail before it, with 3 s, 6 s and so on to wait behind them.
pub run-connects :
    (n c conn ch : ℕ) (s : Connection)
    → s.channel ≡ none
    → s.attempt ≡ idle
    → n < max_retries
    → ((run (asks c ∷ (failures n ++ dial_succeeds conn ch ∷ [])) s).1
        ≡ dials ∷ (tries 0 n ++ answers c ch ∷ []))
      × ((run (asks c ∷ (failures n ++ dial_succeeds conn ch ∷ [])) s).0.channel ≡ some ch)
unfolding run
run-connects n c conn ch s down free few =
    let trying = record s { attempt = dialling 0; waiters = c ∷ [] } in
    let asked : handle (asks c) s ≡ (trying, dials ∷ []) = unfold handle connect in ground arith in
    let open_again = record trying {
      connection = some conn;
      channel = some ch;
      attempt = idle;
      waiters = [];
      listened = conn ∷ s.listened;
    } in
    let tried = run-failures n 0 trying refl (omega arith) in
    let last : run (failures n ++ dial_succeeds conn ch ∷ []) trying
        ≡ (open_again, tries 0 n ++ answers c ch ∷ []) =
      run-append (failures n) (dial_succeeds conn ch ∷ []) trying
      ∙ rw tried (unfold handle in refl) in
    let whole : run (asks c ∷ (failures n ++ dial_succeeds conn ch ∷ [])) s
        ≡ (open_again, dials ∷ (tries 0 n ++ answers c ch ∷ [])) =
      rw (asked, last) refl in
    (ap (λ r. r.1) whole, ap (λ r. r.0.channel) whole)

-- the tenth failure
run-gives_up :
    (s : Connection) (opened : Option ℕ)
    → s.attempt ≡ dialling (max_retries - 1)
    → handle (dial_fails opened none) s ≡ (
      record s { connection = assigned opened s.connection; attempt = idle; waiters = [] },
      map rejects s.waiters,
    )
unfolding handle
run-gives_up s opened e = ground arith

-- the events that nobody outside the connection causes
abbrev pub IsOwn : Event → Type 0
IsOwn (asks c) = ⊥
IsOwn close = ⊥
IsOwn _ = Unit

abbrev pub IsDown : Connection → Type 0
IsDown s = (s.channel ≡ none) × (s.attempt ≡ idle) × (s.reconnect_timer ≡ false) × (s.listened ≡ [])

handle-down : (e : Event) (s : Connection) → IsDown s → IsOwn e → handle e s ≡ (s, [])
unfolding handle
handle-down (asks c) s d o = absurd o
handle-down close s d o = absurd o
handle-down _ s d o = ground arith

-- A connection that is down and that nothing is under way for stays as it is.
run-stays_down :
    (events : List Event) (s : Connection) → IsDown s → All IsOwn events → run events s ≡ (s, [])
unfolding run
run-stays_down [] s d o = refl
run-stays_down (e ∷ events) s d (p, o) = rw (handle-down e s d p, run-stays_down events s d o) refl

-- When the tenth round of a connection that is down fails, everybody who waits is rejected, and it stays
-- down until somebody asks for a channel: neither a timer nor a 'close' event is left that could start
-- another attempt.
pub run-lost :
    (opened : Option ℕ) (events : List Event) (s : Connection)
    → s.channel ≡ none
    → s.reconnect_timer ≡ false
    → s.listened ≡ []
    → s.attempt ≡ dialling (max_retries - 1)
    → All IsOwn events
    → run (dial_fails opened none ∷ events) s ≡ (
      record s { connection = assigned opened s.connection; attempt = idle; waiters = [] },
      map rejects s.waiters,
    )
unfolding run
run-lost opened events s c t l e o =
    let lost = record s {
      connection = assigned opened s.connection;
      attempt = idle;
      waiters = [];
    } in
    rw (run-gives_up s opened e, run-stays_down events lost (c, refl, t, l) o)
      (ap (λ l. (lost, l)) (append-nil (map rejects s.waiters)))

-- `close` does not stop an attempt that is under way: when it succeeds, the connection is open again,
-- though it is shutting down, and nothing will close it.
pub close-reopened :
    (r conn ch : ℕ) (s : Connection)
    → s.attempt ≡ dialling r
    → let s' = (run (close ∷ dial_succeeds conn ch ∷ []) s).0 in
      (s'.shutting_down ≡ true) × (s'.connection ≡ some conn) × (s'.channel ≡ some ch)
unfolding run handle
close-reopened r conn ch s e = ground arith
