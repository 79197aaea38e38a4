-- ===== src/Queue/Connection/Examples.antt =====
-- A caller of a connection that is down: two failures, an answer; ten failures; and a shutdown.
use code_warzz.Queue.Connection.{
  Connection, dialling, Event, asks, dial_succeeds, dial_fails, timer_fires, connection_closes,
  dials, answers, rejects, waits, run, initial,
}
use code_warzz.Queue.Connection.Callers.{times, count_asks, count_served, Attended, run-serves}
use code_warzz.Queue.Connection.Attempts.{failures, tries, run-connects, run-lost}
use code_warzz.Prelude.{◌+◌, ◌≡◌, refl, none, some, List, [], ◌∷◌, ◌++◌, arith}

abbrev two_failures : List Event
two_failures = asks 7 ∷ (failures 2 ++ dial_succeeds 1 2 ∷ [])

effects_of_two :
    (run two_failures initial).1
    ≡ dials ∷ waits 3000 ∷ dials ∷ waits 6000 ∷ dials ∷ answers 7 2 ∷ []
unfolding run
effects_of_two = refl

reconnects :
    (run (connection_closes 1 ∷ timer_fires ∷ []) (run two_failures initial).0).1 ≡ dials ∷ []
unfolding run
reconnects = refl

run-connects_example :
    ((run two_failures initial).1 ≡ dials ∷ (tries 0 2 ++ answers 7 2 ∷ []))
    × ((run two_failures initial).0.channel ≡ some 2)
run-connects_example = run-connects 2 7 1 2 initial refl refl (omega arith)

abbrev last_round : Connection
last_round = record initial { attempt = dialling 9; waiters = 7 ∷ 8 ∷ [] }

run-lost_example :
    run (dial_fails none none ∷ timer_fires ∷ connection_closes 1 ∷ []) last_round
    ≡ (initial, rejects 7 ∷ rejects 8 ∷ [])
run-lost_example =
    run-lost none (timer_fires ∷ connection_closes 1 ∷ []) last_round refl refl refl refl
      (tt, (tt, tt))

run-serves_example :
    let (s, effects) = run two_failures initial in
    (count_asks 7 two_failures ≡ count_served 7 effects + times 7 s.waiters)
    × Attended s.attempt s.waiters
run-serves_example = run-serves 7 two_failures
