-- ===== src/ResponseCache/Examples.antt =====
-- Requests 1, 2 and 3 for the key 9; the first goes to the service.
use code_warzz.ResponseCache.{
  Flight, Cache, missing, sent, asks, forwarded, stored, completed, arrive, respond, Event, arrives,
  looked_up, responds, run,
}
use code_warzz.ResponseCache.Singleflight.{
  is_forwarded, is_completed, is_passed, count, in_flight, run-single,
}
use code_warzz.ResponseCache.Replies.{is_reply, respond-replies}
use code_warzz.Prelude.{◌+◌, ◌≡◌, refl, true, none, List, [], ◌∷◌, arith, any}

abbrev empty : Cache
empty = record { l1 = λ key. none; flights = λ key. none }

abbrev events : List Event
events =
    arrives true 1 9 1000
    ∷ arrives true 2 9 1001
    ∷ looked_up 1 9 1000 missing
    ∷ looked_up 2 9 1001 missing
    ∷ responds 9 200 77 1050
    ∷ arrives true 3 9 2000
    ∷ []

one_request :
    (run 3 events empty).1
    ≡ asks 1 9
      ∷ asks 2 9
      ∷ forwarded 1 9
      ∷ stored 9 77
      ∷ sent 2 77
      ∷ completed 1 9 77
      ∷ sent 3 77
      ∷ []
unfolding run
one_request = refl

run-single_example :
    (in_flight 9 empty + count (is_forwarded 9) (run 3 events empty).1
      ≡ count (is_completed 9) (run 3 events empty).1 + in_flight 9 (run 3 events empty).0)
    × (count (is_passed 9) (run 3 events empty).1 ≡ 0)
run-single_example = run-single 9 3 events empty

abbrev flight : Flight
flight = record { leader = 1; waiters = 2 ∷ 4 ∷ [] }

respond-replies_example :
    let r = respond 3 9 200 77 1050 flight empty in
    (any (is_reply true 4 77) r.1 ≡ true)
    × (r.0.flights 9 ≡ none)
    × ((arrive true 3 9 2000 r.0).1 ≡ sent 3 77 ∷ [])
respond-replies_example = respond-replies 3 9 200 77 1050 1 4 3 2000 flight empty refl (omega arith)
