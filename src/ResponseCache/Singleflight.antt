-- ===== src/ResponseCache/Singleflight.antt =====
-- One request at a time goes to the service for a key, and the others get its answer.
use code_warzz.ResponseCache.{
  Entry, Flight, Cache, Lookup, failed, missing, found, Effect, passed, sent, unavailable,
  forwarded, stored, completed, put, arrive, coalesce, after_lookup, is_success, respond_failure,
  respond, Event, arrives, looked_up, responds, drops, respond_to, step, run,
}
use code_warzz.Prelude.{
  ℕ, ◌+◌, ◌*◌, ◌≡◌, refl, ap, ◌∙◌, inl, inr, Bool, true, false, Option, none, some, List, [], ◌∷◌,
  ◌++◌, map, arith, ◌==◌, if◌then◌else◌, Bool-cases, is_some,
}

abbrev pub is_forwarded : ℕ → Effect → Bool
is_forwarded k (forwarded id key) = key == k
is_forwarded k _ = false

abbrev pub is_completed : ℕ → Effect → Bool
is_completed k (completed id key body) = key == k
is_completed k _ = false

-- how many of the effects pass the test
abbrev pub count : (Effect → Bool) → List Effect → ℕ
count test [] = 0
count test (e ∷ effects) = (if test e then 1 else 0) + count test effects

abbrev pub in_flight : ℕ → Cache → ℕ
in_flight key c = if is_some (c.flights key) then 1 else 0

count-append :
    (test : Effect → Bool) (xs ys : List Effect)
    → count test (xs ++ ys) ≡ count test xs + count test ys
count-append test [] ys = omega arith
count-append test (x ∷ xs) ys = omega (arith, count-append test xs ys)

count-sent : (k body : ℕ) (ws : List ℕ) → count (is_completed k) (map (λ w. sent w body) ws) ≡ 0
count-sent k body [] = refl
count-sent k body (w ∷ ws) = omega (arith, count-sent k body ws)

count-sent_forwarded :
    (k body : ℕ) (ws : List ℕ) → count (is_forwarded k) (map (λ w. sent w body) ws) ≡ 0
count-sent_forwarded k body [] = refl
count-sent_forwarded k body (w ∷ ws) = omega (arith, count-sent_forwarded k body ws)

count-unavailable : (k : ℕ) (ws : List ℕ) → count (is_completed k) (map unavailable ws) ≡ 0
count-unavailable k [] = refl
count-unavailable k (w ∷ ws) = omega (arith, count-unavailable k ws)

count-unavailable_forwarded :
    (k : ℕ) (ws : List ℕ) → count (is_forwarded k) (map unavailable ws) ≡ 0
count-unavailable_forwarded k [] = refl
count-unavailable_forwarded k (w ∷ ws) = omega (arith, count-unavailable_forwarded k ws)

-- what a step with these effects does to the requests for a key that are on their way
abbrev Balanced : ℕ → Cache → Cache × List Effect → Type 0
Balanced k c r =
    in_flight k c + count (is_forwarded k) r.1 ≡ count (is_completed k) r.1 + in_flight k r.0

arrive-Balanced :
    (k : ℕ) (is_get : Bool) (id key now : ℕ) (c : Cache) → Balanced k c (arrive is_get id key now c)
unfolding arrive
arrive-Balanced k is_get id key now c = ground arith

coalesce-Balanced :
    (k id key : ℕ) (o : Option Flight) (c : Cache)
    → c.flights key ≡ o
    → Balanced k c (coalesce id key o c)
unfolding coalesce put
coalesce-Balanced k id key none c e = elim (Bool-cases (k == key)) [
  | inl same ↦
      let p : k ≡ key = ground arith in
      let here : c.flights k ≡ none = ap c.flights p ∙ e in ground arith
  | inr other ↦ ground arith
]
coalesce-Balanced k id key (some f) c e = elim (Bool-cases (k == key)) [
  | inl same ↦
      let p : k ≡ key = ground arith in
      let here : c.flights k ≡ some f = ap c.flights p ∙ e in ground arith
  | inr other ↦ ground arith
]

after_lookup-Balanced :
    (k ttl id key now : ℕ) (lookup : Lookup) (c : Cache)
    → Balanced k c (after_lookup ttl id key now lookup c)
unfolding after_lookup
after_lookup-Balanced k ttl id key now failed c = omega arith
after_lookup-Balanced k ttl id key now (found body) c = omega arith
after_lookup-Balanced k ttl id key now missing c = coalesce-Balanced k id key (c.flights key) c refl

-- A flight that lands is one answer that is sent on.
landed-Balanced :
    (k key : ℕ) (f : Flight) (c : Cache) (l1 : ℕ → Option Entry) (effects : List Effect)
    → c.flights key ≡ some f
    → count (is_completed k) effects ≡ (if key == k then 1 else 0)
    → count (is_forwarded k) effects ≡ 0
    → Balanced k c (record { l1 = l1; flights = put key none c.flights }, effects)
unfolding put
landed-Balanced k key f c l1 effects e done none_new = elim (Bool-cases (k == key)) [
  | inl same ↦
      let p : k ≡ key = ground arith in
      let here : c.flights k ≡ some f = ap c.flights p ∙ e in ground arith
  | inr other ↦ ground arith
]

respond_failure-Balanced :
    (k key body : ℕ) (f : Flight) (waiters : List ℕ) (c : Cache)
    → c.flights key ≡ some f
    → Balanced k c (respond_failure f.leader key body waiters c)
unfolding respond_failure
respond_failure-Balanced k key body f [] c e = omega arith
respond_failure-Balanced k key body f (w ∷ waiters) c e =
    let last = completed f.leader key body ∷ [] in
    let replies = map unavailable (w ∷ waiters) in
    landed-Balanced k key f c c.l1 (replies ++ last) e
      (omega (arith, count-append (is_completed k) replies last, count-unavailable k (w ∷ waiters)))
      (omega (
        arith,
        count-append (is_forwarded k) replies last,
        count-unavailable_forwarded k (w ∷ waiters),
      ))

respond-Balanced :
    (k ttl key status body now : ℕ) (f : Flight) (c : Cache)
    → c.flights key ≡ some f
    → Balanced k c (respond ttl key status body now f c)
unfolding respond
respond-Balanced k ttl key status body now f c e = elim (Bool-cases (is_success status)) [
  | inr s ↦ rw s (respond_failure-Balanced k key body f f.waiters c e)
  | inl s ↦
      let last = completed f.leader key body ∷ [] in
      let replies = map (λ w. sent w body) f.waiters in
      rw s (
        landed-Balanced k key f c
          (put key (some (record { body = body; expires_at = now + ttl * 1000 })) c.l1)
          (stored key body ∷ (replies ++ last)) e
          (omega (arith, count-append (is_completed k) replies last, count-sent k body f.waiters))
          (omega (
            arith,
            count-append (is_forwarded k) replies last,
            count-sent_forwarded k body f.waiters,
          )))
]

respond_to-Balanced :
    (k ttl key status body now : ℕ) (o : Option Flight) (c : Cache)
    → c.flights key ≡ o
    → Balanced k c (respond_to ttl key status body now o c)
unfolding respond_to
respond_to-Balanced k ttl key status body now none c e = omega arith
respond_to-Balanced k ttl key status body now (some f) c e =
    respond-Balanced k ttl key status body now f c e

step-Balanced : (k ttl : ℕ) (e : Event) (c : Cache) → Balanced k c (step ttl e c)
unfolding step
step-Balanced k ttl (arrives is_get id key now) c = arrive-Balanced k is_get id key now c
step-Balanced k ttl (looked_up id key now lookup) c =
    after_lookup-Balanced k ttl id key now lookup c
step-Balanced k ttl (responds key status body now) c =
    respond_to-Balanced k ttl key status body now (c.flights key) c refl
step-Balanced k ttl (drops dropped) c = omega arith

abbrev pub is_passed : ℕ → Effect → Bool
is_passed k (passed id key) = key == k
is_passed k _ = false

-- how many requests for a key the cache takes no part in: those that are no GET, and those whose
-- lookup failed
abbrev pub bypasses : ℕ → List Event → ℕ
bypasses k [] = 0
bypasses k (arrives false id key now ∷ events) = (if key == k then 1 else 0) + bypasses k events
bypasses k (looked_up id key now failed ∷ events) = (if key == k then 1 else 0) + bypasses k events
bypasses k (_ ∷ events) = bypasses k events

count-sent_passed : (k body : ℕ) (ws : List ℕ) → count (is_passed k) (map (λ w. sent w body) ws) ≡ 0
count-sent_passed k body [] = refl
count-sent_passed k body (w ∷ ws) = omega (arith, count-sent_passed k body ws)

count-unavailable_passed : (k : ℕ) (ws : List ℕ) → count (is_passed k) (map unavailable ws) ≡ 0
count-unavailable_passed k [] = refl
count-unavailable_passed k (w ∷ ws) = omega (arith, count-unavailable_passed k ws)

respond_to-passed :
    (k ttl key status body now : ℕ) (o : Option Flight) (c : Cache)
    → count (is_passed k) (respond_to ttl key status body now o c).1 ≡ 0
unfolding respond_to respond
respond_to-passed k ttl key status body now none c = refl
respond_to-passed k ttl key status body now (some f) c = elim (Bool-cases (is_success status)) [
  | inl s ↦
      let last = completed f.leader key body ∷ [] in
      rw s (
        omega (
          arith,
          count-append (is_passed k) (map (λ w. sent w body) f.waiters) last,
          count-sent_passed k body f.waiters,
        ))
  | inr s ↦ rw s (failure f.waiters)
]
  where
    failure : (ws : List ℕ) → count (is_passed k) (respond_failure f.leader key body ws c).1 ≡ 0
    failure [] = unfold respond_failure in refl
    failure (w ∷ ws) =
        let last = completed f.leader key body ∷ [] in
        unfold respond_failure in
        omega (
          arith,
          count-append (is_passed k) (map unavailable (w ∷ ws)) last,
          count-unavailable_passed k (w ∷ ws),
        )

step-passed :
    (k ttl : ℕ) (e : Event) (c : Cache) → count (is_passed k) (step ttl e c).1 ≡ bypasses k (e ∷ [])
unfolding step arrive after_lookup coalesce
step-passed k ttl (arrives true id key now) c = ground arith
step-passed k ttl (arrives false id key now) c = ground arith
step-passed k ttl (looked_up id key now failed) c = ground arith
step-passed k ttl (looked_up id key now missing) c = ground arith
step-passed k ttl (looked_up id key now (found body)) c = ground arith
step-passed k ttl (responds key status body now) c =
    respond_to-passed k ttl key status body now (c.flights key) c
step-passed k ttl (drops dropped) c = omega arith

bypasses-cons :
    (k : ℕ) (e : Event) (events : List Event)
    → bypasses k (e ∷ events) ≡ bypasses k (e ∷ []) + bypasses k events
bypasses-cons k (arrives true id key now) events = omega arith
bypasses-cons k (arrives false id key now) events = omega arith
bypasses-cons k (looked_up id key now failed) events = omega arith
bypasses-cons k (looked_up id key now missing) events = omega arith
bypasses-cons k (looked_up id key now (found body)) events = omega arith
bypasses-cons k (responds key status body now) events = omega arith
bypasses-cons k (drops dropped) events = omega arith

run-passed :
    (k ttl : ℕ) (events : List Event) (c : Cache)
    → count (is_passed k) (run ttl events c).1 ≡ bypasses k events
unfolding run
run-passed k ttl [] c = refl
run-passed k ttl (e ∷ events) c =
    let (c', effects) = step ttl e c in
    omega (
      arith,
      step-passed k ttl e c,
      run-passed k ttl events c',
      bypasses-cons k e events,
      count-append (is_passed k) effects (run ttl events c').1,
    )

run-balanced :
    (k ttl : ℕ) (events : List Event) (c : Cache)
    → let r = run ttl events c in
      in_flight k c + count (is_forwarded k) r.1 ≡ count (is_completed k) r.1 + in_flight k r.0
unfolding run
run-balanced k ttl [] c = omega arith
run-balanced k ttl (e ∷ events) c =
    let (c', effects) = step ttl e c in
    let now = step-Balanced k ttl e c in
    let rest = run-balanced k ttl events c' in
    let later = (run ttl events c').1 in
    omega (
      arith,
      now,
      rest,
      count-append (is_forwarded k) effects later,
      count-append (is_completed k) effects later,
    )

-- Over any sequence of events: as many requests for a key have gone to the service through the cache as
-- answers for it have been sent on, with the one that is on its way, if there is one, counted too.
-- Beside these, exactly the requests that are no GET and those whose lookup failed have gone there,
-- each by itself.
pub run-single :
    (k ttl : ℕ) (events : List Event) (c : Cache)
    → let r = run ttl events c in
      (in_flight k c + count (is_forwarded k) r.1 ≡ count (is_completed k) r.1 + in_flight k r.0)
      × (count (is_passed k) r.1 ≡ bypasses k events)
run-single k ttl events c = (run-balanced k ttl events c, run-passed k ttl events c)
