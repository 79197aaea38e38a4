-- ===== src/ResponseCache/Replies.antt =====
-- What the requests that wait are told, and a flight that never lands.
use code_warzz.ResponseCache.{
  Flight, Cache, missing, Effect, sent, unavailable, completed, thrown, put, arrive, coalesce,
  after_lookup, is_success, respond_failure, respond,
}
use code_warzz.ResponseCache.Singleflight.{in_flight}
use code_warzz.Prelude.{
  ℕ, zero, suc, ◌+◌, ◌*◌, ◌<◌, ◌≡◌, refl, ap, ◌∙◌, inl, inr, Bool, true, false, ◌&&◌, none, some,
  List, [], ◌∷◌, ◌++◌, map, arith, ◌==◌, if◌then◌else◌, ==_refl, Bool-cases, get_elem?, any,
}

-- the reply that a waiting request gets: the body after a success, or else 503
abbrev pub is_reply : Bool → ℕ → ℕ → Effect → Bool
is_reply true w body (sent id b) = id == w && b == body
is_reply false w body (unavailable id) = id == w
is_reply _ w body _ = false

sent-reply :
    (w body i : ℕ) (ws : List ℕ) (rest : List Effect)
    → get_elem? ws i ≡ some w
    → any (is_reply true w body) (map (λ v. sent v body) ws ++ rest) ≡ true
sent-reply w body i [] rest e = cc
sent-reply w body zero (v ∷ ws) rest e = ground (arith, ==_refl body)
sent-reply w body (suc i) (v ∷ ws) rest e = ground (arith, sent-reply w body i ws rest)

unavailable-reply :
    (w body i : ℕ) (ws : List ℕ) (rest : List Effect)
    → get_elem? ws i ≡ some w
    → any (is_reply false w body) (map unavailable ws ++ rest) ≡ true
unavailable-reply w body i [] rest e = cc
unavailable-reply w body zero (v ∷ ws) rest e = ground arith
unavailable-reply w body (suc i) (v ∷ ws) rest e =
    ground (arith, unavailable-reply w body i ws rest)

failure-replies :
    (w body i leader key : ℕ) (waiters : List ℕ) (c : Cache)
    → get_elem? waiters i ≡ some w
    → let r = respond_failure leader key body waiters c in
      (any (is_reply false w body) r.1 ≡ true) × (r.0.flights key ≡ none)
unfolding respond_failure put
failure-replies w body i leader key [] c e = absurd cc
failure-replies w body i leader key (v ∷ waiters) c e =
    (unavailable-reply w body i (v ∷ waiters) (completed leader key body ∷ []) e, ground arith)

-- When the service answers, every request that waits for the key is answered too, with the body after a
-- success and with 503 otherwise, and none waits any more. After a success, a later request for the
-- key gets the body at once until the entry expires, if nothing drops it.
pub respond-replies :
    (ttl key status body now i w id later : ℕ) (f : Flight) (c : Cache)
    → get_elem? f.waiters i ≡ some w
    → later < now + ttl * 1000
    → let r = respond ttl key status body now f c in
      (any (is_reply (is_success status) w body) r.1 ≡ true)
      × (r.0.flights key ≡ none)
      × ((if is_success status then (arrive true id key later r.0).1 else sent id body ∷ [])
          ≡ sent id body ∷ [])
unfolding respond arrive put
respond-replies ttl key status body now i w id later f c e l =
    let waits = f.waiters in
    let last = completed f.leader key body ∷ [] in
    elim (Bool-cases (is_success status)) [
      | inl s ↦ rw s (sent-reply w body i waits last e, ground arith, ground arith)
      | inr s ↦
          let (replied, landed) = failure-replies w body i f.leader key f.waiters c e in
          rw s (replied, landed, refl)
    ]

respond-thrown :
    (ttl key status body now : ℕ) (f : Flight) (c : Cache)
    → f.waiters ≡ []
    → is_success status ≡ false
    → respond ttl key status body now f c ≡ (c, thrown f.leader key ∷ [])
unfolding respond respond_failure
respond-thrown ttl key status body now f c none_waits s =
    rw s (ap (λ ws. respond_failure f.leader key body ws c) none_waits)

lookup-waits :
    (ttl id key now : ℕ) (f : Flight) (c : Cache)
    → c.flights key ≡ some f
    → ((after_lookup ttl id key now missing c).1 ≡ [])
      × (in_flight key (after_lookup ttl id key now missing c).0 ≡ 1)
unfolding after_lookup coalesce put
lookup-waits ttl id key now f c e = (ground arith, ground arith)

-- A failure that the service answers when no other request waits is not sent on, and the flight stays:
-- later requests for the key that find nothing in the caches get no answer then, but wait.
pub respond-stuck :
    (ttl key status body now id then_now : ℕ) (f : Flight) (c : Cache)
    → c.flights key ≡ some f
    → f.waiters ≡ []
    → is_success status ≡ false
    → let r = respond ttl key status body now f c in
      (r ≡ (c, thrown f.leader key ∷ []))
      × ((after_lookup ttl id key then_now missing r.0).1 ≡ [])
      × (in_flight key (after_lookup ttl id key then_now missing r.0).0 ≡ 1)
respond-stuck ttl key status body now id then_now f c e none_waits s =
    let stuck = respond-thrown ttl key status body now f c none_waits s in
    let (silent, stays) = lookup-waits ttl id key then_now f c e in
    (
      stuck,
      ap (λ (r : Cache × List Effect). (after_lookup ttl id key then_now missing r.0).1) stuck
          ∙ silent,
      ap
            (λ (r : Cache × List Effect).
              in_flight key (after_lookup ttl id key then_now missing r.0).0)
            stuck
          ∙ stays,
    )
