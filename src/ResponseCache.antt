-- ===== src/ResponseCache.antt =====
-- api-gateway/src/middlewares/cache.ts: the cache of answers with its coalescing of requests. What Redis
-- answers is an input, and the LRU library may drop an entry at any time. Times are milliseconds.
mod Singleflight
mod Replies
mod Examples
use code_warzz.Prelude.{
  ℕ, ◌+◌, ◌*◌, Bool, ◌&&◌, Option, none, some, List, [], ◌∷◌, ◌++◌, map, ltb, leb, ◌==◌,
  if◌then◌else◌,
}

pub record Entry : Type 0 where
  pub body : ℕ
  pub expires_at : ℕ

-- an entry of `inFlightRequests`: who asks the service, and the listeners of its emitter
pub record Flight : Type 0 where
  pub leader : ℕ
  pub waiters : List ℕ

pub record Cache : Type 0 where
  pub l1 : ℕ → Option Entry
  pub flights : ℕ → Option Flight

-- the answer of `redis.get`
pub data Lookup : Type 0 where
  failed missing : Lookup
  found : ℕ → Lookup

pub data Effect : Type 0 where
  passed : ℕ → ℕ → Effect  -- `next()` for a request and a key, and the cache takes no part
  asks : ℕ → ℕ → Effect  -- `redis.get` for a request and a key
  sent : ℕ → ℕ → Effect  -- a request is answered with a body
  unavailable : ℕ → Effect  -- 503
  forwarded : ℕ → ℕ → Effect  -- a request for a key goes to the service
  stored : ℕ → ℕ → Effect  -- `redis.setex` of a key
  completed : ℕ → ℕ → ℕ → Effect  -- the service's answer for a request and a key is sent on
  thrown : ℕ → ℕ → Effect  -- the replaced `res.send` of a request for a key throws

unfoldable pub put {ℓ} : {A : Type ℓ} → ℕ → Option A → (ℕ → Option A) → ℕ → Option A
put k v table key = if key == k then v else table key

abbrev pub fresh : ℕ → Option Entry → Option ℕ
fresh now none = none
fresh now (some e) = if ltb now e.expires_at then some e.body else none

-- `cacheMiddleware` up to `redis.get`
unfoldable pub arrive : Bool → ℕ → ℕ → ℕ → Cache → Cache × List Effect
arrive is_get id key now c =
    if is_get
    then elim (fresh now (c.l1 key)) [
      | some body ↦ (c, sent id body ∷ [])
      | none ↦ (c, asks id key ∷ [])
    ]
    else (c, passed id key ∷ [])

-- the request waits, or goes to the service
unfoldable pub coalesce : ℕ → ℕ → Option Flight → Cache → Cache × List Effect
unfolding put
coalesce id key (some f) c = (
  record c { flights = put key (some (record f { waiters = f.waiters ++ id ∷ [] })) c.flights },
  [],
)
coalesce id key none c = (
  record c { flights = put key (some (record { leader = id; waiters = [] })) c.flights },
  forwarded id key ∷ [],
)

-- `cacheMiddleware` behind `redis.get`; `now` is from before it
unfoldable pub after_lookup : ℕ → ℕ → ℕ → ℕ → Lookup → Cache → Cache × List Effect
unfolding put coalesce
after_lookup ttl id key now failed c = (c, passed id key ∷ [])
after_lookup ttl id key now (found body) c = (
  record c { l1 = put key (some (record { body = body; expires_at = now + ttl * 1000 })) c.l1 },
  sent id body ∷ [],
)
after_lookup ttl id key now missing c = coalesce id key (c.flights key) c

abbrev pub is_success : ℕ → Bool
is_success status = leb 200 status && ltb status 300

-- the replaced `res.send` after a failure: `emit("error")` throws if nobody listens, as the
-- documentation of Node's EventEmitter says, and the lines behind it do not run
unfoldable pub respond_failure : ℕ → ℕ → ℕ → List ℕ → Cache → Cache × List Effect
unfolding put
respond_failure leader key body [] c = (c, thrown leader key ∷ [])
respond_failure leader key body (w ∷ waiters) c = (
  record c { flights = put key none c.flights },
  map unavailable (w ∷ waiters) ++ completed leader key body ∷ [],
)

-- the replaced `res.send` of the request that went to the service
unfoldable pub respond : ℕ → ℕ → ℕ → ℕ → ℕ → Flight → Cache → Cache × List Effect
unfolding put respond_failure
respond ttl key status body now f c =
    if is_success status
    then (
      record c {
        flights = put key none c.flights;
        l1 = put key (some (record { body = body; expires_at = now + ttl * 1000 })) c.l1;
      },
      stored key body ∷ (map (λ w. sent w body) f.waiters ++ completed f.leader key body ∷ []),
    )
    else respond_failure f.leader key body f.waiters c

-- What can happen; only the leader of a flight has the replaced `res.send`.
pub data Event : Type 0 where
  arrives : Bool → ℕ → ℕ → ℕ → Event
  looked_up : ℕ → ℕ → ℕ → Lookup → Event
  responds : ℕ → ℕ → ℕ → ℕ → Event
  drops : (ℕ → Bool) → Event  -- an invalidation, or the LRU

-- the loop over the keys that contain the contest, or an eviction
abbrev pub without : (ℕ → Bool) → (ℕ → Option Entry) → ℕ → Option Entry
without dropped l1 key = if dropped key then none else l1 key

unfoldable pub respond_to : ℕ → ℕ → ℕ → ℕ → ℕ → Option Flight → Cache → Cache × List Effect
unfolding respond
respond_to ttl key status body now none c = (c, [])
respond_to ttl key status body now (some f) c = respond ttl key status body now f c

unfoldable pub step : ℕ → Event → Cache → Cache × List Effect
unfolding arrive after_lookup respond_to
step ttl (arrives is_get id key now) c = arrive is_get id key now c
step ttl (looked_up id key now lookup) c = after_lookup ttl id key now lookup c
step ttl (responds key status body now) c = respond_to ttl key status body now (c.flights key) c
step ttl (drops dropped) c = (record c { l1 = without dropped c.l1 }, [])

unfoldable pub run : ℕ → List Event → Cache → Cache × List Effect
unfolding step
run ttl [] c = (c, [])
run ttl (e ∷ events) c =
    let (c', effects) = step ttl e c in
    let (last, later) = run ttl events c' in (last, effects ++ later)
