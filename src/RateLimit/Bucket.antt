-- ===== src/RateLimit/Bucket.antt =====
-- How many requests the gateway lets through.
use code_warzz.RateLimit.Gateway.{RateLimitConfig, Bucket, refilled, rate_limit}
use code_warzz.Prelude.{
  ℕ, ◌+◌, ◌-◌, ◌*◌, ◌≤◌, ◌<◌, ◌≡◌, refl, inl, inr, true, Option, none, some, List, [], ◌∷◌, arith,
  ltb, leb, if◌then◌else◌, Bool-cases, is_some, All,
}

-- The requests of one client at these times: what is stored then, and how many were let through.
unfoldable pub run : RateLimitConfig → List ℕ → Option Bucket → Option Bucket × ℕ
run c [] stored = (stored, 0)
run c (now ∷ times) stored =
    let result = rate_limit c now stored in
    let later = run c times result.0 in (later.0, (if is_some result.1 then 1 else 0) + later.1)

-- what can be spent up to a time: the tokens, and the refill until then
credit : RateLimitConfig → ℕ → Bucket → ℕ
credit c end b = b.tokens + (end - b.last_refill) * c.refill

mul_split :
    (last now end r : ℕ)
    → last ≤ now
    → now ≤ end
    → (end - last) * r ≡ (now - last) * r + (end - now) * r
mul_split last now end r l m = grind arith

-- The refill adds no credit.
refilled-credit :
    (c : RateLimitConfig) (now end : ℕ) (b : Bucket)
    → now ≤ end
    → b.last_refill ≤ end
    → ((refilled c now (some b)).last_refill ≤ end)
      × (credit c end (refilled c now (some b)) ≤ credit c end b)
unfolding refilled credit
refilled-credit c now end b l m = elim (Bool-cases (ltb b.last_refill now)) [
  | inl e ↦ rw e (ground arith, ground (arith, mul_split b.last_refill now end c.refill))
  | inr e ↦ rw e (m, omega arith)
]

-- A request that is let through spends a token of the credit, any other spends nothing.
rate_limit-credit :
    (c : RateLimitConfig) (now end : ℕ) (b : Bucket)
    → now ≤ end
    → b.last_refill ≤ end
    → (b' : Bucket) × ((rate_limit c now (some b)).0 ≡ some b')
      × (b'.last_refill ≤ end)
      × ((if is_some (rate_limit c now (some b)).1 then 60 else 0) + credit c end b'
          ≤ credit c end b)
unfolding rate_limit credit
rate_limit-credit c now end b l m =
    let full = refilled c now (some b) in
    let (on_time, less) = refilled-credit c now end b l m in
    elim (Bool-cases (leb 60 full.tokens)) [
      | inl e ↦ (record full { tokens = full.tokens - 60 }, rw e refl, on_time, rw e (ground arith))
      | inr e ↦ (b, rw e refl, m, rw e (omega arith))
    ]

run-credit :
    (c : RateLimitConfig) (times : List ℕ) (end : ℕ) (b : Bucket)
    → All (λ t. t ≤ end) times
    → b.last_refill ≤ end
    → 60 * (run c times (some b)).1 ≤ credit c end b
unfolding run
run-credit c [] end b h m = omega arith
run-credit c (now ∷ times) end b (l, h) m =
    let (b', stored, on_time, spent) = rate_limit-credit c now end b l m in
    rw stored (ground (arith, run-credit c times end b' h on_time))

-- Without tokens nothing is let through.
run-nothing : (c : RateLimitConfig) (times : List ℕ) → c.max_tokens ≡ 0 → (run c times none).1 ≡ 0
unfolding run rate_limit refilled
run-nothing c [] e = refl
run-nothing c (now ∷ times) e = ground (arith, run-nothing c times e)

first_request :
    (c : RateLimitConfig) (now end : ℕ)
    → 1 ≤ c.max_tokens
    → now ≤ end
    → (b : Bucket) × ((rate_limit c now none).0 ≡ some b)
      × (b.last_refill ≤ end)
      × ((if is_some (rate_limit c now none).1 then 60 else 0) + credit c end b
          ≤ 60 * c.max_tokens + (end - now) * c.refill)
unfolding rate_limit refilled credit
first_request c now end pos l =
    let enough : leb 60 (60 * c.max_tokens) ≡ true = ground arith in
    (
      record { tokens = 60 * c.max_tokens - 60; last_refill = now },
      rw enough refl,
      l,
      rw enough (omega arith),
    )

-- Of the requests of a new client within some seconds of its first one, in whatever order their times
-- arrive, at most the capacity and the refill of these seconds are let through, unless an entry expires.
pub run-bounded :
    (c : RateLimitConfig) (now seconds : ℕ) (times : List ℕ)
    → All (λ t. t ≤ now + seconds) times
    → 60 * (run c (now ∷ times) none).1 ≤ 60 * c.max_tokens + seconds * c.refill
unfolding run
run-bounded c now seconds times h = elim (Bool-cases (leb 1 c.max_tokens)) [
  | inl e ↦
      let (b, stored, on_time, spent) =
        first_request c now (now + seconds) (ground arith) (omega arith) in
      let rest = run-credit c times (now + seconds) b h on_time in rw stored (ground arith)
  | inr e ↦ let none_left = run-nothing c (now ∷ times) (ground arith) in omega (arith, none_left)
]

refilled-enough :
    (c : RateLimitConfig) (now later : ℕ) (b : Bucket)
    → 1 ≤ c.max_tokens
    → b.last_refill ≤ now
    → 60 ≤ (later - now) * c.refill
    → 60 ≤ (refilled c later (some b)).tokens
unfolding refilled
refilled-enough c now later b pos l enough =
    let ahead : now < later = positive now later c.refill (omega (arith, enough)) in
    let more = mul_split b.last_refill now later c.refill l (omega (arith, ahead)) in ground arith
  where
    positive : (now later r : ℕ) → 0 < (later - now) * r → now < later
    positive now later r h = grind arith

rate_limit-enough :
    (c : RateLimitConfig) (now : ℕ) (b : Bucket)
    → 60 ≤ (refilled c now (some b)).tokens
    → is_some (rate_limit c now (some b)).1 ≡ true
unfolding rate_limit
rate_limit-enough c now b h = ground arith

-- A client that waits until a token is refilled is let through, however many of its requests were
-- refused before.
pub rate_limit-recovers :
    (c : RateLimitConfig) (now later : ℕ) (b : Bucket)
    → 1 ≤ c.max_tokens
    → b.last_refill ≤ now
    → 60 ≤ (later - now) * c.refill
    → is_some (rate_limit c later (rate_limit c now (some b)).0).1 ≡ true
rate_limit-recovers c now later b pos l enough =
    let (b', stored, on_time, spent) = rate_limit-credit c now now b (omega arith) l in
    rw stored (rate_limit-enough c later b' (refilled-enough c now later b' pos on_time enough))
