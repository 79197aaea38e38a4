-- ===== src/Gateway/Chain.antt =====
-- The middlewares of api-gateway/src/server.ts in their order, in front of the routes.
use code_warzz.RateLimit.Gateway.{RateLimitConfig, Bucket, rate_limiter, rate_limit}
use code_warzz.RateLimit.Core as RuleLimiter
use code_warzz.RateLimit.Core.{RateLimitRule, distributed_rate_limiter}
use code_warzz.RateLimit.Gateway as Limiter
use code_warzz.RateLimit.Bucket.{run, run-bounded}
use code_warzz.Auth.Csrf as Csrf
use code_warzz.Auth.Csrf.{CsrfRequest, CsrfAnswer, missing, mismatch, csrf_protection}
use code_warzz.Bloom.{Bitmaps}
use code_warzz.Bloom.Gateway as Shedding
use code_warzz.Bloom.Gateway.{bloom_filter_middleware}
use code_warzz.Gateway.{Reply, route}
use code_warzz.Prelude.{
  ℕ, ◌+◌, ◌*◌, ◌≤◌, ◌≡◌, refl, ap, inl, inr, Bool, false, Option, none, some, List, [], ◌∷◌, map,
  arith, if◌then◌else◌, Option-cases, is_some, All,
}

-- A request, as the middlewares see it.
pub record Incoming : Type 0 where
  pub is_test : Bool  -- NODE_ENV
  pub limiter_throws : Bool
  pub seconds : ℕ  -- the time, for the gateway's own limiter
  pub rule : Option RateLimitRule  -- of the path, for the distributed limiter
  pub rule_throws : Bool
  pub milliseconds : ℕ
  pub random : ℕ  -- a fresh CSRF token
  pub csrf : CsrfRequest
  pub ids : Shedding.Request
  pub is_get : Bool
  pub path : List ℕ

-- what Redis holds of a client
pub record Limits : Type 0 where
  pub bucket : Option Bucket
  pub rule_bucket : Option RuleLimiter.Bucket

pub data Response : Type 0 where
  too_many_requests : Response
  csrf_failure : Response
  no_such_id : Response
  replied : Reply → Response

-- the Bloom filter and the routes
abbrev pub behind_csrf : CsrfAnswer → Shedding.Answer → Reply → Response
behind_csrf missing ids reply = csrf_failure
behind_csrf mismatch ids reply = csrf_failure
behind_csrf Csrf.passed Shedding.shed reply = no_such_id
behind_csrf Csrf.passed Shedding.passed reply = replied reply

module _ (redis : Bitmaps) (configured : Option ℕ) (c : RateLimitConfig) where
  -- `csrfProtection`, `bloomFilterMiddleware` and the routes
  unfoldable pub respond : Incoming → redis.Db → Response
  unfolding csrf_protection bloom_filter_middleware route
  respond r db =
      behind_csrf (csrf_protection r.random configured r.csrf).1
        (bloom_filter_middleware redis r.ids db) (route r.is_get r.path)

  abbrev pub behind_rule : RuleLimiter.Answer → Response → Response
  behind_rule RuleLimiter.refused response = too_many_requests
  behind_rule RuleLimiter.passed response = response

  abbrev pub after_limiter :
      Limiter.Answer → Limits × Response → Limits × Response → Limits × Response
  after_limiter Limiter.refused stopped next = stopped
  after_limiter (Limiter.passed tokens) stopped next = next

  -- the two limiters; the second one is not reached by what the first one refuses
  unfoldable pub serve : Incoming → redis.Db → Limits → Limits × Response
  serve r db l =
      let first = rate_limiter c r.is_test r.limiter_throws r.seconds l.bucket in
      let second = distributed_rate_limiter r.rule r.rule_throws r.milliseconds l.rule_bucket in
      after_limiter first.1 (record l { bucket = first.0 }, too_many_requests)
        (record { bucket = first.0; rule_bucket = second.0 }, behind_rule second.1 (respond r db))

  -- the requests of one client, and how many of them come past the limiters
  abbrev pub is_served : Response → ℕ
  is_served too_many_requests = 0
  is_served _ = 1

  unfoldable pub serve_all : List Incoming → redis.Db → Limits → Limits × ℕ
  serve_all [] db l = (l, 0)
  serve_all (r ∷ rs) db l =
      let result = serve r db l in
      let later = serve_all rs db result.0 in (later.0, is_served result.1 + later.1)

  -- the limiter works for a request
  abbrev pub IsLimited : Incoming → Type 0
  IsLimited r = (r.is_test ≡ false) × (r.limiter_throws ≡ false)

  abbrev answer_of : Option ℕ → Limiter.Answer
  answer_of none = Limiter.refused
  answer_of (some left) = Limiter.passed (some left)

  rate_limiter-works :
      (now : ℕ) (b : Option Bucket)
      → rate_limiter c false false now b
        ≡ ((rate_limit c now b).0, answer_of (rate_limit c now b).1)
  unfolding rate_limiter
  rate_limiter-works now b = elim (Option-cases (rate_limit c now b).1) [
    | inl e ↦ rw e refl
    | inr (left, e) ↦ rw e refl
  ]

  is_served-le : (x : Response) → is_served x ≤ 1
  is_served-le too_many_requests = omega arith
  is_served-le _ = omega arith

  serve-spends :
      (r : Incoming) (db : redis.Db) (l : Limits)
      → IsLimited r
      → ((serve r db l).0.bucket ≡ (rate_limit c r.seconds l.bucket).0)
        × (is_served (serve r db l).1
            ≤ (if is_some (rate_limit c r.seconds l.bucket).1 then 1 else 0))
  unfolding serve
  serve-spends r db l (a, b) =
      let first = rate_limit c r.seconds l.bucket in
      let works : rate_limiter c r.is_test r.limiter_throws r.seconds l.bucket
          ≡ (first.0, answer_of first.1) =
        rw (a, b) (rate_limiter-works r.seconds l.bucket) in
      let second = distributed_rate_limiter r.rule r.rule_throws r.milliseconds l.rule_bucket in
      elim (Option-cases first.1) [
        | inl e ↦ rw (works, e) (refl, omega arith)
        | inr (left, e) ↦ rw (works, e) (refl, is_served-le (behind_rule second.1 (respond r db)))
      ]

  serve_all-run :
      (rs : List Incoming) (db : redis.Db) (l : Limits)
      → All IsLimited rs
      → (serve_all rs db l).1 ≤ (run c (map (λ r. r.seconds) rs) l.bucket).1
  unfolding serve_all run
  serve_all-run [] db l h = omega arith
  serve_all-run (r ∷ rs) db l (h, hs) =
      let (stored, few) = serve-spends r db l h in
      let rest = serve_all-run rs db (serve r db l).0 hs in
      let same = ap (λ b. (run c (map (λ (q : Incoming). q.seconds) rs) b).1) stored in
      omega (arith, few, rest, same)

  All-map :
      (rs : List Incoming) (now seconds : ℕ)
      → All (λ q. q.seconds ≤ now + seconds) rs
      → All (λ t. t ≤ now + seconds) (map (λ (q : Incoming). q.seconds) rs)
  All-map [] now seconds h = tt
  All-map (q ∷ rs) now seconds (h, hs) = (h, All-map rs now seconds hs)

  -- Of the requests of a new client within some seconds of its first one, those counted in that fail the
  -- CSRF check later or ask for an id that does not exist, at most the capacity and the refill of these
  -- seconds come past the limiters, as long as the gateway's limiter works.
  pub serve_all-bounded :
      (r : Incoming) (rs : List Incoming) (db : redis.Db) (rule_bucket : Option RuleLimiter.Bucket)
      (seconds : ℕ)
      → IsLimited r
      → All IsLimited rs
      → All (λ q. q.seconds ≤ r.seconds + seconds) rs
      → 60 * (serve_all (r ∷ rs) db (record { bucket = none; rule_bucket = rule_bucket })).1
        ≤ 60 * c.max_tokens + seconds * c.refill
  serve_all-bounded r rs db rule_bucket seconds h hs times = omega (
    arith,
    serve_all-run (r ∷ rs) db (record { bucket = none; rule_bucket = rule_bucket }) (h, hs),
    run-bounded c r.seconds seconds (map (λ (q : Incoming). q.seconds) rs)
        (All-map rs r.seconds seconds times),
  )
