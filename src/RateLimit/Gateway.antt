-- ===== src/RateLimit/Gateway.antt =====
-- api-gateway/src/middlewares/rateLimiter.ts. Times are whole seconds, as the source rounds them; a
-- refill rate is so many tokens a minute, and tokens are counted in sixtieths, so that nothing is
-- rounded. An entry that expires is gone, as for a client that is new.
use code_warzz.Prelude.{
  ℕ, ◌+◌, ◌-◌, ◌*◌, ◌/◌, min, Bool, ◌||◌, Option, none, some, ltb, leb, if◌then◌else◌,
}

-- `RateLimitConfig`, with `refillRate = refill / 60`
pub record RateLimitConfig : Type 0 where
  pub max_tokens : ℕ
  pub refill : ℕ

-- `DEFAULT_CONFIG`
abbrev pub default_config : RateLimitConfig
default_config = record { max_tokens = 50; refill = 50 }

-- the JSON that is stored
pub record Bucket : Type 0 where
  pub tokens : ℕ
  pub last_refill : ℕ

-- the bucket after the refill, lines 22 to 37 of the script
unfoldable pub refilled : RateLimitConfig → ℕ → Option Bucket → Bucket
refilled c now none = record { tokens = 60 * c.max_tokens; last_refill = now }
refilled c now (some b) =
    if ltb b.last_refill now
    then record {
      tokens = min (60 * c.max_tokens) (b.tokens + (now - b.last_refill) * c.refill);
      last_refill = now;
    }
    else b

-- `RATE_LIMIT_SCRIPT`: what is stored then, and the answer, `none` for -1
unfoldable pub rate_limit : RateLimitConfig → ℕ → Option Bucket → Option Bucket × Option ℕ
unfolding refilled
rate_limit c now stored =
    let b = refilled c now stored in
    if leb 60 b.tokens
    then (some (record b { tokens = b.tokens - 60 }), some ((b.tokens - 60) / 60))
    else (stored, none)

-- `next()`, with the tokens of the header, or 429
pub data Answer : Type 0 where
  passed : Option ℕ → Answer
  refused : Answer

-- `rateLimiter`; `throws` says that the script fails
unfoldable pub rate_limiter :
    RateLimitConfig → Bool → Bool → ℕ → Option Bucket → Option Bucket × Answer
unfolding rate_limit
rate_limiter c is_test throws now stored =
    let result = rate_limit c now stored in
    if is_test || throws
    then (stored, passed none)
    else elim result.1 [ none ↦ (result.0, refused) | some left ↦ (result.0, passed (some left)) ]
