-- ===== src/RateLimit/Core.antt =====
-- The token bucket of core/src/middlewares/rateLimiter.middleware.ts. Times are milliseconds, a refill
-- rate is so many tokens a minute, and tokens are counted in 1 / 60000, so that nothing is rounded.
-- A clock that goes back takes tokens away: their number is signed.
use code_warzz.Prelude.Int.{ℤ, pos, pos_part, neg_part, sub_ℕ, ◌+ℤ◌, ◌-ℤ◌}
use code_warzz.Prelude.{
  ℕ, ◌+◌, ◌*◌, Bool, true, false, Option, none, some, leb, ◌==◌, if◌then◌else◌,
}

-- `RateLimitRule`, with `refillRate = refill / 60`; the key is the position of the rule in the table
pub record RateLimitRule : Type 0 where
  pub key : ℕ
  pub max_tokens : ℕ
  pub refill : ℕ
  pub requested : Option ℕ

-- the hash that is stored
pub record Bucket : Type 0 where
  pub tokens : ℤ
  pub last_refill : ℕ

abbrev pub leb_ℤ : ℤ → ℤ → Bool
leb_ℤ a b = leb (pos_part a + neg_part b) (pos_part b + neg_part a)

-- `math.min`
abbrev pub min_ℤ : ℤ → ℤ → ℤ
min_ℤ a b = if leb_ℤ a b then a else b

-- the tokens before the request, lines 16 to 23 of the script
unfoldable pub level : RateLimitRule → ℕ → Option Bucket → ℤ
unfolding ◌+ℤ◌
level rule now none = pos (60000 * rule.max_tokens)
level rule now (some b) =
    min_ℤ (pos (60000 * rule.max_tokens))
      (b.tokens +ℤ sub_ℕ (now * rule.refill) (b.last_refill * rule.refill))

-- `rule.requested || 1`
abbrev pub requested_or_one : Option ℕ → ℕ
requested_or_one none = 1
requested_or_one (some n) = if n == 0 then 1 else n

-- `checkRateLimit` with `TOKEN_BUCKET_SCRIPT`: both branches store
unfoldable pub check_rate_limit : RateLimitRule → ℕ → Option Bucket → Bucket × Bool
unfolding level ◌-ℤ◌
check_rate_limit rule now stored =
    let tokens = level rule now stored in
    let requested = pos (60000 * requested_or_one rule.requested) in
    if leb_ℤ requested tokens
    then (record { tokens = tokens -ℤ requested; last_refill = now }, true)
    else (record { tokens = tokens; last_refill = now }, false)

-- `next()`, or 429
pub data Answer : Type 0 where
  passed refused : Answer

-- `distributedRateLimiter`, once the rule is found; `throws` says that the script fails
unfoldable pub distributed_rate_limiter :
    Option RateLimitRule → Bool → ℕ → Option Bucket → Option Bucket × Answer
unfolding check_rate_limit
distributed_rate_limiter none throws now stored = (stored, passed)
distributed_rate_limiter (some rule) throws now stored =
    let (bucket, allowed) = check_rate_limit rule now stored in
    if throws then (stored, passed) else (some bucket, if allowed then passed else refused)
