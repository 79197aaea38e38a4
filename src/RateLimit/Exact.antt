-- ===== src/RateLimit/Exact.antt =====
-- How many requests core's limiter lets through.
use code_warzz.RateLimit.Core.{RateLimitRule, Bucket, level, requested_or_one, check_rate_limit}
use code_warzz.Prelude.Int.{pos, ◌+ℤ◌, ◌-ℤ◌}
use code_warzz.Prelude.{
  ℕ, ◌+◌, ◌-◌, ◌*◌, ◌≤◌, min, ◌≡◌, ap, inl, inr, Option, none, some, List, [], ◌∷◌, arith, leb,
  if◌then◌else◌, Bool-cases,
}

-- The requests of one client at these times, and how many were let through.
unfoldable pub run : RateLimitRule → List ℕ → Option Bucket → Option Bucket × ℕ
run rule [] stored = (stored, 0)
run rule (now ∷ times) stored =
    let result = check_rate_limit rule now stored in
    let later = run rule times (some result.0) in (later.0, (if result.1 then 1 else 0) + later.1)

-- The times do not decrease and do not pass the end.
abbrev pub IsOrdered : ℕ → List ℕ → ℕ → Type 0
IsOrdered now [] end = now ≤ end
IsOrdered now (t ∷ times) end = (now ≤ t) × IsOrdered t times end

-- a later time has a greater multiple, by the refill between
mul_later : (last now r : ℕ) → last ≤ now → now * r ≡ last * r + (now - last) * r
mul_later last now r l = grind arith

mul_split :
    (last now end r : ℕ)
    → last ≤ now
    → now ≤ end
    → (end - last) * r ≡ (now - last) * r + (end - now) * r
mul_split last now end r l m = grind arith

level-positive :
    (rule : RateLimitRule) (now n last : ℕ)
    → last ≤ now
    → (m : ℕ) × (level rule now (some (record { tokens = pos n; last_refill = last })) ≡ pos m)
      × (m ≤ n + (now - last) * rule.refill)
unfolding level ◌+ℤ◌
level-positive rule now n last l =
    let more = mul_later last now rule.refill l in
    (
      min (60000 * rule.max_tokens) (n + (now * rule.refill - last * rule.refill)),
      ground arith,
      omega (arith, more),
    )

-- A request that is let through spends its tokens, any other spends nothing.
check_rate_limit-credit :
    (rule : RateLimitRule) (now end n last : ℕ)
    → last ≤ now
    → now ≤ end
    → let result =
        check_rate_limit rule now (some (record { tokens = pos n; last_refill = last })) in
      (m : ℕ) × (result.0 ≡ record { tokens = pos m; last_refill = now })
      × ((if result.1 then 60000 * requested_or_one rule.requested else 0)
            + (m + (end - now) * rule.refill)
          ≤ n + (end - last) * rule.refill)
unfolding check_rate_limit ◌-ℤ◌
check_rate_limit-credit rule now end n last l k =
    let (m, e, bounded) = level-positive rule now n last l in
    let whole = mul_split last now end rule.refill l k in
    let spent = 60000 * requested_or_one rule.requested in
    elim (Bool-cases (leb spent m)) [
      | inl enough ↦ (m - spent, rw e (ground arith), rw e (ground arith))
      | inr short ↦ (m, rw e (ground arith), rw e (ground arith))
    ]

check_rate_limit-new :
    (rule : RateLimitRule) (now : ℕ)
    → check_rate_limit rule now none
      ≡ check_rate_limit rule now
          (some (record { tokens = pos (60000 * rule.max_tokens); last_refill = now }))
unfolding check_rate_limit level ◌+ℤ◌
check_rate_limit-new rule now = ground arith

run-credit :
    (rule : RateLimitRule) (times : List ℕ) (end n last : ℕ)
    → IsOrdered last times end
    → 60000
        * requested_or_one rule.requested
        * (run rule times (some (record { tokens = pos n; last_refill = last }))).1
      ≤ n + (end - last) * rule.refill
unfolding run
run-credit rule [] end n last h = omega arith
run-credit rule (now ∷ times) end n last (l, h) =
    let (m, stored, spent) =
      check_rate_limit-credit rule now end n last l (end-le now times end h) in
    rw stored (grind (arith, run-credit rule times end m now h))
  where
    end-le : (now : ℕ) (times : List ℕ) (end : ℕ) → IsOrdered now times end → now ≤ end
    end-le now [] end h = h
    end-le now (t ∷ times) end (l, h) = omega (arith, end-le t times end h)

-- Of the requests of a new client within some milliseconds of its first one, at most the capacity and
-- the refill of this time are let through, if the clock does not go back.
pub check_rate_limit-bounded :
    (rule : RateLimitRule) (now ms : ℕ) (times : List ℕ)
    → IsOrdered now times (now + ms)
    → 60000 * requested_or_one rule.requested * (run rule (now ∷ times) none).1
      ≤ 60000 * rule.max_tokens + ms * rule.refill
unfolding run
check_rate_limit-bounded rule now ms times h =
    let all =
      run-credit rule (now ∷ times) (now + ms) (60000 * rule.max_tokens) now (omega arith, h) in
    let time : now + ms - now ≡ ms = omega arith in
    rw (check_rate_limit-new rule now) (omega (arith, all, ap (λ t. t * rule.refill) time))
