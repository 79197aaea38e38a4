-- ===== src/RateLimit/Examples.antt =====
-- Requests of one client at the gateway and at core, and the rules of some paths.
use code_warzz.RateLimit.Gateway.{RateLimitConfig, Bucket, rate_limit}
use code_warzz.RateLimit.Bucket.{run, rate_limit-recovers}
use code_warzz.RateLimit.Core.{check_rate_limit}
use code_warzz.RateLimit.Exact.{IsOrdered, check_rate_limit-bounded}
use code_warzz.RateLimit.Exact
use code_warzz.RateLimit.Rules.{Text, post, submissions, run_suffix, submission_rule, find_rule}
use code_warzz.Prelude.{ℕ, ◌≡◌, refl, true, none, some, List, [], ◌∷◌, ◌++◌, arith, is_some}

abbrev two_a_minute : RateLimitConfig
two_a_minute = record { max_tokens = 2; refill = 2 }

-- Two requests at once, then one every half a minute.
some_refused : (run two_a_minute (100 ∷ 100 ∷ 110 ∷ 130 ∷ 131 ∷ []) none).1 ≡ 3
unfolding run rate_limit
some_refused = refl

abbrev spent : Bucket
spent = record { tokens = 0; last_refill = 100 }

rate_limit-recovers_example :
    is_some (rate_limit two_a_minute 130 (rate_limit two_a_minute 100 (some spent)).0).1 ≡ true
rate_limit-recovers_example =
    rate_limit-recovers two_a_minute 100 130 spent (omega arith) (omega arith) (omega arith)

-- Ten submissions at once and the eleventh six seconds later.
abbrev burst : List ℕ
burst = 5000 ∷ 5000 ∷ 5000 ∷ 5000 ∷ 5000 ∷ 5000 ∷ 5000 ∷ 5000 ∷ 5000 ∷ 5000 ∷ 11000 ∷ []

one_more : (Exact.run submission_rule burst none).1 ≡ 11
unfolding Exact.run check_rate_limit
one_more = refl

abbrev mount : Text
mount = b'/' ∷ b'a' ∷ b'p' ∷ b'i' ∷ b'/' ∷ b'v' ∷ b'1' ∷ []

runs_as_submission : find_rule post (mount ++ (submissions ++ run_suffix)) ≡ some submission_rule
unfolding find_rule
runs_as_submission = refl
