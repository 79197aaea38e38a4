-- ===== src/Gateway/Examples.antt =====
-- Requests of the live standings, and three streams of which one is closed.
use code_warzz.Gateway.Events.{
  Event, opens, message, interval, closes, connected, update, heartbeat, run, started,
}
use code_warzz.Gateway.Delivery.{closed, frames_to, view_run, run-delivers}
use code_warzz.Gateway.{api, v1}
use code_warzz.Gateway.Chain.{Incoming, serve, serve_all, respond, serve_all-bounded}
use code_warzz.RateLimit.Gateway.{RateLimitConfig, rate_limiter}
use code_warzz.RateLimit.Core.{distributed_rate_limiter}
use code_warzz.RateLimit.Rules.{post, starts_with}
use code_warzz.Auth.Csrf.{absent}
use code_warzz.Bloom.{Bitmaps}
use code_warzz.Prelude.{
  ℕ, ◌+◌, ◌*◌, ◌≤◌, ◌≡◌, refl, Bool, true, false, not, ◌&&◌, ◌||◌, none, some, List, [], ◌∷◌, arith,
  ◌==◌,
}

abbrev day : List Event
day =
    opens 1 50
    ∷ opens 2 50
    ∷ opens 3 51
    ∷ message true 50
    ∷ interval 1
    ∷ message false 50
    ∷ closes 1
    ∷ message true 50
    ∷ interval 1
    ∷ []

frames_of_first : frames_to 1 (run day started).1 ≡ connected 50 ∷ update ∷ heartbeat ∷ []
unfolding run
frames_of_first = refl

run-delivers_example : frames_to 1 (run day started).1 ≡ (view_run 1 day closed).1
unfolding view_run
run-delivers_example = run-delivers 1 day (
  λ e. refl,
  (λ e. absurd (omega arith), (λ e. absurd (omega arith), (tt, (tt, (tt, (tt, (tt, (tt, tt)))))))),
)

abbrev bitmaps : Bitmaps
bitmaps = record {
  Db = ℕ → ℕ → Bool;
  getbit = λ k o db. db k o;
  setbit = λ k o db key offset. (key == k && offset == o) || db key offset;
  del = λ k db key offset. not (key == k) && db key offset;
  getbit-setbit = λ k o key offset db. refl;
  getbit-del = λ k key offset db. refl;
}

abbrev probe : ℕ → Incoming
probe t = record {
  is_test = false;
  limiter_throws = false;
  seconds = t;
  rule = none;
  rule_throws = false;
  milliseconds = 1000 * t;
  random = 5;
  csrf = record {
    method = post;
    path = [];
    csrf_cookie = some 4;
    internal_api_key = none;
    is_bearer = false;
    csrf_header = some 3;
    csrf_field = absent;
  };
  ids = record {
    contest_match = none;
    problem_match = none;
    is_test = false;
    throws = false;
    errs = λ o. false;
  };
  is_get = false;
  path = api ∷ v1 ∷ [];
}

abbrev two_tokens : RateLimitConfig
two_tokens = record { max_tokens = 2; refill = 6 }

-- Three probes with a wrong token: two fail the check, the third is limited.
probed :
    serve_all bitmaps none two_tokens
      (probe 0 ∷ probe 1 ∷ probe 2 ∷ [])
      (λ k o. false)
      (record { bucket = none; rule_bucket = none })
    ≡ (record { bucket = some (record { tokens = 6; last_refill = 1 }); rule_bucket = none }, 2)
unfolding serve_all serve rate_limiter distributed_rate_limiter respond starts_with
probed = refl

serve_all-bounded_example :
    60
      * (serve_all bitmaps none two_tokens
          (probe 0 ∷ probe 1 ∷ probe 2 ∷ [])
          (λ k o. false)
          (record { bucket = none; rule_bucket = none })).1
    ≤ 60 * 2 + 5 * 6
serve_all-bounded_example =
    serve_all-bounded bitmaps none two_tokens (probe 0) (probe 1 ∷ probe 2 ∷ []) (λ k o. false) none
      5 (refl, refl) ((refl, refl), ((refl, refl), tt)) (omega arith)
