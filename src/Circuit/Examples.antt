-- ===== src/Circuit/Examples.antt =====
-- The breaker of the evaluation service (threshold 3, 15 s, 2 attempts) on concrete runs.
use code_warzz.Prelude.{◌≡◌, refl, true, some, [], ◌∷◌, arith}
use code_warzz.Circuit.{CircuitBreaker, CircuitBreakerOptions, opened, create, on_failure}
use code_warzz.Circuit.Invariant.{succeeded, failed, forced_to, IsSound, run, run-IsSound}
use code_warzz.Circuit.Recovery.{fail_times}

abbrev core_api : CircuitBreakerOptions
core_api = record { failure_threshold = 3; recovery_timeout_ms = 15000; half_open_max_attempts = 2 }

abbrev tripped : CircuitBreaker
tripped = record {
  state = opened;
  failure_count = 3;
  success_count = 0;
  last_failure_time = some 1000;
  options = core_api;
}

tripped_by_failures : fail_times 3 1000 (create core_api) ≡ tripped
unfolding fail_times create on_failure
tripped_by_failures = refl

run-IsSound_example :
    IsSound core_api (run (failed true 5 ∷ succeeded ∷ forced_to opened 9 ∷ []) (create core_api))
run-IsSound_example =
    run-IsSound core_api (failed true 5 ∷ succeeded ∷ forced_to opened 9 ∷ []) (omega arith)
