-- ===== src/Sandbox/Judge.antt =====
-- evaluation-service/src/sandbox/runSandbox.ts, and how executor.ts classifies a failed run.
use code_warzz.Prelude.{
  ℕ, ◌+◌, ◌*◌, ◌/◌, max, Bool, true, false, not, ◌&&◌, ◌||◌, Option, none, some, List, [], ◌∷◌,
  ◌++◌, ◌==◌, if◌then◌else◌, get_or, length,
}
use code_warzz.Sandbox.Compare.{Text, trim, compare_output}

pub data Verdict : Type 0 where
  ac wa tle mle re ce : Verdict

abbrev pub is_ac : Verdict → Bool
is_ac ac = true
is_ac _ = false

-- what `execFileSync` throws
pub record ExecError : Type 0 where
  pub killed : Bool
  pub sigterm : Bool
  pub etimedout : Bool
  pub status : Option ℕ

abbrev pub has_status : ℕ → Option ℕ → Bool
has_status n none = false
has_status n (some m) = m == n

-- the `catch` of `execute`: the message of the error that it throws
unfoldable pub execute_error : ExecError → Verdict
execute_error e =
    if e.killed || e.sigterm || e.etimedout || has_status 124 e.status
    then tle
    else if has_status 137 e.status
    then mle
    else re

-- `Math.ceil(timeLimitMs / 1000) + 2`, in seconds
unfoldable pub time_limit_in_seconds : ℕ → ℕ
time_limit_in_seconds time_limit_ms = (time_limit_ms + 999) / 1000 + 2

-- the `timeout` given to Docker, in milliseconds
unfoldable pub docker_timeout : ℕ → ℕ
unfolding time_limit_in_seconds
docker_timeout time_limit_ms = max 30000 ((time_limit_in_seconds time_limit_ms + 10) * 1000)

pub record Testcase : Type 0 where
  pub input : Text
  pub output : Text

-- What the runner left for one test case. No `exit_code` file: it did not run to its end; inside,
-- `none` is what `parseInt` cannot read.
pub record RunFiles : Type 0 where
  pub exit_code : Option (Option ℕ)
  pub stdout : Option Text
  pub stderr : Option Text

pub record SingleTestcaseResult : Type 0 where
  pub testcase : Testcase
  pub actual_output : Option Text
  pub verdict : Verdict
  pub error : Option Text

pub record SandboxResult : Type 0 where
  pub verdict : Verdict
  pub passed : ℕ
  pub total : ℕ
  pub time_taken_ms : ℕ
  pub error : Option Text
  pub actual_output : Option Text
  pub expected_output : Option Text
  pub last_executed_test_case : Option Testcase
  pub testcase_results : Option (List SingleTestcaseResult)

-- The batch's verdict: only a time-out is told apart.
unfoldable pub batch_verdict : Option Verdict → Verdict
batch_verdict none = ac
batch_verdict (some tle) = tle
batch_verdict (some _) = re

abbrev pub trimmed : Option Text → Option Text
trimmed none = none
trimmed (some s) = some (trim s)

-- the verdict of a test case whose runner wrote an exit code
abbrev pub exit_verdict : Option ℕ → Option Text → Testcase → Verdict
exit_verdict none actual tc = re
exit_verdict (some code) actual tc =
    if code == 0 then (if compare_output (get_or actual []) tc.output then ac else wa) else re

-- one round of the analysis
unfoldable pub judge_testcase : Verdict → Testcase → RunFiles → SingleTestcaseResult
judge_testcase batch tc files = elim (files.exit_code) [
  | none ↦ record {
    testcase = tc;
    actual_output = none;
    verdict = if is_ac batch then re else batch;
    error = none;
  }
  | some code ↦ record {
    testcase = tc;
    actual_output = trimmed files.stdout;
    verdict = exit_verdict code (trimmed files.stdout) tc;
    error = files.stderr;
  }
]

-- the variables of the loop
pub record Analysis : Type 0 where
  pub passed : ℕ
  pub first_failed : Option SingleTestcaseResult
  pub results : List SingleTestcaseResult

abbrev pub first_of : Option SingleTestcaseResult → SingleTestcaseResult → SingleTestcaseResult
first_of none r = r
first_of (some f) r = f

unfoldable pub record_result : SingleTestcaseResult → Analysis → Analysis
record_result r a =
    if is_ac r.verdict
    then record a { passed = a.passed + 1; results = a.results ++ r ∷ [] }
    else record a { first_failed = some (first_of a.first_failed r); results = a.results ++ r ∷ [] }

-- the loop over the test cases; without `runAllTestcases` it stops behind the first failure
unfoldable pub analyze : Bool → Verdict → List (Testcase × RunFiles) → Analysis → Analysis
analyze run_all batch [] a = a
analyze run_all batch ((tc, files) ∷ rest) a =
    let r = judge_testcase batch tc files in
    let go_on = analyze run_all batch rest (record_result r a) in
    if not run_all && not (is_ac r.verdict) then record_result r a else go_on

abbrev pub start : Analysis
start = record { passed = 0; first_failed = none; results = [] }

abbrev pub verdict_of : Option SingleTestcaseResult → Verdict
verdict_of none = ac
verdict_of (some r) = r.verdict

abbrev pub option_bind {ℓ κ} : {A : Type ℓ} {B : Type κ} → Option A → (A → Option B) → Option B
option_bind none f = none
option_bind (some a) f = f a

-- `runSandbox`: the compiler's error if it fails, how the batch ended, what it left behind for each
-- test case, and the time that it took
unfoldable pub run_sandbox :
    Option Text → Option Verdict → List (Testcase × RunFiles) → ℕ → Bool → SandboxResult
unfolding batch_verdict analyze
run_sandbox (some message) thrown tests elapsed run_all = record {
  verdict = ce;
  passed = 0;
  total = length tests;
  time_taken_ms = 0;
  error = some message;
  actual_output = none;
  expected_output = none;
  last_executed_test_case = none;
  testcase_results = none;
}
run_sandbox none thrown tests elapsed run_all =
    let a = analyze run_all (batch_verdict thrown) tests start in
    record {
      verdict = verdict_of a.first_failed;
      passed = a.passed;
      total = length tests;
      time_taken_ms = elapsed;
      error = option_bind a.first_failed (λ r. r.error);
      actual_output = option_bind a.first_failed (λ r. r.actual_output);
      expected_output = option_bind a.first_failed (λ r. some r.testcase.output);
      last_executed_test_case = option_bind a.first_failed (λ r. some r.testcase);
      testcase_results = if run_all then some a.results else none;
    }
