-- ===== src/Sandbox/Verdicts.antt =====
-- What a verdict says of the test cases.
use mathlib.Core.List.{append_assoc, append-nil}
use code_warzz.Prelude.{
  ℕ, suc, ◌+◌, ◌≤◌, ◌≡◌, refl, sym, ap, ◌∙◌, ◌≢◌, ◌↔◌, inl, inr, Bool, true, false, Option, none,
  some, List, [], ◌∷◌, ◌++◌, map, arith, if◌then◌else◌, Bool-cases, get_or, length, All,
}
use code_warzz.Sandbox.Compare.{Text, compare_output}
use code_warzz.Sandbox.Judge.{
  Verdict, ac, tle, mle, is_ac, Testcase, RunFiles, SingleTestcaseResult, ExecError, execute_error,
  batch_verdict, judge_testcase, Analysis, record_result, analyze, start, run_sandbox, verdict_of,
  trimmed,
}

-- A test case is solved: it ran to its end with exit code 0 and printed what is expected.
abbrev pub IsSolved : Testcase × RunFiles → Type 0
IsSolved t =
    (t.1.exit_code ≡ some (some 0))
    × (compare_output (get_or (trimmed t.1.stdout) []) t.0.output ≡ true)

judge_testcase-ac_iff :
    (batch : Verdict) (t : Testcase × RunFiles)
    → ((judge_testcase batch t.0 t.1).verdict ≡ ac) ↔ IsSolved t
unfolding judge_testcase
judge_testcase-ac_iff batch t = (λ h. ground arith, λ h. ground arith)

batch_verdict-ne-mle : (thrown : Option Verdict) → batch_verdict thrown ≢ mle
unfolding batch_verdict
batch_verdict-ne-mle none = cc
batch_verdict-ne-mle (some tle) = cc
batch_verdict-ne-mle (some _) = cc

judge_testcase-ne-mle :
    (batch : Verdict) (tc : Testcase) (files : RunFiles)
    → batch ≢ mle
    → (judge_testcase batch tc files).verdict ≢ mle
unfolding judge_testcase
judge_testcase-ne-mle batch tc files h = ground arith

-- the test cases that count before the first failure, and the first failure
abbrev pub solved_prefix : Verdict → List (Testcase × RunFiles) → ℕ
solved_prefix batch [] = 0
solved_prefix batch (t ∷ ts) =
    let rest = solved_prefix batch ts in
    if is_ac (judge_testcase batch t.0 t.1).verdict then suc rest else 0

abbrev pub solved_count : Verdict → List (Testcase × RunFiles) → ℕ
solved_count batch [] = 0
solved_count batch (t ∷ ts) =
    let rest = solved_count batch ts in
    if is_ac (judge_testcase batch t.0 t.1).verdict then suc rest else rest

abbrev pub first_failure : Verdict → List (Testcase × RunFiles) → Option SingleTestcaseResult
first_failure batch [] = none
first_failure batch (t ∷ ts) =
    let rest = first_failure batch ts in
    let r = judge_testcase batch t.0 t.1 in if is_ac r.verdict then rest else some r

-- `a ?? b`
abbrev pub or_else {ℓ} : {A : Type ℓ} → Option A → Option A → Option A
or_else none b = b
or_else (some a) b = some a

record_result-results :
    (r : SingleTestcaseResult) (a : Analysis) → (record_result r a).results ≡ a.results ++ r ∷ []
unfolding record_result
record_result-results r a = ground arith

record_result-passed :
    (r : SingleTestcaseResult) (a : Analysis)
    → (record_result r a).passed ≡ (if is_ac r.verdict then a.passed + 1 else a.passed)
unfolding record_result
record_result-passed r a = ground arith

record_result-first_failed :
    (r : SingleTestcaseResult) (a : Analysis)
    → (record_result r a).first_failed
      ≡ (if is_ac r.verdict then a.first_failed else or_else a.first_failed (some r))
unfolding record_result
record_result-first_failed r a = ground arith

analyze_all-passed :
    (batch : Verdict) (ts : List (Testcase × RunFiles)) (a : Analysis)
    → (analyze true batch ts a).passed ≡ a.passed + solved_count batch ts
unfolding analyze
analyze_all-passed batch [] a = omega arith
analyze_all-passed batch (t ∷ ts) a =
    let r = judge_testcase batch t.0 t.1 in
    ground (arith, analyze_all-passed batch ts (record_result r a), record_result-passed r a)

analyze_all-results :
    (batch : Verdict) (ts : List (Testcase × RunFiles)) (a : Analysis)
    → (analyze true batch ts a).results ≡ a.results ++ map (λ t. judge_testcase batch t.0 t.1) ts
unfolding analyze
analyze_all-results batch [] a = sym (append-nil a.results)
analyze_all-results batch (t ∷ ts) a =
    let r = judge_testcase batch t.0 t.1 in
    analyze_all-results batch ts (record_result r a)
    ∙ ap (λ l. l ++ map (λ t. judge_testcase batch t.0 t.1) ts) (record_result-results r a)
    ∙ append_assoc a.results (r ∷ []) (map (λ t. judge_testcase batch t.0 t.1) ts)

analyze_early-passed :
    (batch : Verdict) (ts : List (Testcase × RunFiles)) (a : Analysis)
    → (analyze false batch ts a).passed ≡ a.passed + solved_prefix batch ts
unfolding analyze
analyze_early-passed batch [] a = omega arith
analyze_early-passed batch (t ∷ ts) a =
    let r = judge_testcase batch t.0 t.1 in
    ground (arith, analyze_early-passed batch ts (record_result r a), record_result-passed r a)

analyze-first_failed :
    (run_all : Bool) (batch : Verdict) (ts : List (Testcase × RunFiles)) (a : Analysis)
    → (analyze run_all batch ts a).first_failed ≡ or_else a.first_failed (first_failure batch ts)
unfolding analyze
analyze-first_failed run_all batch [] a = ground arith
analyze-first_failed run_all batch (t ∷ ts) a =
    let r = judge_testcase batch t.0 t.1 in
    ground (
      arith,
      analyze-first_failed run_all batch ts (record_result r a),
      record_result-first_failed r a,
    )

is_ac-eq : (v : Verdict) → is_ac v ≡ true → v ≡ ac
is_ac-eq v h = ground arith

first_failure-none_iff :
    (batch : Verdict) (ts : List (Testcase × RunFiles))
    → (verdict_of (first_failure batch ts) ≡ ac) ↔ All IsSolved ts
first_failure-none_iff batch [] = (λ e. tt, λ h. refl)
first_failure-none_iff batch (t ∷ ts) =
    let (to, from) = first_failure-none_iff batch ts in
    let (solved, back) = judge_testcase-ac_iff batch t in
    elim (Bool-cases (is_ac (judge_testcase batch t.0 t.1).verdict)) [
      | inl e ↦ rw e (λ h. (solved (is_ac-eq _ e), to h), λ h. from h.1)
      | inr e ↦ rw e (λ h. ground arith, λ h. ground (arith, back h.0))
    ]

-- A submission is accepted exactly when it compiles and every test case is solved, whether or not
-- the run stops at the first failure and however the batch ended.
pub run_sandbox-ac_iff :
    (compiled : Option Text) (thrown : Option Verdict) (tests : List (Testcase × RunFiles))
    (elapsed : ℕ) (run_all : Bool)
    → ((run_sandbox compiled thrown tests elapsed run_all).verdict ≡ ac)
      ↔ ((compiled ≡ none) × All IsSolved tests)
unfolding run_sandbox
run_sandbox-ac_iff (some m) thrown tests elapsed run_all = (λ e. cc, λ h. cc)
run_sandbox-ac_iff none thrown tests elapsed run_all =
    let batch = batch_verdict thrown in
    let (to, from) = first_failure-none_iff batch tests in
    rw (analyze-first_failed run_all batch tests start) (λ e. (refl, to e), λ h. from h.1)

solved_count-le :
    (batch : Verdict) (ts : List (Testcase × RunFiles)) → solved_count batch ts ≤ length ts
solved_count-le batch [] = omega arith
solved_count-le batch (t ∷ ts) = ground (arith, solved_count-le batch ts)

solved_prefix-le :
    (batch : Verdict) (ts : List (Testcase × RunFiles)) → solved_prefix batch ts ≤ length ts
solved_prefix-le batch [] = omega arith
solved_prefix-le batch (t ∷ ts) = ground (arith, solved_prefix-le batch ts)

-- If the code compiles: a run of all test cases counts every solved one and reports a result for
-- each, in order; a submission counts those before the first failure and reports none. The verdict
-- is that of the first failure, and no more test cases pass than there are.
pub run_sandbox-counts :
    (thrown : Option Verdict) (tests : List (Testcase × RunFiles)) (elapsed : ℕ)
    → let batch = batch_verdict thrown in
      let run = run_sandbox none thrown tests elapsed true in
      let submit = run_sandbox none thrown tests elapsed false in
      (run.passed ≡ solved_count batch tests)
      × (submit.passed ≡ solved_prefix batch tests)
      × (run.testcase_results ≡ some (map (λ t. judge_testcase batch t.0 t.1) tests))
      × (submit.testcase_results ≡ none)
      × (run.verdict ≡ verdict_of (first_failure batch tests))
      × (submit.verdict ≡ verdict_of (first_failure batch tests))
      × (run.passed ≤ run.total)
      × (submit.passed ≤ submit.total)
unfolding run_sandbox
run_sandbox-counts thrown tests elapsed =
    let batch = batch_verdict thrown in
    let all = analyze_all-passed batch tests start in
    let early = analyze_early-passed batch tests start in
    (
      omega (arith, all),
      omega (arith, early),
      ap some (analyze_all-results batch tests start),
      refl,
      ap verdict_of (analyze-first_failed true batch tests start),
      ap verdict_of (analyze-first_failed false batch tests start),
      omega (arith, all, solved_count-le batch tests),
      omega (arith, early, solved_prefix-le batch tests),
    )

first_failure-ne-mle :
    (batch : Verdict) (ts : List (Testcase × RunFiles))
    → batch ≢ mle
    → verdict_of (first_failure batch ts) ≢ mle
first_failure-ne-mle batch [] h = cc
first_failure-ne-mle batch (t ∷ ts) h =
    ground (arith, first_failure-ne-mle batch ts h, judge_testcase-ne-mle batch t.0 t.1 h)

out_of_memory :
    (e : ExecError)
    → e.killed ≡ false
    → e.sigterm ≡ false
    → e.etimedout ≡ false
    → e.status ≡ some 137
    → execute_error e ≡ mle
unfolding execute_error
out_of_memory e k s t c = ground arith

-- A failed run with exit status 137 (not killed, no signal, no time-out) is classified MLE by the
-- executor, and yet the verdict of the sandbox is never MLE then.
pub run_sandbox-ne-mle :
    (e : ExecError) (tests : List (Testcase × RunFiles)) (elapsed : ℕ) (run_all : Bool)
    → e.killed ≡ false
    → e.sigterm ≡ false
    → e.etimedout ≡ false
    → e.status ≡ some 137
    → (execute_error e ≡ mle)
      × ((run_sandbox none (some (execute_error e)) tests elapsed run_all).verdict ≢ mle)
unfolding run_sandbox
run_sandbox-ne-mle e tests elapsed run_all k s t c = (
  out_of_memory e k s t c,
  rw (analyze-first_failed run_all (batch_verdict (some (execute_error e))) tests start) (
      first_failure-ne-mle (batch_verdict (some (execute_error e))) tests
        (batch_verdict-ne-mle (some (execute_error e)))),
)
