-- ===== src/Sandbox/Examples.antt =====
-- Two test cases: the first solved, the second with another output.
use code_warzz.Prelude.{◌≡◌, refl, ◌↔◌, true, false, Option, none, some, List, [], ◌∷◌, All}
use code_warzz.Sandbox.Compare.{Text, trim, split_lines, compare_output}
use code_warzz.Sandbox.Compare.Words.{filled}
use code_warzz.Sandbox.Compare.Laws.{compare_output_iff}
use code_warzz.Sandbox.Judge.{
  ac, wa, judge_testcase, Testcase, RunFiles, run_sandbox, record_result,
}
use code_warzz.Sandbox.Verdicts.{IsSolved, run_sandbox-ac_iff}

-- "4\n"
abbrev four : Text
four = 52 ∷ 10 ∷ []

-- "5"
abbrev five : Text
five = 53 ∷ []

abbrev printed : Text → RunFiles
printed s = record { exit_code = some (some 0); stdout = some s; stderr = some [] }

abbrev expects : Text → Testcase
expects s = record { input = []; output = s }

abbrev tests : List (Testcase × RunFiles)
tests =
    (expects (32 ∷ 52 ∷ []), printed four)
    ∷ (expects five, printed four)
    ∷ (expects five, printed five)
    ∷ []

tests_run :
    ((run_sandbox none none tests 9 true).passed ≡ 2)
    × ((run_sandbox none none tests 9 false).passed ≡ 1)
    × ((run_sandbox none none tests 9 false).verdict ≡ wa)
unfolding run_sandbox judge_testcase record_result compare_output trim
tests_run = (refl, refl, refl)

compare_output_iff_example :
    (compare_output four five ≡ true) ↔ (filled (split_lines four) ≡ filled (split_lines five))
compare_output_iff_example = compare_output_iff four five

run_sandbox-ac_iff_example :
    ((run_sandbox none none tests 9 false).verdict ≡ ac)
    ↔ (◌≡◌ {A = Option Text} none none × All IsSolved tests)
run_sandbox-ac_iff_example = run_sandbox-ac_iff none none tests 9 false
