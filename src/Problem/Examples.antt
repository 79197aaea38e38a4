-- ===== src/Problem/Examples.antt =====
-- A problem stored beside another one, and a list of three read in pages of two.
use code_warzz.Problem.{
  easy, medium, Problem, TestcaseInput, ProblemInput, Tables, Insertion, created, problem_data,
  create_problem_route, get_all_problems, overview,
}
use code_warzz.Problem.Creation.{with_problem}
use code_warzz.Problem.Pages.{read_pages, read_pages-all}
use code_warzz.Prelude.{
  ◌≡◌, refl, true, none, some, List, [], ◌∷◌, map, arith, sort_desc, ℕ, ◌==◌, if◌then◌else◌,
  Bool-cases, inl, inr, Shuffled, done, keep_head, exchange,
}

abbrev two_sum : Problem
two_sum = record {
  id = 1;
  title = 10;
  slug = 20;
  description = 30;
  difficulty = easy;
  max_score = 100;
  time_limit_ms = 2000;
  memory_limit_mb = 256;
  cpu_limit = 1;
  stack_limit_mb = none;
  tags = some [];
  hints = some [];
  created_at = 5;
}

abbrev shelf : Tables
shelf = record {
  problems =
      two_sum
      ∷ record two_sum { id = 2; slug = 21; created_at = 9 }
      ∷ record two_sum { id = 3; slug = 22; created_at = 7 }
      ∷ [];
  testcases = record { problem_id = 1; input = 1; output = 2; is_sample = true } ∷ [];
  contests = 8 ∷ [];
  contest_problems = [];
  submissions = [];
}

abbrev request : ProblemInput
request = record {
  title = 11;
  slug = some 23;
  description = 31;
  difficulty = medium;
  time_limit_ms = some 9000;
  memory_limit_mb = none;
  cpu_limit = none;
  stack_limit_mb = none;
  testcases = some (record { input = 3; output = 4; is_sample = none } ∷ []);
  contest_id = some 8;
  tags = none;
  hints = none;
}

abbrev insertion : Insertion
insertion = record { fresh_id = 4; now = 12; commits = true }

abbrev stored_problem : Problem
stored_problem = problem_data insertion 23 request

abbrev inputs : List TestcaseInput
inputs = record { input = 3; output = 4; is_sample = none } ∷ []

newest_two :
    map (λ o. o.problem.id) (get_all_problems shelf.problems 1 2 none shelf).overviews ≡ 2 ∷ 3 ∷ []
unfolding get_all_problems
newest_two = refl

stores_route : create_problem_route insertion request shelf ≡ (
  with_problem (record stored_problem { time_limit_ms = 2000 }) inputs request shelf,
  created (record stored_problem { time_limit_ms = 2000 }),
)
unfolding create_problem_route
stores_route = refl

-- The second query comes upon the last two problems the other way round.
abbrev scans : ℕ → List Problem
scans n =
    if n == 2
    then two_sum
      ∷ record two_sum { id = 3; slug = 22; created_at = 7 }
      ∷ record two_sum { id = 2; slug = 21; created_at = 9 }
      ∷ []
    else shelf.problems

Shuffled-self : (ps : List Problem) → Shuffled ps ps
Shuffled-self [] = done
Shuffled-self (p ∷ ps) = keep_head p (Shuffled-self ps)

scans-Shuffled : (n : ℕ) → Shuffled shelf.problems (scans n)
scans-Shuffled n = elim (Bool-cases (n == 2)) [
  | inl e ↦ rw e (keep_head two_sum (exchange _ _ []))
  | inr e ↦ rw e (Shuffled-self shelf.problems)
]

read_pages-all_example :
    read_pages scans (get_all_problems (scans 1) 1 2 none shelf).total_pages 2 none shelf
    ≡ map (overview none []) (sort_desc (λ p. p.created_at) shelf.problems)
read_pages-all_example =
    read_pages-all scans 2 none shelf scans-Shuffled (omega arith) (omega arith)
