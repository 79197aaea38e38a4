-- ===== src/User/Examples.antt =====
-- Two users and three problems; user 7 has solved two of them, one of them twice.
use code_warzz.Problem.{Problem, Difficulty, easy, medium, hard}
use code_warzz.Submission.{Submission, ac, wa}
use code_warzz.User.Agreement.{standing-agrees}
use code_warzz.User.{User, standing, get_user_stats, get_user_activity, get_global_leaderboard}
use code_warzz.Prelude.{ℕ, ◌≡◌, refl, none, some, List, [], ◌∷◌, map, ◌==◌, if◌then◌else◌}

abbrev attempt : Submission
attempt = record {
  id = 1;
  user_id = 7;
  problem_id = 1;
  contest_id = none;
  language = 0;
  code = 1;
  verdict = ac;
  score = 100;
  time_taken_ms = 10;
  memory_used_mb = none;
  passed_testcases = 1;
  total_testcases = 1;
  created_at = 1000;
}

abbrev rows : List Submission
rows =
    attempt
    ∷ record attempt { id = 2; verdict = wa; created_at = 90000000 }
    ∷ record attempt { id = 3; problem_id = 2; created_at = 90000001 }
    ∷ record attempt { id = 4 }
    ∷ record attempt { id = 5; user_id = 8 }
    ∷ []

abbrev problem : ℕ → Difficulty → List ℕ → Problem
problem id d tags = record {
  id = id;
  title = 0;
  slug = id;
  description = 0;
  difficulty = d;
  max_score = 100;
  time_limit_ms = 2000;
  memory_limit_mb = 256;
  cpu_limit = 1;
  stack_limit_mb = none;
  tags = some tags;
  hints = none;
  created_at = 0;
}

abbrev problems : List Problem
problems = problem 1 easy (5 ∷ []) ∷ problem 2 hard (6 ∷ 5 ∷ []) ∷ problem 3 medium [] ∷ []

abbrev difficulty_of : ℕ → Difficulty
difficulty_of id = if id == 1 then easy else if id == 2 then hard else medium

abbrev alice : User
alice = record { id = 7; username = 70; solved_count = 0 }

abbrev users : List User
users = record { id = 8; username = 80; solved_count = 0 } ∷ alice ∷ []

counted :
    (get_user_stats 7 rows problems).solved
    ≡ record { easy_count = 1; medium_count = 0; hard_count = 1; total_count = 2 }
unfolding get_user_stats
counted = refl

tagged : map (λ t. t.count) (get_user_stats 7 rows problems).tags ≡ 2 ∷ 1 ∷ []
unfolding get_user_stats
tagged = refl

active : get_user_activity 7 rows ≡ (1, 2) ∷ (0, 2) ∷ []
unfolding get_user_activity
active = refl

first_place : map (λ r. r.id) (get_global_leaderboard 50 rows problems users) ≡ 7 ∷ 8 ∷ []
unfolding get_global_leaderboard
first_place = refl

standing-agrees_example :
    let solved = (get_user_stats 7 rows problems).solved in
    let row = standing rows problems alice in
    (row.easy_count ≡ solved.easy_count)
    × (row.medium_count ≡ solved.medium_count)
    × (row.hard_count ≡ solved.hard_count)
    × (row.solved_count ≡ solved.total_count)
standing-agrees_example =
    standing-agrees difficulty_of rows problems alice (refl, (refl, (refl, tt)))
