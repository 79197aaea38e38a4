-- ===== src/Contest/Examples.antt =====
-- Contest 5 runs from 100 to 200; user 7 enters it.
use code_warzz.Contest.{Contest, Db}
use code_warzz.Contest.Invariant.{IsCoherent}
use code_warzz.Contest.Registration.{
  Request, ask, register, deregister, expire, run, run-IsCoherent,
}
use code_warzz.Contest.Standings.{Problem, User, is_attempt, first_ac, get_contest_leaderboard}
use code_warzz.Contest.Standings.Ranking.{rows_of}
use code_warzz.Contest.Standings.Solves.{get_contest_leaderboard-settled}
use code_warzz.Submission.{Verdict, ac, wa, Submission}
use code_warzz.Prelude.Int.{pos}
use mathlib.Core.Option
use code_warzz.Prelude.{ℕ, ◌≡◌, refl, none, some, List, [], ◌∷◌, arith}

abbrev contest : Contest
contest = record { id = 5; start_time = 100; end_time = 200 }

abbrev quiet : Db
quiet = record {
  contests = contest ∷ [];
  registrations = [];
  contest_problems = (5, 3) ∷ [];
  registered_cache = λ c u. none;
}

quiet-IsCoherent : IsCoherent quiet
quiet-IsCoherent = record { cache_agrees = λ c u. refl; no_duplicates = λ c u. omega arith }

abbrev requests : List Request
requests =
    ask 5 7 ∷ register 50 5 7 ∷ ask 5 7 ∷ deregister 60 5 7 ∷ expire 5 7 ∷ register 70 5 7 ∷ []

run-IsCoherent_example : IsCoherent (run requests quiet)
run-IsCoherent_example = run-IsCoherent requests quiet quiet-IsCoherent

abbrev attempt : ℕ → ℕ → Verdict → ℕ → Submission
attempt id user verdict time = record {
  id = id;
  user_id = user;
  problem_id = 3;
  contest_id = some 5;
  language = 0;
  code = 0;
  verdict = verdict;
  score = 0;
  time_taken_ms = 0;
  memory_used_mb = none;
  passed_testcases = 0;
  total_testcases = 0;
  created_at = time;
}

-- User 7 fails at 110 and solves at 130, user 8 solves at 160.
abbrev attempts : List Submission
attempts = attempt 3 8 ac 160 ∷ attempt 2 7 ac 130 ∷ attempt 1 7 wa 110 ∷ []

abbrev problems : List Problem
problems = record { id = 3; max_score = 100 } ∷ []

abbrev users : List User
users =
    record { id = 7; username = 70 }
    ∷ record { id = 8; username = 80 }
    ∷ record { id = 9; username = 90 }
    ∷ []

standings :
    Option.map rows_of (get_contest_leaderboard (some contest) attempts problems users)
    ≡ some (
        record { user_id = 8; username = 80; score = 100; total_time_ms = pos 60; solved_count = 1 }
        ∷ record {
          user_id = 7;
          username = 70;
          score = 100;
          total_time_ms = pos 600030;
          solved_count = 1;
        }
        ∷ record { user_id = 9; username = 90; score = 0; total_time_ms = pos 0; solved_count = 0 }
        ∷ [])
unfolding get_contest_leaderboard
standings = refl

get_contest_leaderboard-settled_example :
    get_contest_leaderboard (some contest) (attempt 4 7 ac 150 ∷ attempts) problems users
    ≡ get_contest_leaderboard (some contest) attempts problems users
get_contest_leaderboard-settled_example =
    get_contest_leaderboard-settled contest attempts (attempt 4 7 ac 150) problems users
      (unfold is_attempt first_ac in refl)
