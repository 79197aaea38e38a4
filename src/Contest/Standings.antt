-- ===== src/Contest/Standings.antt =====
-- The query of `getContestLeaderboard` in core/src/service/contest.service.ts, as operations on the rows
-- of the tables. Times are milliseconds; one before the start of the contest counts negative.
pub mod Ranking
pub mod Solves
use code_warzz.Contest.{Contest}
use code_warzz.Submission.{Submission, is_ac}
use code_warzz.Prelude.Int.{ℤ, pos, pos_part, neg_part, sub_ℕ, ◌+ℤ◌}
use code_warzz.Prelude.{
  ℕ, ◌+◌, ◌*◌, min, Bool, true, false, not, ◌&&◌, ◌||◌, Option, none, some, List, [], ◌∷◌, map, ltb,
  leb, ◌==◌, if◌then◌else◌, length,
}

-- a row of `problems`
pub record Problem : Type 0 where
  pub id : ℕ
  pub max_score : ℕ

-- a row of `users`
pub record User : Type 0 where
  pub id : ℕ
  pub username : ℕ

-- a row of `solved_with_score`
pub record Solved : Type 0 where
  pub problem_id : ℕ
  pub max_score : ℕ
  pub wrong_count : ℕ
  pub time_ms : ℤ

-- a row of the result
pub record Row : Type 0 where
  pub user_id : ℕ
  pub username : ℕ
  pub score : ℕ
  pub total_time_ms : ℤ
  pub solved_count : ℕ

pub record Ranked : Type 0 where
  pub rank : ℕ
  pub row : Row

-- `PENALTY_MS`
abbrev pub penalty_ms : ℕ
penalty_ms = 600000

-- a submission of the user to the problem in the contest
unfoldable pub is_attempt : ℕ → ℕ → ℕ → Submission → Bool
is_attempt contest user problem s = elim s.contest_id [
  | none ↦ false
  | some c ↦ c == contest && (s.user_id == user && s.problem_id == problem)
]

-- MIN, of a time and the times before it
abbrev pub earlier : ℕ → Option ℕ → ℕ
earlier t none = t
earlier t (some u) = min t u

-- `first_ac`
unfoldable pub first_ac : ℕ → ℕ → ℕ → List Submission → Option ℕ
unfolding is_attempt
first_ac contest user problem [] = none
first_ac contest user problem (s ∷ rows) =
    let rest = first_ac contest user problem rows in
    if is_attempt contest user problem s && is_ac s.verdict
    then some (earlier s.created_at rest)
    else rest

-- `fa.ac_time IS NULL OR s.created_at < fa.ac_time`
abbrev pub is_before : ℕ → Option ℕ → Bool
is_before t none = true
is_before t (some ac_time) = ltb t ac_time

-- `wrong_attempts`, given the first solve
unfoldable pub count_wrong : ℕ → ℕ → ℕ → Option ℕ → List Submission → ℕ
unfolding is_attempt
count_wrong contest user problem ac_time [] = 0
count_wrong contest user problem ac_time (s ∷ rows) =
    (if is_attempt contest user problem s && not (is_ac s.verdict) && is_before s.created_at ac_time
      then 1
      else 0)
    + count_wrong contest user problem ac_time rows

unfoldable pub wrong_attempts : ℕ → ℕ → ℕ → List Submission → ℕ
unfolding first_ac count_wrong
wrong_attempts contest user problem rows =
    count_wrong contest user problem (first_ac contest user problem rows) rows

-- the row of a problem, if it is solved
abbrev pub with_solve : ℕ → Problem → Option ℕ → ℕ → List Solved → List Solved
with_solve start p none wrong solved = solved
with_solve start p (some ac_time) wrong solved =
    record {
      problem_id = p.id;
      max_score = p.max_score;
      wrong_count = wrong;
      time_ms = sub_ℕ ac_time start;
    }
    ∷ solved

-- `solved_with_score` of one user
unfoldable pub solved_with_score : ℕ → ℕ → List Submission → List Problem → ℕ → List Solved
unfolding wrong_attempts
solved_with_score contest start rows [] user = []
solved_with_score contest start rows (p ∷ problems) user =
    with_solve start p (first_ac contest user p.id rows) (wrong_attempts contest user p.id rows)
      (solved_with_score contest start rows problems user)

abbrev pub sum_scores : List Solved → ℕ
sum_scores [] = 0
sum_scores (s ∷ solved) = s.max_score + sum_scores solved

abbrev pub sum_wrong : List Solved → ℕ
sum_wrong [] = 0
sum_wrong (s ∷ solved) = s.wrong_count + sum_wrong solved

unfoldable pub sum_times : List Solved → ℤ
unfolding ◌+ℤ◌
sum_times [] = pos 0
sum_times (s ∷ solved) = s.time_ms +ℤ sum_times solved

-- the GROUP BY
unfoldable pub row_of : ℕ → ℕ → List Submission → List Problem → User → Row
unfolding solved_with_score sum_times ◌+ℤ◌
row_of contest start rows problems u =
    let solved = solved_with_score contest start rows problems u.id in
    record {
      user_id = u.id;
      username = u.username;
      score = sum_scores solved;
      total_time_ms = sum_times solved +ℤ pos (sum_wrong solved * penalty_ms);
      solved_count = length solved;
    }

abbrev pub leb_ℤ : ℤ → ℤ → Bool
leb_ℤ a b = leb (pos_part a + neg_part b) (pos_part b + neg_part a)

-- ORDER BY score DESC, total_time_ms ASC
abbrev pub precedes : Row → Row → Bool
precedes a b = ltb b.score a.score || (a.score == b.score && leb_ℤ a.total_time_ms b.total_time_ms)

unfoldable pub insert_row : Row → List Row → List Row
insert_row r [] = r ∷ []
insert_row r (x ∷ rows) =
    let rest = insert_row r rows in if precedes r x then r ∷ x ∷ rows else x ∷ rest

unfoldable pub order_rows : List Row → List Row
unfolding insert_row
order_rows [] = []
order_rows (r ∷ rows) = insert_row r (order_rows rows)

-- the `map` over the rows, from an index on
unfoldable pub ranked_from : ℕ → List Row → List Ranked
ranked_from index [] = []
ranked_from index (r ∷ rows) = record { rank = index + 1; row = r } ∷ ranked_from (index + 1) rows

-- `getContestLeaderboard`, `none` for "Contest not found"; the formatted times and the titles of
-- the problems are left out
unfoldable pub get_contest_leaderboard :
    Option Contest → List Submission → List Problem → List User → Option (List Ranked)
unfolding row_of order_rows ranked_from
get_contest_leaderboard none rows problems users = none
get_contest_leaderboard (some c) rows problems users =
    some (ranked_from 0 (order_rows (map (row_of c.id c.start_time rows problems) users)))
