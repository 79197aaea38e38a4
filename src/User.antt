-- ===== src/User.antt =====
-- core/src/repository/user.repository.ts and core/src/service/user.service.ts: what the queries count,
-- over the rows of the tables. A number that the service formats as a percentage stays a fraction.
pub mod Groups
pub mod Distinct
pub mod Agreement
pub mod Profile
mod Examples
use code_warzz.Problem.{Difficulty, easy, medium, hard, Problem}
use code_warzz.Submission.{
  Submission, Verdict, ac, wa, tle, mle, re, ce, pending, is_ac, first_row, newest_first,
}
use mathlib.Core.Option
use code_warzz.Prelude.{
  ℕ, suc, ◌+◌, ◌/◌, Bool, true, false, ◌&&◌, Option, none, some, List, [], ◌∷◌, ◌++◌, map, ltb,
  ◌==◌, if◌then◌else◌, length, take, select, any, sort_desc,
}

-- a row of `users`, without the columns that `getUserById` leaves out
pub record User : Type 0 where
  pub id : ℕ
  pub username : ℕ
  pub solved_count : ℕ

abbrev pub is_difficulty : Difficulty → Difficulty → Bool
is_difficulty easy easy = true
is_difficulty medium medium = true
is_difficulty hard hard = true
is_difficulty _ _ = false

abbrev pub is_verdict : Verdict → Verdict → Bool
is_verdict ac ac = true
is_verdict wa wa = true
is_verdict tle tle = true
is_verdict mle mle = true
is_verdict re re = true
is_verdict ce ce = true
is_verdict pending pending = true
is_verdict _ _ = false

module _ {A K : Type 0} (same : K → K → Bool) (key : A → K) where
  -- the keys of a GROUP BY, each once
  unfoldable pub group_keys : List A → List K
  group_keys [] = []
  group_keys (x ∷ xs) =
      let rest = group_keys xs in if any (λ y. same (key y) (key x)) xs then rest else key x ∷ rest

  -- the rows of a group
  abbrev pub group : K → List A → List A
  group k = select (λ x. same (key x) k)

-- COUNT(DISTINCT id)
unfoldable pub count_distinct : List Problem → ℕ
count_distinct [] = 0
count_distinct (p ∷ ps) =
    let rest = count_distinct ps in if any (λ q. q.id == p.id) ps then rest else suc rest

-- ON problems.id = submissions.problem_id
abbrev pub problems_of : List Problem → Submission → List Problem
problems_of problems s = select (λ p. p.id == s.problem_id) problems

-- the problems of FROM submissions INNER JOIN problems
unfoldable pub inner_join : List Problem → List Submission → List Problem
inner_join problems [] = []
inner_join problems (s ∷ rows) = problems_of problems s ++ inner_join problems rows

-- user_id = … AND verdict = 'AC'
abbrev pub solves : ℕ → List Submission → List Submission
solves user = select (λ s. s.user_id == user && is_ac s.verdict)

abbrev pub submissions_of : ℕ → List Submission → List Submission
submissions_of user = select (λ s. s.user_id == user)

-- `getSolvedCounts`
unfoldable pub get_solved_counts : ℕ → List Submission → List Problem → List (Difficulty × ℕ)
unfolding group_keys count_distinct
get_solved_counts user rows problems =
    let joined = inner_join problems (solves user rows) in
    map (λ d. (d, count_distinct (group is_difficulty (λ p. p.difficulty) d joined)))
      (group_keys is_difficulty (λ p. p.difficulty) joined)

-- `getSubmissionStats`
unfoldable pub get_submission_stats : ℕ → List Submission → List (Verdict × ℕ)
unfolding group_keys
get_submission_stats user rows =
    let own = submissions_of user rows in
    map (λ v. (v, length (group is_verdict (λ s. s.verdict) v own)))
      (group_keys is_verdict (λ s. s.verdict) own)

-- one problem for each id
unfoldable pub distinct_problems : List Problem → List Problem
distinct_problems [] = []
distinct_problems (p ∷ ps) =
    let rest = distinct_problems ps in if any (λ q. q.id == p.id) ps then rest else p ∷ rest

-- `getSolvedWithTags`
unfoldable pub get_solved_with_tags : ℕ → List Submission → List Problem → List (Option (List ℕ))
unfolding distinct_problems inner_join
get_solved_with_tags user rows problems =
    map (λ p. p.tags) (distinct_problems (inner_join problems (solves user rows)))

-- `solved`
pub record SolvedStats : Type 0 where
  pub easy_count : ℕ
  pub medium_count : ℕ
  pub hard_count : ℕ
  pub total_count : ℕ

abbrev pub no_stats : SolvedStats
no_stats = record { easy_count = 0; medium_count = 0; hard_count = 0; total_count = 0 }

-- the body of `solvedCounts.forEach`
abbrev pub add_solved : Difficulty → ℕ → SolvedStats → SolvedStats
add_solved easy n s = record s { easy_count = n; total_count = s.total_count + n }
add_solved medium n s = record s { medium_count = n; total_count = s.total_count + n }
add_solved hard n s = record s { hard_count = n; total_count = s.total_count + n }

unfoldable pub solved_stats : SolvedStats → List (Difficulty × ℕ) → SolvedStats
solved_stats s [] = s
solved_stats s ((d, n) ∷ counts) = solved_stats (add_solved d n s) counts

-- `totalSubmissions` and `successfulSubmissions` after `submissionStats.forEach`
unfoldable pub submission_totals : ℕ × ℕ → List (Verdict × ℕ) → ℕ × ℕ
submission_totals (total, accepted) [] = (total, accepted)
submission_totals (total, accepted) ((v, n) ∷ stats) =
    submission_totals (total + n, if is_ac v then accepted + n else accepted) stats

-- `tagCounts[tag] = (tagCounts[tag] || 0) + 1`
unfoldable pub count_tag : ℕ → List (ℕ × ℕ) → List (ℕ × ℕ)
count_tag tag [] = (tag, 1) ∷ []
count_tag tag ((u, n) ∷ counts) =
    let rest = count_tag tag counts in if u == tag then (u, n + 1) ∷ counts else (u, n) ∷ rest

-- `item.tags.forEach`
unfoldable pub count_tags : List ℕ → List (ℕ × ℕ) → List (ℕ × ℕ)
unfolding count_tag
count_tags [] counts = counts
count_tags (tag ∷ tags) counts = count_tags tags (count_tag tag counts)

-- `solvedWithTags.forEach`: `tagCounts` and `totalTags`
unfoldable pub tag_counts : List (ℕ × ℕ) × ℕ → List (Option (List ℕ)) → List (ℕ × ℕ) × ℕ
unfolding count_tags
tag_counts (counts, total) [] = (counts, total)
tag_counts (counts, total) (none ∷ items) = tag_counts (counts, total) items
tag_counts (counts, total) (some tags ∷ items) =
    tag_counts (count_tags tags counts, total + length tags) items

-- `((part / whole) * 100).toFixed(2)`, unformatted; `none` is "0.00"
abbrev pub percentage : ℕ → ℕ → Option (ℕ × ℕ)
percentage part whole = if ltb 0 whole then some (part, whole) else none

pub record TagStat : Type 0 where
  pub tag : ℕ
  pub count : ℕ
  pub percent : Option (ℕ × ℕ)

pub record UserStats : Type 0 where
  pub solved : SolvedStats
  pub total : ℕ
  pub accepted : ℕ
  pub acceptance_rate : Option (ℕ × ℕ)
  pub tags : List TagStat

-- `tagStats`
unfoldable pub tag_stats : List (ℕ × ℕ) × ℕ → List TagStat
tag_stats (counts, total) =
    sort_desc (λ s. s.count)
      (map (λ c. record { tag = c.0; count = c.1; percent = percentage c.1 total }) counts)

-- `getUserStats`
unfoldable pub get_user_stats : ℕ → List Submission → List Problem → UserStats
unfolding get_solved_counts get_submission_stats get_solved_with_tags solved_stats submission_totals
    tag_counts tag_stats
get_user_stats user rows problems =
    let (total, accepted) = submission_totals (0, 0) (get_submission_stats user rows) in
    record {
      solved = solved_stats no_stats (get_solved_counts user rows problems);
      total = total;
      accepted = accepted;
      acceptance_rate = percentage accepted total;
      tags = tag_stats (tag_counts ([], 0) (get_solved_with_tags user rows problems));
    }

-- `getUserProfile`, `none` for "User not found"
unfoldable pub get_user_profile :
    ℕ → List User → List Submission → List Problem → Option (User × UserStats)
unfolding get_user_stats
get_user_profile user users rows problems =
    Option.map (λ u. (u, get_user_stats user rows problems))
      (first_row (select (λ u. u.id == user) users))

-- the day of a time
abbrev pub date_of : ℕ → ℕ
date_of t = t / 86400000

-- `getUserActivity`
unfoldable pub get_user_activity : ℕ → List Submission → List (ℕ × ℕ)
unfolding group_keys
get_user_activity user rows =
    let own = submissions_of user rows in
    sort_desc (λ a. a.0)
      (map (λ d. (d, length (group ◌==◌ (λ s. date_of s.created_at) d own)))
        (group_keys ◌==◌ (λ s. date_of s.created_at) own))

-- `getLastAttemptedProblem`
unfoldable pub get_last_attempted_problem : ℕ → List Submission → Option Submission
get_last_attempted_problem user rows = first_row (newest_first (submissions_of user rows))

-- LEFT JOIN problems on a row of users LEFT JOIN submissions; `none` is a row of NULLs
abbrev pub or_null : List Problem → List (Option Problem)
or_null [] = none ∷ []
or_null (p ∷ ps) = map some (p ∷ ps)

unfoldable pub left_join_problems : List Problem → List Submission → List (Option Problem)
left_join_problems problems [] = []
left_join_problems problems (s ∷ rows) =
    or_null (problems_of problems s) ++ left_join_problems problems rows

-- users LEFT JOIN submissions ON … AND verdict = 'AC' LEFT JOIN problems, for one user
unfoldable pub left_join : List Problem → List Submission → List (Option Problem)
unfolding left_join_problems
left_join problems [] = none ∷ []
left_join problems (s ∷ rows) = left_join_problems problems (s ∷ rows)

-- an aggregate skips NULLs
unfoldable pub non_null : List (Option Problem) → List Problem
non_null [] = []
non_null (none ∷ ps) = non_null ps
non_null (some p ∷ ps) = p ∷ non_null ps

-- a row of `getGlobalLeaderboard`
pub record Standing : Type 0 where
  pub id : ℕ
  pub username : ℕ
  pub solved_count : ℕ
  pub easy_count : ℕ
  pub medium_count : ℕ
  pub hard_count : ℕ

-- COUNT(DISTINCT CASE WHEN p.difficulty = … THEN p.id END)
abbrev pub count_difficulty : Difficulty → List Problem → ℕ
count_difficulty d ps = count_distinct (group is_difficulty (λ p. p.difficulty) d ps)

-- the GROUP BY, of one user
unfoldable pub standing : List Submission → List Problem → User → Standing
unfolding left_join non_null count_distinct
standing rows problems u =
    let ps = non_null (left_join problems (solves u.id rows)) in
    record {
      id = u.id;
      username = u.username;
      solved_count = count_distinct ps;
      easy_count = count_difficulty easy ps;
      medium_count = count_difficulty medium ps;
      hard_count = count_difficulty hard ps;
    }

-- `getGlobalLeaderboard(limit)`
unfoldable pub get_global_leaderboard :
    ℕ → List Submission → List Problem → List User → List Standing
unfolding standing
get_global_leaderboard limit rows problems users = take limit (
    sort_desc (λ r. r.solved_count)
      (select (λ r. ltb 0 r.solved_count) (map (standing rows problems) users)))
