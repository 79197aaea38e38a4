-- ===== src/Problem.antt =====
-- core/src/service/problem.service.ts, core/src/repository/problem.repository.ts and the schema of the
-- body in core/src/dtos/problem.dto.ts. The tables are the lists of their rows; texts are numbers that
-- stand for them, where a query orders by equal times the order of the table is taken.
pub mod Pages
pub mod Creation
mod Examples
use code_warzz.Submission.{Submission, is_ac, first_row}
use code_warzz.Prelude.{
  ℕ, ◌+◌, ◌-◌, ◌*◌, ◌/◌, Bool, true, false, not, ◌&&◌, Option, none, some, List, [], ◌∷◌, ◌++◌, map,
  ltb, ◌==◌, if◌then◌else◌, get_or, length, take, drop, select, any, sort_desc,
}

-- `difficultyEnum`
pub data Difficulty : Type 0 where
  easy medium hard : Difficulty

-- a row of `problems`
pub record Problem : Type 0 where
  pub id : ℕ
  pub title : ℕ
  pub slug : ℕ
  pub description : ℕ
  pub difficulty : Difficulty
  pub max_score : ℕ
  pub time_limit_ms : ℕ
  pub memory_limit_mb : ℕ
  pub cpu_limit : ℕ
  pub stack_limit_mb : Option ℕ
  pub tags : Option (List ℕ)
  pub hints : Option (List ℕ)
  pub created_at : ℕ

-- a row of `testcases`
pub record Testcase : Type 0 where
  pub problem_id : ℕ
  pub input : ℕ
  pub output : ℕ
  pub is_sample : Bool

pub record Tables : Type 0 where
  pub problems : List Problem
  pub testcases : List Testcase
  pub contests : List ℕ  -- their ids
  pub contest_problems : List (ℕ × ℕ)
  pub submissions : List Submission

-- `CreateTestcaseInput`
pub record TestcaseInput : Type 0 where
  pub input : ℕ
  pub output : ℕ
  pub is_sample : Option Bool

-- `CreateProblemInput`, and the body of a request before `validate`; an absent field is `none`
pub record ProblemInput : Type 0 where
  pub title : ℕ
  pub slug : Option ℕ
  pub description : ℕ
  pub difficulty : Difficulty
  pub time_limit_ms : Option ℕ
  pub memory_limit_mb : Option ℕ
  pub cpu_limit : Option ℕ
  pub stack_limit_mb : Option ℕ
  pub testcases : Option (List TestcaseInput)
  pub contest_id : Option ℕ
  pub tags : Option (List ℕ)
  pub hints : Option (List ℕ)

-- What the database gives a new row, and whether it takes the transaction.
pub record Insertion : Type 0 where
  pub fresh_id : ℕ
  pub now : ℕ
  pub commits : Bool

pub data Created : Type 0 where
  created : Problem → Created
  bad_request : Created  -- "At least one testcase is required"
  database_error : Created

-- `createProblemSchema.parse`: what the schema does not name is stripped
abbrev pub create_problem_schema : ProblemInput → ProblemInput
create_problem_schema body = record body {
  time_limit_ms = none;
  memory_limit_mb = none;
  cpu_limit = none;
  stack_limit_mb = none;
}

-- `problemData`, with what `returning` adds
abbrev pub problem_data : Insertion → ℕ → ProblemInput → Problem
problem_data db slug body = record {
  id = db.fresh_id;
  title = body.title;
  slug = slug;
  description = body.description;
  difficulty = body.difficulty;
  max_score = 100;
  time_limit_ms = get_or body.time_limit_ms 2000;
  memory_limit_mb = get_or body.memory_limit_mb 256;
  cpu_limit = get_or body.cpu_limit 1;
  stack_limit_mb = body.stack_limit_mb;
  tags = some (get_or body.tags []);
  hints = some (get_or body.hints []);
  created_at = db.now;
}

-- `testcasesData`, as rows of the problem
abbrev pub testcase_rows : ℕ → List TestcaseInput → List Testcase
testcase_rows problem = map λ tc. record {
  problem_id = problem;
  input = tc.input;
  output = tc.output;
  is_sample = get_or tc.is_sample false;
}

-- the constraints on what is inserted: slugs are unique, and a contest that is named exists
unfoldable pub is_insertable : Problem → Option ℕ → Tables → Bool
is_insertable p contest t =
    not (any (λ q. q.slug == p.slug) t.problems)
    && elim contest [ none ↦ true | some c ↦ any (λ d. d == c) t.contests ]

abbrev pub link : Option ℕ → ℕ → List (ℕ × ℕ) → List (ℕ × ℕ)
link none problem links = links
link (some contest) problem links = links ++ (contest, problem) ∷ []

-- `createProblemWithTestcases`
unfoldable pub create_problem_with_testcases :
    Insertion → Problem → List TestcaseInput → Option ℕ → Tables → Tables × Created
unfolding is_insertable
create_problem_with_testcases db p tcases contest t =
    if db.commits && is_insertable p contest t
    then (
      record t {
        problems = t.problems ++ p ∷ [];
        testcases = t.testcases ++ testcase_rows p.id tcases;
        contest_problems = link contest p.id t.contest_problems;
      },
      created p,
    )
    else (t, database_error)

-- an absent slug is a NULL, which the table refuses
abbrev pub insert_input :
    Insertion → Option ℕ → ProblemInput → List TestcaseInput → Tables → Tables × Created
insert_input db none body tcases t = (t, database_error)
insert_input db (some slug) body tcases t =
    create_problem_with_testcases db (problem_data db slug body) tcases body.contest_id t

-- `createProblem` on its test cases
abbrev pub insert_checked :
    Insertion → ProblemInput → List TestcaseInput → Tables → Tables × Created
insert_checked db body [] t = (t, bad_request)
insert_checked db body (tc ∷ tcases) t = insert_input db body.slug body (tc ∷ tcases) t

-- `createProblem`; the call of the Bloom filter, whose failure is only logged, is left to `Bloom`
unfoldable pub create_problem : Insertion → ProblemInput → Tables → Tables × Created
unfolding create_problem_with_testcases
create_problem db body t = insert_checked db body (get_or body.testcases []) t

-- POST /problems: `validate` and the controller
unfoldable pub create_problem_route : Insertion → ProblemInput → Tables → Tables × Created
unfolding create_problem
create_problem_route db body = create_problem db (create_problem_schema body)

pub data UserStatus : Type 0 where
  solved attempted : UserStatus

-- a problem with `stats` and `userStatus`
pub record Overview : Type 0 where
  pub problem : Problem
  pub total_submissions : ℕ
  pub accepted_submissions : ℕ
  pub user_status : Option UserStatus

abbrev pub of_problem : ℕ → List Submission → List Submission
of_problem problem = select (λ s. s.problem_id == problem)

-- the CASE, of the submissions of the problem
unfoldable pub user_status : Option ℕ → List Submission → Option UserStatus
user_status none rows = none
user_status (some user) rows =
    if ltb 0 (length (select (λ s. s.user_id == user && is_ac s.verdict) rows))
    then some solved
    else if ltb 0 (length (select (λ s. s.user_id == user) rows))
    then some attempted
    else none

-- LEFT JOIN submissions … GROUP BY problems.id: `count` skips the NULLs of a problem without any
unfoldable pub overview : Option ℕ → List Submission → Problem → Overview
unfolding user_status
overview user submissions p =
    let rows = of_problem p.id submissions in
    record {
      problem = p;
      total_submissions = length rows;
      accepted_submissions = length (select (λ s. is_ac s.verdict) rows);
      user_status = user_status user rows;
    }

-- `getTestcasesByProblemId`
unfoldable pub get_testcases_by_problem_id : ℕ → Tables → List Testcase
get_testcases_by_problem_id problem t = select (λ tc. tc.problem_id == problem) t.testcases

-- the two queries of `getProblemById` and `getProblemBySlug`
abbrev pub with_testcases : Option ℕ → Tables → Option Problem → Option (Overview × List Testcase)
with_testcases user t none = none
with_testcases user t (some p) =
    some (overview user t.submissions p, get_testcases_by_problem_id p.id t)

-- `getProblemById`
unfoldable pub get_problem_by_id : ℕ → Option ℕ → Tables → Option (Overview × List Testcase)
unfolding overview get_testcases_by_problem_id
get_problem_by_id id user t =
    with_testcases user t (first_row (select (λ p. p.id == id) t.problems))

-- `getProblemBySlug`
unfoldable pub get_problem_by_slug : ℕ → Option ℕ → Tables → Option (Overview × List Testcase)
unfolding overview get_testcases_by_problem_id
get_problem_by_slug slug user t =
    with_testcases user t (first_row (select (λ p. p.slug == slug) t.problems))

-- `PaginatedProblemsDto`
pub record Page : Type 0 where
  pub overviews : List Overview
  pub total : ℕ
  pub page : ℕ
  pub limit : ℕ
  pub total_pages : ℕ

-- `Math.ceil(total / limit)`
abbrev pub ceil_div : ℕ → ℕ → ℕ
ceil_div total limit = (total + limit - 1) / limit

-- `getAllProblems`, for a page and a limit of at least 1; `scan` holds the problems in the order in
-- which the database comes upon them in this query, which decides between equal times
unfoldable pub get_all_problems : List Problem → ℕ → ℕ → Option ℕ → Tables → Page
unfolding overview
get_all_problems scan page limit user t =
    let newest = sort_desc (λ p. p.created_at) scan in
    record {
      overviews = map (overview user t.submissions) (take limit (drop ((page - 1) * limit) newest));
      total = length t.problems;
      page = page;
      limit = limit;
      total_pages = ceil_div (length t.problems) limit;
    }

-- `parseInt(req.query.page) || 1` and the like, for what is no negative number
abbrev pub query_number : Option ℕ → ℕ → ℕ
query_number none default = default
query_number (some n) default = if n == 0 then default else n

-- `getProblemsController`
unfoldable pub get_problems : List Problem → Option ℕ → Option ℕ → Option ℕ → Tables → Page
unfolding get_all_problems
get_problems scan page limit = get_all_problems scan (query_number page 1) (query_number limit 10)
