-- ===== src/Problem/Creation.antt =====
-- Storing a problem and reading it back.
use code_warzz.Submission.{Submission}
use code_warzz.Problem.{
  database_error, Problem, Tables, TestcaseInput, ProblemInput, Insertion, created, is_insertable,
  testcase_rows, problem_data, insert_input, create_problem_with_testcases, create_problem,
  create_problem_route, create_problem_schema, link, insert_checked,
}
use mathlib.Core.Path.{subst}
use code_warzz.Prelude.{
  ℕ, ◌≡◌, refl, sym, ap, ◌≢◌, inl, inr, Bool, true, false, not, ◌&&◌, Option, none, some, List, [],
  ◌∷◌, ◌++◌, arith, ◌==◌, Bool-cases, get_or, length, any,
}

-- An id that no row uses.
pub record IsFresh (id : ℕ) (t : Tables) : Type 0 where
  pub no_problem : any (λ p. p.id == id) t.problems ≡ false
  pub no_testcase : any (λ tc. tc.problem_id == id) t.testcases ≡ false
  pub no_submission : any (λ s. s.problem_id == id) t.submissions ≡ false

abbrev slug_taken_or_unknown_contest : Insertion → ProblemInput → Option ℕ → Tables → Bool
slug_taken_or_unknown_contest db body none t = true
slug_taken_or_unknown_contest db body (some slug) t =
    not (db.commits && is_insertable (problem_data db slug body) body.contest_id t)

-- When a problem is stored: there is a test case and a slug, no other problem has the slug, a contest
-- that is named exists, and the database commits.
unfoldable pub is_created : Insertion → ProblemInput → Tables → Bool
is_created db body t =
    not (length (get_or body.testcases []) == 0)
    && not (slug_taken_or_unknown_contest db body body.slug t)

-- The tables with the problem in them.
abbrev pub with_problem : Problem → List TestcaseInput → ProblemInput → Tables → Tables
with_problem p tcases body t = record t {
  problems = t.problems ++ p ∷ [];
  testcases = t.testcases ++ testcase_rows p.id tcases;
  contest_problems = link body.contest_id p.id t.contest_problems;
}

-- What a stored problem and its tables are.
record Stored (db : Insertion) (body : ProblemInput) (tcases : List TestcaseInput) (slug : Option ℕ)
    (t t' : Tables) (p : Problem) : Type 0 where
  stored : ℕ
  stored_slug : slug ≡ some stored
  stored_problem : p ≡ problem_data db stored body
  stored_tables : t' ≡ with_problem p tcases body t
  insertable : is_insertable p body.contest_id t ≡ true

insert_input-Stored :
    (db : Insertion) (body : ProblemInput) (tcases : List TestcaseInput) (slug : Option ℕ)
    (t t' : Tables) (p : Problem)
    → insert_input db slug body tcases t ≡ (t', created p)
    → Stored db body tcases slug t t' p
unfolding create_problem_with_testcases
insert_input-Stored db body tcases none t t' p h = absurd (cc)
insert_input-Stored db body tcases (some slug) t t' p h =
    let q = problem_data db slug body in
    elim (Bool-cases (db.commits && is_insertable q body.contest_id t)) [
      | inl e ↦
          let fits : is_insertable q body.contest_id t ≡ true = ground arith in
          let whole : (with_problem q tcases body t, created q) ≡ (t', created p) = rw e at h in
          let same : q ≡ p = cc whole in
          record {
            stored = slug;
            stored_slug = refl;
            stored_problem = sym same;
            stored_tables = subst (λ r. t' ≡ with_problem r tcases body t) same (cc whole);
            insertable = subst (λ r. is_insertable r body.contest_id t ≡ true) same fits;
          }
      | inr e ↦ absurd (ground arith)
    ]

create_problem-Stored :
    (db : Insertion) (body : ProblemInput) (tcases : List TestcaseInput) (t t' : Tables)
    (p : Problem)
    → insert_checked db body tcases t ≡ (t', created p)
    → Stored db body tcases body.slug t t' p
create_problem-Stored db body [] t t' p h = absurd (cc)
create_problem-Stored db body (tc ∷ tcases) t t' p h =
    insert_input-Stored db body (tc ∷ tcases) body.slug t t' p h

insert_input-created :
    (db : Insertion) (body : ProblemInput) (tcases : List TestcaseInput) (slug : Option ℕ)
    (t : Tables)
    → (slug_taken_or_unknown_contest db body slug t ≡ false
        → (p : Problem) × ((insert_input db slug body tcases t).1 ≡ created p))
      × (slug_taken_or_unknown_contest db body slug t ≡ true
          → insert_input db slug body tcases t ≡ (t, database_error))
unfolding create_problem_with_testcases
insert_input-created db body tcases none t = (λ h. absurd (cc), λ h. refl)
insert_input-created db body tcases (some slug) t =
    (λ h. (problem_data db slug body, ground arith), λ h. ground arith)

insert_checked-created :
    (db : Insertion) (body : ProblemInput) (tcases : List TestcaseInput) (t : Tables)
    → let accepted =
        not (length tcases == 0) && not (slug_taken_or_unknown_contest db body body.slug t) in
      (accepted ≡ true → (p : Problem) × ((insert_checked db body tcases t).1 ≡ created p))
      × (accepted ≡ false
          → ((insert_checked db body tcases t).0 ≡ t)
            × ((p : Problem) → (insert_checked db body tcases t).1 ≢ created p))
insert_checked-created db body [] t = (λ h. absurd (cc), λ h. (refl, λ p e. cc))
insert_checked-created db body (tc ∷ tcases) t =
    let (yes_, no_) = insert_input-created db body (tc ∷ tcases) body.slug t in
    (
      λ h. yes_ (ground arith),
      λ h.
          let refused = no_ (ground arith) in
          (ap (λ r. r.0) refused, λ p e. let d = ap (λ r. r.1) refused in cc),
    )

-- A request stores its problem exactly when `is_created` holds: it has a test case and a slug, no other
-- problem has the slug, a contest that is named exists, and the database commits. Otherwise no table
-- changes.
pub create_problem-created :
    (db : Insertion) (body : ProblemInput) (t : Tables)
    → (is_created db body t ≡ true → (p : Problem) × ((create_problem db body t).1 ≡ created p))
      × (is_created db body t ≡ false
          → ((create_problem db body t).0 ≡ t)
            × ((p : Problem) → (create_problem db body t).1 ≢ created p))
unfolding create_problem is_created
create_problem-created db body t = insert_checked-created db body (get_or body.testcases []) t

-- Over HTTP a problem cannot get limits of its own: whatever the request says of them, they are the
-- defaults.
pub create_problem_route-default_limits :
    (db : Insertion) (body : ProblemInput) (t t' : Tables) (p : Problem)
    → create_problem_route db body t ≡ (t', created p)
    → (p.time_limit_ms ≡ 2000)
      × (p.memory_limit_mb ≡ 256)
      × (p.cpu_limit ≡ 1)
      × (p.stack_limit_mb ≡ none)
unfolding create_problem_route create_problem
create_problem_route-default_limits db body t t' p h =
    let s =
      create_problem-Stored db (create_problem_schema body) (get_or body.testcases []) t t' p h in
    let same = s.stored_problem in ground arith
