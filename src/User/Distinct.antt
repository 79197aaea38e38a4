-- ===== src/User/Distinct.antt =====
-- Counting solved problems: the two joins give the same problems, and each has one difficulty.
use code_warzz.Problem.{Difficulty, easy, medium, hard, Problem}
use code_warzz.Submission.{Submission}
use code_warzz.User.{
  count_distinct, count_difficulty, is_difficulty, group, inner_join, problems_of, left_join,
  left_join_problems, non_null, or_null,
}
use code_warzz.Prelude.{
  ℕ, ◌+◌, ◌≡◌, refl, ap, ◌∙◌, inl, inr, true, Option, some, List, [], ◌∷◌, ◌++◌, map, arith, ◌==◌,
  ==_iff, Bool-cases, any, All, All-append, All-select,
}

non_null-some :
    (ps : List Problem) (rest : List (Option Problem))
    → non_null (map some ps ++ rest) ≡ ps ++ non_null rest
unfolding non_null
non_null-some [] rest = refl
non_null-some (p ∷ ps) rest = ap (λ l. p ∷ l) (non_null-some ps rest)

non_null-or_null :
    (ps : List Problem) (rest : List (Option Problem))
    → non_null (or_null ps ++ rest) ≡ ps ++ non_null rest
unfolding non_null
non_null-or_null [] rest = refl
non_null-or_null (p ∷ ps) rest = non_null-some (p ∷ ps) rest

non_null-left_join_problems :
    (problems : List Problem) (rows : List Submission)
    → non_null (left_join_problems problems rows) ≡ inner_join problems rows
unfolding left_join_problems inner_join
non_null-left_join_problems problems [] = unfold non_null in refl
non_null-left_join_problems problems (s ∷ rows) =
    non_null-or_null (problems_of problems s) (left_join_problems problems rows)
    ∙ ap (λ l. problems_of problems s ++ l) (non_null-left_join_problems problems rows)

-- Without its NULLs the left join is the inner join.
pub non_null-left_join :
    (problems : List Problem) (rows : List Submission)
    → non_null (left_join problems rows) ≡ inner_join problems rows
unfolding left_join
non_null-left_join problems [] = unfold non_null inner_join in refl
non_null-left_join problems (s ∷ rows) = non_null-left_join_problems problems (s ∷ rows)

pub is_difficulty_refl : (d : Difficulty) → is_difficulty d d ≡ true
is_difficulty_refl easy = refl
is_difficulty_refl medium = refl
is_difficulty_refl hard = refl

-- a problem more, of the difficulty `d`
count_distinct-step :
    (d : Difficulty) (p : Problem) (ps : List Problem)
    → p.difficulty ≡ d
    → any (λ q. q.id == p.id) (group is_difficulty (λ (q : Problem). q.difficulty) d ps)
      ≡ any (λ q. q.id == p.id) ps
    → count_distinct ps
      ≡ count_difficulty easy ps + count_difficulty medium ps + count_difficulty hard ps
    → count_distinct (p ∷ ps)
      ≡ count_difficulty easy (p ∷ ps)
        + count_difficulty medium (p ∷ ps)
        + count_difficulty hard (p ∷ ps)
unfolding count_distinct
count_distinct-step easy p ps e again ih =
    rw
      (
        ap (λ x. is_difficulty x easy) e,
        ap (λ x. is_difficulty x medium) e,
        ap (λ x. is_difficulty x hard) e,
        again,
      )
      (ground arith)
count_distinct-step medium p ps e again ih =
    rw
      (
        ap (λ x. is_difficulty x easy) e,
        ap (λ x. is_difficulty x medium) e,
        ap (λ x. is_difficulty x hard) e,
        again,
      )
      (ground arith)
count_distinct-step hard p ps e again ih =
    rw
      (
        ap (λ x. is_difficulty x easy) e,
        ap (λ x. is_difficulty x medium) e,
        ap (λ x. is_difficulty x hard) e,
        again,
      )
      (ground arith)

module _ (difficulty_of : ℕ → Difficulty) where
  -- The id of a problem determines its difficulty, as a primary key does.
  abbrev pub HasDifficulty : Problem → Type 0
  HasDifficulty p = p.difficulty ≡ difficulty_of p.id

  pub inner_join-HasDifficulty :
      (problems : List Problem) (rows : List Submission)
      → All HasDifficulty problems
      → All HasDifficulty (inner_join problems rows)
  unfolding inner_join
  inner_join-HasDifficulty problems [] h = tt
  inner_join-HasDifficulty problems (s ∷ rows) h =
      All-append HasDifficulty (problems_of problems s) (inner_join problems rows)
        (All-select HasDifficulty (λ p. p.id == s.problem_id) problems h)
        (inner_join-HasDifficulty problems rows h)

  -- A problem is found again within its own difficulty.
  any-group :
      (id : ℕ) (ps : List Problem)
      → All HasDifficulty ps
      → any
          (λ q. q.id == id)
          (group is_difficulty (λ (p : Problem). p.difficulty) (difficulty_of id) ps)
        ≡ any (λ q. q.id == id) ps
  any-group id [] h = refl
  any-group id (p ∷ ps) (e, h) =
      let ih = any-group id ps h in
      elim (Bool-cases (p.id == id)) [
        | inl s ↦
            let own : is_difficulty p.difficulty (difficulty_of id) ≡ true =
              ap (λ d. is_difficulty d (difficulty_of id))
                (e ∙ ap difficulty_of ((==_iff p.id id).0 s))
              ∙ is_difficulty_refl (difficulty_of id) in
            rw (own, s) refl
        | inr s ↦ elim (Bool-cases (is_difficulty p.difficulty (difficulty_of id))) [
          | inl d ↦ rw (d, s) ih
          | inr d ↦ rw (d, s) ih
        ]
      ]

  -- The three difficulties partition the solved problems.
  pub count_distinct-difficulties :
      (ps : List Problem)
      → All HasDifficulty ps
      → count_distinct ps
        ≡ count_difficulty easy ps + count_difficulty medium ps + count_difficulty hard ps
  unfolding count_distinct
  count_distinct-difficulties [] h = refl
  count_distinct-difficulties (p ∷ ps) (e, h) =
      count_distinct-step (difficulty_of p.id) p ps e (any-group p.id ps h)
        (count_distinct-difficulties ps h)
