-- ===== src/Contest/Standings/Solves.antt =====
-- Which submissions leave the standings as they are.
use code_warzz.Contest.{Contest}
use code_warzz.Contest.Standings.{
  Problem, User, Solved, is_attempt, first_ac, is_before, count_wrong, wrong_attempts, with_solve,
  solved_with_score, row_of, get_contest_leaderboard,
}
use mathlib.Core.Path.{subst, fun_ext}
use code_warzz.Submission.{Submission, is_ac}
use code_warzz.Prelude.{
  ℕ, ◌≡◌, refl, sym, ap, ◌∙◌, inl, inr, Bool, true, false, not, ◌||◌, Option, none, some, List, [],
  ◌∷◌, arith, leb, Bool-cases,
}

-- no better than what the user has, given the time of the first accepted submission
abbrev pub is_no_better : Option ℕ → Submission → Bool
is_no_better none s = not (is_ac s.verdict)
is_no_better (some ac_time) s = leb ac_time s.created_at

-- Not of the contest, or no better than what its user has for its problem.
abbrev pub is_settled : ℕ → List Submission → Submission → Bool
is_settled contest rows s =
    not (is_attempt contest s.user_id s.problem_id s)
    || is_no_better (first_ac contest s.user_id s.problem_id rows) s

attempt_of :
    (contest user problem : ℕ) (s : Submission)
    → is_attempt contest user problem s ≡ true
    → (s.user_id ≡ user) × (s.problem_id ≡ problem)
unfolding is_attempt
attempt_of contest user problem s e = (ground arith, ground arith)

settled_for :
    (contest user problem : ℕ) (rows : List Submission) (s : Submission)
    → is_settled contest rows s ≡ true
    → is_attempt contest user problem s ≡ true
    → is_no_better (first_ac contest user problem rows) s ≡ true
settled_for contest user problem rows s h e =
    let (u, p) = attempt_of contest user problem s e in
    let same : first_ac contest s.user_id s.problem_id rows ≡ first_ac contest user problem rows =
      ground arith in
    let mine : is_attempt contest s.user_id s.problem_id s ≡ true = ground arith in
    let better : is_no_better (first_ac contest s.user_id s.problem_id rows) s ≡ true =
      ground arith in
    subst (λ o. is_no_better o s ≡ true) same better

first_ac-settled :
    (contest user problem : ℕ) (rows : List Submission) (s : Submission)
    → is_settled contest rows s ≡ true
    → first_ac contest user problem (s ∷ rows) ≡ first_ac contest user problem rows
unfolding first_ac
first_ac-settled contest user problem rows s h =
    ground (arith, settled_for contest user problem rows s h)

late : (t ac_time : ℕ) → leb ac_time t ≡ true → is_before t (some ac_time) ≡ false
late t ac_time h = ground arith

count_wrong-settled :
    (contest user problem ac_time : ℕ) (rows : List Submission) (s : Submission)
    → is_settled contest rows s ≡ true
    → first_ac contest user problem rows ≡ some ac_time
    → count_wrong contest user problem (some ac_time) (s ∷ rows)
      ≡ count_wrong contest user problem (some ac_time) rows
unfolding count_wrong
count_wrong-settled contest user problem ac_time rows s h e =
    elim (Bool-cases (is_attempt contest user problem s)) [
      | inr other ↦ rw other (omega arith)
      | inl mine ↦
          let known = settled_for contest user problem rows s h mine in
          let behind : leb ac_time s.created_at ≡ true = rw e at known in
          let quiet = late s.created_at ac_time behind in ground arith
    ]

wrong_attempts-settled :
    (contest user problem ac_time : ℕ) (rows : List Submission) (s : Submission)
    → is_settled contest rows s ≡ true
    → first_ac contest user problem rows ≡ some ac_time
    → wrong_attempts contest user problem (s ∷ rows) ≡ wrong_attempts contest user problem rows
unfolding wrong_attempts
wrong_attempts-settled contest user problem ac_time rows s h e =
    ap (λ o. count_wrong contest user problem o (s ∷ rows))
      (first_ac-settled contest user problem rows s h ∙ e)
    ∙ count_wrong-settled contest user problem ac_time rows s h e
    ∙ ap (λ o. count_wrong contest user problem o rows) (sym e)

-- Wrong attempts count only with a solve.
with_solve-eq :
    (start : ℕ) (p : Problem) (o : Option ℕ) (m n : ℕ) (solved : List Solved)
    → ((t : ℕ) → o ≡ some t → m ≡ n)
    → with_solve start p o m solved ≡ with_solve start p o n solved
with_solve-eq start p none m n solved h = refl
with_solve-eq start p (some t) m n solved h =
    ap (λ k. with_solve start p (some t) k solved) (h t refl)

solved_with_score-settled :
    (contest start user : ℕ) (rows : List Submission) (s : Submission) (problems : List Problem)
    → is_settled contest rows s ≡ true
    → solved_with_score contest start (s ∷ rows) problems user
      ≡ solved_with_score contest start rows problems user
unfolding solved_with_score
solved_with_score-settled contest start user rows s [] h = refl
solved_with_score-settled contest start user rows s (p ∷ problems) h =
    let ih = solved_with_score-settled contest start user rows s problems h in
    let first = first_ac-settled contest user p.id rows s h in
    let o = first_ac contest user p.id rows in
    let m = wrong_attempts contest user p.id (s ∷ rows) in
    ap (λ f. with_solve start p f m (solved_with_score contest start (s ∷ rows) problems user))
      first
    ∙ ap (λ l. with_solve start p o m l) ih
    ∙ with_solve-eq start p o m (wrong_attempts contest user p.id rows)
        (solved_with_score contest start rows problems user)
        (λ t e. wrong_attempts-settled contest user p.id t rows s h e)

row_of-settled :
    (contest start : ℕ) (rows : List Submission) (s : Submission) (problems : List Problem)
    (u : User)
    → is_settled contest rows s ≡ true
    → row_of contest start (s ∷ rows) problems u ≡ row_of contest start rows problems u
unfolding row_of
row_of-settled contest start rows s problems u h =
    rw (solved_with_score-settled contest start u.id rows s problems h) refl

-- A submission outside the contest changes nothing in its standings. Nor does one that is not earlier
-- than its user's first accepted one to the problem, or one that is not accepted while there is none.
pub get_contest_leaderboard-settled :
    (c : Contest) (rows : List Submission) (s : Submission) (problems : List Problem)
    (users : List User)
    → is_settled c.id rows s ≡ true
    → get_contest_leaderboard (some c) (s ∷ rows) problems users
      ≡ get_contest_leaderboard (some c) rows problems users
unfolding get_contest_leaderboard
get_contest_leaderboard-settled c rows s problems users h =
    let same = fun_ext (λ u. row_of-settled c.id c.start_time rows s problems u h) in rw same refl
