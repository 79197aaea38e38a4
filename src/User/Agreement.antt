-- ===== src/User/Agreement.antt =====
-- What `getUserStats` and `getGlobalLeaderboard` count, each in its own query.
use code_warzz.Problem.{Difficulty, easy, medium, hard, Problem}
use code_warzz.Submission.{Submission, Verdict, ac, wa, tle, mle, re, ce, pending, is_ac}
use code_warzz.User.Groups.{
  has, IsUnique, sum_over, has-group_keys, group_keys-IsUnique, sum_over-group_keys, group-nil,
  length-group_or_zero,
}
use code_warzz.User.Distinct.{
  HasDifficulty, non_null-left_join, inner_join-HasDifficulty, count_distinct-difficulties,
  is_difficulty_refl,
}
use code_warzz.User.{
  User, SolvedStats, is_difficulty, is_verdict, group_keys, group, count_distinct, count_difficulty,
  inner_join, solves, submissions_of, solved_stats, no_stats, add_solved, submission_totals,
  get_solved_counts, get_submission_stats, get_user_stats, standing,
}
use mathlib.Core.Path.{subst}
use code_warzz.Prelude.{
  ℕ, ◌+◌, ◌≡◌, refl, sym, ap, ◌∙◌, ◌↔◌, inl, inr, true, List, [], ◌∷◌, map, arith, ◌==◌,
  if◌then◌else◌, Bool-cases, length, All,
}

is_difficulty-eq : (a b : Difficulty) → is_difficulty a b ≡ true → a ≡ b
is_difficulty-eq easy easy h = refl
is_difficulty-eq medium medium h = refl
is_difficulty-eq hard hard h = refl
is_difficulty-eq _ _ h = absurd (cc)

is_difficulty_iff : (a b : Difficulty) → (is_difficulty a b ≡ true) ↔ (a ≡ b)
is_difficulty_iff a b =
    (is_difficulty-eq a b, λ e. subst (λ c. is_difficulty a c ≡ true) e (is_difficulty_refl a))

is_verdict-eq : (a b : Verdict) → is_verdict a b ≡ true → a ≡ b
is_verdict-eq ac ac h = refl
is_verdict-eq wa wa h = refl
is_verdict-eq tle tle h = refl
is_verdict-eq mle mle h = refl
is_verdict-eq re re h = refl
is_verdict-eq ce ce h = refl
is_verdict-eq pending pending h = refl
is_verdict-eq _ _ h = absurd (cc)

is_verdict_refl : (a : Verdict) → is_verdict a a ≡ true
is_verdict_refl ac = refl
is_verdict_refl _ = refl

is_verdict_iff : (a b : Verdict) → (is_verdict a b ≡ true) ↔ (a ≡ b)
is_verdict_iff a b =
    (is_verdict-eq a b, λ e. subst (λ c. is_verdict a c ≡ true) e (is_verdict_refl a))

is_verdict-ac : (v : Verdict) → is_verdict v ac ≡ is_ac v
is_verdict-ac ac = refl
is_verdict-ac _ = refl

-- the groups of the keys `ks` added up
solved_stats-map :
    (f : Difficulty → ℕ) (ks : List Difficulty) (s : SolvedStats)
    → IsUnique is_difficulty ks
    → let part = λ (d : Difficulty) (old : ℕ). if has is_difficulty d ks then f d else old in
      solved_stats s (map (λ d. (d, f d)) ks) ≡ record {
        easy_count = part easy s.easy_count;
        medium_count = part medium s.medium_count;
        hard_count = part hard s.hard_count;
        total_count = s.total_count + part easy 0 + part medium 0 + part hard 0;
      }
unfolding solved_stats
solved_stats-map f [] s u = ground arith
solved_stats-map f (easy ∷ ks) s (fresh, u) =
    solved_stats-map f ks (add_solved easy (f easy) s) u ∙ ground arith
solved_stats-map f (medium ∷ ks) s (fresh, u) =
    solved_stats-map f ks (add_solved medium (f medium) s) u ∙ ground arith
solved_stats-map f (hard ∷ ks) s (fresh, u) =
    solved_stats-map f ks (add_solved hard (f hard) s) u ∙ ground arith

submission_totals-map :
    (f : Verdict → ℕ) (ks : List Verdict) (total accepted : ℕ)
    → IsUnique is_verdict ks
    → submission_totals (total, accepted) (map (λ v. (v, f v)) ks)
      ≡ (total + sum_over f ks, accepted + (if has is_verdict ac ks then f ac else 0))
unfolding submission_totals
submission_totals-map f [] total accepted u = ground arith
submission_totals-map f (ac ∷ ks) total accepted (fresh, u) =
    submission_totals-map f ks (total + f ac) (accepted + f ac) u ∙ ground arith
submission_totals-map f (v ∷ ks) total accepted (fresh, u) =
    submission_totals-map f ks (total + f v) accepted u ∙ ground arith

length-solves :
    (user : ℕ) (rows : List Submission)
    → length (group is_verdict (λ (s : Submission). s.verdict) ac (submissions_of user rows))
      ≡ length (solves user rows)
length-solves user [] = refl
length-solves user (s ∷ rows) =
    let ih = length-solves user rows in
    let same = is_verdict-ac s.verdict in
    elim (Bool-cases (s.user_id == user)) [
      | inl own ↦ rw (own, same) (ground arith)
      | inr other ↦ rw other ih
    ]

group_or_zero :
    (d : Difficulty) (joined : List Problem)
    → (if has is_difficulty d (group_keys is_difficulty (λ p. p.difficulty) joined)
        then count_difficulty d joined
        else 0)
      ≡ count_difficulty d joined
group_or_zero d joined =
    elim (Bool-cases
      (has is_difficulty d (group_keys is_difficulty (λ (p : Problem). p.difficulty) joined))) [
        | inl e ↦ rw e refl
        | inr e ↦
            let nothing =
              group-nil is_difficulty (λ (p : Problem). p.difficulty) is_difficulty_iff d joined
                (sym (
                    has-group_keys is_difficulty (λ (p : Problem). p.difficulty) is_difficulty_iff d
                      joined)
                  ∙ e) in
            rw (e, nothing) (unfold count_distinct in refl)
      ]

-- The verdicts of a user add up: the service counts every submission of the user, and as accepted those
-- with the verdict AC.
pub get_user_stats-totals :
    (user : ℕ) (rows : List Submission) (problems : List Problem)
    → let stats = get_user_stats user rows problems in
      (stats.total ≡ length (submissions_of user rows))
      × (stats.accepted ≡ length (solves user rows))
unfolding get_user_stats get_submission_stats
get_user_stats-totals user rows problems =
    let own = submissions_of user rows in
    let keys = group_keys is_verdict (λ (s : Submission). s.verdict) own in
    let size = λ (v : Verdict). length (group is_verdict (λ (s : Submission). s.verdict) v own) in
    let unique =
      group_keys-IsUnique is_verdict (λ (s : Submission). s.verdict) is_verdict_iff own in
    let added = submission_totals-map size keys 0 0 unique in
    let all_ = sum_over-group_keys is_verdict (λ (s : Submission). s.verdict) is_verdict_iff own in
    (
      ap (λ r. r.0) added ∙ omega (arith, all_),
      ap (λ r. r.1) added
          ∙ omega (
            arith,
            length-group_or_zero is_verdict (λ (s : Submission). s.verdict) is_verdict_iff ac own,
            length-solves user rows,
          ),
    )

solved-lem :
    (user : ℕ) (rows : List Submission) (problems : List Problem)
    → let joined = inner_join problems (solves user rows) in
      (get_user_stats user rows problems).solved ≡ record {
        easy_count = count_difficulty easy joined;
        medium_count = count_difficulty medium joined;
        hard_count = count_difficulty hard joined;
        total_count =
            count_difficulty easy joined
            + count_difficulty medium joined
            + count_difficulty hard joined;
      }
unfolding get_user_stats get_solved_counts
solved-lem user rows problems =
    let joined = inner_join problems (solves user rows) in
    let keys = group_keys is_difficulty (λ (p : Problem). p.difficulty) joined in
    let unique =
      group_keys-IsUnique is_difficulty (λ (p : Problem). p.difficulty) is_difficulty_iff joined in
    solved_stats-map (λ d. count_difficulty d joined) keys no_stats unique
    ∙ rw (group_or_zero easy joined, group_or_zero medium joined, group_or_zero hard joined)
        (ground arith)

-- The row of a user on the global leaderboard and the user's own statistics, which are computed by
-- different queries, agree on the solved problems of each difficulty and in total, where the id of a
-- problem determines its difficulty.
pub standing-agrees :
    (difficulty_of : ℕ → Difficulty) (rows : List Submission) (problems : List Problem) (u : User)
    → All (HasDifficulty difficulty_of) problems
    → let solved = (get_user_stats u.id rows problems).solved in
      let row = standing rows problems u in
      (row.easy_count ≡ solved.easy_count)
      × (row.medium_count ≡ solved.medium_count)
      × (row.hard_count ≡ solved.hard_count)
      × (row.solved_count ≡ solved.total_count)
unfolding standing
standing-agrees difficulty_of rows problems u h =
    let joined = inner_join problems (solves u.id rows) in
    rw (non_null-left_join problems (solves u.id rows), solved-lem u.id rows problems)
      (
        refl,
        refl,
        refl,
        count_distinct-difficulties difficulty_of joined
            (inner_join-HasDifficulty difficulty_of problems (solves u.id rows) h),
      )
