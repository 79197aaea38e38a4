-- ===== src/User/Profile.antt =====
-- The order of the global leaderboard and of a user's activity, and profiles.
use code_warzz.Problem.{Problem}
use code_warzz.Submission.{Submission}
use code_warzz.User.{User, Standing, standing, get_global_leaderboard}
use code_warzz.Prelude.{
  ℕ, ◌<◌, min, ◌≡◌, refl, ap, ◌∙◌, inl, inr, Bool, List, [], ◌∷◌, map, arith, ltb, Bool-cases,
  length, select, length-take, All, All-take, sort_desc, IsDescending, All-sort_desc,
  sort_desc-IsDescending, length-sort_desc, IsDescending-take,
}

All-positive :
    (rs : List Standing)
    → All (λ (r : Standing). 0 < r.solved_count) (select (λ r. ltb 0 r.solved_count) rs)
All-positive [] = tt
All-positive (r ∷ rs) = elim (Bool-cases (ltb 0 r.solved_count)) [
  | inl e ↦ rw e (ground arith, All-positive rs)
  | inr e ↦ rw e (All-positive rs)
]

length-select-map :
    {A B : Type 0} (test : B → Bool) (f : A → B) (xs : List A)
    → length (select test (map f xs)) ≡ length (select (λ x. test (f x)) xs)
length-select-map test f [] = refl
length-select-map test f (x ∷ xs) = ground (arith, length-select-map test f xs)

-- The leaderboard lists users who have solved something, those with more problems first, and it holds all
-- of them unless there are more than `limit`.
pub get_global_leaderboard-IsRanked :
    (limit : ℕ) (rows : List Submission) (problems : List Problem) (users : List User)
    → let ranking = get_global_leaderboard limit rows problems users in
      IsDescending (λ (r : Standing). r.solved_count) ranking
      × All (λ (r : Standing). 0 < r.solved_count) ranking
      × (length ranking
          ≡ min limit (length (select (λ u. ltb 0 (standing rows problems u).solved_count) users)))
unfolding get_global_leaderboard
get_global_leaderboard-IsRanked limit rows problems users =
    let solvers = select (λ r. ltb 0 r.solved_count) (map (standing rows problems) users) in
    let sorted = sort_desc (λ (r : Standing). r.solved_count) solvers in
    (
      IsDescending-take (λ (r : Standing). r.solved_count) limit sorted
          (sort_desc-IsDescending (λ (r : Standing). r.solved_count) solvers),
      All-take (λ (r : Standing). 0 < r.solved_count) limit sorted
          (All-sort_desc (λ (r : Standing). r.solved_count) (λ r. 0 < r.solved_count) solvers
            (All-positive (map (standing rows problems) users))),
      length-take limit sorted
          ∙ ap (min limit) (
              length-sort_desc (λ (r : Standing). r.solved_count) solvers
              ∙ length-select-map (λ r. ltb 0 r.solved_count) (standing rows problems) users),
    )
