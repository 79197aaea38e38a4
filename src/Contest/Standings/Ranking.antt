-- ===== src/Contest/Standings/Ranking.antt =====
-- The order of the standings, and who is in them.
use code_warzz.Contest.{Contest}
use code_warzz.Contest.Standings.{
  Problem, User, Row, Ranked, row_of, precedes, insert_row, order_rows, ranked_from,
  get_contest_leaderboard,
}
use code_warzz.Submission.{Submission}
use code_warzz.Prelude.{
  ℕ, ◌+◌, ◌≡◌, refl, ap, ◌∙◌, inl, inr, true, false, some, List, [], ◌∷◌, map, arith, ◌==◌,
  Bool-cases, length, select, All,
}

-- Nobody stands behind a row that should stand behind theirs.
abbrev pub IsRanked : List Row → Type 0
IsRanked [] = Unit
IsRanked (r ∷ rows) = All (λ x. precedes r x ≡ true) rows × IsRanked rows

-- The ranks count from a number on, with no gap.
abbrev pub IsNumbered : ℕ → List Ranked → Type 0
IsNumbered n [] = Unit
IsNumbered n (r ∷ rows) = (r.rank ≡ n) × IsNumbered (n + 1) rows

precedes_total : (a b : Row) → precedes a b ≡ false → precedes b a ≡ true
precedes_total a b h = ground arith

precedes_trans : (a b c : Row) → precedes a b ≡ true → precedes b c ≡ true → precedes a c ≡ true
precedes_trans a b c h k = ground arith

All-precedes :
    (a b : Row) (rows : List Row)
    → precedes a b ≡ true
    → All (λ x. precedes b x ≡ true) rows
    → All (λ x. precedes a x ≡ true) rows
All-precedes a b [] h k = tt
All-precedes a b (x ∷ rows) h (p, k) = (precedes_trans a b x h p, All-precedes a b rows h k)

All-insert_row :
    (P : Row → Type 0) (r : Row) (rows : List Row) → P r → All P rows → All P (insert_row r rows)
unfolding insert_row
All-insert_row P r [] p h = (p, tt)
All-insert_row P r (x ∷ rows) p (q, h) = elim (Bool-cases (precedes r x)) [
  | inl e ↦ rw e (p, (q, h))
  | inr e ↦ rw e (q, All-insert_row P r rows p h)
]

insert_row-IsRanked : (r : Row) (rows : List Row) → IsRanked rows → IsRanked (insert_row r rows)
unfolding insert_row
insert_row-IsRanked r [] h = (tt, tt)
insert_row-IsRanked r (x ∷ rows) (h, k) = elim (Bool-cases (precedes r x)) [
  | inl e ↦ rw e ((e, All-precedes r x rows e h), (h, k))
  | inr e ↦ rw e (
    All-insert_row (λ y. precedes x y ≡ true) r rows (precedes_total r x e) h,
    insert_row-IsRanked r rows k,
  )
]

order_rows-IsRanked : (rows : List Row) → IsRanked (order_rows rows)
unfolding order_rows
order_rows-IsRanked [] = tt
order_rows-IsRanked (r ∷ rows) = insert_row-IsRanked r (order_rows rows) (order_rows-IsRanked rows)

-- how often a user has a row
abbrev pub rows_for : ℕ → List Row → ℕ
rows_for user rows = length (select (λ r. r.user_id == user) rows)

rows_for-insert_row :
    (user : ℕ) (r : Row) (rows : List Row)
    → rows_for user (insert_row r rows) ≡ rows_for user (r ∷ rows)
unfolding insert_row
rows_for-insert_row user r [] = refl
rows_for-insert_row user r (x ∷ rows) = ground (arith, rows_for-insert_row user r rows)

rows_for-order_rows :
    (user : ℕ) (rows : List Row) → rows_for user (order_rows rows) ≡ rows_for user rows
unfolding order_rows
rows_for-order_rows user [] = refl
rows_for-order_rows user (r ∷ rows) =
    ground (arith, rows_for-insert_row user r (order_rows rows), rows_for-order_rows user rows)

rows_for-row_of :
    (contest start user : ℕ) (rows : List Submission) (problems : List Problem) (users : List User)
    → rows_for user (map (row_of contest start rows problems) users)
      ≡ length (select (λ u. u.id == user) users)
unfolding row_of
rows_for-row_of contest start user rows problems [] = refl
rows_for-row_of contest start user rows problems (u ∷ users) =
    ground (arith, rows_for-row_of contest start user rows problems users)

abbrev pub rows_of : List Ranked → List Row
rows_of = map (λ r. r.row)

rows_of-ranked_from : (index : ℕ) (rows : List Row) → rows_of (ranked_from index rows) ≡ rows
unfolding ranked_from
rows_of-ranked_from index [] = refl
rows_of-ranked_from index (r ∷ rows) = ap (λ l. r ∷ l) (rows_of-ranked_from (index + 1) rows)

ranked_from-IsNumbered :
    (index : ℕ) (rows : List Row) → IsNumbered (index + 1) (ranked_from index rows)
unfolding ranked_from
ranked_from-IsNumbered index [] = tt
ranked_from-IsNumbered index (r ∷ rows) = (refl, ranked_from-IsNumbered (index + 1) rows)

-- The standings of a contest that is found have the ranks 1, 2, 3, … and every user of the platform as
-- often as the table of users; a row stands before all rows with a smaller score, and before those of
-- the same score with a longer time.
pub get_contest_leaderboard-IsRanked :
    (c : Contest) (rows : List Submission) (problems : List Problem) (users : List User) (user : ℕ)
    → (standings : List Ranked) × (get_contest_leaderboard (some c) rows problems users
        ≡ some standings)
      × IsNumbered 1 standings
      × IsRanked (rows_of standings)
      × (rows_for user (rows_of standings) ≡ length (select (λ u. u.id == user) users))
unfolding get_contest_leaderboard
get_contest_leaderboard-IsRanked c rows problems users user =
    let unordered = map (row_of c.id c.start_time rows problems) users in
    let ordered = order_rows unordered in
    let same = rows_of-ranked_from 0 ordered in
    (
      ranked_from 0 ordered,
      refl,
      ranked_from-IsNumbered 0 ordered,
      rw same (order_rows-IsRanked unordered),
      rw same (
          rows_for-order_rows user unordered
          ∙ rows_for-row_of c.id c.start_time user rows problems users),
    )
