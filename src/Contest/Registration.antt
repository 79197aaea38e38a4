-- ===== src/Contest/Registration.antt =====
-- Who is registered after any requests, and a cached answer that is out of date.
use code_warzz.Contest.{
  Contest, ContestStatus, upcoming, ongoing, ended, status_of, matches_filter, Db, has_row,
  load_registered, fill_cache, drop_cache, is_user_registered, register_user_for_contest,
  register_for_contest, deregister_for_contest, get_contest_by_id,
}
use code_warzz.Contest.Invariant.{
  IsCoherent, is_registered_result, is_deregistered, register_found, deregister_found,
  drop-IsCoherent, is_user_registered-IsCoherent, has_row-remove,
}
use code_warzz.Prelude.{
  ℕ, ◌≤◌, ◌≡◌, refl, ◌↔◌, inl, inr, Bool, true, false, not, ◌&&◌, ◌||◌, Option, none, some, List,
  [], ◌∷◌, arith, ltb, leb, ◌==◌, Option-cases,
}

-- What can happen to the registrations; the times need not be in order.
pub data Request : Type 0 where
  ask : ℕ → ℕ → Request
  register deregister : ℕ → ℕ → ℕ → Request
  expire : ℕ → ℕ → Request

unfoldable pub step : Request → Db → Db
step (ask contest user) db = (is_user_registered contest user db).0
step (register now contest user) db = (register_for_contest now contest user db).0
step (deregister now contest user) db = (deregister_for_contest now contest user db).0
step (expire contest user) db = drop_cache contest user db

unfoldable pub run : List Request → Db → Db
unfolding step
run [] db = db
run (r ∷ rs) db = run rs (step r db)

-- whether the contest is found and its test passes
abbrev pub passes : (Contest → Bool) → Option Contest → Bool
passes test none = false
passes test (some c) = test c

register_missing :
    (now contest user : ℕ) (db : Db)
    → get_contest_by_id contest db ≡ none
    → ((register_for_contest now contest user db).0 ≡ db)
      × (is_registered_result (register_for_contest now contest user db).1 ≡ false)
unfolding register_for_contest
register_missing now contest user db e = rw (e, register_for_contest) (refl, refl)

deregister_missing :
    (now contest user : ℕ) (db : Db)
    → get_contest_by_id contest db ≡ none
    → ((deregister_for_contest now contest user db).0 ≡ db)
      × (is_deregistered (deregister_for_contest now contest user db).1 ≡ false)
unfolding deregister_for_contest
deregister_missing now contest user db e = rw (e, deregister_for_contest) (refl, refl)

pub step-IsCoherent : (r : Request) (db : Db) → IsCoherent db → IsCoherent (step r db)
unfolding step
step-IsCoherent (ask contest user) db h = (is_user_registered-IsCoherent contest user db h).0
step-IsCoherent (register now contest user) db h =
    elim (Option-cases (get_contest_by_id contest db)) [
      | inl e ↦ rw ((register_missing now contest user db e).0) h
      | inr (c, e) ↦ (register_found now contest user db c h e).0
    ]
step-IsCoherent (deregister now contest user) db h =
    elim (Option-cases (get_contest_by_id contest db)) [
      | inl e ↦ rw ((deregister_missing now contest user db e).0) h
      | inr (c, e) ↦ (deregister_found now contest user db c h e).0
    ]
step-IsCoherent (expire contest user) db h = drop-IsCoherent contest user db h

-- After any sequence of questions, registrations, deregistrations and expiries, each of them run to
-- its end, every cached answer is the table's and nobody is registered twice for a contest.
pub run-IsCoherent : (rs : List Request) (db : Db) → IsCoherent db → IsCoherent (run rs db)
unfolding run
run-IsCoherent [] db h = h
run-IsCoherent (r ∷ rs) db h = run-IsCoherent rs (step r db) (step-IsCoherent r db h)

-- While the cache agrees with the table, a registration succeeds exactly if the contest exists, has
-- not ended and the user is not registered; then exactly this registration is new.
pub register_for_contest-registered :
    (now contest user c u : ℕ) (db : Db)
    → IsCoherent db
    → let after = register_for_contest now contest user db in
      (is_registered_result after.1
        ≡ not (has_row contest user db.registrations)
          && passes (λ k. leb now k.end_time) (get_contest_by_id contest db))
      × (has_row c u after.0.registrations
          ≡ (is_registered_result after.1 && (c == contest && u == user))
            || has_row c u db.registrations)
register_for_contest-registered now contest user c u db h =
    elim (Option-cases (get_contest_by_id contest db)) [
      | inl e ↦
          let (same, failed) = register_missing now contest user db e in
          (ground arith, ground arith)
      | inr (k, e) ↦
          let (coherent, answer, rows) = register_found now contest user db k h e in
          (ground arith, ground arith)
    ]

-- While the cache agrees with the table, a deregistration succeeds exactly if the contest exists, has
-- not started and the user is registered; then exactly this registration is gone.
pub deregister_for_contest-deregistered :
    (now contest user c u : ℕ) (db : Db)
    → IsCoherent db
    → let after = deregister_for_contest now contest user db in
      (is_deregistered after.1
        ≡ has_row contest user db.registrations
          && passes (λ k. ltb now k.start_time) (get_contest_by_id contest db))
      × (has_row c u after.0.registrations
          ≡ has_row c u db.registrations
            && not (is_deregistered after.1 && (c == contest && u == user)))
deregister_for_contest-deregistered now contest user c u db h =
    elim (Option-cases (get_contest_by_id contest db)) [
      | inl e ↦
          let (same, failed) = deregister_missing now contest user db e in
          (ground arith, ground arith)
      | inr (k, e) ↦
          let (coherent, answer, rows) = deregister_found now contest user db k h e in
          let removed = has_row-remove c u contest user db.registrations in
          (ground arith, ground arith)
    ]

-- A question that reads the table before a registration of the same user, and fills the cache after
-- it, leaves a cached answer that is out of date: the user is registered, and is told not to be.
pub is_user_registered-stale :
    (contest user : ℕ) (db db' : Db)
    → load_registered contest user db ≡ false
    → register_user_for_contest contest user db ≡ some db'
    → (has_row contest user db'.registrations ≡ true)
      × ((is_user_registered contest user
            (fill_cache contest user (load_registered contest user db) db')).1
          ≡ false)
unfolding load_registered register_user_for_contest drop_cache fill_cache is_user_registered
is_user_registered-stale contest user db db' r e = (ground arith, ground arith)

-- The rows that `getAllContests` selects for a status are those to which the service then gives this
-- status, for contests that do not end before they start.
pub matches_filter-status_of :
    (filter : ContestStatus) (now : ℕ) (c : Contest)
    → c.start_time ≤ c.end_time
    → (matches_filter filter now c ≡ true) ↔ (status_of now c ≡ filter)
unfolding matches_filter status_of
matches_filter-status_of upcoming now c h = (λ m. ground arith, λ m. ground arith)
matches_filter-status_of ongoing now c h = (λ m. ground arith, λ m. ground arith)
matches_filter-status_of ended now c h = (λ m. ground arith, λ m. ground arith)
