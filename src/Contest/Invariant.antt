-- ===== src/Contest/Invariant.antt =====
-- The registrations and their cache, after any sequence of requests.
use code_warzz.Contest.{
  Contest, Db, has_row, same_pair, load_registered, fill_cache, drop_cache, is_user_registered,
  register_user_for_contest, deregister_user_for_contest, register_for_contest,
  deregister_for_contest, get_contest_by_id, RegisterResult, registered, DeregisterResult,
  deregistered,
}
use code_warzz.Prelude.{
  ℕ, ◌≤◌, ◌≡◌, refl, ap, inl, inr, Bool, true, false, not, ◌&&◌, some, List, [], ◌∷◌, arith, ltb,
  leb, ◌==◌, if◌then◌else◌, Bool-cases, Option-cases, get_or, length, select,
}

-- Every cached answer is the table's, and no registration is there twice.
pub record IsCoherent (db : Db) : Type 0 where
  pub cache_agrees :
      (c u : ℕ)
      → get_or (db.registered_cache c u) (has_row c u db.registrations)
        ≡ has_row c u db.registrations
  pub no_duplicates : (c u : ℕ) → length (select (same_pair c u) db.registrations) ≤ 1

has_row-none :
    (c u : ℕ) (rows : List (ℕ × ℕ))
    → has_row c u rows ≡ false
    → length (select (same_pair c u) rows) ≡ 0
has_row-none c u [] h = refl
has_row-none c u (p ∷ rows) h = ground (arith, has_row-none c u rows)

length-remove :
    (c u contest user : ℕ) (rows : List (ℕ × ℕ))
    → length (select (same_pair c u) (select (λ p. not (same_pair contest user p)) rows))
      ≤ length (select (same_pair c u) rows)
length-remove c u contest user [] = omega arith
length-remove c u contest user (p ∷ rows) = ground (arith, length-remove c u contest user rows)

pub has_row-remove :
    (c u contest user : ℕ) (rows : List (ℕ × ℕ))
    → has_row c u (select (λ p. not (same_pair contest user p)) rows)
      ≡ has_row c u rows && not (c == contest && u == user)
has_row-remove c u contest user [] = refl
has_row-remove c u contest user (p ∷ rows) = ground (arith, has_row-remove c u contest user rows)

fill-IsCoherent :
    (contest user : ℕ) (db : Db)
    → IsCoherent db
    → IsCoherent (fill_cache contest user (load_registered contest user db) db)
unfolding fill_cache load_registered
fill-IsCoherent contest user db h = record {
  cache_agrees = λ c u. ground (arith, h.cache_agrees c u);
  no_duplicates = h.no_duplicates;
}

pub drop-IsCoherent :
    (contest user : ℕ) (db : Db) → IsCoherent db → IsCoherent (drop_cache contest user db)
unfolding drop_cache
drop-IsCoherent contest user db h = record {
  cache_agrees = λ c u. ground (arith, h.cache_agrees c u);
  no_duplicates = h.no_duplicates;
}

pub is_user_registered-IsCoherent :
    (contest user : ℕ) (db : Db)
    → IsCoherent db
    → IsCoherent (is_user_registered contest user db).0
      × ((is_user_registered contest user db).1 ≡ has_row contest user db.registrations)
      × ((is_user_registered contest user db).0.registrations ≡ db.registrations)
unfolding is_user_registered
is_user_registered-IsCoherent contest user db h =
    elim (Option-cases (db.registered_cache contest user)) [
      | inl e ↦
          rw (e, is_user_registered)
            (
              fill-IsCoherent contest user db h,
              unfold load_registered in refl,
              unfold fill_cache in refl,
            )
      | inr (b, e) ↦
          let same = h.cache_agrees contest user in
          rw (e, is_user_registered) (h, rw e at same, refl)
    ]

-- the database with one more registration
abbrev pub with_row : ℕ → ℕ → Db → Db
with_row contest user db =
    drop_cache contest user (record db { registrations = (contest, user) ∷ db.registrations })

with_row-IsCoherent :
    (contest user : ℕ) (db : Db)
    → IsCoherent db
    → has_row contest user db.registrations ≡ false
    → IsCoherent (with_row contest user db)
unfolding drop_cache
with_row-IsCoherent contest user db h r = record {
  cache_agrees = λ c u. ground (arith, h.cache_agrees c u);
  no_duplicates = λ c u. ground (
    arith,
    h.no_duplicates c u,
    has_row-none contest user db.registrations,
    has_row-none c u db.registrations,
  );
}

deregister-IsCoherent :
    (contest user : ℕ) (db : Db)
    → IsCoherent db
    → IsCoherent (deregister_user_for_contest contest user db)
unfolding deregister_user_for_contest drop_cache
deregister-IsCoherent contest user db h = record {
  cache_agrees =
      λ c u. ground (arith, h.cache_agrees c u, has_row-remove c u contest user db.registrations);
  no_duplicates =
      λ c u. omega (arith, h.no_duplicates c u, length-remove c u contest user db.registrations);
}

abbrev pub is_registered_result : RegisterResult → Bool
is_registered_result registered = true
is_registered_result _ = false

abbrev pub is_deregistered : DeregisterResult → Bool
is_deregistered deregistered = true
is_deregistered _ = false

register_user-fresh :
    (contest user : ℕ) (db : Db)
    → has_row contest user db.registrations ≡ false
    → register_user_for_contest contest user db ≡ some (with_row contest user db)
unfolding register_user_for_contest
register_user-fresh contest user db r = rw r refl

-- What a registration for a contest that exists does: the invariant, the answer, the table.
pub register_found :
    (now contest user : ℕ) (db : Db) (c : Contest)
    → IsCoherent db
    → get_contest_by_id contest db ≡ some c
    → IsCoherent (register_for_contest now contest user db).0
      × (is_registered_result (register_for_contest now contest user db).1
          ≡ not (has_row contest user db.registrations) && leb now c.end_time)
      × ((register_for_contest now contest user db).0.registrations ≡ (
          if not (has_row contest user db.registrations) && leb now c.end_time
          then (contest, user) ∷ db.registrations
          else db.registrations))
unfolding register_for_contest
register_found now contest user db c h e =
    let (h', same, rows) = is_user_registered-IsCoherent contest user db h in
    elim (Bool-cases (has_row contest user db.registrations)) [
      | inl r ↦ rw (e, same, r, register_for_contest) (h', refl, rows)
      | inr r ↦ elim (Bool-cases (ltb c.end_time now)) [
        | inl l ↦
            let late : leb now c.end_time ≡ false = ground arith in
            rw (e, same, r, l, late, register_for_contest) (h', refl, rows)
        | inr l ↦
            let early : leb now c.end_time ≡ true = ground arith in
            let r' : has_row contest user (is_user_registered contest user db).0.registrations
                ≡ false =
              rw rows r in
            let stored =
              register_user-fresh contest user (is_user_registered contest user db).0 r' in
            rw (e, same, r, l, early, register_for_contest, stored)
              (
                with_row-IsCoherent contest user (is_user_registered contest user db).0 h' r',
                refl,
                unfold drop_cache in ap (λ l. (contest, user) ∷ l) rows,
              )
      ]
    ]

-- What a deregistration from a contest that exists does.
pub deregister_found :
    (now contest user : ℕ) (db : Db) (c : Contest)
    → IsCoherent db
    → get_contest_by_id contest db ≡ some c
    → IsCoherent (deregister_for_contest now contest user db).0
      × (is_deregistered (deregister_for_contest now contest user db).1
          ≡ has_row contest user db.registrations && ltb now c.start_time)
      × ((deregister_for_contest now contest user db).0.registrations ≡ (
          if has_row contest user db.registrations && ltb now c.start_time
          then select (λ p. not (same_pair contest user p)) db.registrations
          else db.registrations))
unfolding deregister_for_contest
deregister_found now contest user db c h e =
    let (h', same, rows) = is_user_registered-IsCoherent contest user db h in
    elim (Bool-cases (has_row contest user db.registrations)) [
      | inr r ↦ rw (e, same, r, deregister_for_contest) (h', refl, rows)
      | inl r ↦ elim (Bool-cases (leb c.start_time now)) [
        | inl l ↦
            let late : ltb now c.start_time ≡ false = ground arith in
            rw (e, same, r, l, late, deregister_for_contest) (h', refl, rows)
        | inr l ↦
            let early : ltb now c.start_time ≡ true = ground arith in
            rw (e, same, r, l, early, deregister_for_contest)
              (
                deregister-IsCoherent contest user (is_user_registered contest user db).0 h',
                refl,
                unfold deregister_user_for_contest drop_cache in
                    ap (select (λ p. not (same_pair contest user p))) rows,
              )
      ]
    ]
