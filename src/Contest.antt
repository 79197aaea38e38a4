-- ===== src/Contest.antt =====
-- core/src/service/contest.service.ts and core/src/repository/contest.repository.ts: contests, their
-- status, and registrations behind a cache.
-- Tables are lists of rows; the cache is a function from keys to answers, which loses entries when
-- they expire. A failing database or Redis, where every operation throws, is left out.
pub mod Invariant
pub mod Registration
pub mod Standings
mod Examples
use code_warzz.Prelude.{
  ℕ, Bool, not, ◌&&◌, Option, none, some, List, [], ◌∷◌, map, ltb, leb, ◌==◌, if◌then◌else◌, select,
  any,
}

pub record Contest : Type 0 where
  pub id : ℕ
  pub start_time : ℕ
  pub end_time : ℕ

pub data ContestStatus : Type 0 where
  upcoming ongoing ended : ContestStatus

-- the status that `getContest` and `getAllContests` answer
unfoldable pub status_of : ℕ → Contest → ContestStatus
status_of now c =
    if leb c.start_time now && leb now c.end_time
    then ongoing
    else if ltb c.end_time now
    then ended
    else upcoming

-- the `switch` on `filters.status`, as a condition on a row
unfoldable pub matches_filter : ContestStatus → ℕ → Contest → Bool
matches_filter upcoming now c = ltb now c.start_time
matches_filter ongoing now c = leb c.start_time now && leb now c.end_time
matches_filter ended now c = ltb c.end_time now

-- The tables, and the cached answers of `isUserRegistered` by contest and user.
pub record Db : Type 0 where
  pub contests : List Contest
  pub registrations : List (ℕ × ℕ)  -- contest, user
  pub contest_problems : List (ℕ × ℕ)  -- contest, problem
  pub registered_cache : ℕ → ℕ → Option Bool

abbrev pub same_pair : ℕ → ℕ → ℕ × ℕ → Bool
same_pair a b p = p.0 == a && p.1 == b

-- whether the registrations have a row of this contest and user
abbrev pub has_row : ℕ → ℕ → List (ℕ × ℕ) → Bool
has_row contest user = any (same_pair contest user)

-- `findFirst({ where: eq(contests.id, id) })`
abbrev pub find_contest : ℕ → List Contest → Option Contest
find_contest id [] = none
find_contest id (c ∷ cs) = let rest = find_contest id cs in if c.id == id then some c else rest

-- `getContestById`
unfoldable pub get_contest_by_id : ℕ → Db → Option Contest
get_contest_by_id id db = find_contest id db.contests

-- the contests that are on and have the problem, read from the tables
unfoldable pub get_ongoing_contests_for_problem : ℕ → ℕ → Db → List ℕ
get_ongoing_contests_for_problem now problem db =
    map (λ c. c.id)
      (select
        (λ c.
          (leb c.start_time now && leb now c.end_time) && has_row c.id problem db.contest_problems)
        db.contests)

abbrev pub set_cache : ℕ → ℕ → Option Bool → (ℕ → ℕ → Option Bool) → ℕ → ℕ → Option Bool
set_cache contest user value cache c u = if c == contest && u == user then value else cache c u

-- the query of `isUserRegistered` on a cache miss
unfoldable pub load_registered : ℕ → ℕ → Db → Bool
load_registered contest user db = has_row contest user db.registrations

-- `cacheService.set(cacheKey, isRegistered, 300)`
unfoldable pub fill_cache : ℕ → ℕ → Bool → Db → Db
fill_cache contest user answer db = record db {
  registered_cache = set_cache contest user (some answer) db.registered_cache;
}

-- `cacheService.del`, and the expiry of an entry
unfoldable pub drop_cache : ℕ → ℕ → Db → Db
drop_cache contest user db = record db {
  registered_cache = set_cache contest user none db.registered_cache;
}

-- `isUserRegistered`
unfoldable pub is_user_registered : ℕ → ℕ → Db → Db × Bool
is_user_registered contest user db = elim (db.registered_cache contest user) [
  | some answer ↦ (db, answer)
  | none ↦
      let answer = load_registered contest user db in (fill_cache contest user answer db, answer)
]

-- `registerUserForContest`: `none` is a violation of the primary key
unfoldable pub register_user_for_contest : ℕ → ℕ → Db → Option Db
register_user_for_contest contest user db =
    if has_row contest user db.registrations
    then none
    else some
        (drop_cache contest user (record db { registrations = (contest, user) ∷ db.registrations }))

-- `deregisterUserForContest`
unfoldable pub deregister_user_for_contest : ℕ → ℕ → Db → Db
deregister_user_for_contest contest user db =
    drop_cache contest user
      (record db { registrations = select (λ p. not (same_pair contest user p)) db.registrations })

pub data RegisterResult : Type 0 where
  registered : RegisterResult
  contest_not_found already_registered already_ended duplicate_key : RegisterResult

abbrev pub stored_registration : Db → Option Db → Db × RegisterResult
stored_registration before none = (before, duplicate_key)
stored_registration before (some db) = (db, registered)

-- `registerForContest`
unfoldable pub register_for_contest : ℕ → ℕ → ℕ → Db → Db × RegisterResult
register_for_contest now contest user db = elim (get_contest_by_id contest db) [
  | none ↦ (db, contest_not_found)
  | some c ↦
      let (db', is_registered) = is_user_registered contest user db in
      if is_registered
      then (db', already_registered)
      else if ltb c.end_time now
      then (db', already_ended)
      else stored_registration db' (register_user_for_contest contest user db')
]

pub data DeregisterResult : Type 0 where
  deregistered : DeregisterResult
  no_contest not_registered already_started : DeregisterResult

-- `deregisterForContest`
unfoldable pub deregister_for_contest : ℕ → ℕ → ℕ → Db → Db × DeregisterResult
deregister_for_contest now contest user db = elim (get_contest_by_id contest db) [
  | none ↦ (db, no_contest)
  | some c ↦
      let (db', is_registered) = is_user_registered contest user db in
      if not is_registered
      then (db', not_registered)
      else if leb c.start_time now
      then (db', already_started)
      else (deregister_user_for_contest contest user db', deregistered)
]
