-- ===== src/Leaderboard/ReadModel.antt =====
-- leaderboard.readmodel.service.ts, the HTTP controller and the gRPC handlers of the
-- leaderboard-service. The sorted set is behind an interface; the read model is the state of its two
-- keys and of its lock, by contest, and the index has the order of the sorted set it is filled from.
-- A command other than the projection's is supposed to succeed.
pub mod Ranks
pub mod Top
use code_warzz.Leaderboard.{RankedEntry, project_from}
use code_warzz.Leaderboard.Store.{
  SortedSets, UpdateLeaderboardInput, UserRank, update_leaderboard, get_user_rank,
}
use code_warzz.Grpc.{Status, unauthenticated, internal, answered}
use code_warzz.Prelude.{
  ℕ, Bool, true, false, Option, none, some, List, [], ◌∷◌, map, ◌==◌, if◌then◌else◌, take,
}

pub record ReadModel : Type 0 where
  pub index : ℕ → List ℕ  -- the users of the index; no key, no users
  pub hash : ℕ → ℕ → Option RankedEntry  -- `none` is missing or no JSON
  pub locked : ℕ → Bool

-- what becomes of a projection, and what other callers do in the 100 ms of waiting for one
pub record Turn : Type 0 where
  pub evaluates : Bool
  pub publishes : Bool
  pub waited : ReadModel → ReadModel

-- the HSETs of the script's loop, in order
unfoldable pub hset_all : List RankedEntry → (ℕ → Option RankedEntry) → ℕ → Option RankedEntry
hset_all [] fields = fields
hset_all (e ∷ entries) fields =
    hset_all entries (λ user. if e.entry.user_id == user then some e else fields user)

-- the script: nothing is touched for an empty sorted set, else both keys are written again
unfoldable pub run_script : ℕ → List (ℕ × ℕ) → ReadModel → ReadModel
unfolding hset_all project_from
run_script contest [] m = m
run_script contest (pair ∷ pairs) m =
    let entries = project_from 0 (pair ∷ pairs) in
    record m {
      index = λ c. if c == contest then map (λ e. e.entry.user_id) entries else m.index c;
      hash = λ c. if c == contest then hset_all entries (λ user. none) else m.hash c;
    }

-- `project`, with whether it returns
unfoldable pub project_contest : Turn → ℕ → List (ℕ × ℕ) → ReadModel → ReadModel × Bool
unfolding run_script
project_contest turn contest pairs m =
    if turn.evaluates then (run_script contest pairs m, turn.publishes) else (m, false)

abbrev pub set_locked : ℕ → Bool → ReadModel → ReadModel
set_locked contest b m = record m { locked = λ c. if c == contest then b else m.locked c }

abbrev pub keep : Option RankedEntry → List RankedEntry → List RankedEntry
keep none entries = entries
keep (some e) entries = e ∷ entries

-- the HGETs of the pipeline; a field that is missing or corrupt is skipped
unfoldable pub read_entries : List ℕ → (ℕ → Option RankedEntry) → List RankedEntry
read_entries [] fields = []
read_entries (user ∷ users) fields = keep (fields user) (read_entries users fields)

unfoldable pub read_top : ℕ → ℕ → ReadModel → List RankedEntry
unfolding read_entries
read_top contest limit m = read_entries (take limit (m.index contest)) (m.hash contest)

-- the caller that has the lock projects, releases it and reads, `none` if the projection throws
unfoldable pub project_top :
    Turn → ℕ → ℕ → List (ℕ × ℕ) → ReadModel → ReadModel × Option (List RankedEntry)
unfolding project_contest read_top
project_top turn contest limit pairs m =
    let (projected, ok) = project_contest turn contest pairs (set_locked contest true m) in
    let unlocked = set_locked contest false projected in
    (unlocked, if ok then some (read_top contest limit unlocked) else none)

-- `getTop` by what the index holds and whether the contest is locked; `pairs` is what the sorted set
-- holds, and a limit is above 0
unfoldable pub get_top_with :
    List ℕ → Bool → Turn → ℕ → ℕ → List (ℕ × ℕ) → ReadModel → ReadModel × Option (List RankedEntry)
unfolding project_top read_top
get_top_with (user ∷ users) locked turn contest limit pairs m = (m, some (read_top contest limit m))
get_top_with [] true turn contest limit pairs m =
    (turn.waited m, some (read_top contest limit (turn.waited m)))
get_top_with [] false turn contest limit pairs m = project_top turn contest limit pairs m

unfoldable pub get_top :
    Turn → ℕ → ℕ → List (ℕ × ℕ) → ReadModel → ReadModel × Option (List RankedEntry)
unfolding get_top_with
get_top turn contest limit pairs m =
    get_top_with (m.index contest) (m.locked contest) turn contest limit pairs m

-- `getUserEntry`
abbrev pub get_user_entry : ℕ → ℕ → ReadModel → Option RankedEntry
get_user_entry contest user m = m.hash contest user

-- `limit || 50`
abbrev pub limit_or_default : ℕ → ℕ
limit_or_default limit = if limit == 0 then 50 else limit

-- `authenticateInternalCall`
abbrev pub authenticate_caller : ℕ → List ℕ → Bool
authenticate_caller internal_key [] = false
authenticate_caller internal_key (key ∷ keys) = key == internal_key

-- the answers of the controller's `getUserRank`
pub data RankReply : Type 0 where
  entry_reply : RankedEntry → RankReply
  rank_reply : UserRank → RankReply
  not_ranked : RankReply

abbrev pub rank_reply_of : Option RankedEntry → Option UserRank → RankReply
rank_reply_of (some entry) rank = entry_reply entry
rank_reply_of none (some rank) = rank_reply rank
rank_reply_of none none = not_ranked

-- the body of `upsertLeaderboard`: an id is `none` where it is missing or empty
pub record UpsertBody : Type 0 where
  pub user_id : Option ℕ
  pub contest_id : Option ℕ
  pub score_units : Option ℕ
  pub time_taken_in_ms : Option ℕ

abbrev pub input_with : Option ℕ → Option ℕ → Option ℕ → Option ℕ → Option UpdateLeaderboardInput
input_with (some user) (some contest) (some units) (some time) = some (record {
  contest_id = contest;
  user_id = user;
  score_units = units;
  time_taken_in_ms = time;
  contest_end_time = none;
})
input_with _ _ _ _ = none

abbrev pub body_input : UpsertBody → Option UpdateLeaderboardInput
body_input body = input_with body.user_id body.contest_id body.score_units body.time_taken_in_ms

module _ (redis : SortedSets) (zrevrange : ℕ → redis.Db → List (ℕ × ℕ)) where
  -- the two models, and the contests whose projections are under way: no handler awaits its own
  pub record Service : Type 0 where
    pub db : redis.Db
    pub model : ReadModel
    pub projecting : List ℕ

  abbrev pub write : UpdateLeaderboardInput → Service → Service
  write i s = record s {
    db = update_leaderboard redis i s.db;
    projecting = i.contest_id ∷ s.projecting;
  }

  -- `upsertLeaderboard`, with whether it answers 200, else 400
  unfoldable pub upsert_leaderboard : UpsertBody → Service → Service × Bool
  upsert_leaderboard body s = elim (body_input body) [
    | none ↦ (s, false)
    | some i ↦ (write i s, true)
  ]

  -- `updateLeaderboardHandler`
  unfoldable pub update_leaderboard_handler :
      ℕ → List ℕ → UpdateLeaderboardInput → Service → Service × Status UpdateLeaderboardInput
  update_leaderboard_handler internal_key keys i s =
      if authenticate_caller internal_key keys
      then (write i s, answered i)
      else (s, unauthenticated)

  -- the latest of the projections under way ends
  unfoldable pub finish_projection : Turn → Service → Service
  unfolding project_contest
  finish_projection turn s = elim s.projecting [
    | [] ↦ s
    | contest ∷ rest ↦ record s {
      model = (project_contest turn contest (zrevrange contest s.db) s.model).0;
      projecting = rest;
    }
  ]

  -- the controller's `getUserRank`
  unfoldable pub get_user_rank_route : ℕ → ℕ → Service → RankReply
  get_user_rank_route contest user s =
      rank_reply_of (get_user_entry contest user s.model) (get_user_rank redis contest user s.db)

  -- `getUserRankHandler`
  unfoldable pub get_user_rank_handler : ℕ → List ℕ → ℕ → ℕ → Service → Status (Option UserRank)
  get_user_rank_handler internal_key keys contest user s =
      if authenticate_caller internal_key keys
      then answered (get_user_rank redis contest user s.db)
      else unauthenticated

  abbrev pub top_reply :
      Service → ReadModel × Option (List RankedEntry) → Service × Status (List RankedEntry)
  top_reply s (m, none) = (record s { model = m }, internal)
  top_reply s (m, some entries) = (record s { model = m }, answered entries)

  -- `getTopLeaderboardHandler`
  unfoldable pub get_top_leaderboard_handler :
      Turn → ℕ → List ℕ → ℕ → ℕ → Service → Service × Status (List RankedEntry)
  unfolding get_top
  get_top_leaderboard_handler turn internal_key keys contest limit s =
      if authenticate_caller internal_key keys
      then top_reply s
          (get_top turn contest (limit_or_default limit) (zrevrange contest s.db) s.model)
      else (s, unauthenticated)

  -- the controller's `getTopLeaderboard`, `none` if it passes an error on
  unfoldable pub get_top_leaderboard_route :
      Turn → ℕ → ℕ → Service → Service × Option (List RankedEntry)
  unfolding get_top
  get_top_leaderboard_route turn contest limit s =
      let (m, top) =
        get_top turn contest (limit_or_default limit) (zrevrange contest s.db) s.model in
      (record s { model = m }, top)
