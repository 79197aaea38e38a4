-- ===== src/Leaderboard/ReadModel/Ranks.antt =====
-- The ranks that the HTTP route and the gRPC handler of the leaderboard-service answer, one from the
-- read model, the other from the sorted set.
use code_warzz.Leaderboard.ReadModel.{
  ReadModel, Turn, hset_all, run_script, project_contest, RankReply, entry_reply, rank_reply,
  not_ranked, rank_reply_of, Service, get_user_rank_route, finish_projection, upsert_leaderboard,
  UpsertBody, body_input, get_user_rank_handler, write,
}
use code_warzz.Leaderboard.{RankedEntry, project_from, points, penalty_of}
use code_warzz.Leaderboard.Store.{
  SortedSets, UserRank, rank_of, get_user_rank, UpdateLeaderboardInput, update_leaderboard,
}
use code_warzz.Grpc.{answered}
use code_warzz.Prelude.{
  ℕ, ◌+◌, ◌≡◌, refl, Bool, true, false, Option, none, some, List, [], ◌∷◌, arith, ◌==◌,
  if◌then◌else◌, ==_refl,
}

-- what is ranked: the user and the score at each place
abbrev pub has_user : ℕ → List (ℕ × ℕ) → Bool
has_user user [] = false
has_user user ((u, raw) ∷ pairs) = if u == user then true else has_user user pairs

unfoldable pub AllDistinct : List (ℕ × ℕ) → Type 0
AllDistinct [] = Unit
AllDistinct ((u, raw) ∷ pairs) = (has_user u pairs ≡ false) × AllDistinct pairs

abbrev pub entry_at : ℕ → ℕ → ℕ → RankedEntry
entry_at i user raw = record {
  entry = record {
    user_id = user;
    raw_score = raw;
    score = points raw;
    penalty_minutes = penalty_of raw;
  };
  rank = i + 1;
}

-- the place of a user, and their score
unfoldable pub place_from : ℕ → ℕ → List (ℕ × ℕ) → Option ℕ
place_from i user [] = none
place_from i user ((u, raw) ∷ pairs) = if u == user then some i else place_from (i + 1) user pairs

unfoldable pub score_in : ℕ → List (ℕ × ℕ) → Option ℕ
score_in user [] = none
score_in user ((u, raw) ∷ pairs) = if u == user then some raw else score_in user pairs

unfoldable pub find_from : ℕ → ℕ → Option RankedEntry → List (ℕ × ℕ) → Option RankedEntry
find_from i user other [] = other
find_from i user other ((u, raw) ∷ pairs) =
    if u == user then some (entry_at i user raw) else find_from (i + 1) user other pairs

pub find_from-absent :
    (i user : ℕ) (other : Option RankedEntry) (pairs : List (ℕ × ℕ))
    → has_user user pairs ≡ false
    → find_from i user other pairs ≡ other
unfolding find_from
find_from-absent i user other [] absent = refl
find_from-absent i user other ((u, raw) ∷ pairs) absent =
    ground (arith, find_from-absent (i + 1) user other pairs)

pub hset_all-found :
    (i user : ℕ) (fields : ℕ → Option RankedEntry) (pairs : List (ℕ × ℕ))
    → AllDistinct pairs
    → hset_all (project_from i pairs) fields user ≡ find_from i user (fields user) pairs
unfolding hset_all project_from find_from AllDistinct
hset_all-found i user fields [] distinct = refl
hset_all-found i user fields ((u, raw) ∷ pairs) (fresh, distinct) = ground (
  arith,
  hset_all-found (i + 1) user (λ v. if u == v then some (entry_at i u raw) else fields v) pairs
      distinct,
  find_from-absent (i + 1) user (some (entry_at i u raw)) pairs,
)

-- what a rank reply shows of a user
abbrev pub shown : RankReply → Option UserRank
shown (entry_reply e) = some (record {
  user_id = e.entry.user_id;
  rank = e.rank;
  score = e.entry.score;
  penalty_minutes = e.entry.penalty_minutes;
})
shown (rank_reply r) = some r
shown not_ranked = none

find_from-shown :
    (redis : SortedSets) (i user : ℕ) (pairs : List (ℕ × ℕ))
    → shown (
        rank_reply_of
          (find_from i user none pairs)
          (rank_of redis user (place_from i user pairs) (score_in user pairs)))
      ≡ rank_of redis user (place_from i user pairs) (score_in user pairs)
unfolding find_from place_from score_in
find_from-shown redis i user [] = refl
find_from-shown redis i user ((u, raw) ∷ pairs) =
    ground (arith, find_from-shown redis (i + 1) user pairs)

upsert_leaderboard-written :
    (redis : SortedSets) (zrevrange : ℕ → redis.Db → List (ℕ × ℕ)) (body : UpsertBody)
    (i : UpdateLeaderboardInput) (s : Service redis zrevrange)
    → body_input body ≡ some i
    → (upsert_leaderboard redis zrevrange body s).0 ≡ write redis zrevrange i s
unfolding upsert_leaderboard
upsert_leaderboard-written redis zrevrange body i s complete =
    rw (upsert_leaderboard, complete) refl

db_after :
    (redis : SortedSets) (zrevrange : ℕ → redis.Db → List (ℕ × ℕ)) (turn : Turn)
    (i : UpdateLeaderboardInput) (s : Service redis zrevrange)
    → (finish_projection redis zrevrange turn (write redis zrevrange i s)).db
      ≡ update_leaderboard redis i s.db
unfolding finish_projection
db_after redis zrevrange turn i s = refl

run_script-hash :
    (contest user : ℕ) (pair : ℕ × ℕ) (pairs : List (ℕ × ℕ)) (m : ReadModel)
    → AllDistinct (pair ∷ pairs)
    → (run_script contest (pair ∷ pairs) m).hash contest user ≡ find_from 0 user none (pair ∷ pairs)
unfolding run_script
run_script-hash contest user pair pairs m distinct =
    rw (==_refl contest) (hset_all-found 0 user (λ v. none) (pair ∷ pairs) distinct)

entry_after :
    (redis : SortedSets) (zrevrange : ℕ → redis.Db → List (ℕ × ℕ)) (turn : Turn)
    (i : UpdateLeaderboardInput) (s : Service redis zrevrange) (user : ℕ) (pair : ℕ × ℕ)
    (pairs : List (ℕ × ℕ))
    → turn.evaluates ≡ true
    → zrevrange i.contest_id (update_leaderboard redis i s.db) ≡ pair ∷ pairs
    → AllDistinct (pair ∷ pairs)
    → (finish_projection redis zrevrange turn (write redis zrevrange i s)).model.hash i.contest_id
        user
      ≡ find_from 0 user none (pair ∷ pairs)
unfolding finish_projection project_contest
entry_after redis zrevrange turn i s user pair pairs ok listed distinct =
    rw (ok, listed) (run_script-hash i.contest_id user pair pairs s.model distinct)

-- When an accepted upsert of the HTTP route has been written and its projection has ended, the rank
-- that the HTTP route shows of any user of the contest is what the gRPC handler answers a caller with
-- the internal key: their place and their score in the sorted set, or that they are not ranked. It is
-- supposed that Redis lists each user of the contest once and that a rank and a score are those of
-- the list.
pub get_user_rank_route-agrees :
    (redis : SortedSets) (zrevrange : ℕ → redis.Db → List (ℕ × ℕ)) (turn : Turn) (body : UpsertBody)
    (i : UpdateLeaderboardInput) (s : Service redis zrevrange) (key user : ℕ) (pair : ℕ × ℕ)
    (pairs : List (ℕ × ℕ))
    → body_input body ≡ some i
    → turn.evaluates ≡ true
    → zrevrange i.contest_id (update_leaderboard redis i s.db) ≡ pair ∷ pairs
    → AllDistinct (pair ∷ pairs)
    → redis.zrevrank i.contest_id user (update_leaderboard redis i s.db)
      ≡ place_from 0 user (pair ∷ pairs)
    → redis.zscore i.contest_id user (update_leaderboard redis i s.db)
      ≡ score_in user (pair ∷ pairs)
    → let after =
        finish_projection redis zrevrange turn (upsert_leaderboard redis zrevrange body s).0 in
      get_user_rank_handler redis zrevrange key (key ∷ []) i.contest_id user after
      ≡ answered (shown (get_user_rank_route redis zrevrange i.contest_id user after))
unfolding get_user_rank_handler get_user_rank_route get_user_rank
get_user_rank_route-agrees redis zrevrange turn body i s key user pair pairs complete ok listed
      distinct ranked scored =
    rw
      (
        upsert_leaderboard-written redis zrevrange body i s complete,
        ==_refl key,
        entry_after redis zrevrange turn i s user pair pairs ok listed distinct,
        db_after redis zrevrange turn i s,
        ranked,
        scored,
        find_from-shown redis 0 user (pair ∷ pairs),
      )
      refl
