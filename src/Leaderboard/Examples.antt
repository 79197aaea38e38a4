-- ===== src/Leaderboard/Examples.antt =====
-- 100 points after 5 minutes.
use code_warzz.Prelude.{
  ℕ, ◌+◌, ◌*◌, ◌≡◌, refl, Bool, true, false, ◌&&◌, Option, none, some, List, [], ◌∷◌, ◌==◌,
  if◌then◌else◌, is_some, get_or, take,
}
use code_warzz.Leaderboard.{max_penalty_mins, encode, penalty_minutes}
use code_warzz.Grpc.{answered}
use code_warzz.Leaderboard.ReadModel.{
  ReadModel, Turn, UpsertBody, Service, finish_projection, upsert_leaderboard,
  get_user_rank_handler, get_user_rank_route, get_top,
}
use code_warzz.Leaderboard.ReadModel.Ranks.{
  AllDistinct, place_from, score_in, shown, get_user_rank_route-agrees,
}
use code_warzz.Leaderboard.ReadModel.Top.{number, get_top-cold}
use code_warzz.Redis.{Strings}
use code_warzz.Redis.Lock.{with_distributed_lock, acquire}
use code_warzz.Redis.Idempotency.{is_idempotent}
use code_warzz.Leaderboard.VerdictConsumer.{
  VerdictJob, Keys, Delivery, handle_verdict, handle_valid,
}
use code_warzz.Leaderboard.Store.{SortedSets, UpdateLeaderboardInput, update_leaderboard}

five_minutes : encode (100 * max_penalty_mins) 300000 ≡ 10099995
unfolding encode
five_minutes = refl

abbrev scores_with : ℕ → ℕ → ℕ → (ℕ → ℕ → Option ℕ) → ℕ → ℕ → Option ℕ
scores_with key score member db k m = if key == k && member == m then some score else db k m

-- sorted sets as a table of scores; a member with a score is ranked first
abbrev table_of_scores : SortedSets
table_of_scores = record {
  Db = ℕ → ℕ → Option ℕ;
  zadd = scores_with;
  zscore = λ k m db. db k m;
  zrevrank = λ k m db. if is_some (db k m) then some 0 else none;
  expireat = λ key seconds db. db;
  zscore-zadd = λ key score member k m db. refl;
  zscore-expireat = λ key seconds k m db. refl;
}

abbrev solved : UpdateLeaderboardInput
solved = record {
  contest_id = 1;
  user_id = 7;
  score_units = 10000000;
  time_taken_in_ms = 300000;
  contest_end_time = some (some 86400000);
}

ranked_first :
    table_of_scores.zrevrank 1 7 (update_leaderboard table_of_scores solved (λ k m. none)) ≡ some 0
unfolding update_leaderboard
ranked_first = refl

-- Redis strings as a table
abbrev put : ℕ → Option ℕ → (ℕ → Option ℕ) → ℕ → Option ℕ
put k v db key = if key == k then v else db key

abbrev table_of_strings : Strings
table_of_strings = record {
  Db = ℕ → Option ℕ;
  get = λ k db. db k;
  set = λ k v db. put k (some v) db;
  set_nx = λ k v db. if is_some (db k) then (db, false) else (put k (some v) db, true);
  del = λ k db. put k none db;
  pexpire = λ k ms db. db;
  get-set = λ k v key db. refl;
  get-del = λ k key db. refl;
  get-pexpire = λ k ms key db. refl;
  set_nx_lem = λ k v db. refl;
}

abbrev verdict_keys : Keys
verdict_keys = record {
  mark_key = λ s c u. 100 + get_or s 0;
  lock_key = λ c u. 1000 + u;
  updated = 1;
}

abbrev verdict : VerdictJob
verdict = record {
  submission_id = some 3;
  contest_id = some 1;
  user_id = some 7;
  score_units = some 10000000;
  time_taken_in_ms = some 300000;
  contest_end_time = none;
}

abbrev delivery : Delivery
delivery = record { lock_value = 55; updates = true; marks = true }

abbrev handled : ((ℕ → Option ℕ) × (ℕ → ℕ → Option ℕ)) × Bool
handled =
    handle_verdict table_of_strings table_of_scores verdict_keys verdict delivery
      (λ k. none, λ k m. none)

handled_once : handled.1 ≡ true
unfolding handle_verdict handle_valid with_distributed_lock is_idempotent acquire
handled_once = refl

-- what the sorted set of a contest with the only user 7 lists
abbrev only_seven : ℕ → (ℕ → ℕ → Option ℕ) → List (ℕ × ℕ)
only_seven contest db = elim (db contest 7) [ none ↦ [] | some raw ↦ (7, raw) ∷ [] ]

abbrev upsert_body : UpsertBody
upsert_body = record {
  user_id = some 7;
  contest_id = some 1;
  score_units = some 10000000;
  time_taken_in_ms = some 300000;
}

abbrev upsert_input : UpdateLeaderboardInput
upsert_input = record {
  contest_id = 1;
  user_id = 7;
  score_units = 10000000;
  time_taken_in_ms = 300000;
  contest_end_time = none;
}

abbrev no_read_model : ReadModel
no_read_model = record { index = λ c. []; hash = λ c u. none; locked = λ c. false }

abbrev projects : Turn
projects = record { evaluates = true; publishes = true; waited = λ m. m }

abbrev empty_service : Service table_of_scores only_seven
empty_service = record { db = λ k m. none; model = no_read_model; projecting = [] }

get_user_rank_route-agrees_example :
    let after =
      finish_projection table_of_scores only_seven projects
        (upsert_leaderboard table_of_scores only_seven upsert_body empty_service).0 in
    get_user_rank_handler table_of_scores only_seven 9 (9 ∷ []) 1 7 after
    ≡ answered (shown (get_user_rank_route table_of_scores only_seven 1 7 after))
unfolding update_leaderboard encode penalty_minutes AllDistinct place_from score_in
get_user_rank_route-agrees_example =
    get_user_rank_route-agrees table_of_scores only_seven projects upsert_body upsert_input
      empty_service 9 7 (7, 10099995) [] refl refl refl (refl, tt) refl refl

abbrev two_scores : List (ℕ × ℕ)
two_scores = (7, 10099995) ∷ (8, 5000001) ∷ []

get_top-cold_example :
    let after = (get_top projects 1 1 two_scores no_read_model).0 in
    let top = some (number 1 (take 1 two_scores)) in
    (get_top projects 1 1 two_scores no_read_model ≡ (after, top))
    × (after.locked 1 ≡ false)
    × (get_top projects 1 1 [] after ≡ (after, top))
unfolding AllDistinct
get_top-cold_example =
    get_top-cold projects projects 1 1 (7, 10099995) ((8, 5000001) ∷ []) [] no_read_model refl refl
      refl refl (refl, (refl, tt))
