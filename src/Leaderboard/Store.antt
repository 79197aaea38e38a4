-- ===== src/Leaderboard/Store.antt =====
-- leaderboard.service.ts over Redis: the write, and a user's rank. Redis is a parameter, with what
-- its documentation says of the commands that are used.
use code_warzz.Prelude.{
  ℕ, ◌+◌, ◌*◌, ◌≤◌, ◌≡◌, refl, ◌∙◌, ◌&&◌, Option, none, some, arith, ◌==◌, if◌then◌else◌, ==_refl,
}
use code_warzz.Leaderboard.{
  max_penalty_mins, encode, expiry_seconds, points, penalty_of, penalty_minutes,
}

-- Sorted sets, by key and member.
pub record SortedSets : Type 1 where
  pub Db : Type 0
  pub zadd : ℕ → ℕ → ℕ → Db → Db  -- key, score, member
  pub zscore : ℕ → ℕ → Db → Option ℕ
  pub zrevrank : ℕ → ℕ → Db → Option ℕ
  pub expireat : ℕ → ℕ → Db → Db
  pub zscore-zadd :
      (key score member k m : ℕ) (db : Db)
      → zscore k m (zadd key score member db)
        ≡ (if key == k && member == m then some score else zscore k m db)
  pub zscore-expireat :
      (key seconds k m : ℕ) (db : Db) → zscore k m (expireat key seconds db) ≡ zscore k m db

pub record UpdateLeaderboardInput : Type 0 where
  pub contest_id : ℕ
  pub user_id : ℕ
  pub score_units : ℕ
  pub time_taken_in_ms : ℕ
  -- absent, or the time in milliseconds, which is `none` where it is no date
  pub contest_end_time : Option (Option ℕ)

pub record UserRank : Type 0 where
  pub user_id : ℕ
  pub rank : ℕ
  pub score : ℕ
  pub penalty_minutes : ℕ

read_back :
    (u s t : ℕ)
    → u ≡ s * max_penalty_mins
    → 60000 ≤ t
    → (points (encode u t) ≡ s) × (penalty_of (encode u t) ≡ penalty_minutes t)
unfolding encode
read_back u s t whole h = (omega arith, omega arith)

module _ (redis : SortedSets) where
  open redis use {Db, zadd, zscore, zrevrank, expireat}

  abbrev set_expiry : Option (Option ℕ) → ℕ → Db → Db
  set_expiry (some (some end_ms)) key db = expireat key (expiry_seconds end_ms) db
  set_expiry _ key db = db

  unfoldable pub update_leaderboard : UpdateLeaderboardInput → Db → Db
  update_leaderboard i db =
      set_expiry i.contest_end_time i.contest_id
        (zadd i.contest_id (encode i.score_units i.time_taken_in_ms) i.user_id db)

  abbrev pub rank_of : ℕ → Option ℕ → Option ℕ → Option UserRank
  rank_of user (some rank) (some raw) = some (record {
    user_id = user;
    rank = rank + 1;
    score = points raw;
    penalty_minutes = penalty_of raw;
  })
  rank_of user _ _ = none

  unfoldable pub get_user_rank : ℕ → ℕ → Db → Option UserRank
  get_user_rank contest user db = rank_of user (zrevrank contest user db) (zscore contest user db)

  zscore-set_expiry :
      (e : Option (Option ℕ)) (key k m : ℕ) (db : Db)
      → zscore k m (set_expiry e key db) ≡ zscore k m db
  zscore-set_expiry (some (some end_ms)) key k m db =
      redis.zscore-expireat key (expiry_seconds end_ms) k m db
  zscore-set_expiry (some none) key k m db = refl
  zscore-set_expiry none key k m db = refl

  zscore-update :
      (i : UpdateLeaderboardInput) (k m : ℕ) (db : Db)
      → zscore k m (update_leaderboard i db) ≡ (
          if i.contest_id == k && i.user_id == m
          then some (encode i.score_units i.time_taken_in_ms)
          else zscore k m db)
  unfolding update_leaderboard
  zscore-update i k m db =
      zscore-set_expiry i.contest_end_time i.contest_id k m
        (zadd i.contest_id (encode i.score_units i.time_taken_in_ms) i.user_id db)
      ∙ redis.zscore-zadd i.contest_id (encode i.score_units i.time_taken_in_ms) i.user_id k m db

  -- After an update with whole points and a time of at least a minute, the rank that `getUserRank`
  -- answers for the user (if Redis ranks them) has those points and the minutes of that time
  -- (capped), and every other score, of any user in any contest, is as before.
  pub get_user_rank-update :
      (i : UpdateLeaderboardInput) (s rank k m : ℕ) (db : Db)
      → i.score_units ≡ s * max_penalty_mins
      → 60000 ≤ i.time_taken_in_ms
      → zrevrank i.contest_id i.user_id (update_leaderboard i db) ≡ some rank
      → (get_user_rank i.contest_id i.user_id (update_leaderboard i db)
          ≡ some (record {
            user_id = i.user_id;
            rank = rank + 1;
            score = s;
            penalty_minutes = penalty_minutes i.time_taken_in_ms;
          }))
        × (zscore k m (update_leaderboard i db) ≡ (
            if i.contest_id == k && i.user_id == m
            then some (encode i.score_units i.time_taken_in_ms)
            else zscore k m db))
  unfolding get_user_rank
  get_user_rank-update i s rank k m db whole late ranked =
      let (same_points, same_minutes) = read_back i.score_units s i.time_taken_in_ms whole late in
      let mine = zscore-update i i.contest_id i.user_id db in
      (
        rw (ranked, mine, ==_refl i.contest_id, ==_refl i.user_id, same_points, same_minutes) refl,
        zscore-update i k m db,
      )

  -- A second update of the same user in the same contest, as for another problem that they solve,
  -- replaces the first: every score is afterwards as if the first update had never been made.
  pub update_leaderboard-forgets :
      (first second : UpdateLeaderboardInput) (k m : ℕ) (db : Db)
      → first.contest_id ≡ second.contest_id
      → first.user_id ≡ second.user_id
      → zscore k m (update_leaderboard second (update_leaderboard first db))
        ≡ zscore k m (update_leaderboard second db)
  update_leaderboard-forgets first second k m db same_contest same_user = ground (
    arith,
    zscore-update second k m (update_leaderboard first db),
    zscore-update first k m db,
    zscore-update second k m db,
  )
