-- ===== src/Leaderboard.antt =====
-- leaderboard-service/src/services and core/src/service/leaderboard.service.ts: scores that carry
-- the time penalty in their fraction. A score is a number of units, of which `max_penalty_mins` make
-- a point: every value that the services build from whole points is a whole number of units.
pub mod Encoding
pub mod Store
pub mod ReadModel
pub mod VerdictConsumer
pub mod Order
mod Examples
use code_warzz.Prelude.{ℕ, ◌+◌, ◌-◌, ◌/◌, ◌%◌, min, max, Option, none, some, List, [], ◌∷◌}

abbrev pub max_penalty_mins : ℕ
max_penalty_mins = 100000

abbrev pub leaderboard_expiry_extension_ms : ℕ
leaderboard_expiry_extension_ms = 86400000

-- `Math.min(MAX, Math.max(0, Math.floor(ms / 60000)))`
unfoldable pub penalty_minutes : ℕ → ℕ
penalty_minutes time_taken_ms = min max_penalty_mins (max 0 (time_taken_ms / 60000))

-- `score + (MAX - penaltyMinutes) / MAX`
unfoldable pub encode : ℕ → ℕ → ℕ
unfolding penalty_minutes
encode score_units time_taken_ms = score_units + (max_penalty_mins - penalty_minutes time_taken_ms)

-- `Math.floor((endTimeMs + EXTENSION) / 1000)`
unfoldable pub expiry_seconds : ℕ → ℕ
expiry_seconds end_time_ms = (end_time_ms + leaderboard_expiry_extension_ms) / 1000

pub record Entry : Type 0 where
  pub user_id : ℕ
  pub raw_score : ℕ
  pub score : ℕ
  pub penalty_minutes : ℕ

-- `Math.floor(raw)`, and `Math.round(MAX - (raw - points) * MAX)`
abbrev pub points : ℕ → ℕ
points raw = raw / max_penalty_mins

abbrev pub penalty_of : ℕ → ℕ
penalty_of raw = max_penalty_mins - raw % max_penalty_mins

unfoldable pub decode : ℕ × ℕ → Entry
decode (user, raw) = record {
  user_id = user;
  raw_score = raw;
  score = points raw;
  penalty_minutes = penalty_of raw;
}

-- `getTopLeaderboard`, of the pairs that `ZREVRANGE … WITHSCORES` answers
unfoldable pub get_top_leaderboard : List (ℕ × ℕ) → List Entry
unfolding decode
get_top_leaderboard [] = []
get_top_leaderboard (pair ∷ rest) = decode pair ∷ get_top_leaderboard rest

pub record RankedEntry : Type 0 where
  pub entry : Entry
  pub rank : ℕ

-- the loop of the projection's script; `floor(x + 0.5)` of a whole number is that number
unfoldable pub project_from : ℕ → List (ℕ × ℕ) → List RankedEntry
project_from i [] = []
project_from i ((user, raw) ∷ rest) =
    record {
      entry = record {
        user_id = user;
        raw_score = raw;
        score = points raw;
        penalty_minutes = penalty_of raw;
      };
      rank = i + 1;
    }
    ∷ project_from (i + 1) rest

-- `project`: an empty write model leaves the read model as it was
unfoldable pub project : List (ℕ × ℕ) → List RankedEntry → List RankedEntry
unfolding project_from
project [] read_model = read_model
project (pair ∷ rest) read_model = project_from 0 (pair ∷ rest)

pub record Snapshot : Type 0 where
  pub user_id : ℕ
  pub score : ℕ
  pub time_taken_ms : ℕ
  pub rank : ℕ

-- the inner loop of core's `takeLeaderboardSnapshot`; `none` is a score that is missing or no number
unfoldable pub snapshots_from : ℕ → List (ℕ × Option ℕ) → List Snapshot
snapshots_from i [] = []
snapshots_from i ((user, none) ∷ rest) = snapshots_from (i + 1) rest
snapshots_from i ((user, some raw) ∷ rest) =
    record { user_id = user; score = points raw; time_taken_ms = penalty_of raw; rank = i + 1 }
    ∷ snapshots_from (i + 1) rest
