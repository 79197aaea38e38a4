-- ===== src/Leaderboard/Encoding.antt =====
-- Reading back what was written, in one service and across two.
use code_warzz.Prelude.{
  ℕ, ◌+◌, ◌*◌, ◌/◌, ◌%◌, ◌≤◌, ◌<◌, min, ◌≡◌, refl, ap, some, List, [], ◌∷◌, map, arith,
}
use code_warzz.Leaderboard.{
  max_penalty_mins, encode, Entry, decode, get_top_leaderboard, RankedEntry, project_from, project,
  Snapshot, snapshots_from,
}

divides_out :
    (s r : ℕ) → r < 100000 → ((s * 100000 + r) / 100000 ≡ s) × ((s * 100000 + r) % 100000 ≡ r)
divides_out s r h = (omega arith, omega arith)

-- In exact arithmetic, a whole number of points and a time of at least a minute are read back: the points, and the
-- minutes, capped at `MAX_PENALTY_MINS`.
pub decode-encode :
    (user s t : ℕ)
    → 60000 ≤ t
    → ((decode (user, encode (s * max_penalty_mins) t)).score ≡ s)
      × ((decode (user, encode (s * max_penalty_mins) t)).penalty_minutes
          ≡ min max_penalty_mins (t / 60000))
unfolding encode decode
decode-encode user s t h = (omega arith, omega arith)

-- A solution within the first minute is read back wrong: one point more, and the greatest penalty.
pub decode-encode_first_minute :
    (user s t : ℕ)
    → t < 60000
    → ((decode (user, encode (s * max_penalty_mins) t)).score ≡ s + 1)
      × ((decode (user, encode (s * max_penalty_mins) t)).penalty_minutes ≡ max_penalty_mins)
unfolding encode decode
decode-encode_first_minute user s t h = (omega arith, omega arith)

unranked : List RankedEntry → List Entry
unranked = map (λ r. r.entry)

project_from-entries :
    (i : ℕ) (pairs : List (ℕ × ℕ))
    → (map (λ r. r.entry) (project_from i pairs) ≡ get_top_leaderboard pairs)
unfolding project_from get_top_leaderboard
project_from-entries i [] = refl
project_from-entries i ((user, raw) ∷ rest) =
    ap (λ l. decode (user, raw) ∷ l) (project_from-entries (i + 1) rest)

-- `i + 1`, …, `i + n`
abbrev pub ranks_from : ℕ → List (ℕ × ℕ) → List ℕ
ranks_from i [] = []
ranks_from i (p ∷ rest) = (i + 1) ∷ ranks_from (i + 1) rest

project_from-ranks :
    (i : ℕ) (pairs : List (ℕ × ℕ)) → map (λ r. r.rank) (project_from i pairs) ≡ ranks_from i pairs
unfolding project_from
project_from-ranks i [] = refl
project_from-ranks i ((user, raw) ∷ rest) = ap (λ l. (i + 1) ∷ l) (project_from-ranks (i + 1) rest)

-- The read model of a contest that has scores is the write model's leaderboard, entry by entry, with
-- the ranks 1, 2, 3, ….
pub project-entries :
    (pair : ℕ × ℕ) (rest : List (ℕ × ℕ)) (old : List RankedEntry)
    → (map (λ r. r.entry) (project (pair ∷ rest) old) ≡ get_top_leaderboard (pair ∷ rest))
      × (map (λ r. r.rank) (project (pair ∷ rest) old) ≡ ranks_from 0 (pair ∷ rest))
unfolding project
project-entries pair rest old =
    (project_from-entries 0 (pair ∷ rest), project_from-ranks 0 (pair ∷ rest))

abbrev pub as_snapshot : RankedEntry → Snapshot
as_snapshot r = record {
  user_id = r.entry.user_id;
  score = r.entry.score;
  time_taken_ms = r.entry.penalty_minutes;
  rank = r.rank;
}

-- Core's snapshot of a leaderboard whose scores are all numbers is the projection of it.
pub snapshots_from-project :
    (i : ℕ) (pairs : List (ℕ × ℕ))
    → snapshots_from i (map (λ p. (p.0, some p.1)) pairs) ≡ map as_snapshot (project_from i pairs)
unfolding snapshots_from project_from decode
snapshots_from-project i [] = refl
snapshots_from-project i ((user, raw) ∷ rest) =
    ap (λ l. as_snapshot (record { entry = decode (user, raw); rank = i + 1 }) ∷ l)
      (snapshots_from-project (i + 1) rest)
