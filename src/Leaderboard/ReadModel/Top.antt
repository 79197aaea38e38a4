-- ===== src/Leaderboard/ReadModel/Top.antt =====
-- What `getTop` reads of a contest that has no read model yet.
use code_warzz.Leaderboard.ReadModel.{
  ReadModel, Turn, hset_all, run_script, project_contest, read_entries, read_top, get_top,
  get_top_with, project_top, set_locked,
}
use code_warzz.Leaderboard.ReadModel.Ranks.{has_user, AllDistinct, find_from, hset_all-found}
use code_warzz.Leaderboard.{RankedEntry, project_from, points, penalty_of}
use code_warzz.Prelude.{
  ℕ, zero, suc, ◌+◌, ◌≡◌, refl, ap, ◌∙◌, true, false, Option, none, some, List, [], ◌∷◌, map, arith,
  ==_refl, take,
}

rest_reads :
    (i u user raw : ℕ) (pairs : List (ℕ × ℕ))
    → has_user u pairs ≡ false
    → has_user user pairs ≡ true
    → find_from i user none ((u, raw) ∷ pairs) ≡ find_from (i + 1) user none pairs
unfolding find_from
rest_reads i u user raw pairs fresh listed = grind arith

has_user-cons :
    (user u raw : ℕ) (pairs : List (ℕ × ℕ))
    → has_user user pairs ≡ true
    → has_user user ((u, raw) ∷ pairs) ≡ true
has_user-cons user u raw pairs listed = ground arith

read_entries-take :
    (i n : ℕ) (fields : ℕ → Option RankedEntry) (pairs : List (ℕ × ℕ))
    → AllDistinct pairs
    → ((user : ℕ) → has_user user pairs ≡ true → fields user ≡ find_from i user none pairs)
    → read_entries (take n (map (λ e. e.entry.user_id) (project_from i pairs))) fields
      ≡ take n (project_from i pairs)
unfolding read_entries project_from AllDistinct find_from
read_entries-take i zero fields pairs distinct reads = refl
read_entries-take i (suc n) fields [] distinct reads = refl
read_entries-take i (suc n) fields ((u, raw) ∷ pairs) (fresh, distinct) reads =
    rw
      (
        reads u (rw (==_refl u) refl),
        ==_refl u,
        read_entries-take (i + 1) n fields pairs distinct (λ user listed.
            reads user (has_user-cons user u raw pairs listed)
            ∙ rest_reads i u user raw pairs fresh listed),
      )
      refl

-- the model behind a cold `getTop` that may project
filled : ℕ → ℕ × ℕ → List (ℕ × ℕ) → ReadModel → ReadModel
filled contest pair pairs m =
    set_locked contest false (run_script contest (pair ∷ pairs) (set_locked contest true m))

read_top-filled :
    (contest limit : ℕ) (pair : ℕ × ℕ) (pairs : List (ℕ × ℕ)) (m : ReadModel)
    → AllDistinct (pair ∷ pairs)
    → read_top contest limit (filled contest pair pairs m)
      ≡ take limit (project_from 0 (pair ∷ pairs))
unfolding read_top run_script filled
read_top-filled contest limit pair pairs m distinct = rw (==_refl contest) (
    read_entries-take 0 limit (hset_all (project_from 0 (pair ∷ pairs)) (λ user. none))
      (pair ∷ pairs) distinct
      (λ user listed. hset_all-found 0 user (λ v. none) (pair ∷ pairs) distinct))

project_top-filled :
    (turn : Turn) (contest limit : ℕ) (pair : ℕ × ℕ) (pairs : List (ℕ × ℕ)) (m : ReadModel)
    → turn.evaluates ≡ true
    → turn.publishes ≡ true
    → project_top turn contest limit (pair ∷ pairs) m
      ≡ (filled contest pair pairs m, some (read_top contest limit (filled contest pair pairs m)))
unfolding project_top project_contest filled
project_top-filled turn contest limit pair pairs m ok sent = rw (ok, sent) refl

get_top-fills :
    (turn : Turn) (contest limit : ℕ) (pair : ℕ × ℕ) (pairs : List (ℕ × ℕ)) (m : ReadModel)
    → m.index contest ≡ []
    → m.locked contest ≡ false
    → turn.evaluates ≡ true
    → turn.publishes ≡ true
    → get_top turn contest limit (pair ∷ pairs) m
      ≡ (filled contest pair pairs m, some (read_top contest limit (filled contest pair pairs m)))
unfolding get_top get_top_with
get_top-fills turn contest limit pair pairs m cold free ok sent =
    ap (λ users. get_top_with users (m.locked contest) turn contest limit (pair ∷ pairs) m) cold
    ∙ ap (λ locked. get_top_with [] locked turn contest limit (pair ∷ pairs) m) free
    ∙ project_top-filled turn contest limit pair pairs m ok sent

get_top-warm :
    (turn : Turn) (contest limit user : ℕ) (users : List ℕ) (pairs : List (ℕ × ℕ)) (m : ReadModel)
    → m.index contest ≡ user ∷ users
    → get_top turn contest limit pairs m ≡ (m, some (read_top contest limit m))
unfolding get_top get_top_with
get_top-warm turn contest limit user users pairs m warm =
    ap (λ index. get_top_with index (m.locked contest) turn contest limit pairs m) warm

filled-index :
    (contest : ℕ) (pair : ℕ × ℕ) (pairs : List (ℕ × ℕ)) (m : ReadModel)
    → (filled contest pair pairs m).index contest
      ≡ pair.0 ∷ map (λ e. e.entry.user_id) (project_from 1 pairs)
unfolding filled run_script project_from
filled-index contest pair pairs m = rw (==_refl contest) refl

-- The entries of a ranking list: the pairs of users and scores with the numbers `k`, `k + 1`, ….
unfoldable pub number : ℕ → List (ℕ × ℕ) → List RankedEntry
number k [] = []
number k ((user, raw) ∷ pairs) =
    record {
      entry = record {
        user_id = user;
        raw_score = raw;
        score = points raw;
        penalty_minutes = penalty_of raw;
      };
      rank = k;
    }
    ∷ number (k + 1) pairs

take-project_from :
    (n i : ℕ) (pairs : List (ℕ × ℕ)) → take n (project_from i pairs) ≡ number (i + 1) (take n pairs)
unfolding project_from number
take-project_from zero i pairs = refl
take-project_from (suc n) i [] = refl
take-project_from (suc n) i ((user, raw) ∷ pairs) = rw (take-project_from n (i + 1) pairs) refl

-- The first `getTop` of a contest that has scores, no read model and no projection under way answers,
-- if the projection succeeds, the first entries of the sorted set in its order, numbered 1, 2, 3, …; it
-- leaves the contest unlocked, and a later call with the same limit answers the same, whatever the
-- sorted set holds by then, as long as the read model stands, which expires after 48 h. It is supposed
-- that Redis lists each user of the contest once.
pub get_top-cold :
    (turn later : Turn) (contest limit : ℕ) (pair : ℕ × ℕ) (pairs now : List (ℕ × ℕ))
    (m : ReadModel)
    → m.index contest ≡ []
    → m.locked contest ≡ false
    → turn.evaluates ≡ true
    → turn.publishes ≡ true
    → AllDistinct (pair ∷ pairs)
    → let after = (get_top turn contest limit (pair ∷ pairs) m).0 in
      let top = some (number 1 (take limit (pair ∷ pairs))) in
      (get_top turn contest limit (pair ∷ pairs) m ≡ (after, top))
      × (after.locked contest ≡ false)
      × (get_top later contest limit now after ≡ (after, top))
get_top-cold turn later contest limit pair pairs now m cold free ok sent distinct =
    rw
      (
        get_top-fills turn contest limit pair pairs m cold free ok sent,
        get_top-warm later contest limit pair.0 (map (λ e. e.entry.user_id) (project_from 1 pairs))
            now (filled contest pair pairs m) (filled-index contest pair pairs m),
        read_top-filled contest limit pair pairs m distinct,
        take-project_from limit 0 (pair ∷ pairs),
      )
      (refl, unfold filled in rw (==_refl contest) refl, refl)
