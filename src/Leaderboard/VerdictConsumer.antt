-- ===== src/Leaderboard/VerdictConsumer.antt =====
-- leaderboard-service/src/queues/verdict/consumer.queue.ts: what the consumer does with a verdict.
-- The strings (locks and marks) and the sorted sets of Redis are kept apart. `keys` gives the keys of
-- the mark and of the lock; whether the update and the mark go through is an argument.
use code_warzz.Redis.{Strings}
use code_warzz.Redis.Lock.{LockResult, returned, threw, not_acquired, with_distributed_lock}
use code_warzz.Redis.Idempotency.{is_idempotent, mark_processed}
use code_warzz.Leaderboard.Store.{SortedSets, UpdateLeaderboardInput, update_leaderboard}
use code_warzz.Prelude.{
  ℕ, ◌≡◌, refl, sym, ap, ◌∙◌, inl, inr, Bool, true, false, Option, none, some, arith, if◌then◌else◌,
  ==_refl, Bool-cases, Option-cases, get_or,
}

-- The message; an absent field, or one that JavaScript takes for false, is `none`.
pub record VerdictJob : Type 0 where
  pub submission_id : Option ℕ
  pub contest_id : Option ℕ
  pub user_id : Option ℕ
  pub score_units : Option ℕ
  pub time_taken_in_ms : Option ℕ
  pub contest_end_time : Option (Option ℕ)

pub record Keys : Type 0 where
  pub mark_key : Option ℕ → ℕ → ℕ → ℕ  -- `verdict:…`, by submission, contest and user
  pub lock_key : ℕ → ℕ → ℕ  -- `lock:leaderboard:…`
  pub updated : ℕ  -- `{ updated: true }`

-- what Redis lets through during one delivery, and the value of the lock
pub record Delivery : Type 0 where
  pub lock_value : ℕ
  pub updates : Bool
  pub marks : Bool

-- `Number(timeTakenInMs) || 0`
abbrev pub input_of : VerdictJob → ℕ → ℕ → ℕ → UpdateLeaderboardInput
input_of j contest user score = record {
  contest_id = contest;
  user_id = user;
  score_units = score;
  time_taken_in_ms = get_or j.time_taken_in_ms 0;
  contest_end_time = j.contest_end_time;
}

module _ (strings : Strings) (zsets : SortedSets) (keys : Keys) where
  abbrev pub State : Type 0
  State = strings.Db × zsets.Db

  -- behind the lock: the mark, and whether the handler returns
  abbrev pub after_lock :
      VerdictJob → Delivery → ℕ → ℕ → ℕ → strings.Db → LockResult → zsets.Db → State × Bool
  after_lock j d contest user score db not_acquired zs = ((db, zs), false)
  after_lock j d contest user score db threw zs = ((db, zs), false)
  after_lock j d contest user score db returned zs =
      let zs' = update_leaderboard zsets (input_of j contest user score) zs in
      let key = keys.mark_key j.submission_id contest user in
      if d.marks
      then ((mark_processed strings key keys.updated db, zs'), true)
      else ((db, zs'), false)

  -- a verdict with all its data
  unfoldable pub handle_valid : VerdictJob → Delivery → ℕ → ℕ → ℕ → State → State × Bool
  handle_valid j d contest user score st =
      let key = keys.mark_key j.submission_id contest user in
      if is_idempotent strings key st.0
      then (st, true)
      else let (db, result) =
          with_distributed_lock strings (keys.lock_key contest user) d.lock_value
            (λ db. (db, d.updates)) st.0 in
        after_lock j d contest user score db result st.1

  -- the handler
  unfoldable pub handle_verdict : VerdictJob → Delivery → State → State × Bool
  handle_verdict j d st = elim (j.contest_id) [
    | none ↦ (st, false)
    | some contest ↦ elim (j.user_id) [
      | none ↦ (st, false)
      | some user ↦ elim (j.score_units) [
        | none ↦ (st, false)
        | some score ↦ handle_valid j d contest user score st
      ]
    ]
  ]

  marked_lem :
      (key : ℕ) (db : strings.Db)
      → is_idempotent strings key (mark_processed strings key keys.updated db) ≡ true
  unfolding is_idempotent mark_processed
  marked_lem key db = rw (strings.get-set key keys.updated key db, ==_refl key) refl

  after_lock-marks :
      (j : VerdictJob) (d : Delivery) (contest user score : ℕ) (db : strings.Db) (r : LockResult)
      (zs : zsets.Db)
      → (after_lock j d contest user score db r zs).1 ≡ true
      → is_idempotent strings
          (keys.mark_key j.submission_id contest user)
          (after_lock j d contest user score db r zs).0.0
        ≡ true
  after_lock-marks j d contest user score db not_acquired zs h = absurd cc
  after_lock-marks j d contest user score db threw zs h = absurd cc
  after_lock-marks j d contest user score db returned zs h =
      ground (arith, marked_lem (keys.mark_key j.submission_id contest user) db)

  handle_valid-marks :
      (j : VerdictJob) (d : Delivery) (contest user score : ℕ) (st : State)
      → (handle_valid j d contest user score st).1 ≡ true
      → is_idempotent strings
          (keys.mark_key j.submission_id contest user)
          (handle_valid j d contest user score st).0.0
        ≡ true
  unfolding handle_valid
  handle_valid-marks j d contest user score st h =
      let key = keys.mark_key j.submission_id contest user in
      let locked =
        with_distributed_lock strings (keys.lock_key contest user) d.lock_value
          (λ db. (db, d.updates)) st.0 in
      elim (Bool-cases (is_idempotent strings key st.0)) [
        | inl e ↦ rw (e, handle_valid) e
        | inr e ↦
            rw (e, handle_valid)
              (after_lock-marks j d contest user score locked.0 locked.1 st.1
                (rw (e, handle_valid) at h))
      ]

  all_given :
      (j : VerdictJob) (d : Delivery) (contest user score : ℕ) (st : State)
      → j.contest_id ≡ some contest
      → j.user_id ≡ some user
      → j.score_units ≡ some score
      → handle_verdict j d st ≡ handle_valid j d contest user score st
  unfolding handle_verdict
  all_given j d contest user score st c u s = ground arith

  skips_marked :
      (j : VerdictJob) (d : Delivery) (contest user score : ℕ) (st : State)
      → is_idempotent strings (keys.mark_key j.submission_id contest user) st.0 ≡ true
      → handle_valid j d contest user score st ≡ (st, true)
  unfolding handle_valid
  skips_marked j d contest user score st e = rw (e, handle_valid) refl

  -- A verdict whose handling has returned is not applied again: a second delivery returns and leaves
  -- the leaderboard, the locks and the marks as they are.
  pub handle_verdict-again :
      (j : VerdictJob) (d e : Delivery) (st : State)
      → (handle_verdict j d st).1 ≡ true
      → handle_verdict j e (handle_verdict j d st).0 ≡ ((handle_verdict j d st).0, true)
  unfolding handle_verdict
  handle_verdict-again j d e st h = elim (Option-cases j.contest_id) [
    | inl c ↦ absurd (ground arith)
    | inr (contest, c) ↦ elim (Option-cases j.user_id) [
      | inl u ↦ absurd (ground arith)
      | inr (user, u) ↦ elim (Option-cases j.score_units) [
        | inl s ↦ absurd (ground arith)
        | inr (score, s) ↦
            let first = handle_valid j d contest user score st in
            let done = all_given j d contest user score st c u s in
            let returns : first.1 ≡ true = ap (λ (p : State × Bool). p.1) (sym done) ∙ h in
            let marked = handle_valid-marks j d contest user score st returns in
            let again = all_given j e contest user score first.0 c u s in
            rw done (again ∙ skips_marked j e contest user score first.0 marked)
      ]
    ]
  ]
