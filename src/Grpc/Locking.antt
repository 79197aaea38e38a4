-- ===== src/Grpc/Locking.antt =====
-- An accepted verdict under the lock of its user and problem.
use code_warzz.Grpc.{
  Status, internal, authenticate_internal_call, VerdictRequest, update_of, status_of_update,
  status_of_lock, CoreState, write_verdict, locked_write, update_locked, persist_verdict,
}
use code_warzz.Redis.{Strings}
use code_warzz.Redis.Lock.{
  LockStep, spares, all, is_held, run_steps, run_steps-is_held, returned, threw,
  with_distributed_lock, acquire, release,
}
use code_warzz.Submission.{Submission, is_ac, get_submission_by_id}
use code_warzz.Submission.Service.{Encoding, Core, update_submission}
use code_warzz.EventStore.{Weather}
use code_warzz.Prelude.{
  ℕ, ◌≡◌, refl, ◌∙◌, true, Option, none, some, List, if◌then◌else◌, is_some, arith, ==_refl,
  Option-cases, inl, inr, ◌⊎◌,
}

status :
    (result : Option (Option Submission))
    → status_of_lock (if is_some result then returned else threw) ≡ status_of_update result
status none = refl
status (some s) = refl

module _ (redis : Strings) (key_of : ℕ → ℕ → ℕ) (e : Encoding) where
  open redis use {Db, get, set, get-set, get-del, set_nx_lem}

  -- The owner is still there when the others have taken their steps.
  owner_stays :
      (key value : ℕ) (others : List LockStep) (keys : Db)
      → all (spares value) others ≡ true
      → get key keys ≡ some value
      → get key (run_steps redis key others keys).0 ≡ some value
  unfolding is_held
  owner_stays key value others keys spared mine =
      let held = (run_steps-is_held redis key value others keys (ground arith) spared).0 in
      elim (Option-cases (get key (run_steps redis key others keys).0)) [
        | inl gone ↦ absurd (ground arith)
        | inr (v, there) ↦ ground arith
      ]

  module _ (value : ℕ) (r : VerdictRequest) (appends : ℕ → Weather) (others : List LockStep)
      (keys : Db) (t : CoreState redis key_of e) (s : Submission) where
    abbrev key : ℕ
    key = key_of s.user_id s.problem_id

    abbrev update : Core × Option (Option Submission)
    update = update_submission e r.submission_id (update_of r) appends t.core

    abbrev after : (Db × CoreState redis key_of e) × Status (Unit {0})
    after = update_locked redis key_of e value s r appends others (keys, t)

    -- the keys when the verdict is written
    abbrev inside : Db
    inside = (run_steps redis key others (set key value keys)).0

    update_locked-taken : is_some (get key keys) ≡ true → after ≡ ((keys, t), internal)
    unfolding update_locked with_distributed_lock acquire
    update_locked-taken taken = rw (set_nx_lem key value keys, taken) refl

    update_locked-free :
        get key keys ≡ none
        → all (spares value) others ≡ true
        → (get key inside ≡ some value)
          × (after.0.1 ≡ record { core = update.0; keys_at_write = some inside })
          × (after.1 ≡ status_of_update update.1)
          × (get key after.0.0 ≡ none)
    unfolding update_locked with_distributed_lock acquire release locked_write write_verdict
    update_locked-free free spared =
        let mine =
          owner_stays key value others (set key value keys) spared
            (get-set key value key keys ∙ rw (==_refl key) refl) in
        let freed = get-del key key inside ∙ rw (==_refl key) refl in
        rw (set_nx_lem key value keys, free, mine, ==_refl value)
          (refl, refl, status update.1, freed)

  -- An accepted verdict of an authenticated caller, where the other processes use other values and the
  -- lock does not expire in the meantime: either somebody has the lock of the submission's user and
  -- problem, and it is refused and changes nothing; or the lock is free, the verdict is written once,
  -- at a moment at which the lock holds the value of this call, whatever the others tried before,
  -- the answer says whether it could be written, and the lock is free again.
  pub persist_verdict-locked :
      (internal_key value : ℕ) (metadata : List ℕ) (r : VerdictRequest) (appends : ℕ → Weather)
      (others : List LockStep) (keys : Db) (t : CoreState redis key_of e) (s : Submission)
      → authenticate_internal_call internal_key metadata ≡ true
      → is_ac r.verdict ≡ true
      → get_submission_by_id r.submission_id t.core.submissions ≡ some s
      → all (spares value) others ≡ true
      → let key = key_of s.user_id s.problem_id in
        let update = update_submission e r.submission_id (update_of r) appends t.core in
        let after =
          persist_verdict redis key_of e internal_key metadata value r appends others (keys, t) in
        ((is_some (get key keys) ≡ true) × (after ≡ ((keys, t), internal)))
        ⊎ ((inside : Db) × (get key keys ≡ none)
            × (get key inside ≡ some value)
            × (after.0.1 ≡ record { core = update.0; keys_at_write = some inside })
            × (after.1 ≡ status_of_update update.1)
            × (get key after.0.0 ≡ none))
  unfolding persist_verdict
  persist_verdict-locked internal_key value metadata r appends others keys t s auth accepted found
        spared =
      elim (Option-cases (get (key_of s.user_id s.problem_id) keys)) [
        | inr (v, taken) ↦
            rw (auth, accepted, found)
              (inl (
                rw taken refl,
                update_locked-taken value r appends others keys t s (rw taken refl),
              ))
        | inl free ↦
            let (mine, stored, answer, freed) =
              update_locked-free value r appends others keys t s free spared in
            rw (auth, accepted, found)
              (inr (inside value r appends others keys t s, free, mine, stored, answer, freed))
      ]
