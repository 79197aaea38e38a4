-- ===== src/Redis/Lock.antt =====
-- core/src/utils/distributedLock/index.ts: the lock with an owner's value.
use code_warzz.Redis.{Strings}
use code_warzz.Prelude.{
  ℕ, ◌≡◌, refl, inl, inr, Bool, true, false, not, ◌&&◌, ◌||◌, Option, none, some, List, [], ◌∷◌,
  arith, ◌==◌, if◌then◌else◌, Option-cases, is_some,
}

-- What a process does to the lock, by its value, or its expiry.
pub data LockStep : Type 0 where
  acquires releases : ℕ → LockStep
  extends : ℕ → ℕ → LockStep
  expires : LockStep

pub data LockResult : Type 0 where
  not_acquired : LockResult  -- "Failed to acquire lock", `fn` is not called
  returned threw : LockResult

abbrev pub holds : Option ℕ → ℕ → Bool
holds none value = false
holds (some v) value = v == value

-- The owner's lock is safe from the step.
abbrev pub spares : ℕ → LockStep → Bool
spares owner (acquires value) = true
spares owner (releases value) = not (value == owner)
spares owner (extends value ms) = true
spares owner expires = false

abbrev pub all : (LockStep → Bool) → List LockStep → Bool
all test [] = true
all test (s ∷ steps) = test s && all test steps

module _ (redis : Strings) (key : ℕ) where
  open redis use {Db, get, set, set_nx, del, pexpire, get-set, get-del, get-pexpire, set_nx_lem}

  -- `acquire`
  unfoldable pub acquire : ℕ → Db → Db × Bool
  acquire value db = set_nx key value db

  -- `isHeld`
  unfoldable pub is_held : ℕ → Db → Bool
  is_held value db = holds (get key db) value

  -- `release`, with its script
  unfoldable pub release : ℕ → Db → Db × Bool
  release value db = if holds (get key db) value then (del key db, true) else (db, false)

  -- `extend`, with its script
  unfoldable pub extend : ℕ → ℕ → Db → Db × Bool
  extend value ms db = if holds (get key db) value then (pexpire key ms db, true) else (db, false)

  -- `withDistributedLock`; `fn` says whether it returns
  unfoldable pub with_distributed_lock : ℕ → (Db → Db × Bool) → Db → Db × LockResult
  unfolding acquire release
  with_distributed_lock value fn db =
      let (db', acquired) = acquire value db in
      if acquired
      then ((release value (fn db').0).0, if (fn db').1 then returned else threw)
      else (db', not_acquired)

  -- a step, and whether it acquires the lock
  unfoldable pub lock_step : LockStep → Db → Db × Bool
  lock_step (acquires value) db = acquire value db
  lock_step (releases value) db = ((release value db).0, false)
  lock_step (extends value ms) db = ((extend value ms db).0, false)
  lock_step expires db = (del key db, false)

  unfoldable pub run_steps : List LockStep → Db → Db × Bool
  run_steps [] db = (db, false)
  run_steps (s ∷ steps) db =
      let later = run_steps steps (lock_step s db).0 in (later.0, (lock_step s db).1 || later.1)

  step_keeps :
      (owner : ℕ) (s : LockStep) (db : Db)
      → get key db ≡ some owner
      → spares owner s ≡ true
      → (get key (lock_step s db).0 ≡ some owner) × ((lock_step s db).1 ≡ false)
  unfolding lock_step acquire release extend
  step_keeps owner (acquires value) db h t =
      (ground (arith, set_nx_lem key value db), ground (arith, set_nx_lem key value db))
  step_keeps owner (releases value) db h t = (ground arith, refl)
  step_keeps owner (extends value ms) db h t = (ground (arith, get-pexpire key ms key db), refl)
  step_keeps owner expires db h t = absurd (ground arith)

  -- As long as the lock does not expire and its owner does not release it, nobody acquires it and the
  -- owner holds it, whatever acquiring, releasing and extending others try.
  pub run_steps-is_held :
      (owner : ℕ) (steps : List LockStep) (db : Db)
      → is_held owner db ≡ true
      → all (spares owner) steps ≡ true
      → (is_held owner (run_steps steps db).0 ≡ true) × ((run_steps steps db).1 ≡ false)
  unfolding run_steps is_held
  run_steps-is_held owner [] db h t = (h, refl)
  run_steps-is_held owner (s ∷ steps) db h t =
      let mine : get key db ≡ some owner = ground arith in
      let (still, nobody) = step_keeps owner s db mine (ground arith) in
      let (held, later) =
        run_steps-is_held owner steps (lock_step s db).0 (ground arith) (ground arith) in
      (held, rw (nobody, later) refl)

  -- If the lock is free, `fn` runs with it and the lock is free again behind it, whether `fn` returned
  -- or threw; if it is taken, `fn` does not run and nothing changes. This is for an `fn` that
  -- leaves the lock alone.
  pub with_distributed_lock-free :
      (value : ℕ) (fn : Db → Db × Bool) (db : Db)
      → ((d : Db) → get key (fn d).0 ≡ get key d)
      → let after = with_distributed_lock value fn db in
        (get key after.0 ≡ get key db)
        × (after.1 ≡ (
            if is_some (get key db)
            then not_acquired
            else if (fn (set key value db)).1
            then returned
            else threw))
  unfolding with_distributed_lock acquire release
  with_distributed_lock-free value fn db alone = elim (Option-cases (get key db)) [
    | inl e ↦
        let inside : get key (fn (set key value db)).0 ≡ some value =
          ground (arith, alone (set key value db), get-set key value key db) in
        let free = get-del key key (fn (set key value db)).0 in
        rw (set_nx_lem key value db, e) (ground arith, refl)
    | inr (v, e) ↦ rw (set_nx_lem key value db, e) (e, refl)
  ]
