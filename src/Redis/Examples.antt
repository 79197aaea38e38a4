-- ===== src/Redis/Examples.antt =====
-- A table of entries as the string commands, and callers of one key.
use code_warzz.Redis.{Strings}
use code_warzz.Redis.Lock.{
  LockStep, acquires, releases, extends, is_held, run_steps, run_steps-is_held,
}
use code_warzz.Redis.Idempotency.{with_idempotency, executed, out_of_rounds, with_idempotency-null}
use code_warzz.Prelude.{
  ℕ, ◌≡◌, refl, Bool, true, false, Option, none, some, List, [], ◌∷◌, ◌==◌, if◌then◌else◌, is_some,
}

abbrev Table : Type 0
Table = ℕ → Option ℕ

abbrev put : ℕ → Option ℕ → Table → Table
put k v db key = if key == k then v else db key

abbrev table : Strings
table = record {
  Db = Table;
  get = λ k db. db k;
  set = λ k v db. put k (some v) db;
  set_nx = λ k v db. if is_some (db k) then (db, false) else (put k (some v) db, true);
  del = λ k db. put k none db;
  pexpire = λ k ms db. db;
  get-set = λ k v key db. refl;
  get-del = λ k key db. refl;
  get-pexpire = λ k ms key db. refl;
  set_nx_lem = λ k v db. refl;
}

abbrev nothing : Table
nothing k = none

-- the value 10 owns the lock 1
abbrev locked : Table
locked = put 1 (some 10) nothing

abbrev tries : List LockStep
tries = acquires 11 ∷ releases 11 ∷ extends 10 5000 ∷ acquires 12 ∷ []

run_steps-is_held_example :
    (is_held table 1 10 (run_steps table 1 tries locked).0 ≡ true)
    × ((run_steps table 1 tries locked).1 ≡ false)
run_steps-is_held_example = run_steps-is_held table 1 10 tries locked (unfold is_held in refl) refl

-- work on key 2 that throws
abbrev work : Table → Table × Bool
work db = (put 2 (some 5) db, false)

-- the claim's value is 99, `null` is 98
abbrev submits : Option ℕ → Table → Table × Option ℕ
submits result db = (db, result)

abbrev idle : ℕ → ℕ → Table → Table
idle r n db = db

abbrev up : ℕ → Bool
up result = true

with_idempotency-null_example :
    let first = with_idempotency table 1 99 98 idle up 1 (submits (some 98)) nothing in
    (first.1 ≡ executed 98)
    × (with_idempotency table 1 99 98 idle up 20 (submits (some 5)) first.0
        ≡ (first.0, out_of_rounds))
with_idempotency-null_example =
    with_idempotency-null table 1 99 98 idle idle up up 0 20 (submits (some 98)) (submits (some 5))
      nothing refl refl refl refl
