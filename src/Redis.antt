-- ===== src/Redis.antt =====
-- The string commands of Redis that the services use, as an interface; keys and values are numbers
-- that stand for texts. An entry that expires is deleted.
pub mod Lock
pub mod Idempotency
mod Examples
use code_warzz.Prelude.{ℕ, ◌≡◌, Bool, true, false, Option, none, some, ◌==◌, if◌then◌else◌, is_some}

pub record Strings : Type 1 where
  pub Db : Type 0
  pub get : ℕ → Db → Option ℕ
  pub set : ℕ → ℕ → Db → Db  -- SET key value, with an expiry
  pub set_nx : ℕ → ℕ → Db → Db × Bool  -- SET … NX, and whether the answer is OK
  pub del : ℕ → Db → Db
  pub pexpire : ℕ → ℕ → Db → Db
  pub get-set :
      (k v key : ℕ) (db : Db) → get key (set k v db) ≡ (if key == k then some v else get key db)
  pub get-del : (k key : ℕ) (db : Db) → get key (del k db) ≡ (if key == k then none else get key db)
  pub get-pexpire : (k ms key : ℕ) (db : Db) → get key (pexpire k ms db) ≡ get key db
  pub set_nx_lem :
      (k v : ℕ) (db : Db)
      → set_nx k v db ≡ (if is_some (get k db) then (db, false) else (set k v db, true))
