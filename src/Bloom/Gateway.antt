-- ===== src/Bloom/Gateway.antt =====
-- api-gateway/src/middlewares/bloomFilter.ts, with its own copy of the offsets. What the two regular
-- expressions find in the URL is an input.
use code_warzz.Bloom.{Bitmaps, Text, bloom_filter_size, contest_key, problem_key, shift_left}
use code_warzz.Prelude.Int.{ℤ, pos, ◌+ℤ◌, ◌-ℤ◌, residue32, int32, abs}
use Prim.Native.Nat.{bit_xor}
use code_warzz.Prelude.{
  ℕ, ◌+◌, ◌*◌, ◌%◌, Bool, true, false, not, ◌&&◌, ◌||◌, Option, none, some, List, [], ◌∷◌, ◌==◌,
  if◌then◌else◌,
}

-- the gateway's copy of the loop of `getBloomOffsets`
unfoldable pub gateway_hashes : ℤ → ℤ → Text → ℤ × ℤ
unfolding ◌+ℤ◌ ◌-ℤ◌
gateway_hashes hash1 hash2 [] = (hash1, hash2)
gateway_hashes hash1 hash2 (char ∷ key) =
    gateway_hashes (shift_left hash1 32 +ℤ hash1 +ℤ pos char)
      (int32 (bit_xor (residue32 (shift_left hash2 16 -ℤ hash2)) char)) key

-- the gateway's copy of `getBloomOffsets`
unfoldable pub gateway_offsets : Text → List ℕ
unfolding gateway_hashes
gateway_offsets key =
    let hashes = gateway_hashes (pos 5381) (pos 0) key in
    let hash1 = abs hashes.0 in
    let hash2 = abs hashes.1 in
    hash1 % bloom_filter_size
    ∷ (hash1 + hash2) % bloom_filter_size
    ∷ (hash1 + 2 * hash2) % bloom_filter_size
    ∷ []

-- what the URL and Redis give
pub record Request : Type 0 where
  pub contest_match : Option Text  -- the id of /contests/:id
  pub problem_match : Option Text  -- the id of /problems/:id
  pub is_test : Bool  -- NODE_ENV
  pub throws : Bool  -- the pipeline rejects
  pub errs : ℕ → Bool  -- the GETBIT of this offset answers with an error

-- `next()`, or the answer 404
pub data Answer : Type 0 where
  passed shed : Answer

abbrev pub same_text : Text → Text → Bool
same_text [] [] = true
same_text (a ∷ left) (b ∷ right) = a == b && same_text left right
same_text _ _ = false

abbrev pub is_word : Text → Bool
is_word id =
    same_text id (b'l' ∷ b'i' ∷ b'v' ∷ b'e' ∷ [])
    || same_text id (b's' ∷ b't' ∷ b'r' ∷ b'e' ∷ b'a' ∷ b'm' ∷ [])
    || same_text id (b'a' ∷ b'r' ∷ b'c' ∷ b'h' ∷ b'i' ∷ b'v' ∷ b'e' ∷ [])

-- the filter and the id to check
abbrev pub target : Option Text → Option Text → Option (ℕ × Text)
target (some id) problem = some (contest_key, id)
target none (some id) = some (problem_key, id)
target none none = none

module _ (redis : Bitmaps) where
  open redis use {Db, getbit}

  -- `bit === 0` for one of the results
  unfoldable pub any_zero : ℕ → (ℕ → Bool) → List ℕ → Db → Bool
  any_zero filter_key errs [] db = false
  any_zero filter_key errs (o ∷ offsets) db =
      (not (errs o) && not (getbit filter_key o db)) || any_zero filter_key errs offsets db

  -- `bloomFilterMiddleware`
  unfoldable pub bloom_filter_middleware : Request → Db → Answer
  unfolding any_zero
  bloom_filter_middleware r db = elim (target r.contest_match r.problem_match) [
    | none ↦ passed
    | some (filter_key, id) ↦
        if r.is_test || is_word id || r.throws
        then passed
        else if any_zero filter_key r.errs (gateway_offsets id) db
        then shed
        else passed
  ]
