-- ===== src/Bloom.antt =====
-- core/src/service/bloom.service.ts: the filters of the contests and the problems that exist, over an
-- interface of the Redis bitmap commands. The offsets are computed on signed 32-bit numbers.
pub mod Gateway
mod Filter
mod Examples
use code_warzz.Prelude.Int.{ℤ, pos, ◌+ℤ◌, ◌-ℤ◌, residue32, int32, abs}
use Prim.Native.Nat.{bit_xor}
use code_warzz.Prelude.{ℕ, ◌+◌, ◌*◌, ◌%◌, ◌≡◌, Bool, not, ◌&&◌, ◌||◌, List, [], ◌∷◌, ◌==◌}

pub record Bitmaps : Type 1 where
  pub Db : Type 0
  pub getbit : ℕ → ℕ → Db → Bool
  pub setbit : ℕ → ℕ → Db → Db  -- SETBIT key offset 1
  pub del : ℕ → Db → Db
  pub getbit-setbit :
      (k o key offset : ℕ) (db : Db)
      → getbit key offset (setbit k o db) ≡ (key == k && offset == o) || getbit key offset db
  pub getbit-del :
      (k key offset : ℕ) (db : Db)
      → getbit key offset (del k db) ≡ not (key == k) && getbit key offset db

-- the code units of a text
abbrev pub Text : Type 0
Text = List ℕ

abbrev pub bloom_filter_size : ℕ
bloom_filter_size = 100000

-- `BLOOM_CONTEST_KEY` and `BLOOM_PROBLEM_KEY`
abbrev pub contest_key : ℕ
contest_key = 0

abbrev pub problem_key : ℕ
problem_key = 1

-- `hash << bits`, with `2 ^ bits`
abbrev pub shift_left : ℤ → ℕ → ℤ
shift_left hash power = int32 ((residue32 hash * power) % 4294967296)

-- the loop of `getBloomOffsets`
unfoldable pub bloom_hashes : ℤ → ℤ → Text → ℤ × ℤ
unfolding ◌+ℤ◌ ◌-ℤ◌
bloom_hashes hash1 hash2 [] = (hash1, hash2)
bloom_hashes hash1 hash2 (char ∷ key) =
    bloom_hashes (shift_left hash1 32 +ℤ hash1 +ℤ pos char)
      (int32 (bit_xor (residue32 (shift_left hash2 16 -ℤ hash2)) char)) key

-- `getBloomOffsets`, with `BLOOM_HASHES` rounds
unfoldable pub get_bloom_offsets : Text → List ℕ
unfolding bloom_hashes
get_bloom_offsets key =
    let hashes = bloom_hashes (pos 5381) (pos 0) key in
    let hash1 = abs hashes.0 in
    let hash2 = abs hashes.1 in
    hash1 % bloom_filter_size
    ∷ (hash1 + hash2) % bloom_filter_size
    ∷ (hash1 + 2 * hash2) % bloom_filter_size
    ∷ []

module _ (redis : Bitmaps) where
  open redis use {Db, setbit, del}

  -- the loop over the offsets of an id
  unfoldable pub set_bits : ℕ → List ℕ → Db → Db
  set_bits filter_key [] db = db
  set_bits filter_key (o ∷ offsets) db = set_bits filter_key offsets (setbit filter_key o db)

  -- `addToBloomFilter`
  unfoldable pub add_to_bloom_filter : ℕ → Text → Db → Db
  unfolding set_bits
  add_to_bloom_filter filter_key id db = set_bits filter_key (get_bloom_offsets id) db

  unfoldable pub add_contest_to_bloom_filter : Text → Db → Db
  unfolding add_to_bloom_filter
  add_contest_to_bloom_filter = add_to_bloom_filter contest_key

  unfoldable pub add_problem_to_bloom_filter : Text → Db → Db
  unfolding add_to_bloom_filter
  add_problem_to_bloom_filter = add_to_bloom_filter problem_key

  -- the loop of `hydrateBloomFilters` over the ids of one table
  unfoldable pub set_all : ℕ → List Text → Db → Db
  unfolding add_to_bloom_filter
  set_all filter_key [] db = db
  set_all filter_key (id ∷ ids) db = set_all filter_key ids (add_to_bloom_filter filter_key id db)

  -- `hydrateBloomFilters`, once the ids are read; its commands run in this order
  unfoldable pub hydrate_bloom_filters : List Text → List Text → Db → Db
  unfolding set_all
  hydrate_bloom_filters contest_ids problem_ids db =
      set_all problem_key problem_ids
        (set_all contest_key contest_ids (del problem_key (del contest_key db)))
