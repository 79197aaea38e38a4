-- ===== src/Bloom/Filter.antt =====
-- The two filters against the sets of ids that they stand for.
use code_warzz.Bloom.{
  Bitmaps, Text, contest_key, problem_key, shift_left, bloom_hashes, get_bloom_offsets, set_bits,
  add_to_bloom_filter, add_contest_to_bloom_filter, add_problem_to_bloom_filter, set_all,
  hydrate_bloom_filters,
}
use code_warzz.Bloom.Gateway.{
  gateway_hashes, gateway_offsets, Request, passed, target, any_zero, bloom_filter_middleware,
}
use code_warzz.Prelude.Int.{ℤ, pos, ◌+ℤ◌, ◌-ℤ◌, residue32, int32}
use mathlib.Core.Path.{subst}
use Prim.Native.Nat.{bit_xor}
use code_warzz.Prelude.{
  ℕ, ◌≡◌, refl, sym, inl, inr, Bool, true, false, Option, none, some, List, [], ◌∷◌, arith, leb,
  ◌==◌, if◌then◌else◌, Bool-cases, get_elem?, All, All-get_elem?,
}

-- what core does to the filters
pub data FilterStep : Type 0 where
  add_contest add_problem : Text → FilterStep
  hydrate : List Text → List Text → FilterStep

-- the abstract filters: the ids that must pass
pub record Known : Type 0 where
  pub contests : List Text
  pub problems : List Text

abbrev pub known_step : FilterStep → Known → Known
known_step (add_contest id) k = record k { contests = id ∷ k.contests }
known_step (add_problem id) k = record k { problems = id ∷ k.problems }
known_step (hydrate contest_ids problem_ids) k = record {
  contests = contest_ids;
  problems = problem_ids;
}

abbrev pub known_after : List FilterStep → Known → Known
known_after [] k = k
known_after (s ∷ steps) k = known_after steps (known_step s k)

-- the known ids of a filter
abbrev pub known_ids : ℕ → Known → List Text
known_ids key k = if key == contest_key then k.contests else k.problems

target-key :
    (c p : Option Text) (key : ℕ) (id : Text)
    → target c p ≡ some (key, id)
    → leb key problem_key ≡ true
target-key none none key id e = cc
target-key none (some x) key id e = ground arith
target-key (some x) p key id e = ground arith

gateway_hashes_lem :
    (hash1 hash2 : ℤ) (key : Text) → gateway_hashes hash1 hash2 key ≡ bloom_hashes hash1 hash2 key
unfolding gateway_hashes bloom_hashes
gateway_hashes_lem hash1 hash2 [] = refl
gateway_hashes_lem hash1 hash2 (char ∷ key) =
    gateway_hashes_lem (shift_left hash1 32 +ℤ hash1 +ℤ pos char)
      (int32 (bit_xor (residue32 (shift_left hash2 16 -ℤ hash2)) char)) key

-- The gateway and core compute the same offsets.
pub gateway_offsets_lem : (key : Text) → gateway_offsets key ≡ get_bloom_offsets key
unfolding gateway_offsets get_bloom_offsets
gateway_offsets_lem key = rw (gateway_hashes_lem (pos 5381) (pos 0) key) refl

module _ (redis : Bitmaps) where
  open redis use {Db, getbit, setbit, del, getbit-setbit, getbit-del}

  -- the step on the real filters
  unfoldable pub filter_step : FilterStep → Db → Db
  filter_step (add_contest id) db = add_contest_to_bloom_filter redis id db
  filter_step (add_problem id) db = add_problem_to_bloom_filter redis id db
  filter_step (hydrate contest_ids problem_ids) db =
      hydrate_bloom_filters redis contest_ids problem_ids db

  unfoldable pub run_filter : List FilterStep → Db → Db
  unfolding filter_step
  run_filter [] db = db
  run_filter (s ∷ steps) db = run_filter steps (filter_step s db)

  -- All bits of the id are set.
  abbrev pub Covers : ℕ → Text → Db → Type 0
  Covers filter_key id db = All (λ o. getbit filter_key o db ≡ true) (get_bloom_offsets id)

  -- the filters hold at least the known ids
  pub record Implements (k : Known) (db : Db) : Type 0 where
    pub contests : All (λ id. Covers contest_key id db) k.contests
    pub problems : All (λ id. Covers problem_key id db) k.problems

  set_bits-keeps :
      (key offset filter_key : ℕ) (offsets : List ℕ) (db : Db)
      → getbit key offset db ≡ true
      → getbit key offset (set_bits redis filter_key offsets db) ≡ true
  unfolding set_bits
  set_bits-keeps key offset filter_key [] db e = e
  set_bits-keeps key offset filter_key (o ∷ offsets) db e =
      set_bits-keeps key offset filter_key offsets (setbit filter_key o db)
        (ground (arith, getbit-setbit filter_key o key offset db))

  set_bits-sets :
      (filter_key : ℕ) (offsets : List ℕ) (db : Db)
      → All (λ o. getbit filter_key o (set_bits redis filter_key offsets db) ≡ true) offsets
  unfolding set_bits
  set_bits-sets filter_key [] db = tt
  set_bits-sets filter_key (o ∷ offsets) db = (
    set_bits-keeps filter_key o filter_key offsets (setbit filter_key o db)
        (ground (arith, getbit-setbit filter_key o filter_key o db)),
    set_bits-sets filter_key offsets (setbit filter_key o db),
  )

  Covers-set_bits :
      (key filter_key : ℕ) (id : Text) (offsets : List ℕ) (db : Db)
      → Covers key id db
      → Covers key id (set_bits redis filter_key offsets db)
  Covers-set_bits key filter_key id offsets db h = keep (get_bloom_offsets id) h
    where
      keep :
          (os : List ℕ)
          → All (λ o. getbit key o db ≡ true) os
          → All (λ o. getbit key o (set_bits redis filter_key offsets db) ≡ true) os
      keep [] k = tt
      keep (o ∷ os) (e, k) = (set_bits-keeps key o filter_key offsets db e, keep os k)

  -- every id of a list is covered
  abbrev CoversAll : ℕ → List Text → Db → Type 0
  CoversAll key ids db = All (λ id. Covers key id db) ids

  CoversAll-add :
      (key filter_key : ℕ) (id : Text) (ids : List Text) (db : Db)
      → CoversAll key ids db
      → CoversAll key ids (add_to_bloom_filter redis filter_key id db)
  unfolding add_to_bloom_filter
  CoversAll-add key filter_key id [] db h = tt
  CoversAll-add key filter_key id (x ∷ ids) db (c, h) = (
    Covers-set_bits key filter_key x (get_bloom_offsets id) db c,
    CoversAll-add key filter_key id ids db h,
  )

  Covers-add :
      (filter_key : ℕ) (id : Text) (db : Db)
      → Covers filter_key id (add_to_bloom_filter redis filter_key id db)
  unfolding add_to_bloom_filter
  Covers-add filter_key id db = set_bits-sets filter_key (get_bloom_offsets id) db

  CoversAll-set_all :
      (key filter_key : ℕ) (added ids : List Text) (db : Db)
      → CoversAll key ids db
      → CoversAll key ids (set_all redis filter_key added db)
  unfolding set_all
  CoversAll-set_all key filter_key [] ids db h = h
  CoversAll-set_all key filter_key (id ∷ added) ids db h =
      CoversAll-set_all key filter_key added ids (add_to_bloom_filter redis filter_key id db)
        (CoversAll-add key filter_key id ids db h)

  set_all-CoversAll :
      (key : ℕ) (ids : List Text) (db : Db) → CoversAll key ids (set_all redis key ids db)
  unfolding set_all
  set_all-CoversAll key [] db = tt
  set_all-CoversAll key (id ∷ ids) db =
      let db' = add_to_bloom_filter redis key id db in
      let (c, _) = CoversAll-set_all key key ids (id ∷ []) db' (Covers-add key id db, tt) in
      (c, set_all-CoversAll key ids db')

  filter_step-Implements :
      (s : FilterStep) (k : Known) (db : Db)
      → Implements k db
      → Implements (known_step s k) (filter_step s db)
  unfolding filter_step add_contest_to_bloom_filter add_problem_to_bloom_filter
      hydrate_bloom_filters
  filter_step-Implements (add_contest id) k db h = record {
    contests = (
      Covers-add contest_key id db,
      CoversAll-add contest_key contest_key id k.contests db h.contests,
    );
    problems = CoversAll-add problem_key contest_key id k.problems db h.problems;
  }
  filter_step-Implements (add_problem id) k db h = record {
    contests = CoversAll-add contest_key problem_key id k.contests db h.contests;
    problems = (
      Covers-add problem_key id db,
      CoversAll-add problem_key problem_key id k.problems db h.problems,
    );
  }
  filter_step-Implements (hydrate contest_ids problem_ids) k db h =
      let cleared = del problem_key (del contest_key db) in
      let db' = set_all redis contest_key contest_ids cleared in
      record {
        contests =
            CoversAll-set_all contest_key problem_key problem_ids contest_ids db'
              (set_all-CoversAll contest_key contest_ids cleared);
        problems = set_all-CoversAll problem_key problem_ids db';
      }

  -- The filters hold at least the ids that the abstract ones hold, after any sequence of additions and
  -- hydrations, each of them run to its end.
  pub run_filter-Implements :
      (steps : List FilterStep) (k : Known) (db : Db)
      → Implements k db
      → Implements (known_after steps k) (run_filter steps db)
  unfolding run_filter
  run_filter-Implements [] k db h = h
  run_filter-Implements (s ∷ steps) k db h =
      run_filter-Implements steps (known_step s k) (filter_step s db)
        (filter_step-Implements s k db h)

  any_zero-covered :
      (key : ℕ) (errs : ℕ → Bool) (offsets : List ℕ) (db : Db)
      → All (λ o. getbit key o db ≡ true) offsets
      → any_zero redis key errs offsets db ≡ false
  unfolding any_zero
  any_zero-covered key errs [] db h = refl
  any_zero-covered key errs (o ∷ offsets) db (e, h) =
      ground (arith, any_zero-covered key errs offsets db h)

  known-covered :
      (key i : ℕ) (id : Text) (k : Known) (db : Db)
      → Implements k db
      → get_elem? (known_ids key k) i ≡ some id
      → leb key problem_key ≡ true
      → Covers key id db
  known-covered key i id k db h e known = elim (Bool-cases (key == contest_key)) [
    | inl c ↦
        let is_contest : key ≡ contest_key = ground arith in
        let e' : get_elem? k.contests i ≡ some id = rw c at e in
        rw is_contest (All-get_elem? (λ x. Covers contest_key x db) i id k.contests e' h.contests)
    | inr c ↦
        let is_problem : key ≡ problem_key = ground arith in
        let e' : get_elem? k.problems i ≡ some id = rw c at e in
        rw is_problem (All-get_elem? (λ x. Covers problem_key x db) i id k.problems e' h.problems)
  ]

  middleware-covered :
      (r : Request) (key : ℕ) (id : Text) (db : Db)
      → target r.contest_match r.problem_match ≡ some (key, id)
      → Covers key id db
      → bloom_filter_middleware redis r db ≡ passed
  unfolding bloom_filter_middleware
  middleware-covered r key id db e h =
      let offsets = subst (All (λ o. getbit key o db ≡ true)) (sym (gateway_offsets_lem id)) h in
      ground (arith, any_zero-covered key r.errs (gateway_offsets id) db offsets)

  -- A request for a contest or a problem that core has added since the last hydration, or read for it,
  -- is never shed by the gateway, whatever else was added and however the reads of the bits fail.
  pub run_filter-passes :
      (steps : List FilterStep) (k : Known) (db : Db) (r : Request) (key i : ℕ) (id : Text)
      → Implements k db
      → target r.contest_match r.problem_match ≡ some (key, id)
      → get_elem? (known_ids key (known_after steps k)) i ≡ some id
      → bloom_filter_middleware redis r (run_filter steps db) ≡ passed
  run_filter-passes steps k db r key i id h t e =
      middleware-covered r key id (run_filter steps db) t (
        known-covered key i id (known_after steps k) (run_filter steps db)
          (run_filter-Implements steps k db h) e
          (target-key r.contest_match r.problem_match key id t))
