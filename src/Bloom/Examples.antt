-- ===== src/Bloom/Examples.antt =====
-- A contest is added behind a hydration; its id is then let through.
use code_warzz.Bloom.{Bitmaps, Text, get_bloom_offsets, contest_key}
use code_warzz.Bloom.Gateway.{gateway_offsets, Request, passed, shed, bloom_filter_middleware}
use code_warzz.Bloom.Filter.{FilterStep, add_contest, hydrate, Known, run_filter, run_filter-passes}
use code_warzz.Prelude.{
  ℕ, ◌≡◌, refl, Bool, true, false, not, ◌&&◌, ◌||◌, none, some, List, [], ◌∷◌, arith, ◌==◌,
  if◌then◌else◌,
}

abbrev id : Text
id = b'7' ∷ b'f' ∷ b'3' ∷ b'a' ∷ b'-' ∷ b'b' ∷ b'2' ∷ []

offsets : get_bloom_offsets id ≡ 53481 ∷ 43281 ∷ 33081 ∷ []
unfolding get_bloom_offsets
offsets = refl

memory-getbit-setbit :
    (k o key offset : ℕ) (db : ℕ → ℕ → Bool)
    → (if key == k && offset == o then true else db key offset)
      ≡ (key == k && offset == o) || db key offset
memory-getbit-setbit k o key offset db = ground arith

memory-getbit-del :
    (k key offset : ℕ) (db : ℕ → ℕ → Bool)
    → (if key == k then false else db key offset) ≡ not (key == k) && db key offset
memory-getbit-del k key offset db = ground arith

-- bitmaps as a function
abbrev memory : Bitmaps
memory = record {
  Db = ℕ → ℕ → Bool;
  getbit = λ key offset db. db key offset;
  setbit = λ k o db. λ key offset. if key == k && offset == o then true else db key offset;
  del = λ k db. λ key offset. if key == k then false else db key offset;
  getbit-setbit = memory-getbit-setbit;
  getbit-del = memory-getbit-del;
}

abbrev empty : ℕ → ℕ → Bool
empty key offset = false

abbrev nothing : Known
nothing = record { contests = []; problems = [] }

abbrev steps : List FilterStep
steps = hydrate [] ((b'9' ∷ []) ∷ []) ∷ add_contest id ∷ []

abbrev request : Request
request = record {
  contest_match = some id;
  problem_match = none;
  is_test = false;
  throws = false;
  errs = λ o. false;
}

-- Nothing is in the filter before.
shed_before : bloom_filter_middleware memory request empty ≡ shed
unfolding bloom_filter_middleware gateway_offsets
shed_before = refl

run_filter-passes_example :
    bloom_filter_middleware memory request (run_filter memory steps empty) ≡ passed
run_filter-passes_example =
    run_filter-passes memory steps nothing empty request contest_key 0 id
      (record { contests = tt; problems = tt }) refl refl
