-- ===== src/EventStore/Versions.antt =====
-- The versions of the events of an entity, and what other writers do to them.
use code_warzz.Prelude.{
  ℕ, ◌+◌, ◌≤◌, ◌<◌, ◌≡◌, refl, Bool, true, false, List, [], ◌∷◌, arith, ◌==◌, if◌then◌else◌, any,
}
use code_warzz.EventStore.{EventRow, get_latest_version, same_key, rival_insert, rival_inserts}

-- Each row was inserted under the version that follows those below it in the table.
abbrev pub WellVersioned : List EventRow → Type 0
WellVersioned [] = Unit
WellVersioned (r ∷ rows) =
    (r.version ≡ get_latest_version r.entity_id rows + 1) × WellVersioned rows

pub any-same_key :
    (id v : ℕ) (rows : List EventRow)
    → WellVersioned rows
    → 0 < v
    → v ≤ get_latest_version id rows
    → any (same_key id v) rows ≡ true
unfolding get_latest_version
any-same_key id v [] h pos le = absurd (omega arith)
any-same_key id v (r ∷ rows) (e, h) pos le = ground (arith, any-same_key id v rows h pos)

pub any-same_key_above :
    (id v : ℕ) (rows : List EventRow)
    → get_latest_version id rows < v
    → any (same_key id v) rows ≡ false
unfolding get_latest_version
any-same_key_above id v [] lt = refl
any-same_key_above id v (r ∷ rows) lt = ground (arith, any-same_key_above id v rows)

pub rival_inserts-WellVersioned :
    (rivals rows : List EventRow) → WellVersioned rows → WellVersioned (rival_inserts rivals rows)
unfolding rival_inserts rival_insert
rival_inserts-WellVersioned [] rows h = h
rival_inserts-WellVersioned (r ∷ rs) rows h =
    rival_inserts-WellVersioned rs (rival_insert r rows) (refl, h)

latest-rival_insert :
    (id : ℕ) (r : EventRow) (rows : List EventRow)
    → get_latest_version id (rival_insert r rows)
      ≡ (if r.entity_id == id then get_latest_version id rows + 1 else get_latest_version id rows)
unfolding rival_insert get_latest_version
latest-rival_insert id r rows = ground arith

latest_mono_rival :
    (id : ℕ) (r : EventRow) (rows : List EventRow)
    → get_latest_version id rows ≤ get_latest_version id (rival_insert r rows)
latest_mono_rival id r rows = ground (arith, latest-rival_insert id r rows)

pub latest_mono :
    (id : ℕ) (rivals rows : List EventRow)
    → get_latest_version id rows ≤ get_latest_version id (rival_inserts rivals rows)
unfolding rival_inserts
latest_mono id [] rows = omega arith
latest_mono id (r ∷ rs) rows =
    omega (arith, latest_mono id rs (rival_insert r rows), latest_mono_rival id r rows)

-- whether a rival writes to the entity
abbrev pub touches : ℕ → List EventRow → Bool
touches id = any (λ r. r.entity_id == id)

pub latest-untouched :
    (id : ℕ) (rivals rows : List EventRow)
    → touches id rivals ≡ false
    → get_latest_version id (rival_inserts rivals rows) ≡ get_latest_version id rows
unfolding rival_inserts
latest-untouched id [] rows h = refl
latest-untouched id (r ∷ rs) rows h =
    ground (arith, latest-untouched id rs (rival_insert r rows), latest-rival_insert id r rows)

pub latest-touched :
    (id : ℕ) (rivals rows : List EventRow)
    → touches id rivals ≡ true
    → get_latest_version id rows < get_latest_version id (rival_inserts rivals rows)
unfolding rival_inserts
latest-touched id [] rows h = cc
latest-touched id (r ∷ rs) rows h = ground (
  arith,
  latest-touched id rs (rival_insert r rows),
  latest_mono id rs (rival_insert r rows),
  latest-rival_insert id r rows,
)
