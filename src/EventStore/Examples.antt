-- ===== src/EventStore/Examples.antt =====
-- A submission with one stored event, and an append that loses its first race.
use code_warzz.Prelude.{ℕ, ◌≡◌, refl, true, List, [], ◌∷◌, ◌==◌, if◌then◌else◌}
use code_warzz.EventStore.{
  EventType, EventRow, submission_created, submission_queued, submission_completed, other,
  empty_object, Weather, appended, append_event, get_latest_version, append_loop, attempt_append,
}
use code_warzz.EventStore.Versions.{WellVersioned}
use code_warzz.EventStore.Append.{append_event-WellVersioned}

abbrev row : ℕ → EventType → ℕ → EventRow
row id t v = record { entity_id = id; event_type = t; payload = empty_object; version = v }

abbrev stored : List EventRow
stored = row 7 submission_queued 2 ∷ row 8 submission_created 1 ∷ row 7 submission_created 1 ∷ []

stored-WellVersioned : WellVersioned stored
unfolding get_latest_version
stored-WellVersioned = (refl, (refl, (refl, tt)))

-- a rival of the same entity in the first round only
abbrev first_lost : ℕ → Weather
first_lost n = record {
  rivals = if n == 1 then row 7 (other 0) 0 ∷ [] else [];
  database_up = true;
  publishes = true;
}

second_round : (append_event 7 submission_completed empty_object first_lost stored).1 ≡ appended 4
unfolding append_event append_loop attempt_append
second_round = refl

append_event-WellVersioned_example :
    WellVersioned (append_event 7 submission_completed empty_object first_lost stored).0
append_event-WellVersioned_example =
    append_event-WellVersioned 7 submission_completed empty_object first_lost stored
      stored-WellVersioned
