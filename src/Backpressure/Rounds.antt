-- ===== src/Backpressure/Rounds.antt =====
-- The flag that `isSystemOverloaded` answers, behind a round over several queues.
use code_warzz.Backpressure.{Monitor, check_queue_depth, monitor_round}
use code_warzz.Prelude.{ℕ, ◌≡◌, refl, ap, ◌∙◌, inl, inr, List, [], ◌∷◌, ◌++◌, leb, Bool-cases}

-- The answer of a check is about the queue that is checked, and so is the flag.
pub check_queue_depth-overloaded_iff :
    (depth : ℕ) (m : Monitor)
    → let r = check_queue_depth depth m in
      (r.1.is_overloaded ≡ leb m.config.max_queue_depth depth)
      × (r.0.is_overloaded ≡ r.1.is_overloaded)
      × (r.0.config ≡ m.config)
unfolding check_queue_depth
check_queue_depth-overloaded_iff depth m = elim (Bool-cases (leb m.config.max_queue_depth depth)) [
  | inl e ↦ rw e (refl, refl, refl)
  | inr e ↦ rw e (refl, refl, refl)
]

-- A round forgets all queues but the last one, however deep the others are.
pub monitor_round-last :
    (depths : List ℕ) (last : ℕ) (m : Monitor)
    → (monitor_round (depths ++ last ∷ []) m).0.is_overloaded ≡ leb m.config.max_queue_depth last
unfolding monitor_round
monitor_round-last [] last m =
    let (here, same, _) = check_queue_depth-overloaded_iff last m in same ∙ here
monitor_round-last (d ∷ depths) last m =
    let (_, _, kept) = check_queue_depth-overloaded_iff d m in
    monitor_round-last depths last (check_queue_depth d m).0
    ∙ ap (λ c. leb c.max_queue_depth last) kept
