-- ===== src/Queue/Consumer/Examples.antt =====
-- The consumers of the services: 3 retries, 1 s.
use code_warzz.Prelude.{
  ℕ, ◌+◌, ◌*◌, ◌^◌, ◌≡◌, refl, true, false, not, ◌&&◌, ◌||◌, ltb, leb, [], ◌∷◌,
}
use code_warzz.Queue.Consumer.{default_options, Attempt, on_delivery, dead_lettered, lifetime}
use code_warzz.Queue.Consumer.Delivery.{
  settlements, after_settlement, retry_copies, acks, drops, on_delivery-settles,
}
use code_warzz.Queue.Consumer.Lifetime.{lifetime-dead_lettered}

abbrev broken : Attempt
broken = record { handled = false; published = true; confirmed = true }

seven_seconds : lifetime 4 default_options (λ r. false) 0 0 ≡ dead_lettered 3 7000
unfolding lifetime
seven_seconds = refl

on_delivery-settles_example :
    (settlements (on_delivery default_options 1 broken) ≡ 1)
    × (after_settlement (on_delivery default_options 1 broken) ≡ [])
    × (retry_copies (on_delivery default_options 1 broken) ≡ (2, 2000) ∷ [])
    × (acks (on_delivery default_options 1 broken) ≡ false || (ltb 1 3 && (true && true)))
    × (drops (on_delivery default_options 1 broken) ≡ not false && leb 3 1)
on_delivery-settles_example = on_delivery-settles default_options 1 broken

lifetime-dead_lettered_example :
    (t : ℕ) × (lifetime 4 default_options (λ r. false) 0 0 ≡ dead_lettered 3 t)
    × (t + 1000 ≡ 1000 * 2 ^ 3)
lifetime-dead_lettered_example = lifetime-dead_lettered default_options (λ r. false) (λ i. refl)
