-- ===== src/Leaderboard/Order.antt =====
-- The order of the encoded scores.
use native.Mathlib.Decide.{dec_lt}
use code_warzz.Prelude.{ℕ, ◌+◌, ◌-◌, ◌*◌, ◌≤◌, ◌<◌, ◌≡◌, refl, ◌↔◌, ◌⊎◌, inl, inr, arith}
use code_warzz.Leaderboard.{max_penalty_mins, penalty_minutes, encode}

lexicographic :
    (s s' p p' : ℕ)
    → 1 ≤ p
    → p ≤ 100000
    → 1 ≤ p'
    → p' ≤ 100000
    → (s * 100000 + (100000 - p) < s' * 100000 + (100000 - p')) ↔ ((s < s') ⊎ ((s ≡ s') × (p' < p)))
lexicographic s s' p p' l u l' u' = (to, from)
  where
    to : s * 100000 + (100000 - p) < s' * 100000 + (100000 - p') → (s < s') ⊎ ((s ≡ s') × (p' < p))
    to lt = elim (dec_lt s s') [ yes h ↦ inl h | no h ↦ inr (omega arith, omega arith) ]

    from :
        (s < s') ⊎ ((s ≡ s') × (p' < p)) → s * 100000 + (100000 - p) < s' * 100000 + (100000 - p')
    from (inl h) = omega arith
    from (inr h) = omega arith

penalty_minutes_bounds :
    (t : ℕ) → 60000 ≤ t → (1 ≤ penalty_minutes t) × (penalty_minutes t ≤ 100000)
unfolding penalty_minutes
penalty_minutes_bounds t h = (omega arith, omega arith)

encode_lem : (u t : ℕ) → encode u t ≡ u + (max_penalty_mins - penalty_minutes t)
unfolding encode
encode_lem u t = refl

-- For whole points and times of at least a minute, one encoded score is above another exactly when
-- it has more points, or as many and fewer minutes (capped at `MAX_PENALTY_MINS`).
pub encode-lt_iff :
    (s s' t t' : ℕ)
    → 60000 ≤ t
    → 60000 ≤ t'
    → (encode (s * max_penalty_mins) t < encode (s' * max_penalty_mins) t')
      ↔ ((s < s') ⊎ ((s ≡ s') × (penalty_minutes t' < penalty_minutes t)))
encode-lt_iff s s' t t' h h' =
    let (l, u) = penalty_minutes_bounds t h in
    let (l', u') = penalty_minutes_bounds t' h' in
    rw (encode_lem (s * max_penalty_mins) t, encode_lem (s' * max_penalty_mins) t')
      (lexicographic s s' (penalty_minutes t) (penalty_minutes t') l u l' u')
