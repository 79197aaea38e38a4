-- ===== src/Evaluation/Scoring.antt =====
-- The score that the consumer publishes, and what the leaderboard makes of it.
use code_warzz.Prelude.{
  ℕ, ◌+◌, ◌-◌, ◌*◌, ◌/◌, ◌≤◌, ◌<◌, ◌≡◌, inl, inr, arith, ltb, leb, if◌then◌else◌, Bool-cases,
}
use code_warzz.Evaluation.{final_encoded_score}
use code_warzz.Leaderboard.{max_penalty_mins, encode, decode}

-- What is shown for `s` points after `t` milliseconds: a point too many within half of the greatest
-- penalty, two in the first minute; and the minutes doubled.
abbrev pub shown_score : ℕ → ℕ → ℕ
shown_score s t = if ltb t 60000 then s + 2 else if leb (t / 60000) 50000 then s + 1 else s

abbrev pub shown_minutes : ℕ → ℕ
shown_minutes t =
    if ltb t 60000
    then max_penalty_mins
    else if leb (t / 60000) 50000
    then 2 * (t / 60000)
    else 2 * (t / 60000) - max_penalty_mins

-- The published score carries the time bonus already, and the leaderboard adds it once more. For a
-- solution of a whole score `s` within `MAX_PENALTY_MINS` minutes the leaderboard therefore shows:
-- within half of them (and at least one minute) a point too many and twice the minutes; later, the
-- points of `s` and the minutes doubled less `MAX_PENALTY_MINS`; in the first minute, two points too
-- many and the greatest penalty.
pub encode-twice :
    (user s t : ℕ)
    → t / 60000 ≤ max_penalty_mins
    → let shown = decode (user, encode (final_encoded_score s t) t) in
      (shown.score ≡ shown_score s t) × (shown.penalty_minutes ≡ shown_minutes t)
unfolding final_encoded_score encode decode
encode-twice user s t h = elim (Bool-cases (ltb t 60000)) [
  | inl e ↦ let l : t < 60000 = ground arith in rw e (omega arith, omega arith)
  | inr e ↦
      let l : 60000 ≤ t = ground arith in
      elim (Bool-cases (leb (t / 60000) 50000)) [
        | inl f ↦ let u : t / 60000 ≤ 50000 = ground arith in rw (e, f) (omega arith, omega arith)
        | inr f ↦ let u : 50000 < t / 60000 = ground arith in rw (e, f) (omega arith, omega arith)
      ]
]
