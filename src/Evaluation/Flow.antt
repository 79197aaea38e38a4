-- ===== src/Evaluation/Flow.antt =====
-- When the handler marks a job as processed.
use code_warzz.Prelude.{
  ℕ, ◌≡◌, refl, ◌∙◌, ◌↔◌, inl, inr, Bool, true, false, Option, none, some, List, [], ◌∷◌, arith,
  Option-cases, get_or, any, any-append_quiet,
}
use code_warzz.Sandbox.Judge.{Verdict}
use code_warzz.Evaluation.{
  VerdictMessage, Effect, persist, publish_verdict, publish_plagiarism, mark_processed, SaddAnswer,
  handle_leaderboard_update, expiry_effects,
}
use code_warzz.Evaluation.Outcome.{
  Job, Answers, Ending, returns, throws, handle, judged, accepted, message_of, score_of, prepend,
  finish, publish, after_verdict, run_effects,
}

abbrev pub is_verdict : Effect → Bool
is_verdict (publish_verdict m) = true
is_verdict _ = false

abbrev pub is_mark : Effect → Bool
is_mark mark_processed = true
is_mark _ = false

-- the effects of another service than the idempotency store
abbrev pub starts_with_persist : List Effect → Bool
starts_with_persist (persist v s ∷ es) = true
starts_with_persist _ = false

abbrev is_return : Ending → Bool
is_return returns = true
is_return throws = false

-- The job is marked if and only if the handler returns.
abbrev Agrees : List Effect × Ending → Type 0
Agrees p = any is_mark p.0 ≡ is_return p.1

Agrees-prepend :
    (effects : List Effect) (p : List Effect × Ending)
    → any is_mark effects ≡ false
    → Agrees p
    → Agrees (prepend effects p)
Agrees-prepend effects (later, ending) q h = any-append_quiet is_mark effects later q ∙ h

Agrees-finish : (a : Answers) → Agrees (finish a)
Agrees-finish a = ground arith

Agrees-after_verdict : (j : Job) (a : Answers) → Agrees (after_verdict j a)
Agrees-after_verdict j a = ground (
  arith,
  Agrees-prepend (publish_plagiarism j.submission_id ∷ []) (finish a) refl (Agrees-finish a),
)

Agrees-publish : (j : Job) (a : Answers) (m : Option VerdictMessage) → Agrees (publish j a m)
Agrees-publish j a none = Agrees-after_verdict j a
Agrees-publish j a (some m) = ground (
  arith,
  Agrees-prepend (publish_verdict m ∷ []) (after_verdict j a) refl (Agrees-after_verdict j a),
)

expiry_quiet : (end_time : Option (Option ℕ)) → any is_mark (expiry_effects end_time) ≡ false
expiry_quiet (some (some end_ms)) = refl
expiry_quiet (some none) = refl
expiry_quiet none = refl

update_quiet :
    (contest : Option ℕ) (user problem : ℕ) (v : Verdict) (m : VerdictMessage) (answer : SaddAnswer)
    → any is_mark (handle_leaderboard_update contest user problem v m answer).0 ≡ false
unfolding handle_leaderboard_update
update_quiet none user problem v m answer = refl
update_quiet (some c) user problem v m answer = ground (arith, expiry_quiet m.contest_end_time)

Agrees-accepted : (j : Job) (a : Answers) (score : ℕ) → Agrees (accepted j a score)
unfolding accepted
Agrees-accepted j a score =
    let m = message_of j a score (get_or j.contest_id 0) in
    let (effects, message) =
      handle_leaderboard_update j.contest_id j.user_id j.problem_id a.sandbox.verdict m a.solved in
    Agrees-prepend effects (publish j a message)
      (update_quiet j.contest_id j.user_id j.problem_id a.sandbox.verdict m a.solved)
      (Agrees-publish j a message)

Agrees-judged : (j : Job) (a : Answers) (max_score : Option ℕ) → Agrees (judged j a max_score)
unfolding judged
Agrees-judged j a max_score =
    let score = score_of a.sandbox.verdict max_score in
    let saved = persist a.sandbox.verdict score ∷ [] in
    ground (
      arith,
      Agrees-prepend saved (accepted j a score) refl (Agrees-accepted j a score),
      Agrees-prepend saved (finish a) refl (Agrees-finish a),
    )

run_quiet : (job_id : Option ℕ) → any is_mark (run_effects job_id) ≡ false
run_quiet none = refl
run_quiet (some id) = refl

Agrees-handle : (j : Job) (a : Answers) → a.already_processed ≡ false → Agrees (handle j a)
unfolding handle
Agrees-handle j a h = elim (Option-cases a.problem) [
  | inl e ↦ ground arith
  | inr (max_score, e) ↦ ground (
    arith,
    Agrees-judged j a max_score,
    Agrees-prepend (run_effects j.job_id) (finish a) (run_quiet j.job_id) (Agrees-finish a),
  )
]

-- A job that was not processed before is marked as processed exactly when the handler returns.
pub handle-marks_iff :
    (j : Job) (a : Answers)
    → a.already_processed ≡ false
    → (any is_mark (handle j a).0 ≡ true) ↔ ((handle j a).1 ≡ returns)
handle-marks_iff j a h = let agree = Agrees-handle j a h in (λ m. ground arith, λ r. ground arith)
