-- ===== src/Evaluation/Publication.antt =====
-- When the handler publishes a verdict.
use code_warzz.Prelude.{
  ℕ, ◌≡◌, refl, ap, ◌∙◌, ◌↔◌, inl, inr, Bool, true, false, not, ◌&&◌, Option, none, some, List, [],
  ◌∷◌, arith, Option-cases, is_some, get_or, any, any-append_quiet,
}
use code_warzz.Sandbox.Judge.{Verdict, ac, is_ac}
use code_warzz.Evaluation.{
  VerdictMessage, Effect, persist, publish_plagiarism, SaddAnswer, handle_leaderboard_update,
  expiry_effects, is_present,
}
use code_warzz.Evaluation.Outcome.{
  Job, Answers, Ending, handle, judged, accepted, message_of, score_of, prepend, finish, publish,
  after_verdict, run_effects,
}
use code_warzz.Evaluation.Flow.{is_verdict, starts_with_persist}

-- whether a verdict is among the effects
abbrev pub verdicts : List Effect × Ending → Bool
verdicts p = any is_verdict p.0

verdicts-prepend :
    (effects : List Effect) (p : List Effect × Ending)
    → any is_verdict effects ≡ false
    → verdicts (prepend effects p) ≡ verdicts p
verdicts-prepend effects (later, ending) q = any-append_quiet is_verdict effects later q

verdicts-finish : (a : Answers) → verdicts (finish a) ≡ false
verdicts-finish a = ground arith

verdicts-after : (j : Job) (a : Answers) → verdicts (after_verdict j a) ≡ false
verdicts-after j a = ground (
  arith,
  verdicts-prepend (publish_plagiarism j.submission_id ∷ []) (finish a) refl,
  verdicts-finish a,
)

verdicts-publish :
    (j : Job) (a : Answers) (m : Option VerdictMessage)
    → verdicts (publish j a m) ≡ is_some m && a.verdict_published
verdicts-publish j a none = verdicts-after j a
verdicts-publish j a (some m) = ground (arith, verdicts-after j a)

expiry_quiet : (end_time : Option (Option ℕ)) → any is_verdict (expiry_effects end_time) ≡ false
expiry_quiet (some (some end_ms)) = refl
expiry_quiet (some none) = refl
expiry_quiet none = refl

update_lem :
    (contest : Option ℕ) (user problem : ℕ) (v : Verdict) (m : VerdictMessage) (answer : SaddAnswer)
    → (any is_verdict (handle_leaderboard_update contest user problem v m answer).0 ≡ false)
      × (is_some (handle_leaderboard_update contest user problem v m answer).1
          ≡ is_some contest && (is_ac v && not (is_present answer)))
unfolding handle_leaderboard_update
update_lem none user problem v m answer = (refl, refl)
update_lem (some c) user problem v m answer =
    (ground (arith, expiry_quiet m.contest_end_time), ground arith)

verdicts-accepted :
    (j : Job) (a : Answers) (score : ℕ)
    → verdicts (accepted j a score)
      ≡ (is_some j.contest_id && (is_ac a.sandbox.verdict && not (is_present a.solved)))
        && a.verdict_published
unfolding accepted
verdicts-accepted j a score =
    let m = message_of j a score (get_or j.contest_id 0) in
    let (effects, message) =
      handle_leaderboard_update j.contest_id j.user_id j.problem_id a.sandbox.verdict m a.solved in
    let (quiet, wanted) =
      update_lem j.contest_id j.user_id j.problem_id a.sandbox.verdict m a.solved in
    verdicts-prepend effects (publish j a message) quiet
    ∙ verdicts-publish j a message
    ∙ ap (λ b. b && a.verdict_published) wanted

verdicts-judged :
    (j : Job) (a : Answers) (max_score : Option ℕ)
    → verdicts (judged j a max_score)
      ≡ a.persisted
        && ((is_some j.contest_id && (is_ac a.sandbox.verdict && not (is_present a.solved)))
            && a.verdict_published)
unfolding judged
verdicts-judged j a max_score =
    let score = score_of a.sandbox.verdict max_score in
    let saved = persist a.sandbox.verdict score ∷ [] in
    ground (
      arith,
      verdicts-prepend saved (accepted j a score) refl,
      verdicts-accepted j a score,
      verdicts-prepend saved (finish a) refl,
      verdicts-finish a,
    )

run_quiet : (job_id : Option ℕ) → any is_verdict (run_effects job_id) ≡ false
run_quiet none = refl
run_quiet (some id) = refl

pub verdicts-handle :
    (j : Job) (a : Answers)
    → verdicts (handle j a)
      ≡ (not a.already_processed && (is_some a.problem && not j.is_run_only))
        && (a.persisted
            && ((is_some j.contest_id && (is_ac a.sandbox.verdict && not (is_present a.solved)))
                && a.verdict_published))
unfolding handle
verdicts-handle j a = elim (Option-cases a.problem) [
  | inl e ↦ ground arith
  | inr (max_score, e) ↦ ground (
    arith,
    verdicts-judged j a max_score,
    verdicts-prepend (run_effects j.job_id) (finish a) (run_quiet j.job_id),
    verdicts-finish a,
  )
]

starts-prepend :
    (v : Verdict) (s : ℕ) (p : List Effect × Ending)
    → starts_with_persist (prepend (persist v s ∷ []) p).0 ≡ true
starts-prepend v s (later, ending) = refl

starts-judged :
    (j : Job) (a : Answers) (max_score : Option ℕ)
    → a.persisted ≡ true
    → starts_with_persist (judged j a max_score).0 ≡ true
unfolding judged
starts-judged j a max_score h = ground arith

starts-handle :
    (j : Job) (a : Answers)
    → a.already_processed ≡ false
    → is_some a.problem ≡ true
    → j.is_run_only ≡ false
    → a.persisted ≡ true
    → starts_with_persist (handle j a).0 ≡ true
unfolding handle
starts-handle j a new fetched submission saved = elim (Option-cases a.problem) [
  | inl e ↦ ground arith
  | inr (max_score, e) ↦ ground (arith, starts-judged j a max_score)
]

-- The conditions under which a verdict is published.
pub record IsPublished (j : Job) (a : Answers) : Type 0 where
  pub is_new : a.already_processed ≡ false
  pub is_fetched : is_some a.problem ≡ true
  pub is_submission : j.is_run_only ≡ false
  pub is_persisted : a.persisted ≡ true
  pub is_accepted : a.sandbox.verdict ≡ ac
  pub in_contest : is_some j.contest_id ≡ true
  pub is_first_solve : is_present a.solved ≡ false
  pub goes_through : a.verdict_published ≡ true

-- A verdict goes to the leaderboard exactly for an accepted submission of a contest, not handled
-- before, whose problem was fetched and whose result the core service has stored, unless the problem
-- is known as solved, if the broker takes it; runs never publish one. The core service has the result
-- before anything else happens.
pub handle-publishes_iff :
    (j : Job) (a : Answers)
    → ((any is_verdict (handle j a).0 ≡ true) ↔ IsPublished j a)
      × (any is_verdict (handle j a).0
          ≡ any is_verdict (handle j a).0 && starts_with_persist (handle j a).0)
handle-publishes_iff j a =
    let conditions = verdicts-handle j a in
    ((λ h. ground arith, λ p. ground arith), ground (arith, starts-handle j a))
