-- ===== src/Evaluation/Loss.antt =====
-- The publication of a verdict that fails.
use code_warzz.Prelude.{
  ℕ, ◌≡◌, inl, inr, Bool, true, false, ◌&&◌, some, List, [], ◌∷◌, arith, ◌==◌, Option-cases,
  is_some, get_or, any,
}
use code_warzz.Sandbox.Judge.{ac}
use code_warzz.Evaluation.{
  VerdictMessage, Effect, add_solved, added, present, handle_leaderboard_update,
}
use code_warzz.Evaluation.Outcome.{
  Job, Answers, Ending, throws, handle, judged, accepted, message_of, score_of, prepend, publish,
}
use code_warzz.Evaluation.Flow.{is_verdict}
use code_warzz.Evaluation.Publication.{verdicts-handle}

module _ (j : Job) (contest : ℕ) (first : Answers) where
  -- The first delivery: an accepted submission of a contest is stored, SADD adds the problem, and the
  -- publication of the verdict fails.
  pub record LosesVerdict : Type 0 where
    pub is_new : first.already_processed ≡ false
    pub is_fetched : is_some first.problem ≡ true
    pub is_submission : j.is_run_only ≡ false
    pub in_contest : j.contest_id ≡ some contest
    pub is_persisted : first.persisted ≡ true
    pub is_accepted : first.sandbox.verdict ≡ ac
    pub is_first_solve : first.solved ≡ added
    pub is_refused : first.verdict_published ≡ false

  abbrev pub is_addition : Effect → Bool
  is_addition (add_solved c u p) = c == contest && u == j.user_id && p == j.problem_id
  is_addition _ = false

  first_update :
      LosesVerdict
      → (m : VerdictMessage)
      → (any is_addition
            (handle_leaderboard_update j.contest_id j.user_id j.problem_id first.sandbox.verdict m
              first.solved).0
          ≡ true)
        × ((handle_leaderboard_update j.contest_id j.user_id j.problem_id first.sandbox.verdict m
              first.solved).1
            ≡ some m)
  unfolding handle_leaderboard_update
  first_update l m = ground arith

  any-addition :
      (effects : List Effect) (p : List Effect × Ending)
      → any is_addition effects ≡ true
      → any is_addition (prepend effects p).0 ≡ true
  any-addition [] (later, ending) h = cc
  any-addition (e ∷ effects) (later, ending) h =
      ground (arith, any-addition effects (later, ending))

  first_accepted :
      (score : ℕ)
      → LosesVerdict
      → ((accepted j first score).1 ≡ throws) × (any is_addition (accepted j first score).0 ≡ true)
  unfolding accepted
  first_accepted score l =
      let m = message_of j first score (get_or j.contest_id 0) in
      let (effects, message) =
        handle_leaderboard_update j.contest_id j.user_id j.problem_id first.sandbox.verdict m
          first.solved in
      let (adds, publishes) = first_update l m in
      (ground arith, any-addition effects (publish j first message) adds)

  first_delivery :
      LosesVerdict → ((handle j first).1 ≡ throws) × (any is_addition (handle j first).0 ≡ true)
  unfolding handle judged
  first_delivery l = elim (Option-cases first.problem) [
    | inl e ↦ absurd (ground (arith, l.is_fetched))
    | inr (max_score, e) ↦
        let facts = first_accepted (score_of first.sandbox.verdict max_score) l in
        (ground arith, ground arith)
  ]

  -- If the publication of the verdict of a first solve fails, the job fails and is retried, with the
  -- problem already in the solved set; then no later delivery, which finds the problem there,
  -- publishes the verdict: the solve never reaches the leaderboard.
  pub handle-loses_verdict :
      (later : Answers)
      → LosesVerdict
      → later.solved ≡ present
      → ((handle j first).1 ≡ throws)
        × (any is_addition (handle j first).0 ≡ true)
        × (any is_verdict (handle j first).0 ≡ false)
        × (any is_verdict (handle j later).0 ≡ false)
  handle-loses_verdict later l p = (
    (first_delivery l).0,
    (first_delivery l).1,
    ground (arith, verdicts-handle j first),
    ground (arith, verdicts-handle j later),
  )
