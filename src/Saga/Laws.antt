-- ===== src/Saga/Laws.antt =====
-- How the steps of a saga end, what a rollback does to the world, and retries.
use mathlib.Core.Path.{subst}
use code_warzz.Prelude.{
  ℕ, ◌≡◌, refl, sym, ap, ◌∙◌, inl, inr, Bool, true, false, List, [], ◌∷◌, ◌++◌, map, if◌then◌else◌,
  Bool-cases, All,
}
use code_warzz.Saga.{
  SagaStepStatus, pending, completed, failed, compensated, compensation_failed, SagaStep,
  SagaResult, finished, failed_at, with_status, compensate_step, compensate, run_from, execute,
  rewind, needs_compensation,
}

module _ {ℓ} {W : Type ℓ} where
  -- A step whose compensation undoes it, and which changes nothing where it throws.
  abbrev pub IsReversible : SagaStep W → Type ℓ
  IsReversible s =
      (w : W)
      → ((s.execute w).0 ≡ true → s.compensate (s.execute w).1 ≡ (true, w))
        × ((s.execute w).0 ≡ false → (s.execute w).1 ≡ w)

  -- The actions of the steps succeed one after the other, from the first world to the second.
  abbrev pub Ran : List (SagaStep W) → W → W → Type ℓ
  Ran [] w w' = w ≡ w'
  Ran (s ∷ ss) w w' = ((s.execute w).0 ≡ true) × Ran ss (s.execute w).1 w'

  -- the world behind the compensations of the steps, the last step's first
  abbrev pub undo : List (SagaStep W) → W → W
  undo [] w = w
  undo (s ∷ ss) w = (s.compensate (undo ss w)).1

  -- the steps behind these compensations
  abbrev pub undone : List (SagaStep W) → W → List (SagaStep W)
  undone [] w = []
  undone (s ∷ ss) w =
      with_status (if (s.compensate (undo ss w)).0 then compensated else compensation_failed) s
      ∷ undone ss w

  -- How a saga over these steps ends that began in the world `w`: with these steps, this world and
  -- this result.
  abbrev pub EndsAs : List (SagaStep W) → W → List (SagaStep W) → W → SagaResult → Type ℓ
  EndsAs steps w after w' finished = Ran steps w w' × (after ≡ map (with_status completed) steps)
  EndsAs steps w after w' (failed_at n) =
      (before : List (SagaStep W)) × (s : SagaStep W) × (rest : List (SagaStep W)) × (v : W)
      × (steps ≡ before ++ s ∷ rest)
      × (s.name ≡ n)
      × Ran before w v
      × ((s.execute v).0 ≡ false)
      × (w' ≡ undo before (s.execute v).1)
      × (after
          ≡ undone before (s.execute v).1 ++ with_status failed s ∷ map (with_status pending) rest)

  compensate_failed :
      (s : SagaStep W) (before after : List (SagaStep W)) (w : W)
      → compensate (with_status failed s ∷ before) after w
        ≡ compensate before (with_status failed s ∷ after) w
  unfolding compensate compensate_step
  compensate_failed s before after w = refl

  compensate_completed :
      (s : SagaStep W) (before after : List (SagaStep W)) (w v : W)
      → s.compensate w ≡ (true, v)
      → compensate (with_status completed s ∷ before) after w
        ≡ compensate before (with_status compensated s ∷ after) v
  unfolding compensate compensate_step
  compensate_completed s before after w v e =
      ap
        (λ (r : Bool × W).
          compensate before
            (with_status (if r.0 then compensated else compensation_failed) s ∷ after) r.1)
        e

  rewind-append :
      (before xs ys : List (SagaStep W)) → rewind before xs ++ ys ≡ rewind before (xs ++ ys)
  rewind-append [] xs ys = refl
  rewind-append (s ∷ before) xs ys = rewind-append before (s ∷ xs) ys

  rewind-map :
      (t : SagaStepStatus) (before xs : List (SagaStep W))
      → rewind (map (with_status t) before) (map (with_status t) xs)
        ≡ map (with_status t) (rewind before xs)
  rewind-map t [] xs = refl
  rewind-map t (s ∷ before) xs = rewind-map t before (s ∷ xs)

  Ran-concat :
      (ss : List (SagaStep W)) (s : SagaStep W) (w v : W)
      → Ran ss w v
      → (s.execute v).0 ≡ true
      → Ran (ss ++ s ∷ []) w (s.execute v).1
  Ran-concat [] s w v e ok =
      let here : (s.execute w).0 ≡ true = ap (λ x. (s.execute x).0) e ∙ ok in
      (here, ap (λ x. (s.execute x).1) e)
  Ran-concat (t ∷ ss) s w v (p, r) ok = (p, Ran-concat ss s (t.execute w).1 v r ok)

  -- The compensations of completed steps, behind those of the steps `xs` that follow them.
  compensate-undone :
      (before xs tail : List (SagaStep W)) (w : W)
      → compensate (map (with_status completed) before) (undone xs w ++ tail) (undo xs w)
        ≡ (undone (rewind before xs) w ++ tail, undo (rewind before xs) w)
  unfolding compensate compensate_step
  compensate-undone [] xs tail w = refl
  compensate-undone (s ∷ before) xs tail w = compensate-undone before (s ∷ xs) tail w

  run_from-EndsAs :
      (before rest : List (SagaStep W)) (w v : W)
      → Ran (rewind before []) w v
      → let r = run_from (map (with_status completed) before) (map (with_status pending) rest) v in
        EndsAs (rewind before rest) w r.0 r.1 r.2
  unfolding run_from
  run_from-EndsAs before [] w v ran = (ran, rewind-map completed before [])
  run_from-EndsAs before (s ∷ rest) w v ran = elim (Bool-cases (s.execute v).0) [
    | inl ok ↦ rw ok (
        run_from-EndsAs (s ∷ before) rest w (s.execute v).1 (
          subst (λ l. Ran l w (s.execute v).1) (rewind-append before [] (s ∷ []))
            (Ran-concat (rewind before []) s w v ran ok)))
    | inr ko ↦
        let v' = (s.execute v).1 in
        let tail = with_status failed s ∷ map (with_status pending) rest in
        let ended = compensate-undone before [] tail v' in
        rw
          (
            ko,
            compensate_failed s (map (with_status completed) before)
                (map (with_status pending) rest) v',
          )
          (
            rewind before [],
            s,
            rest,
            v,
            sym (rewind-append before [] (s ∷ rest)),
            refl,
            ran,
            ko,
            ap (λ (r : List (SagaStep W) × W). r.1) ended,
            ap (λ (r : List (SagaStep W) × W). r.0) ended,
          )
  ]

  -- A saga that returns has run the actions of all its steps, in order, and they succeeded; every step is
  -- completed. One that throws names a step whose action failed: the actions before it ran in order
  -- and succeeded, none behind it ran, and the world is what the compensations of the steps before
  -- it, the latest first, made of it. These steps are compensated or their compensation failed, the
  -- named one is failed and those behind it are pending.
  pub execute-EndsAs :
      (steps : List (SagaStep W)) (w : W) → let r = execute steps w in EndsAs steps w r.0 r.1 r.2
  unfolding execute
  execute-EndsAs steps w = run_from-EndsAs [] steps w w refl

  All-map_pending :
      (steps : List (SagaStep W))
      → All IsReversible steps
      → All IsReversible (map (with_status pending) steps)
  All-map_pending [] h = tt
  All-map_pending (s ∷ steps) (p, h) = (p, All-map_pending steps h)

  run_from-restores :
      (before rest : List (SagaStep W)) (w w₀ : W) (n : ℕ)
      → ((after : List (SagaStep W)) → (compensate before after w).1 ≡ w₀)
      → All IsReversible rest
      → (run_from before rest w).2 ≡ failed_at n
      → (run_from before rest w).1 ≡ w₀
  unfolding run_from
  run_from-restores before [] w w₀ n h r e = cc
  run_from-restores before (s ∷ rest) w w₀ n h (p, r) e = elim (Bool-cases (s.execute w).0) [
    | inl ok ↦ rw ok (
        run_from-restores (with_status completed s ∷ before) rest (s.execute w).1 w₀ n
          (λ after.
            rw (compensate_completed s before after (s.execute w).1 w ((p w).0 ok))
              (h (with_status compensated s ∷ after)))
          r (rw ok at e))
    | inr ko ↦
        rw (ko, compensate_failed s before rest (s.execute w).1, (p w).1 ko)
          (h (with_status failed s ∷ rest))
  ]

  -- If every step's compensation undoes it, and a step that throws has changed nothing, then a saga
  -- that throws leaves the world as it found it.
  pub execute-restores :
      (steps : List (SagaStep W)) (w : W) (n : ℕ)
      → All IsReversible steps
      → (execute steps w).2 ≡ failed_at n
      → (execute steps w).1 ≡ w
  unfolding execute compensate
  execute-restores steps w n r e =
      run_from-restores [] (map (with_status pending) steps) w w n (λ after. refl)
        (All-map_pending steps r) e

  -- the steps, freed of their statuses
  abbrev fresh : List (SagaStep W) → List (SagaStep W)
  fresh = map (with_status pending)

  fresh-rewind :
      (before xs ys : List (SagaStep W))
      → fresh xs ≡ fresh ys
      → fresh (rewind before xs) ≡ fresh (rewind before ys)
  fresh-rewind [] xs ys h = h
  fresh-rewind (s ∷ before) xs ys h =
      fresh-rewind before (s ∷ xs) (s ∷ ys) (ap (λ l. with_status pending s ∷ l) h)

  fresh-compensate_step :
      (s : SagaStep W) (w : W) → with_status pending (compensate_step s w).0 ≡ with_status pending s
  unfolding compensate_step
  fresh-compensate_step s w = elim (Bool-cases (needs_compensation s.status)) [
    | inl e ↦ rw e
    | inr e ↦ rw e
  ]

  fresh-compensate :
      (before after : List (SagaStep W)) (w : W)
      → fresh (compensate before after w).0 ≡ fresh (rewind before after)
  unfolding compensate
  fresh-compensate [] after w = refl
  fresh-compensate (s ∷ before) after w =
      let (s', w') = compensate_step s w in
      fresh-compensate before (s' ∷ after) w'
      ∙ fresh-rewind before (s' ∷ after) (s ∷ after)
          (ap (λ x. x ∷ fresh after) (fresh-compensate_step s w))

  fresh-run_from :
      (before rest : List (SagaStep W)) (w : W)
      → fresh (run_from before rest w).0 ≡ fresh (rewind before rest)
  unfolding run_from
  fresh-run_from before [] w = refl
  fresh-run_from before (s ∷ rest) w = elim (Bool-cases (s.execute w).0) [
    | inl e ↦ rw e (
        fresh-run_from (with_status completed s ∷ before) rest (s.execute w).1
        ∙ fresh-rewind before (with_status completed s ∷ rest) (s ∷ rest) refl)
    | inr e ↦ rw e (
        fresh-compensate (with_status failed s ∷ before) rest (s.execute w).1
        ∙ fresh-rewind before (with_status failed s ∷ rest) (s ∷ rest) refl)
  ]

  fresh-fresh : (steps : List (SagaStep W)) → fresh (fresh steps) ≡ fresh steps
  fresh-fresh [] = refl
  fresh-fresh (s ∷ steps) = ap (λ l. with_status pending s ∷ l) (fresh-fresh steps)

  -- Executing a saga again, after a run that succeeded or failed, does what a first execution of it
  -- would do in that world: no status of the first run is carried over.
  pub execute-again :
      (steps : List (SagaStep W)) (w v : W) → execute (execute steps w).0 v ≡ execute steps v
  unfolding execute
  execute-again steps w v =
      ap (λ l. run_from [] l v) (fresh-run_from [] (fresh steps) w ∙ fresh-fresh steps)
