-- ===== src/Saga.antt =====
-- core/src/service/saga.service.ts: a saga runs its steps in order and compensates them in reverse.
-- The steps' bodies are not part of the service: they act on a world `W` and may throw.
pub mod Laws
mod Examples
use code_warzz.Prelude.{ℕ, Bool, true, false, List, [], ◌∷◌, ◌++◌, map, if◌then◌else◌}

pub data SagaStepStatus : Type 0 where
  pending completed failed compensated compensation_failed : SagaStepStatus

-- `true` is returned where the promise resolves, `false` where it rejects.
abbrev pub Action {ℓ} : Type ℓ → Type ℓ
Action W = W → Bool × W

pub record SagaStep {ℓ} (W : Type ℓ) : Type ℓ where
  pub name : ℕ
  pub execute : Action W
  pub compensate : Action W
  pub status : SagaStepStatus

-- The result of `execute`: it returns, or throws naming the step that failed.
pub data SagaResult : Type 0 where
  finished : SagaResult
  failed_at : ℕ → SagaResult

abbrev pub needs_compensation : SagaStepStatus → Bool
needs_compensation completed = true
needs_compensation compensation_failed = true
needs_compensation _ = false

-- the steps of a reversed prefix, in order, in front of `after`
abbrev pub rewind {ℓ} : {A : Type ℓ} → List A → List A → List A
rewind [] after = after
rewind (x ∷ before) after = rewind before (x ∷ after)

module _ {ℓ} {W : Type ℓ} where
  unfoldable pub add_step : ℕ → Action W → Action W → List (SagaStep W) → List (SagaStep W)
  add_step name execute compensate steps =
      steps
      ++ record { name = name; execute = execute; compensate = compensate; status = pending } ∷ []

  abbrev pub with_status : SagaStepStatus → SagaStep W → SagaStep W
  with_status s step = record step { status = s }

  unfoldable pub compensate_step : SagaStep W → W → SagaStep W × W
  compensate_step step w =
      if needs_compensation step.status
      then (let (ok, w') = step.compensate w in
          (with_status (if ok then compensated else compensation_failed) step, w'))
      else (step, w)

  -- `compensate(fromIndex)`: the steps from `fromIndex` down to 0, so the list is given reversed;
  -- the loop puts them back in order in front of `after`
  unfoldable pub compensate : List (SagaStep W) → List (SagaStep W) → W → List (SagaStep W) × W
  unfolding compensate_step
  compensate [] after w = (after, w)
  compensate (step ∷ before) after w =
      let (step', w') = compensate_step step w in compensate before (step' ∷ after) w'

  -- the loop of `execute` from an index on; `before` holds the steps below the index, reversed
  unfoldable pub run_from :
      List (SagaStep W) → List (SagaStep W) → W → List (SagaStep W) × W × SagaResult
  unfolding compensate
  run_from before [] w = (rewind before [], w, finished)
  run_from before (step ∷ rest) w =
      let (ok, w') = step.execute w in
      let go_on = run_from (with_status completed step ∷ before) rest w' in
      let (steps, w'') = compensate (with_status failed step ∷ before) rest w' in
      if ok then go_on else (steps, w'', failed_at step.name)

  -- `execute`: every step is set to PENDING first
  unfoldable pub execute : List (SagaStep W) → W → List (SagaStep W) × W × SagaResult
  unfolding run_from
  execute steps w = run_from [] (map (with_status pending) steps) w

  -- `getStatus`
  unfoldable pub get_status : List (SagaStep W) → List (ℕ × SagaStepStatus)
  get_status = map (λ s. (s.name, s.status))
