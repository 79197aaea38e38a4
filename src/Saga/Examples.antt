-- ===== src/Saga/Examples.antt =====
-- Concrete sagas: two reversible steps over a counter, the second of which throws above 9.
use code_warzz.Prelude.{ℕ, ◌+◌, ◌-◌, ◌≡◌, refl, true, false, List, [], ◌∷◌, arith}
use code_warzz.Saga.{SagaStep, pending, failed_at, execute, get_status, compensated, failed}
use code_warzz.Saga.Laws.{EndsAs, execute-EndsAs}

abbrev adding : ℕ → SagaStep ℕ
adding n = record {
  name = n;
  execute = λ w. (true, w + n);
  compensate = λ w. (true, w - n);
  status = pending;
}

abbrev refusing : SagaStep ℕ
refusing = record {
  name = 9;
  execute = λ w. (false, w);
  compensate = λ w. (true, w);
  status = pending;
}

abbrev two_steps : List (SagaStep ℕ)
two_steps = adding 5 ∷ refusing ∷ []

two_steps_run : (execute two_steps 1).2 ≡ failed_at 9
unfolding execute
two_steps_run = refl

two_steps_status : get_status (execute two_steps 1).0 ≡ (5, compensated) ∷ (9, failed) ∷ []
unfolding execute get_status
two_steps_status = refl

adding-undo : (w : ℕ) → (w + 5) - 5 ≡ w
adding-undo w = omega arith

execute-EndsAs_example : let r = execute two_steps 1 in EndsAs two_steps 1 r.0 r.1 r.2
execute-EndsAs_example = execute-EndsAs two_steps 1
