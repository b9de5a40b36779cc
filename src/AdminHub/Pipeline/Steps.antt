-- ===== src/AdminHub/Pipeline/Steps.antt =====
-- The states of the steps: which one is current, and what the others are.
use fk_cesis_mms.Base.{
  ℕ, ◌≡◌, ◌≤◌, refl, Bool, true, false, none, List, [], ◌∷◌, length, count_if, arith,
}
use fk_cesis_mms.AdminHub.Pipeline.{
  PipelineObjects, StepKey, step_defs, steps_from, build_pipeline, is_current_state,
  is_available_state, current_step,
}

-- After a claim no step is current.
claimed_none :
    (o : PipelineObjects) (defs : List (ℕ × StepKey))
    → count_if is_current_state (steps_from o true defs) ≡ 0
unfolding steps_from
claimed_none o [] = refl
claimed_none o ((n, k) ∷ defs) = ground (arith, claimed_none o defs)

steps_one :
    (o : PipelineObjects) (defs : List (ℕ × StepKey))
    → let steps = steps_from o false defs in
      (count_if is_current_state steps ≤ 1)
      × (current_step steps ≡ none → count_if is_available_state steps ≡ 0)
unfolding steps_from current_step
steps_one o [] = (omega arith, λ _. refl)
steps_one o ((n, k) ∷ defs) = ground (arith, claimed_none o defs, steps_one o defs)

steps_length :
    (o : PipelineObjects) (claimed : Bool) (defs : List (ℕ × StepKey))
    → length (steps_from o claimed defs) ≡ length defs
unfolding steps_from
steps_length o claimed [] = refl
steps_length o claimed ((n, k) ∷ defs) =
    ground (arith, steps_length o claimed defs, steps_length o true defs)

-- A pipeline has seven steps, and at most one of them is current; without a current step no step is
-- available.
pub one_current :
    (o : PipelineObjects)
    → let steps = build_pipeline o in
      (length steps ≡ 7)
      × (count_if is_current_state steps ≤ 1)
      × (current_step steps ≡ none → count_if is_available_state steps ≡ 0)
unfolding build_pipeline
one_current o =
    let (one, none_open) = steps_one o step_defs in (steps_length o false step_defs, one, none_open)
