-- ===== src/Api/Validation.antt =====
-- pkg/apis/taskgroup/v1alpha1/taskgroup_validation.go: what is checked before a TaskGroup is run.
pub mod Laws
use tekton_task_group.Base.{
  ℕ, zero, suc, String, ◌==◌, List, [], ◌∷◌, map, Option, none, some, if◌then◌else◌,
}
use tekton_task_group.Upstream
use tekton_task_group.Upstream.{Types, ParamSpec, TaskResult, Volume, ObjectMeta}
use tekton_task_group.Upstream.FieldError.{FieldErrors}
use tekton_task_group.Api.{Step, Uses, TaskGroupSpec, TaskGroup, to_upstream}

-- The validators of v1beta1 and of pkg/apis/validate that are called. The resources that
-- `ValidateResourcesVariables` is given are always nil.
pub record Validators (T : Types) (F : FieldErrors) : Type 0 where
  pub object_metadata : ObjectMeta → F.FieldError
  pub validate_volumes : List (Volume T) → F.FieldError
  pub validate_parameter_types : List (ParamSpec T) → F.FieldError
  pub validate_parameter_variables : List (Upstream.Step T) → List (ParamSpec T) → F.FieldError
  pub validate_resources_variables : List (Upstream.Step T) → F.FieldError
  pub validate_result : TaskResult → F.FieldError

unfoldable pub to_upstream_step : {T : Types} → List (Step T) → List (Upstream.Step T)
unfolding to_upstream
to_upstream_step [] = []
to_upstream_step (s ∷ steps) = to_upstream s ∷ to_upstream_step steps

module _ {T : Types} (F : FieldErrors) where
  -- `(*Uses).Validate`
  unfoldable pub validate_uses : Option (Uses T) → F.FieldError
  validate_uses none = F.nil
  validate_uses (some u) =
      if u.task_ref.name == "" then F.also F.nil (F.missing_field "taskref.name") else F.nil

  -- `Step.Validate`
  unfoldable pub validate_step : Step T → F.FieldError
  unfolding validate_uses
  validate_step s = F.also F.nil (F.via_field "uses" (validate_uses s.uses))

  -- The loop of `validateSteps`.
  unfoldable pub validate_steps_from : ℕ → List (Step T) → F.FieldError → F.FieldError
  unfolding validate_step
  validate_steps_from idx [] errs = errs
  validate_steps_from idx (s ∷ steps) errs =
      validate_steps_from (suc idx) steps (F.also errs (F.via_index idx (validate_step s)))

  unfoldable pub validate_steps : List (Step T) → F.FieldError
  unfolding validate_steps_from
  validate_steps steps = validate_steps_from 0 steps F.nil

module _ {T : Types} {F : FieldErrors} (V : Validators T F) where
  -- The loop of `validateResults`.
  unfoldable pub validate_results_from : ℕ → List TaskResult → F.FieldError → F.FieldError
  validate_results_from index [] errs = errs
  validate_results_from index (r ∷ results) errs =
      validate_results_from (suc index) results
        (F.also errs (F.via_index index (V.validate_result r)))

  unfoldable pub validate_results : List TaskResult → F.FieldError
  unfolding validate_results_from
  validate_results results = validate_results_from 0 results F.nil

  -- `if len(tgs.Steps) == 0`
  unfoldable pub check_steps : List (Step T) → F.FieldError → F.FieldError
  check_steps [] errs = F.also errs (F.missing_field "steps")
  check_steps (_ ∷ _) errs = errs

  -- `(*TaskGroupSpec).Validate`
  unfoldable pub validate_spec : TaskGroupSpec T → F.FieldError
  unfolding check_steps to_upstream_step validate_steps validate_results
  validate_spec tgs =
      let errs = check_steps tgs.steps F.nil in
      let steps = to_upstream_step tgs.steps in
      let errs = F.also errs (F.via_field "steps" (validate_steps F tgs.steps)) in
      let errs = F.also errs (F.via_field "volumes" (V.validate_volumes tgs.volumes)) in
      let errs = F.also errs (F.via_field "params" (V.validate_parameter_types tgs.params)) in
      let errs = F.also errs (V.validate_parameter_variables steps tgs.params) in
      let errs = F.also errs (V.validate_resources_variables steps) in
      F.also errs (F.via_field "results" (validate_results tgs.results))

  -- `(*TaskGroup).Validate`
  unfoldable pub validate : TaskGroup T → F.FieldError
  unfolding validate_spec
  validate tg =
      let err = V.object_metadata tg.meta in
      if F.is_nil err then validate_spec tg.spec else F.via_field "metadata" err
