-- ===== src/Api/Validation/Laws.antt =====
-- When a TaskGroup passes its validation.
use tekton_task_group.Base.{
  ℕ, suc, ◌==◌, ◌≡◌, refl, ◌∙◌, Bool, true, false, not, ◌&&◌, List, [], ◌∷◌, Option, none, some,
  every, Bool-cases, inl, inr,
}
use tekton_task_group.Upstream.{Types, TaskResult}
use tekton_task_group.Upstream.FieldError.{
  FieldErrors, IsLawful, and-true, is_empty-also, IsSettled, IsSettled-nil, IsSettled-also,
}
use tekton_task_group.Api.{Step, Uses, TaskGroupSpec}
use tekton_task_group.Api.Validation.{
  Validators, to_upstream_step, validate_uses, validate_step, validate_steps_from,
  validate_results_from, check_steps, validate_spec,
}

and_assoc : (a b c : Bool) → ((a && b) && c) ≡ (a && (b && c))
and_assoc true b c = refl
and_assoc false b c = refl

module _ {T : Types} where
  -- A step that uses a task names it.
  abbrev pub names_task : Option (Uses T) → Bool
  names_task none = true
  names_task (some u) = not (u.task_ref.name == "")

  abbrev pub has_steps : List (Step T) → Bool
  has_steps [] = false
  has_steps (_ ∷ _) = true

module _ {T : Types} (F : FieldErrors) (L : IsLawful F) where
  is_empty-validate_uses : (u : Option (Uses T)) → F.is_empty (validate_uses F u) ≡ names_task u
  unfolding validate_uses
  is_empty-validate_uses none = L.nil_empty
  is_empty-validate_uses (some u) = elim (Bool-cases (u.task_ref.name == "")) [
    | inl h ↦ rw h (L.also_error F.nil _ (L.missing_field_error "taskref.name"))
    | inr h ↦ rw h L.nil_empty
  ]

  is_empty-validate_step : (s : Step T) → F.is_empty (validate_step F s) ≡ names_task s.uses
  unfolding validate_step
  is_empty-validate_step s =
      is_empty-also F L F.nil _ ∙ rw (L.nil_empty, L.via_field_empty, is_empty-validate_uses s.uses)

  is_empty-validate_steps_from :
      (idx : ℕ) (steps : List (Step T)) (errs : F.FieldError)
      → F.is_empty (validate_steps_from F idx steps errs)
        ≡ (F.is_empty errs && every (λ s. names_task s.uses) steps)
  unfolding validate_steps_from
  is_empty-validate_steps_from idx [] errs = and-true _
  is_empty-validate_steps_from idx (s ∷ steps) errs =
      is_empty-validate_steps_from (suc idx) steps _
      ∙ rw (is_empty-also F L errs _, L.via_index_empty, is_empty-validate_step s)
          (and_assoc (F.is_empty errs) _ _)

module _ {T : Types} {F : FieldErrors} (L : IsLawful F) (V : Validators T F) where
  is_empty-validate_results_from :
      (index : ℕ) (results : List TaskResult) (errs : F.FieldError)
      → F.is_empty (validate_results_from V index results errs)
        ≡ (F.is_empty errs && every (λ r. F.is_empty (V.validate_result r)) results)
  unfolding validate_results_from
  is_empty-validate_results_from index [] errs = and-true _
  is_empty-validate_results_from index (r ∷ results) errs =
      is_empty-validate_results_from (suc index) results _
      ∙ rw (is_empty-also F L errs _, L.via_index_empty)
          (and_assoc (F.is_empty errs) (F.is_empty (V.validate_result r)) _)

  is_empty-check_steps :
      (steps : List (Step T)) → F.is_empty (check_steps V steps F.nil) ≡ has_steps steps
  unfolding check_steps
  is_empty-check_steps [] = L.also_error F.nil _ (L.missing_field_error "steps")
  is_empty-check_steps (_ ∷ _) = L.nil_empty

  IsSettled-check_steps : (steps : List (Step T)) → IsSettled F L (check_steps V steps F.nil)
  unfolding check_steps
  IsSettled-check_steps [] = IsSettled-also F L F.nil _ (IsSettled-nil F L)
  IsSettled-check_steps (_ ∷ _) = IsSettled-nil F L

  IsSettled-validate_spec : (tgs : TaskGroupSpec T) → IsSettled F L (validate_spec V tgs)
  unfolding validate_spec
  IsSettled-validate_spec tgs = search (IsSettled-also, IsSettled-check_steps) depth 8

  -- Given the laws of field errors, the validation returns nil exactly if there is a step, every
  -- step that uses a task names it, and none of the library's validators finds an error in the
  -- volumes, the parameters, the variables of the steps or the results.
  pub is_nil-validate_spec :
      (tgs : TaskGroupSpec T)
      → F.is_nil (validate_spec V tgs) ≡ (
          has_steps tgs.steps
          && (every (λ s. names_task s.uses) tgs.steps
              && (F.is_empty (V.validate_volumes tgs.volumes)
                  && (F.is_empty (V.validate_parameter_types tgs.params)
                      && (F.is_empty
                            (V.validate_parameter_variables (to_upstream_step tgs.steps) tgs.params)
                          && (F.is_empty
                                (V.validate_resources_variables (to_upstream_step tgs.steps))
                              && every (λ r. F.is_empty (V.validate_result r)) tgs.results))))))
  unfolding validate_spec
  is_nil-validate_spec tgs =
      IsSettled-validate_spec tgs
      ∙ simp (
        is_empty-also F L,
        L.via_field_empty,
        is_empty-check_steps,
        is_empty-validate_steps_from F L,
        is_empty-validate_results_from,
        L.nil_empty,
        and_assoc,
      )
