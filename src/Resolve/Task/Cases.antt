-- ===== src/Resolve/Task/Cases.antt =====
-- `TaskSpec` in the cases of its tests: no step uses a task, a used task was not fetched, and the
-- steps that a used task becomes.
use tekton_task_group.Base.{
  ℕ, suc, ◌+◌, String, ◌<>◌, ◌≡◌, refl, ap, ◌∙◌, List, [], ◌∷◌, ◌++◌, map, append-nil, Option, none,
  some, All, length, plain, ok, err, >>=-eq-ok, arith,
}
use tekton_task_group.Upstream
use tekton_task_group.Upstream.{Types, TaskSpec, StepApi, IsLawful}
use tekton_task_group.Api.{Step, Uses, TaskGroupSpec, to_upstream}
use tekton_task_group.Resolve.Replace.{
  param_replacements, workspace_replacements, replace_params, replace_workspaces, resolve_each,
}
use tekton_task_group.Resolve.Task.{
  UsedTasks, bind_params, bind_workspaces, step_name, used_steps, task_spec, started,
}
use tekton_task_group.Resolve.Task.Expansion.{uses_of, expansion, expand}
use tekton_task_group.Resolve.Task.Laws.{task_spec_ok, task_spec_err}

module _ {T : Types} (P : StepApi T) where
  -- A step of the used task with the references to its bound parameters and workspaces rewritten,
  -- and named after the step that uses the task.
  abbrev pub used_step : ℕ → String → Uses T → Upstream.Step T → Upstream.Step T
  used_step i name uses s =
      let params = param_replacements (bind_params uses.param_bindings []) [] in
      let workspaces = workspace_replacements (bind_workspaces uses.workspace_bindings []) [] in
      let s' = P.apply_step_replacements (P.apply_step_replacements s params []) workspaces [] in
      record s' { name = step_name name i <> ("-" <> s'.name) }

  resolve_each_lem :
      (i : ℕ) (name : String) (uses : Uses T) (steps : List (Upstream.Step T))
      → resolve_each
          (step_name name i)
          (replace_params P (bind_params uses.param_bindings [])
            ∷ replace_workspaces P (bind_workspaces uses.workspace_bindings [])
            ∷ [])
          steps
        ≡ ok (map (used_step i name uses) steps)
  unfolding resolve_each replace_params replace_workspaces
  resolve_each_lem i name uses [] = refl
  resolve_each_lem i name uses (s ∷ steps) = rw (resolve_each_lem i name uses steps)

  -- The steps of a used task are resolved one by one, in order, and there is no error.
  pub used_steps_lem :
      (i : ℕ) (name : String) (uses : Uses T) (used : TaskSpec T)
      → used_steps P i name uses used ≡ ok (map (used_step i name uses) used.steps)
  unfolding used_steps
  used_steps_lem i name uses used = resolve_each_lem i name uses used.steps

  -- The error of a step whose task was not fetched, behind steps that have an expansion.
  expand_unfetched :
      (template : Option T.Container) (used : UsedTasks T) (before : List (Step T)) (i j : ℕ)
      (s : Step T) (uses : Uses T) (after : List (Step T)) {xs : List (Upstream.Step T)}
      → expand P template used i before ≡ ok xs
      → j ≡ i + length before
      → s.uses ≡ some uses
      → used j ≡ none
      → expand P template used i (before ++ s ∷ after)
        ≡ err (plain ("step " <> (s.step.name <> " uses not found")))
  unfolding expand
  expand_unfetched template used [] i j s uses after h at has gone =
      let e : used i ≡ none = ap used (omega arith) ∙ gone in rw (has, e)
  expand_unfetched template used (b ∷ before) i j s uses after h at has gone =
      let (ys, e, k) = >>=-eq-ok (expansion P template i b b.uses (used i)) _ h in
      let (zs, f, l) = >>=-eq-ok (expand P template used (suc i) before) _ k in
      rw (e, expand_unfetched template used before (suc i) j s uses after f (omega arith) has gone)

  -- Where a step uses a task that is not among the fetched ones, and the steps before it have an
  -- expansion, the resolution returns the error that names the step.
  pub task_spec_unfetched :
      (spec : TaskGroupSpec T) (used : UsedTasks T) (before : List (Step T)) (s : Step T)
      (uses : Uses T) (after : List (Step T)) (xs : List (Upstream.Step T))
      → spec.steps ≡ before ++ s ∷ after
      → expand P spec.step_template used 0 before ≡ ok xs
      → s.uses ≡ some uses
      → used (length before) ≡ none
      → (task_spec P spec used).1 ≡ some (plain ("step " <> (s.step.name <> " uses not found")))
  task_spec_unfetched spec used before s uses after xs steps h has gone =
      task_spec_err P spec used _ (
        rw steps (
          expand_unfetched spec.step_template used before 0 (length before) s uses after h
            (omega arith) has gone))

module _ {T : Types} (P : StepApi T) (lawful : IsLawful P) where
  expand_own :
      (used : UsedTasks T) (i : ℕ) (steps : List (Step T))
      → All (λ s. s.uses ≡ none) steps
      → expand P none used i steps ≡ ok (map to_upstream steps)
  unfolding expand to_upstream
  expand_own used i [] h = refl
  expand_own used i (s ∷ steps) h =
      rw (h.0, lawful.merge_no_template (s.step ∷ []), expand_own used (suc i) steps h.1)

  uses_of_own :
      (used : UsedTasks T) (i : ℕ) (steps : List (Step T))
      → All (λ s. s.uses ≡ none) steps
      → uses_of used i steps ≡ []
  unfolding uses_of
  uses_of_own used i [] h = refl
  uses_of_own used i (s ∷ steps) h = rw (h.0, uses_of_own used (suc i) steps h.1)

  -- A task group whose steps use no task, and that has no step template, becomes the task with
  -- its own steps and declarations, whatever was fetched, given that merging no template changes
  -- no step.
  pub task_spec_own :
      (spec : TaskGroupSpec T) (used : UsedTasks T)
      → spec.step_template ≡ none
      → All (λ s. s.uses ≡ none) spec.steps
      → task_spec P spec used ≡ (started spec (map to_upstream spec.steps), none)
  task_spec_own spec used template own =
      task_spec_ok P spec used (map to_upstream spec.steps)
        (rw template (expand_own used 0 spec.steps own))
        (rw (uses_of_own used 0 spec.steps own)
          (record { types = tt; mounts = tt; sidecars = tt; volumes = tt }))
      ∙ rw (uses_of_own used 0 spec.steps own) (simp append-nil)
