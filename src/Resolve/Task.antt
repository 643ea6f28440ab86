-- ===== src/Resolve/Task.antt =====
-- pkg/resolve/taskgroup.go, the function `TaskSpec`: one task out of a task group and the tasks
-- that its steps use.
pub mod Unbound
pub mod Bindings
pub mod WorkspaceBindings
pub mod Expansion
pub mod Laws
pub mod Cases
pub mod Names
use tekton_task_group.Base.{
  ℕ, suc, String, ◌<>◌, ◌==◌, List, [], ◌∷◌, ◌++◌, Option, none, some, if◌then◌else◌, plain, Result,
  ok, err, ◌>>=◌, Returned, and_then, decimal,
}
use tekton_task_group.Base.GoMap.{GoMap, insert, has}
use tekton_task_group.Upstream.{
  Types, ParamSpec, WorkspaceDeclaration, TaskResult, Sidecar, Volume, TaskSpec, StepApi,
}
use tekton_task_group.Upstream
use tekton_task_group.Api.{Step, Uses, ParamBinding, WorkspaceBinding, TaskGroupSpec}
use tekton_task_group.Resolve.Merge.{
  TaskSpecTransformer, merge_params, merge_workspaces, merge_results, merge_sidecars, merge_volumes,
}
use tekton_task_group.Resolve.Replace.{replace_params, replace_workspaces, resolve_steps}

-- `map[int]v1beta1.TaskSpec`, by the step's position
abbrev pub UsedTasks : Types → Type 0
UsedTasks T = ℕ → Option (TaskSpec T)

-- The local slices of `TaskSpec`, and the steps resolved so far (`taskSpec.Steps`).
pub record Collected (T : Types) : Type 0 where
  pub steps : List (Upstream.Step T)
  pub params : List (ParamSpec T)
  pub workspaces : List WorkspaceDeclaration
  pub results : List TaskResult
  pub sidecars : List (Sidecar T)
  pub volumes : List (Volume T)

-- `paramBindings` and `workspaceBindings`: of two bindings of one name the later one counts.
unfoldable pub bind_params : List ParamBinding → GoMap String → GoMap String
bind_params [] m = m
bind_params (b ∷ bs) m = bind_params bs (insert b.name b.param m)

unfoldable pub bind_workspaces : List WorkspaceBinding → GoMap String → GoMap String
bind_workspaces [] m = m
bind_workspaces (b ∷ bs) m = bind_workspaces bs (insert b.name b.workspace m)

-- The loops that add what no binding names.
unfoldable pub add_unbound : {A : Type 0} → (A → String) → GoMap String → List A → List A → List A
add_unbound name bindings [] out = out
add_unbound name bindings (x ∷ xs) out =
    add_unbound name bindings xs (if has (name x) bindings then out else out ++ x ∷ [])

unfoldable pub step_name : String → ℕ → String
step_name name i = if name == "" then "unamed-" <> decimal i else name

module _ {T : Types} where
  unfoldable pub collect_params :
      List ParamBinding → TaskSpec T → List (ParamSpec T) → List (ParamSpec T)
  unfolding add_unbound bind_params
  collect_params [] used out = out ++ used.params
  collect_params (b ∷ bs) used out =
      add_unbound (λ p. p.name) (bind_params (b ∷ bs) []) used.params out

  unfoldable pub collect_workspaces :
      List WorkspaceBinding → TaskSpec T → List WorkspaceDeclaration → List WorkspaceDeclaration
  unfolding add_unbound bind_workspaces
  collect_workspaces [] used out = out ++ used.workspaces
  collect_workspaces (b ∷ bs) used out =
      add_unbound (λ w. w.name) (bind_workspaces (b ∷ bs) []) used.workspaces out

  -- What a used task adds to the slices, its steps apart.
  unfoldable pub collect_used : Uses T → TaskSpec T → Collected T → Collected T
  unfolding collect_params collect_workspaces
  collect_used uses used c = record c {
    params = collect_params uses.param_bindings used c.params;
    workspaces = collect_workspaces uses.workspace_bindings used c.workspaces;
    results = c.results ++ used.results;
    sidecars = c.sidecars ++ used.sidecars;
    volumes = c.volumes ++ used.volumes;
  }

module _ {T : Types} (P : StepApi T) where
  -- The end of the loop's body: merge the step template, and append the steps.
  unfoldable pub append_steps :
      Option T.Container → Result (List (Upstream.Step T)) → Collected T → Returned (Collected T)
  append_steps template resolved c = elim (resolved >>= P.merge_steps_with_step_template template) [
    | ok steps ↦ (record c { steps = c.steps ++ steps }, none)
    | err e ↦ (c, some e)
  ]

  -- The steps of a used task, with its bindings applied.
  unfoldable pub used_steps : ℕ → String → Uses T → TaskSpec T → Result (List (Upstream.Step T))
  unfolding resolve_steps replace_params replace_workspaces bind_params bind_workspaces step_name
  used_steps i name uses used = resolve_steps (step_name name i) used (
      replace_params P (bind_params uses.param_bindings [])
      ∷ replace_workspaces P (bind_workspaces uses.workspace_bindings [])
      ∷ [])

  -- The branch of a step that uses a task, which was fetched or not.
  unfoldable pub collect_uses :
      ℕ → String → Uses T → Option (TaskSpec T) → Collected T → Returned (Collected T)
  unfolding collect_used used_steps append_steps
  collect_uses i name uses none c = (c, some (plain ("step " <> (name <> " uses not found"))))
  collect_uses i name uses (some used) c =
      append_steps used.step_template (used_steps i name uses used) (collect_used uses used c)

  -- The two branches of the loop's body, by the step's `Uses`.
  unfoldable pub collect_by :
      Option T.Container
      → ℕ
      → Step T
      → Option (Uses T)
      → Option (TaskSpec T)
      → Collected T
      → Returned (Collected T)
  unfolding collect_uses append_steps
  collect_by template i s none _ c = append_steps template (ok (s.step ∷ [])) c
  collect_by template i s (some uses) task c = collect_uses i s.step.name uses task c

  -- The loop's body.
  unfoldable pub collect_step :
      Option T.Container → UsedTasks T → ℕ → Step T → Collected T → Returned (Collected T)
  unfolding collect_by
  collect_step template used i s c = collect_by template i s s.uses (used i) c

  -- The loop over the steps of the task group, from position `i` on.
  unfoldable pub collect :
      Option T.Container → UsedTasks T → ℕ → List (Step T) → Collected T → Returned (Collected T)
  unfolding collect_step
  collect template used i [] c = (c, none)
  collect template used i (s ∷ steps) c =
      and_then (collect_step template used i s c) (collect template used (suc i) steps)

-- The loop over the transformers: the first error ends it.
unfoldable pub run_transformers :
    {T : Types} → List (TaskSpecTransformer T) → TaskSpec T → Returned (TaskSpec T)
run_transformers [] spec = (spec, none)
run_transformers (t ∷ ts) spec = and_then (t spec) (run_transformers ts)

module _ {T : Types} where
  abbrev pub nothing_collected : Collected T
  nothing_collected = record {
    steps = [];
    params = [];
    workspaces = [];
    results = [];
    sidecars = [];
    volumes = [];
  }

  -- The task that `TaskSpec` starts from, with the steps that the loop appended to it.
  abbrev pub started : TaskGroupSpec T → List (Upstream.Step T) → TaskSpec T
  started spec steps = record {
    params = spec.params;
    description = spec.description;
    steps = steps;
    volumes = spec.volumes;
    step_template = none;
    sidecars = spec.sidecars;
    workspaces = spec.workspaces;
    results = spec.results;
  }

  unfoldable pub transformers : Collected T → List (TaskSpecTransformer T)
  transformers c =
      merge_params c.params
      ∷ merge_workspaces c.workspaces
      ∷ merge_results c.results
      ∷ merge_sidecars c.sidecars
      ∷ merge_volumes c.volumes
      ∷ []

  -- What follows the loop over the steps.
  unfoldable pub finish : TaskGroupSpec T → Returned (Collected T) → Returned (TaskSpec T)
  unfolding run_transformers transformers
  finish spec (c, none) = run_transformers (transformers c) (started spec c.steps)
  finish spec (c, some e) = (started spec c.steps, some e)

module _ {T : Types} (P : StepApi T) where
  unfoldable pub task_spec : TaskGroupSpec T → UsedTasks T → Returned (TaskSpec T)
  unfolding collect finish merge_params merge_workspaces merge_results merge_sidecars merge_volumes
  task_spec spec used =
      finish spec (collect P spec.step_template used 0 spec.steps nothing_collected)
