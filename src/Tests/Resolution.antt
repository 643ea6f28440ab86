-- ===== src/Tests/Resolution.antt =====
-- What `TaskSpec` and its parts return, at concrete task groups.
use mathlib.Core.Option
use tekton_task_group.Base.{
  ◌<>◌, ◌≡◌, refl, ap, not, List, [], ◌∷◌, ◌++◌, none, some, plain, keep, ok, err, decimal,
}
use tekton_task_group.Base.GoMap.{lookup, insert}
use tekton_task_group.Base.Named.{find_last, declares}
use tekton_task_group.Upstream
use tekton_task_group.Upstream.{TaskSpec}
use tekton_task_group.Api.{TaskGroupSpec, Uses, ParamBinding, WorkspaceBinding}
use tekton_task_group.Resolve.Replace.{param_replacements, workspace_replacements}
use tekton_task_group.Resolve.Replace.Keys.{quoted, claim, param_key, workspace_key}
use tekton_task_group.Resolve.Replace.Reference.{reference}
use tekton_task_group.Resolve.Task.{
  task_spec, bind_params, bind_workspaces, collect_params, used_steps,
}
use tekton_task_group.Resolve.Task.Bindings.{
  binding_name, replacements-bind_params, collect_params_lem,
}
use tekton_task_group.Resolve.Task.WorkspaceBindings.{
  workspace_binding_name, replacements-bind_workspaces,
}
use tekton_task_group.Resolve.Task.Expansion.{expand, uses_of}
use tekton_task_group.Resolve.Task.Laws.{
  Compatible, resolved, task_spec_ok, task_spec_err, task_spec-needs,
}
use tekton_task_group.Resolve.Merge.Laws.{SameType}
use tekton_task_group.Tests.Sample.{sample, sample_api, apply_replacements, merge_steps}
use tekton_task_group.Tests.Resolve.{own, using, step, param, group, task, at_one, foo}

abbrev pub bar_to_foo : ParamBinding
bar_to_foo = record { name = "paramBar"; param = "paramFoo" }

abbrev source_to_ws : WorkspaceBinding
source_to_ws = record { name = "source"; workspace = "ws" }

-- A step of its own, and one that uses a task with a bound and a free parameter.
abbrev pub two_steps : TaskGroupSpec sample
two_steps =
    group (param "paramFoo" "string" ∷ []) [] (own foo ∷ using "foo" (bar_to_foo ∷ []) [] ∷ [])

abbrev pub used_task : TaskSpec sample
used_task =
    task (param "paramBar" "string" ∷ param "free" "string" ∷ []) []
      (step "baz" "bash:latest" ("$(params['paramBar'])" ∷ []) ∷ [])

abbrev pub two_expansions : List (Upstream.Step sample)
two_expansions = foo ∷ step "foo-baz" "bash:latest" ("$(params['paramFoo'])" ∷ []) ∷ []

expands : expand sample_api none (at_one used_task) 0 two_steps.steps ≡ ok two_expansions
unfolding expand used_steps apply_replacements merge_steps insert
expands = refl

free_type : SameType two_steps.params (param "free" "string")
unfolding find_last
free_type s h = cc

compatible : Compatible two_steps (uses_of (at_one used_task) 0 two_steps.steps)
unfolding uses_of declares
compatible = record { types = (free_type, tt); mounts = tt; sidecars = tt; volumes = tt }

task_spec_ok_example :
    task_spec sample_api two_steps (at_one used_task)
    ≡ (resolved two_steps (uses_of (at_one used_task) 0 two_steps.steps) two_expansions, none)
task_spec_ok_example =
    task_spec_ok sample_api two_steps (at_one used_task) two_expansions expands compatible

-- The declarations of the statement are the group's parameter and the free one.
resolved_case :
    resolved two_steps (uses_of (at_one used_task) 0 two_steps.steps) two_expansions
    ≡ task (param "paramFoo" "string" ∷ param "free" "string" ∷ []) [] two_expansions
unfolding uses_of declares
resolved_case = refl

resolves : (task_spec sample_api two_steps (at_one used_task)).1 ≡ none
resolves =
    ap (λ r. r.1)
      (task_spec_ok sample_api two_steps (at_one used_task) two_expansions expands compatible)

task_spec-needs_example :
    (xs : List (Upstream.Step sample)) × (expand sample_api none
        (at_one used_task)
        0
        two_steps.steps
      ≡ ok xs)
    × Compatible two_steps (uses_of (at_one used_task) 0 two_steps.steps)
task_spec-needs_example = task_spec-needs sample_api two_steps (at_one used_task) resolves

unfetched :
    expand sample_api none (λ _. none) 0 two_steps.steps
    ≡ err (plain ("step " <> ("foo" <> " uses not found")))
unfolding expand merge_steps
unfetched = refl

task_spec_err_example :
    (task_spec sample_api two_steps (λ _. none)).1
    ≡ some (plain ("step " <> ("foo" <> " uses not found")))
task_spec_err_example = task_spec_err sample_api two_steps (λ _. none) _ unfetched

abbrev foo_uses : Uses sample
foo_uses = record {
  task_ref = record { name = "foo"; kind = ""; api_version = ""; bundle = ""; resolver = tt };
  param_bindings = bar_to_foo ∷ [];
  workspace_bindings = source_to_ws ∷ [];
}

first_expands : expand sample_api none (λ _. none) 0 (own foo ∷ []) ≡ ok (foo ∷ [])
unfolding expand merge_steps
first_expands = refl

replacements-bind_params_example :
    lookup (param_key quoted "paramBar") (param_replacements (bind_params (bar_to_foo ∷ []) []) [])
    ≡ Option.map
        (λ b. reference (param_key quoted b.param))
        (find_last binding_name "paramBar" (bar_to_foo ∷ []))
replacements-bind_params_example = replacements-bind_params quoted "paramBar" (bar_to_foo ∷ [])

replacements-bind_workspaces_example :
    lookup
      (workspace_key claim "source")
      (workspace_replacements (bind_workspaces (source_to_ws ∷ []) []) [])
    ≡ Option.map
        (λ b. reference (workspace_key claim b.workspace))
        (find_last workspace_binding_name "source" (source_to_ws ∷ []))
replacements-bind_workspaces_example =
    replacements-bind_workspaces claim "source" (source_to_ws ∷ [])

collect_params_lem_example :
    collect_params (bar_to_foo ∷ []) used_task (param "x" "string" ∷ [])
    ≡ (param "x" "string" ∷ [])
      ++ keep (λ p. not (declares binding_name (bar_to_foo ∷ []) p.name)) used_task.params
collect_params_lem_example =
    collect_params_lem (bar_to_foo ∷ []) used_task (param "x" "string" ∷ [])

-- The name of a step that has none is its position.
used_steps_case :
    used_steps sample_api 1 "" foo_uses used_task
    ≡ ok (step "unamed-1-baz" "bash:latest" ("$(params['paramFoo'])" ∷ []) ∷ [])
unfolding used_steps apply_replacements insert decimal
used_steps_case = refl
