-- ===== src/Tests/Resolve.antt =====
-- The cases of pkg/resolve/taskgroup_test.go.
use tekton_task_group.Base.{zero, suc, String, ◌≡◌, refl, false, List, [], ◌∷◌, none, some}
use tekton_task_group.Upstream.{Step, TaskSpec, ParamSpec, WorkspaceDeclaration}
use tekton_task_group.Base.GoMap.{has, insert}
use tekton_task_group.Api
use tekton_task_group.Api.{TaskGroupSpec, Uses, ParamBinding, WorkspaceBinding}
use tekton_task_group.Resolve.Task.{task_spec, UsedTasks}
use tekton_task_group.Tests.Sample.{sample, sample_api, apply_replacements, merge_steps}

abbrev pub step : String → String → List String → Step sample
step name image script = record { name = name; body = record { image = image; script = script } }

abbrev pub own : Step sample → Api.Step sample
own s = record { step = s; uses = none }

abbrev pub using : String → List ParamBinding → List WorkspaceBinding → Api.Step sample
using name ps ws = record {
  step = step name "" [];
  uses = some (record {
    task_ref = record { name = name; kind = ""; api_version = ""; bundle = ""; resolver = tt };
    param_bindings = ps;
    workspace_bindings = ws;
  });
}

abbrev pub param : String → String → ParamSpec sample
param name type = record { name = name; param_type = type; description = ""; default = none }

abbrev pub workspace : String → WorkspaceDeclaration
workspace name = record {
  name = name;
  description = "";
  mount_path = "";
  read_only = false;
  optional = false;
}

abbrev pub group :
    List (ParamSpec sample)
    → List WorkspaceDeclaration
    → List (Api.Step sample)
    → TaskGroupSpec sample
group ps ws steps = record {
  params = ps;
  description = "";
  steps = steps;
  volumes = [];
  step_template = none;
  sidecars = [];
  workspaces = ws;
  results = [];
}

abbrev pub task :
    List (ParamSpec sample) → List WorkspaceDeclaration → List (Step sample) → TaskSpec sample
task ps ws steps = record {
  params = ps;
  description = "";
  steps = steps;
  volumes = [];
  step_template = none;
  sidecars = [];
  workspaces = ws;
  results = [];
}

abbrev pub at_one : TaskSpec sample → UsedTasks sample
at_one spec zero = none
at_one spec (suc zero) = some spec
at_one spec _ = none

abbrev pub foo : Step sample
foo = step "" "bash:latest" ("echo" ∷ "foo" ∷ [])

-- "uses steps and param bindings"
param_bindings_case :
    task_spec sample_api
      (group
        (param "paramFoo" "string" ∷ [])
        []
        (own foo ∷ using "foo" (record { name = "paramBar"; param = "paramFoo" } ∷ []) [] ∷ []))
      (at_one (
        task (param "paramBar" "string" ∷ []) [] (
          step "baz" "bash:latest"
            ("$(params.paramBar)" ∷ "$(params['paramBar'])" ∷ "$(params[\"paramBar\"])" ∷ [])
          ∷ [])))
    ≡ (
      task (param "paramFoo" "string" ∷ []) [] (
          foo
          ∷ step "foo-baz" "bash:latest"
              ("$(params.paramFoo)" ∷ "$(params['paramFoo'])" ∷ "$(params[\"paramFoo\"])" ∷ [])
          ∷ []),
      none,
    )
unfolding task_spec apply_replacements merge_steps has insert
param_bindings_case = refl
