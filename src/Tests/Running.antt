-- ===== src/Tests/Running.antt =====
-- Passes of the reconciler over a small API server.
use tekton_task_group.Base.{ℕ, String, Bool, List, [], ◌∷◌, none, some}
use tekton_task_group.Upstream.{ObjectMeta}
use tekton_task_group.Upstream.Run.{Run, RunRef, TaskRun}
use tekton_task_group.Api.{TaskGroup, scheme_group_version, task_group_controller_name}
use tekton_task_group.Reconciler.Pass.{Pass}
use tekton_task_group.Reconciler.Kind.{no_status}
use tekton_task_group.Tests.Sample.{sample}
use tekton_task_group.Tests.World.{runs, env}
use tekton_task_group.Tests.Resolution.{two_steps}
use tekton_task_group.Tests.Resolve.{using}

abbrev pub meta_of : String → ObjectMeta
meta_of name = record {
  name = name;
  namespace = "ns";
  creation_timestamp = 7;
  labels = none;
  annotations = some (("owner", name) ∷ []);
}

abbrev pub run_of : RunRef → Run runs
run_of ref = record {
  meta = meta_of "run";
  spec = record {
    ref = some ref;
    spec = none;
    params = "x" ∷ [];
    status = "";
    service_account_name = "builder";
    pod_template = none;
    workspaces = [];
  };
  status = record {
    conditions = none;
    start_time = some 8;
    completion_time = some 9;
    extra_fields = "";
  };
}

abbrev pub to_group : String → RunRef
to_group name = record {
  api_version = scheme_group_version;
  kind = task_group_controller_name;
  name = name;
}

abbrev pub groups : List (TaskGroup sample)
groups =
    record { meta = meta_of "group"; spec = two_steps }
    ∷ record { meta = meta_of "empty"; spec = record two_steps { steps = [] } }
    ∷ record {
      meta = meta_of "missing";
      spec = record two_steps { steps = using "gone" [] [] ∷ [] };
    }
    ∷ []

-- A pass on a Run of that task group, with those TaskRuns on a server that accepts new ones or not.
abbrev pub pass_on_group : String → Bool → List (TaskRun sample runs) → Pass env
pass_on_group name is_open task_runs = record {
  run = run_of (to_group name);
  status = no_status;
  world = record { groups = groups; task_runs = task_runs; run = none; is_open = is_open };
  calls = [];
}

-- A TaskRun of the Run that is done, with success or not, and that was created at that time.
abbrev pub done_task_run : ℕ → Bool → TaskRun sample runs
done_task_run created good = record {
  meta = record (meta_of "run-abcde") {
    creation_timestamp = created;
    labels = some (("tekton.dev/run", "run") ∷ []);
  };
  owner_references = "run" ∷ [];
  spec = record {
    params = [];
    service_account_name = "";
    pod_template = none;
    workspaces = [];
    task_spec = none;
    status = "";
  };
  status = some good;
}
