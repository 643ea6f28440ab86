-- ===== src/Reconciler/Create.antt =====
-- pkg/reconciler/taskgroup/taskgroup.go, the functions `getTaskGroup`, `fetchUsesTaskSpec` and
-- `createTaskRun`: the task group of a Run, the tasks that it uses, and the TaskRun made of them.
pub mod Fetched
pub mod Requests
use tekton_task_group.Base.{
  ℕ, suc, String, ◌<>◌, ◌==◌, true, List, [], ◌∷◌, Option, none, some, if◌then◌else◌, same_number,
  Error, wrap, permanent, error_text, Result, ok, err, ◌>>=◌, Returned,
}
use tekton_task_group.Upstream.{Types, TaskSpec, TaskRef, ObjectMeta}
use tekton_task_group.Upstream.Run.{RunTypes, Run, RunRef, EmbeddedRunSpec, TaskRun}
use tekton_task_group.Api.{Step, TaskGroupSpec, reason_couldnt_get_task_group}
use tekton_task_group.Resolve.Task.{UsedTasks, task_spec}
use tekton_task_group.Reconciler.Labels.{get_task_run_labels, get_task_run_annotations}
use tekton_task_group.Reconciler.Env.{Env}
use tekton_task_group.Reconciler.Pass.{Action, create_task_run, called, mark_failed}

-- `fmt.Sprintf("%s/%s", meta.Namespace, meta.Name)`
abbrev pub full_name : ObjectMeta → String
full_name meta = meta.namespace <> ("/" <> meta.name)

-- `metav1.ObjectMeta{}` and `TaskGroupSpec{}`
abbrev pub no_meta : ObjectMeta
no_meta = record {
  name = "";
  namespace = "";
  creation_timestamp = 0;
  labels = none;
  annotations = none;
}

abbrev pub no_spec : {T : Types} → TaskGroupSpec T
no_spec = record {
  params = [];
  description = "";
  steps = [];
  volumes = [];
  step_template = none;
  sidecars = [];
  workspaces = [];
  results = [];
}

-- `taskSpecs[i] = *taskSpec`
unfoldable pub set_at : {T : Types} → ℕ → TaskSpec T → UsedTasks T → UsedTasks T
set_at i spec used j = if same_number i j then some spec else used j

module _ {T : Types} {R : RunTypes} (E : Env T R) where
  -- The task of a reference: what cannot succeed later is marked as permanent.
  unfoldable pub fetch_task : E.cluster.World → Run R → TaskRef T → Result (TaskSpec T)
  fetch_task w run ref =
      elim (E.cluster.get_task_func w ref run.meta.namespace run.spec.service_account_name) [
        | err e ↦ err (wrap ("failed to fetch task reference " <> ref.name) e)
        | ok getter ↦ elim (E.cluster.get_task_data w ref getter) [
          | ok spec ↦ ok spec
          | err e ↦ err (if E.cluster.is_get_task_err_transient e then e else permanent e)
        ]
      ]

  -- The loop of `fetchUsesTaskSpec`, from position `i` on.
  unfoldable pub fetch_from :
      E.cluster.World → Run R → ℕ → List (Step T) → UsedTasks T → Result (UsedTasks T)
  unfolding fetch_task set_at
  fetch_from w run i [] used = ok used
  fetch_from w run i (s ∷ steps) used = elim s.uses [
    | none ↦ fetch_from w run (suc i) steps used
    | some uses ↦ fetch_task w run uses.task_ref >>= λ spec.
        fetch_from w run (suc i) steps (set_at i spec used)
  ]

  unfoldable pub fetch_uses_task_spec :
      E.cluster.World → Run R → TaskGroupSpec T → Result (UsedTasks T)
  unfolding fetch_from
  fetch_uses_task_spec w run spec = fetch_from w run 0 spec.steps (λ _. none)

  -- The TaskRun that is asked for.
  abbrev pub new_task_run : Run R → String → TaskSpec T → TaskRun T R
  new_task_run run name spec = record {
    meta = record {
      name = name;
      namespace = run.meta.namespace;
      creation_timestamp = 0;
      labels = some (get_task_run_labels run true);
      annotations = some (get_task_run_annotations run);
    };
    owner_references = E.runs.new_controller_ref run ∷ [];
    spec = record {
      params = run.spec.params;
      service_account_name = run.spec.service_account_name;
      pod_template = run.spec.pod_template;
      workspaces = run.spec.workspaces;
      task_spec = some spec;
      status = "";
    };
    status = R.no_task_run_status;
  }

  -- Ask the API server for the TaskRun, under a new name.
  unfoldable pub request_task_run : TaskSpec T → Action E (TaskRun T R)
  request_task_run spec p =
      let (name, w) = E.cluster.random_name p.world p.run.meta.name in
      let task_run = new_task_run p.run name spec in
      let (r, w') = E.cluster.create_task_run w p.run.meta.namespace task_run in
      (r, called E (create_task_run task_run) w' p)

  unfoldable pub create_resolved : Returned (TaskSpec T) → Action E (TaskRun T R)
  unfolding request_task_run
  create_resolved (spec, none) p = request_task_run spec p
  create_resolved (spec, some e) p = (err e, p)

  unfoldable pub create_fetched : TaskGroupSpec T → Result (UsedTasks T) → Action E (TaskRun T R)
  unfolding create_resolved
  create_fetched spec (ok used) p = create_resolved (task_spec E.steps spec used) p
  create_fetched spec (err e) p = (err e, p)

  -- `createTaskRun`
  unfoldable pub create : TaskGroupSpec T → Action E (TaskRun T R)
  unfolding create_fetched fetch_uses_task_spec
  create spec p = create_fetched spec (fetch_uses_task_spec p.world p.run spec) p

  abbrev retrieval_text : Run R → String
  retrieval_text run = "Error retrieving TaskGroup for Run " <> full_name run.meta

  -- The two places where the task group could not be had.
  unfoldable pub could_not_get : Error → Action E (ObjectMeta × TaskGroupSpec T)
  could_not_get e p = (
    err (wrap (retrieval_text p.run) e),
    mark_failed E reason_couldnt_get_task_group (retrieval_text p.run <> (": " <> error_text e)) p,
  )

  unfoldable pub got :
      Result (ObjectMeta × TaskGroupSpec T) → Action E (ObjectMeta × TaskGroupSpec T)
  unfolding could_not_get
  got (ok found) p = (ok found, p)
  got (err e) p = could_not_get e p

  -- Where the reference has no name the embedded spec counts, and without one the empty spec.
  unfoldable pub get_embedded : Option (EmbeddedRunSpec R) → Action E (ObjectMeta × TaskGroupSpec T)
  unfolding got
  get_embedded none p = (ok (no_meta, no_spec), p)
  get_embedded (some embedded) p =
      got (E.unmarshal_spec embedded.raw >>= λ spec. ok (no_meta, spec)) p

  unfoldable pub get_referenced : Option RunRef → Action E (ObjectMeta × TaskGroupSpec T)
  unfolding got get_embedded
  get_referenced none p = get_embedded p.run.spec.spec p
  get_referenced (some ref) p =
      if ref.name == ""
      then get_embedded p.run.spec.spec p
      else got
          (E.cluster.get_task_group p.world p.run.meta.namespace ref.name >>= λ group.
            ok (group.meta, group.spec))
          p

  -- `getTaskGroup`
  unfoldable pub get_task_group : Action E (ObjectMeta × TaskGroupSpec T)
  unfolding get_referenced
  get_task_group p = get_referenced p.run.spec.ref p
