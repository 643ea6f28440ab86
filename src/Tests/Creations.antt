-- ===== src/Tests/Creations.antt =====
-- The TaskRuns that `reconcile` asks a small API server for, and those that it does not.
use tekton_task_group.Base.{
  ◌<>◌, ◌≡◌, refl, true, false, [], ◌∷◌, ◌++◌, none, some, plain, permanent, ok, err, inr,
}
use tekton_task_group.Base.GoMap.{insert, has}
use tekton_task_group.Upstream.{TaskSpec, TaskRef}
use tekton_task_group.Upstream.Run.{TaskRun, is_unknown}
use tekton_task_group.Api.{TaskGroupSpec, reason_running}
use tekton_task_group.Api.Validation.{validate_spec}
use tekton_task_group.Resolve.Task.{task_spec, UsedTasks}
use tekton_task_group.Reconciler.Labels.{has_entry, get_task_run_labels, propagate}
use tekton_task_group.Reconciler.Pass.{Pass, create_task_run}
use tekton_task_group.Reconciler.Create.{set_at, fetch_task, get_task_group, fetch_uses_task_spec}
use tekton_task_group.Reconciler.Kind.{reconcile}
use tekton_task_group.Reconciler.Create.Fetched.{fetch_uses_task_spec_at}
use tekton_task_group.Reconciler.Kind.Counting.{creations}
use tekton_task_group.Reconciler.Kind.Single.{HasTaskRun, reconcile-creations_single}
use tekton_task_group.Reconciler.Kind.Outcome.{condition}
use tekton_task_group.Reconciler.Kind.Creation.{Unstarted, marked, wanted, reconcile_creates}
use tekton_task_group.Tests.Sample.{sample, apply_replacements, merge_steps}
use tekton_task_group.Tests.Resolve.{foo, using, step, param, task}
use tekton_task_group.Tests.Resolution.{two_steps, bar_to_foo}
use tekton_task_group.Tests.World.{World, foo_task, runs, env, run_api-IsLawful}
use tekton_task_group.Tests.Running.{meta_of, pass_on_group, done_task_run}

abbrev pub fresh : Pass env
fresh = pass_on_group "group" true []

abbrev closed : Pass env
closed = pass_on_group "group" false []

abbrev missing : Pass env
missing = pass_on_group "missing" true []

abbrev gone_steps : TaskGroupSpec sample
gone_steps = record two_steps { steps = using "gone" [] [] ∷ [] }

pub unstarted_fresh : Unstarted env fresh (meta_of "group") two_steps
unfolding get_task_group validate_spec get_task_run_labels propagate has_entry insert
unstarted_fresh = record { found = refl; valid = refl; listed = refl; no_task_run = refl }

unstarted_closed : Unstarted env closed (meta_of "group") two_steps
unfolding get_task_group validate_spec get_task_run_labels propagate has_entry insert
unstarted_closed = record { found = refl; valid = refl; listed = refl; no_task_run = refl }

unstarted_missing : Unstarted env missing (meta_of "missing") gone_steps
unfolding get_task_group validate_spec get_task_run_labels propagate has_entry insert
unstarted_missing = record { found = refl; valid = refl; listed = refl; no_task_run = refl }

-- The task that the server has, at the position of the step that uses it.
abbrev pub fetched : UsedTasks sample
fetched = set_at 1 foo_task (λ _. none)

pub fetches :
    (w : World)
    → fetch_uses_task_spec env w (marked env fresh (meta_of "group") two_steps).run two_steps
      ≡ ok fetched
unfolding fetch_uses_task_spec
fetches w = refl

abbrev foo_ref : TaskRef sample
foo_ref = record { name = "foo"; kind = ""; api_version = ""; bundle = ""; resolver = tt }

fetches_run : (w : World) → fetch_uses_task_spec env w fresh.run two_steps ≡ ok fetched
unfolding fetch_uses_task_spec
fetches_run w = refl

abbrev pub one_task : TaskSpec sample
one_task =
    task (param "paramFoo" "string" ∷ []) []
      (foo ∷ step "foo-baz" "bash:latest" ("$(params.paramFoo)" ∷ []) ∷ [])

pub resolves_fetched : task_spec env.steps two_steps fetched ≡ (one_task, none)
unfolding task_spec apply_replacements merge_steps has insert set_at
resolves_fetched = refl

abbrev pub wanted_task_run : TaskRun sample runs
wanted_task_run = wanted env fresh (meta_of "group") two_steps one_task

reconcile_creates_example :
    ((reconcile env fresh).0 ≡ none)
    × (condition env (reconcile env fresh).1
        ≡ some (record {
          status = is_unknown;
          reason = reason_running;
          message = "run" <> " running";
        }))
    × ((reconcile env fresh).1.calls ≡ [] ++ create_task_run wanted_task_run ∷ [])
    × ((reconcile env fresh).1.status.task_run ≡ some none)
reconcile_creates_example =
    reconcile_creates env fresh (meta_of "group") two_steps run_api-IsLawful fetched one_task
      wanted_task_run unstarted_fresh (fetches fresh.world) resolves_fetched refl

gone :
    fetch_uses_task_spec env missing.world
      (marked env missing (meta_of "missing") gone_steps).run
      gone_steps
    ≡ err (permanent (plain "gone not found"))
unfolding fetch_uses_task_spec
gone = refl

fetch_uses_task_spec_at_example :
    (t : TaskSpec sample) × (fetched 1 ≡ some t)
    × (fetch_task env fresh.world fresh.run (foo_ref) ≡ ok t)
fetch_uses_task_spec_at_example =
    fetch_uses_task_spec_at env fresh.world fresh.run two_steps fetched 1
      (using "foo" (bar_to_foo ∷ []) [])
      (record { task_ref = foo_ref; param_bindings = bar_to_foo ∷ []; workspace_bindings = [] })
      (fetches_run fresh.world) refl refl

-- A TaskRun is listed that is not done.
abbrev listed : Pass env
listed = pass_on_group "group" true (record (done_task_run 7 true) { status = none } ∷ [])

has_task_run : HasTaskRun env listed
unfolding get_task_run_labels has_entry insert
has_task_run = inr (record (done_task_run 7 true) { status = none }, [], refl)

reconcile-creations_single_example :
    creations (reconcile env listed).1.calls ≡ creations listed.calls
reconcile-creations_single_example = reconcile-creations_single env listed has_task_run
