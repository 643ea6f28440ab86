-- ===== src/Tests/Cancelling.antt =====
-- A cancelled Run whose TaskRun is not done.
use tekton_task_group.Base.{true, ◌≡◌, refl, [], ◌∷◌, none, some, ok}
use tekton_task_group.Base.GoMap.{insert, lookup}
use tekton_task_group.Upstream.Run.{TaskRun, Run}
use tekton_task_group.Api.Validation.{validate_spec}
use tekton_task_group.Reconciler.Labels.{has_entry, get_task_run_labels, propagate}
use tekton_task_group.Reconciler.Pass.{Pass, cancel_task_run}
use tekton_task_group.Reconciler.Create.{get_task_group}
use tekton_task_group.Reconciler.Kind.{reconcile}
use tekton_task_group.Reconciler.Kind.Outcome.{condition, stored, Found, Valid}
use tekton_task_group.Reconciler.Kind.Unfinished.{running, reconcile_undone}
use tekton_task_group.Reconciler.Observe.{record_task_run}
use tekton_task_group.Reconciler.Observe.Laws.{Listed}
use tekton_task_group.Tests.Resolution.{two_steps}
use tekton_task_group.Tests.World.{runs, env, run_api-IsLawful}
use tekton_task_group.Tests.Sample.{sample}
use tekton_task_group.Tests.Running.{meta_of, to_group, run_of, pass_on_group, done_task_run}

abbrev undone_task_run : TaskRun sample runs
undone_task_run = record (done_task_run 7 true) { status = none }

abbrev cancelled_run : Run runs
cancelled_run =
    let run = run_of (to_group "group") in
    record run { spec = record run.spec { status = "RunCancelled" } }

abbrev cancelled : Pass env
cancelled = record (pass_on_group "group" true (undone_task_run ∷ [])) { run = cancelled_run }

Found-cancelled : Found env cancelled (meta_of "group") two_steps
unfolding get_task_group
Found-cancelled = refl

Valid-cancelled : Valid env two_steps
unfolding validate_spec
Valid-cancelled = refl

listed_cancelled :
    Listed env (stored env cancelled (meta_of "group") two_steps) (ok (undone_task_run ∷ []))
unfolding get_task_run_labels propagate has_entry insert lookup
listed_cancelled = refl

reconcile_undone_example :
    ((reconcile env cancelled).0 ≡ none)
    × (condition env (reconcile env cancelled).1 ≡ some (running env "run"))
    × ((reconcile env cancelled).1.calls ≡ cancel_task_run "run-abcde" ∷ [])
    × ((reconcile env cancelled).1.status.task_run ≡ some none)
unfolding propagate record_task_run
reconcile_undone_example =
    reconcile_undone env run_api-IsLawful cancelled (meta_of "group") two_steps undone_task_run
      Found-cancelled Valid-cancelled listed_cancelled refl
