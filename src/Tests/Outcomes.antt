-- ===== src/Tests/Outcomes.antt =====
-- What `reconcile` does to the Runs of a small API server.
use tekton_task_group.Base.{◌≡◌, refl, true, [], ◌∷◌, none, some, plain, wrap, ok, if◌then◌else◌}
use tekton_task_group.Base.GoMap.{lookup, insert}
use tekton_task_group.Upstream.Run.{is_true, is_false}
use tekton_task_group.Api.{reason_succeeded, reason_failed}
use tekton_task_group.Api.Validation.{validate_spec}
use tekton_task_group.Reconciler.Labels.{has_entry, get_task_run_labels, propagate}
use tekton_task_group.Reconciler.Pass.{Pass}
use tekton_task_group.Reconciler.Create.{get_task_group}
use tekton_task_group.Reconciler.Kind.{reconcile}
use tekton_task_group.Reconciler.Kind.Outcome.{condition, stored, Found, Valid, reconcile_done}
use tekton_task_group.Reconciler.Kind.Counting.{asked}
use tekton_task_group.Reconciler.Kind.Retried.{reconcile_retried}
use tekton_task_group.Reconciler.Kind.Verdict.{Verdict}
use tekton_task_group.Reconciler.Kind.Verdict.Whole.{reconcile-Verdict}
use tekton_task_group.Reconciler.Observe.Laws.{Listed}
use tekton_task_group.Tests.Resolution.{two_steps}
use tekton_task_group.Tests.World.{env, run_api-IsLawful}
use tekton_task_group.Tests.Running.{meta_of, pass_on_group, done_task_run}

abbrev finished : Pass env
finished = pass_on_group "group" true (done_task_run 7 true ∷ [])

Valid-two_steps : Valid env two_steps
unfolding validate_spec
Valid-two_steps = refl

Found-finished : Found env finished (meta_of "group") two_steps
unfolding get_task_group
Found-finished = refl

listed_finished :
    Listed env (stored env finished (meta_of "group") two_steps) (ok (done_task_run 7 true ∷ []))
unfolding get_task_run_labels propagate has_entry insert lookup
listed_finished = refl

reconcile_done_example :
    ((reconcile env finished).0 ≡ none)
    × (condition env (reconcile env finished).1
        ≡ some (
            if true
            then record {
              status = is_true;
              reason = reason_succeeded;
              message = "TaskRun succeeded";
            }
            else record { status = is_false; reason = reason_failed; message = "TaskRun failed" }))
    × ((reconcile env finished).1.calls ≡ [])
    × ((reconcile env finished).1.status.task_run ≡ some (some true))
reconcile_done_example =
    reconcile_done env finished run_api-IsLawful (meta_of "group") two_steps (done_task_run 7 true)
      Found-finished Valid-two_steps listed_finished refl

abbrev unretrieved : Pass env
unretrieved = pass_on_group "nothing" true []

unretrieved_err :
    (reconcile env unretrieved).0
    ≡ some (wrap "Error retrieving TaskGroup for Run ns/run" (plain "nothing not found"))
unfolding reconcile get_task_group
unretrieved_err = refl

reconcile_retried_example : asked env (reconcile env unretrieved).1 ≡ asked env unretrieved
reconcile_retried_example =
    reconcile_retried env unretrieved
      (wrap "Error retrieving TaskGroup for Run ns/run" (plain "nothing not found")) unretrieved_err

reconcile-Verdict_example : Verdict env finished (reconcile env finished).1
reconcile-Verdict_example = reconcile-Verdict env finished
