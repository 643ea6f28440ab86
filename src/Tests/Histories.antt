-- ===== src/Tests/Histories.antt =====
-- The passes over one Run of a small API server: its TaskRun is asked for, runs, and is done.
use tekton_task_group.Base.{length, ◌≡◌, ◌≤◌, ◌+◌, refl, true, [], ◌∷◌, none, some}
use tekton_task_group.Base.GoMap.{insert, lookup, has}
use tekton_task_group.Upstream.Run.{is_true, is_unknown}
use tekton_task_group.Api.{reason_running}
use tekton_task_group.Api.Validation.{validate_spec}
use tekton_task_group.Resolve.Task.{task_spec}
use tekton_task_group.Reconciler.Labels.{has_entry, get_task_run_labels, propagate}
use tekton_task_group.Reconciler.Pass.{Pass}
use tekton_task_group.Reconciler.Create.{get_task_group, fetch_uses_task_spec, set_at}
use tekton_task_group.Reconciler.Kind.{start, decoded, is_foreign, reconcile_kind}
use tekton_task_group.Reconciler.Kind.Counting.{asked}
use tekton_task_group.Reconciler.Kind.Protocol.{Protocol}
use tekton_task_group.Reconciler.Kind.Protocol.Whole.{reconcile_kind-Protocol}
use tekton_task_group.Reconciler.History.{Continues, Resumes, Restarts, first, again}
use tekton_task_group.Reconciler.History.Turn.{IsRecorded}
use tekton_task_group.Reconciler.History.Tally.{History-creations}
use tekton_task_group.Reconciler.History.Recorded.{History-IsRecorded}
use tekton_task_group.Reconciler.History.Lifecycle.{phase, ongoing, success, Edge}
use tekton_task_group.Reconciler.History.Lifecycle.Follows.{reconcile_kind-Edge}
use tekton_task_group.Reconciler.History.Lifecycle.Past.{Succeeded, History-Succeeded}
use tekton_task_group.Reconciler.History.Lifecycle.Ends.{Creates, Concludes, IsOpen}
use tekton_task_group.Reconciler.History.Lifecycle.Life.{History-ends}
use tekton_task_group.Tests.Sample.{apply_replacements, merge_steps}
use tekton_task_group.Tests.World.{env, run_api-IsLawful}
use tekton_task_group.Tests.RunLaws.{run_api-IsStable, run_api-IsReadable, run_api-Encodes}
use tekton_task_group.Tests.Resolution.{two_steps}
use tekton_task_group.Tests.Running.{meta_of, done_task_run, pass_on_group}
use tekton_task_group.Tests.Creations.{
  fresh, unstarted_fresh, fetched, fetches, one_task, resolves_fetched, wanted_task_run,
}

fresh-IsOpen : IsOpen env fresh
unfolding is_foreign start
fresh-IsOpen = record { ours = refl; undone = refl }

fresh-Creates : Creates env fresh
unfolding start decoded
fresh-Creates = record {
  is_open = fresh-IsOpen;
  meta = meta_of "group";
  spec = two_steps;
  used = fetched;
  task = one_task;
  task_run = wanted_task_run;
  unstarted = unstarted_fresh;
  fetched = fetches fresh.world;
  resolved = resolves_fetched;
  taken = refl;
}

-- The Run as that pass leaves it, and the TaskRun of it that is done.
abbrev watched : Pass env
watched = record (pass_on_group "group" true (done_task_run 7 true ∷ [])) {
  run = record fresh.run {
    status = record fresh.run.status {
      conditions =
          some (record { status = is_unknown; reason = reason_running; message = "run running" });
      extra_fields = "recorded";
    };
  };
  calls = (reconcile_kind env fresh).1.calls;
}

fresh-watched : Continues env (reconcile_kind env fresh).1 watched
unfolding reconcile_kind get_task_group validate_spec get_task_run_labels propagate has_entry insert
    fetch_uses_task_spec task_spec apply_replacements merge_steps has set_at
fresh-watched = record { condition_kept = refl; fields_kept = refl; calls_kept = refl }

watched-Concludes : Concludes env watched (done_task_run 7 true)
unfolding start decoded is_foreign get_task_group validate_spec get_task_run_labels propagate
    has_entry insert lookup
watched-Concludes = record {
  is_open = record { ours = refl; undone = refl };
  meta = meta_of "group";
  spec = two_steps;
  found = refl;
  valid = refl;
  listed = refl;
  done = refl;
}

reconcile_kind-Edge_example :
    Edge env (start env fresh) (phase env fresh) (phase env (reconcile_kind env fresh).1)
reconcile_kind-Edge_example =
    reconcile_kind-Edge env run_api-IsLawful run_api-IsStable run_api-IsReadable fresh

-- A second pass before the TaskRun is done.
abbrev waiting : Pass env
waiting = record watched { world = (reconcile_kind env fresh).1.world }

fresh-waiting : Resumes env (reconcile_kind env fresh).1 waiting
unfolding reconcile_kind get_task_group validate_spec get_task_run_labels propagate has_entry insert
    fetch_uses_task_spec task_spec apply_replacements merge_steps has set_at
fresh-waiting = record { fields_kept = refl; done_kept = λ h. h; calls_kept = refl }

History-creations_example : asked env (reconcile_kind env waiting).1 ≤ 0 + 1
History-creations_example =
    History-creations env run_api-IsStable {p = fresh} (again first fresh-waiting)

-- The condition of the Run is gone, and the lister does not have the TaskRun yet.
abbrev reset : Pass env
reset = record watched {
  run = record watched.run { status = record watched.run.status { conditions = none } };
  world = fresh.world;
  calls = (reconcile_kind env watched).1.calls;
}

watched-reset : Restarts env (reconcile_kind env watched).1 reset
unfolding reconcile_kind get_task_group validate_spec get_task_run_labels propagate has_entry insert
    fetch_uses_task_spec task_spec apply_replacements merge_steps has set_at lookup
watched-reset = record { fields_kept = refl; calls_kept = refl }

History-IsRecorded_example :
    (asked env (reconcile_kind env reset).1 ≡ asked env watched)
    × IsRecorded env (reconcile_kind env reset).1.run.status
History-IsRecorded_example =
    History-IsRecorded env run_api-IsStable run_api-Encodes (again first watched-reset) (none, refl)

-- The pass after the end.
abbrev ended : Pass env
ended = record watched {
  run = record watched.run {
    status = record watched.run.status {
      conditions =
          some (record { status = is_true; reason = "Succeeded"; message = "TaskRun succeeded" });
    };
  };
  calls = (reconcile_kind env watched).1.calls;
}

watched-ended : Continues env (reconcile_kind env watched).1 ended
unfolding reconcile_kind get_task_group validate_spec get_task_run_labels propagate has_entry insert
    fetch_uses_task_spec task_spec apply_replacements merge_steps has set_at lookup
watched-ended = record { condition_kept = refl; fields_kept = refl; calls_kept = refl }

History-Succeeded_example :
    Succeeded env run_api-IsLawful run_api-IsStable run_api-IsReadable watched ended
History-Succeeded_example =
    History-Succeeded env run_api-IsLawful run_api-IsStable run_api-IsReadable
      (again first watched-ended) refl refl

History-ends_example :
    (phase env watched ≡ ongoing)
    × (phase env ended ≡ success)
    × (asked env ended ≡ asked env fresh + 1)
History-ends_example =
    History-ends env run_api-IsLawful run_api-IsStable run_api-IsReadable run_api-Encodes
      fresh-Creates fresh-watched first watched-Concludes watched-ended first

reconcile_kind-Protocol_example :
    Protocol fresh.calls (reconcile_kind env fresh).1.calls
    × (length (reconcile_kind env fresh).1.calls ≤ length fresh.calls + 4)
reconcile_kind-Protocol_example = reconcile_kind-Protocol env fresh
