-- ===== src/Tests/Observing.antt =====
-- TaskRuns, labels and times in the passes over a small API server, and a validation.
use tekton_task_group.Base.{
  ℕ, ◌==◌, ◌≡◌, refl, true, false, ◌&&◌, [], ◌∷◌, none, some, every, if◌then◌else◌, ok,
}
use tekton_task_group.Base.Named.{or_else}
use tekton_task_group.Base.GoMap.{lookup, insert}
use tekton_task_group.Upstream.{ObjectMeta}
use tekton_task_group.Upstream.Run.{Run, TaskRun}
use tekton_task_group.Api.Validation.{validate_spec, to_upstream_step}
use tekton_task_group.Api.Validation.Laws.{names_task, has_steps, is_nil-validate_spec}
use tekton_task_group.Reconciler.Labels.{
  has_entry, get_task_run_labels, propagate, task_group_label, entries,
}
use tekton_task_group.Reconciler.Labels.Laws.{selector_matches, lookup-propagate}
use tekton_task_group.Reconciler.Pass.{Pass}
use tekton_task_group.Reconciler.Observe.{before, update_task_run_status}
use tekton_task_group.Reconciler.Observe.Laws.{Listed, update_task_run_status_times}
use tekton_task_group.Reconciler.Kind.{adjust_start_time}
use tekton_task_group.Tests.Sample.{sample}
use tekton_task_group.Tests.Resolution.{two_steps}
use tekton_task_group.Tests.World.{runs, env, texts, texts-IsLawful, no_checks}
use tekton_task_group.Tests.Running.{meta_of, run_of, to_group, pass_on_group, done_task_run}

abbrev running : TaskRun sample runs
running = record (done_task_run 7 true) { status = none }

-- A pass on a Run that was cancelled.
abbrev cancelled : Pass env
cancelled =
    let p = pass_on_group "group" true (running ∷ []) in
    record p { run = record p.run { spec = record p.run.spec { status = "RunCancelled" } } }

abbrev finished : Pass env
finished = pass_on_group "group" true (done_task_run 7 true ∷ [])

listed_finished : Listed env finished (ok (done_task_run 7 true ∷ []))
unfolding get_task_run_labels has_entry insert
listed_finished = refl

update_task_run_status_times_example :
    ((update_task_run_status env finished).1.run.status.start_time ≡ some 8)
    × ((update_task_run_status env finished).1.run.status.completion_time
        ≡ (if before 7 (some 9) then some 7 else some 9))
update_task_run_status_times_example =
    update_task_run_status_times env finished (done_task_run 7 true) listed_finished

-- The TaskRun is of an earlier time.
before_case : before 7 (some 9) ≡ true
unfolding before
before_case = refl

abbrev labelled : Run runs
labelled =
    let run = run_of (to_group "group") in
    record run { meta = record run.meta { labels = some (("app", "shop") ∷ []) } }

selector_matches_example :
    every (has_entry (get_task_run_labels labelled true)) (get_task_run_labels labelled false)
    ≡ true
selector_matches_example = selector_matches labelled

abbrev group_meta : ObjectMeta
group_meta = record (meta_of "group") { labels = some (("app", "bank") ∷ []) }

lookup-propagate_example :
    (lookup "app" (entries (propagate labelled group_meta).meta.labels) ≡ (
      if task_group_label == "app"
      then some "group"
      else or_else (lookup "app" (("app", "bank") ∷ [])) (lookup "app" (("app", "shop") ∷ []))))
    × (lookup "app" (entries (propagate labelled group_meta).meta.annotations)
        ≡ or_else (lookup "app" (("owner", "group") ∷ [])) (lookup "app" (("owner", "run") ∷ [])))
unfolding lookup
lookup-propagate_example = lookup-propagate labelled group_meta "app" (refl, tt) (refl, tt)

-- The lister has the Run without the label.
abbrev relabelled : Pass env
relabelled = record finished {
  run = labelled;
  world = record finished.world { run = some (run_of (to_group "group")) };
}

abbrev ten : ℕ
ten = 10

adjusted : (adjust_start_time env ten finished.run.status).start_time ≡ some ten
unfolding adjust_start_time
adjusted = refl

is_nil-validate_spec_example : texts.is_nil (validate_spec no_checks two_steps) ≡ (
    has_steps two_steps.steps
    && (every (λ s. names_task s.uses) two_steps.steps
        && (texts.is_empty (no_checks.validate_volumes two_steps.volumes)
            && (texts.is_empty (no_checks.validate_parameter_types two_steps.params)
                && (texts.is_empty (
                      no_checks.validate_parameter_variables
                        (to_upstream_step two_steps.steps)
                        two_steps.params)
                    && (texts.is_empty (
                          no_checks.validate_resources_variables (to_upstream_step two_steps.steps))
                        && every
                            (λ r. texts.is_empty (no_checks.validate_result r))
                            two_steps.results))))))
is_nil-validate_spec_example = is_nil-validate_spec texts-IsLawful no_checks two_steps
