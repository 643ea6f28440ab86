-- ===== src/Reconciler/Observe.antt =====
-- pkg/reconciler/taskgroup/taskgroup.go, the functions `updateTaskRunStatus` and `processTaskRun`:
-- what became of the TaskRun that was created for a Run.
pub mod Laws
use tekton_task_group.Base.{
  ℕ, ◌<>◌, Bool, false, not, ◌&&◌, List, [], ◌∷◌, Option, none, some, if◌then◌else◌, ltb, Error,
  plain, error_text, Result, ok, err,
}
use tekton_task_group.Upstream.{Types}
use tekton_task_group.Upstream.Run.{RunTypes, TaskRun}
use tekton_task_group.Reconciler.Labels.{get_task_run_labels}
use tekton_task_group.Reconciler.Env.{Env, JsonPatchOperation}
use tekton_task_group.Reconciler.Pass.{Pass, Action, Attempt, cancel_task_run, called, with_status}

-- `t.Before(u)` on pointers, the first of which is not nil.
unfoldable pub before : ℕ → Option ℕ → Bool
before t none = false
before t (some u) = ltb t u

-- `cancelPatchBytes`, before it is made JSON. The value is `TaskRunSpecStatusCancelled`.
abbrev pub cancel_patches : List JsonPatchOperation
cancel_patches =
    record { operation = "add"; path = "/spec/status"; value = "TaskRunCancelled" } ∷ []

module _ {T : Types} {R : RunTypes} (E : Env T R) where
  -- The patch call, and the error text that it is given.
  unfoldable pub cancel : TaskRun T R → Attempt E
  cancel tr p =
      let (e, w) =
        E.cluster.patch_task_run p.world p.run.meta.namespace tr.meta.name cancel_patches in
      (
        elim e [
          | none ↦ none
          | some e ↦ some (
              plain (
                "Failed to patch TaskRun `"
                <> (tr.meta.name <> ("` with cancellation: " <> error_text e))))
        ],
        called E (cancel_task_run tr.meta.name) w p,
      )

  -- `processTaskRun`
  unfoldable pub process_task_run : TaskRun T R → Attempt E
  unfolding cancel
  process_task_run tr p =
      if not (E.task_runs.is_done tr)
      then if E.runs.is_cancelled p.run && not (E.task_runs.is_cancelled tr)
        then cancel tr p
        else (none, p)
      else (none, p)

  -- `status.TaskRun = &tr.Status`, and the adjustment of the completion time.
  unfoldable pub record_task_run : TaskRun T R → Pass E → Pass E
  unfolding before
  record_task_run tr p =
      let t = tr.meta.creation_timestamp in
      let p = record p { status = record p.status { task_run = some tr.status } } in
      if before t p.run.status.completion_time
      then with_status E (record p.run.status { completion_time = some t }) p
      else p

  -- Whether the TaskRun is done, and whether it failed.
  abbrev pub verdict : TaskRun T R → Bool × Bool
  verdict tr =
      (E.task_runs.is_done tr, E.task_runs.is_done tr && not (E.task_runs.is_successful tr))

  unfoldable pub conclude : TaskRun T R → Option Error × Pass E → Result (Bool × Bool) × Pass E
  conclude tr (none, p) = (ok (verdict tr), p)
  conclude tr (some e, p) = (
    err (plain ("error processing TaskRun " <> (tr.meta.name <> (": " <> E.error_go_syntax e)))),
    p,
  )

  -- What follows the listing of the TaskRuns.
  unfoldable pub observe : Result (List (TaskRun T R)) → Action E (Bool × Bool)
  unfolding process_task_run record_task_run conclude
  observe (err e) p = (err (plain ("could not list TaskRuns " <> E.error_go_syntax e)), p)
  observe (ok []) p = (ok (false, false), p)
  observe (ok (tr ∷ [])) p = conclude tr (process_task_run tr (record_task_run tr p))
  observe (ok (_ ∷ _ ∷ _)) p = (err (plain "Multiple taskRuns, this is a problem"), p)

  -- `updateTaskRunStatus`: whether the TaskRun is done and whether it failed.
  unfoldable pub update_task_run_status : Action E (Bool × Bool)
  unfolding observe get_task_run_labels
  update_task_run_status p =
      observe
        (E.cluster.list_task_runs p.world p.run.meta.namespace (get_task_run_labels p.run false)) p
