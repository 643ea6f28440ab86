-- ===== src/Reconciler/Kind/Verdict.antt =====
-- What `reconcile` may do to a Run: the four ways in which a pass ends, for every task group and
-- every answer of the API server.
pub mod Whole
use tekton_task_group.Base.{
  ◌+◌, ◌≤◌, ◌≡◌, refl, sym, ap, ◌∙◌, String, ◌<>◌, Bool, true, false, not, ◌&&◌, List, [], ◌∷◌,
  Option, none, some, Error, Result, ok, err, arith, Bool-cases, inl, inr, ◌==◌, ◌⊎◌, subst,
  Returned,
}
use tekton_task_group.Upstream.{Types, TaskSpec, ObjectMeta}
use tekton_task_group.Resolve.Task.{UsedTasks}
use tekton_task_group.Upstream.Run.{RunTypes, RunStatus, TaskRun, RunRef, EmbeddedRunSpec}
use tekton_task_group.Api.{TaskGroupSpec, reason_running, reason_succeeded, reason_failed}
use tekton_task_group.Api.Validation.{validate_spec}
use tekton_task_group.Reconciler.Labels.{propagate, get_task_run_labels}
use tekton_task_group.Reconciler.Env.{Env}
use tekton_task_group.Reconciler.Pass.{Pass, mark_running}
use tekton_task_group.Reconciler.Create.{
  create, create_fetched, create_resolved, request_task_run, get_task_group, get_referenced,
  get_embedded, got, could_not_get, no_meta, no_spec,
}
use tekton_task_group.Reconciler.Observe.{
  before, observe, conclude, record_task_run, process_task_run, update_task_run_status,
}
use tekton_task_group.Reconciler.Observe.Laws.{Listed, record_task_run_lem, process_task_run-calls}
use tekton_task_group.Reconciler.Kind.{
  store_created, create_unless, create_if_none, settle, run_spec, run_found, reconcile,
}
use tekton_task_group.Reconciler.Kind.Counting.{asked, creations, asked-process_task_run}
use tekton_task_group.Reconciler.Kind.Creations.{asked-create_unless}
use tekton_task_group.Reconciler.Kind.Outcome.{stored}

module _ {T : Types} {R : RunTypes} (E : Env T R) where
  -- The statuses differ in the completion time at most.
  pub record Alike (s t : RunStatus R) : Type 0 where
    pub conditions : t.conditions ≡ s.conditions
    pub start_time : t.start_time ≡ s.start_time
    pub extra_fields : t.extra_fields ≡ s.extra_fields

  -- A recorded TaskRun is not forgotten.
  abbrev pub StillHas : Pass E → Pass E → Type 0
  StillHas p q =
      (t : R.TaskRunStatus)
      → p.status.task_run ≡ some t
      → (u : R.TaskRunStatus) × (q.status.task_run ≡ some u)

  -- The pass `p` ends as `q`: the Run's conditions are left as they were, or the Run is failed, or
  -- it succeeds with the one TaskRun that the lister finds, or it runs with a TaskRun recorded.
  pub data Verdict (p q : Pass E) : Type 0 where
    left : Alike p.run.status q.run.status → asked E q ≡ asked E p → StillHas p q → Verdict p q
    failed :
        (reason message : String) (s : RunStatus R)
        → q.run.status ≡ E.runs.mark_run_failed reason message s
        → asked E q ≤ asked E p + 1
        → StillHas p q
        → Verdict p q
    succeeded :
        (reason message : String) (s : RunStatus R) (tr : TaskRun T R)
        → q.run.status ≡ E.runs.mark_run_succeeded reason message s
        → asked E q ≡ asked E p
        → Listed E p (ok (tr ∷ []))
        → E.task_runs.is_done tr ≡ true
        → E.task_runs.is_successful tr ≡ true
        → q.status.task_run ≡ some tr.status
        → Verdict p q
    running :
        (reason message : String) (s : RunStatus R) (t : R.TaskRunStatus)
        → q.run.status ≡ E.runs.mark_run_running reason message s
        → asked E q ≤ asked E p + 1
        → q.status.task_run ≡ some t
        → Verdict p q

  -- What follows where the TaskRun is not done.
  abbrev Created : Pass E → Pass E → Type 0
  Created p q =
      ((reason : String) × (message : String) × (s : RunStatus R) × (q.run.status
          ≡ E.runs.mark_run_failed reason message s)
        × (q.status ≡ p.status))
      ⊎ ((t : R.TaskRunStatus) × (q.run.status ≡ p.run.status) × (q.status.task_run ≡ some t))

  store_created-Created :
      (meta : ObjectMeta) (p : Pass E) (r : Result (TaskRun T R) × Pass E)
      → r.1.run ≡ p.run
      → r.1.status ≡ p.status
      → Created p (store_created E meta r).1
  unfolding store_created
  store_created-Created meta p (ok tr, q) h k = inr (tr.status, ap (λ x. x.status) h, refl)
  store_created-Created meta p (err e, q) h k = inl (_, _, q.run.status, refl, k)

  create_resolved_kept :
      (r : Returned (TaskSpec T)) (p : Pass E)
      → ((create_resolved E r p).1.run ≡ p.run) × ((create_resolved E r p).1.status ≡ p.status)
  unfolding create_resolved request_task_run
  create_resolved_kept (task, none) p = (refl, refl)
  create_resolved_kept (task, some e) p = (refl, refl)

  create_fetched_kept :
      (spec : TaskGroupSpec T) (r : Result (UsedTasks T)) (p : Pass E)
      → ((create_fetched E spec r p).1.run ≡ p.run)
        × ((create_fetched E spec r p).1.status ≡ p.status)
  unfolding create_fetched
  create_fetched_kept spec (ok used) p = create_resolved_kept _ p
  create_fetched_kept spec (err e) p = (refl, refl)

  create_unless-Created :
      (o : Option R.TaskRunStatus) (meta : ObjectMeta) (spec : TaskGroupSpec T) (p : Pass E)
      → p.status.task_run ≡ o
      → Created p (create_unless E o meta spec p).1
  unfolding create_unless create
  create_unless-Created none meta spec p h =
      let (run, status) = create_fetched_kept spec _ p in
      store_created-Created meta p (create E spec p) run status
  create_unless-Created (some t) meta spec p h = inr (t, refl, h)

  Created-Verdict :
      (reason message : String) (s : RunStatus R) (p q r : Pass E)
      → q.run.status ≡ E.runs.mark_run_running reason message s
      → asked E r ≤ asked E p + 1
      → StillHas p q
      → Created q r
      → Verdict p r
  Created-Verdict reason message s p q r e le has (inl (reason', message', u, k, same)) =
      failed reason' message' u k le
        (subst (λ x. StillHas p (record q { status = x })) (sym same) has)
  Created-Verdict reason message s p q r e le has (inr (t, same, k)) =
      running reason message s t (same ∙ e) le k

  pub settle_undone-Verdict :
      (meta : ObjectMeta) (spec : TaskGroupSpec T) (b : Bool) (p q : Pass E)
      → asked E q ≡ asked E p
      → StillHas p q
      → Verdict p (settle E meta spec (ok (false, b), q)).1
  unfolding settle create_if_none
  settle_undone-Verdict meta spec b p q same has =
      let text = q.run.meta.name <> " running" in
      let u = mark_running E reason_running text q in
      Created-Verdict reason_running text q.run.status p u
        (create_unless E u.status.task_run meta spec u).1 refl
        (omega (arith, same, asked-create_unless E u.status.task_run meta spec u)) has
        (create_unless-Created u.status.task_run meta spec u refl)
