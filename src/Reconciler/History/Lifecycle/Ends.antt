-- ===== src/Reconciler/History/Lifecycle/Ends.antt =====
-- A Run comes to its end: one pass asks for its TaskRun, and the pass that finds it done ends it.
use tekton_task_group.Base.{
  ◌≡◌, ap, ◌∙◌, true, false, [], ◌∷◌, Option, none, some, ok, if◌then◌else◌, Bool-cases, inl, inr,
}
use tekton_task_group.Upstream.{Types, TaskSpec, ObjectMeta}
use tekton_task_group.Upstream.Run.{RunTypes, RunStatus, TaskRun, Condition, is_true, is_false}
use tekton_task_group.Api.{TaskGroupSpec, reason_succeeded, reason_failed}
use tekton_task_group.Resolve.Task.{UsedTasks, task_spec}
use tekton_task_group.Reconciler.Env.{Env, IsLawful}
use tekton_task_group.Reconciler.Pass.{Pass}
use tekton_task_group.Reconciler.Create.{fetch_uses_task_spec}
use tekton_task_group.Reconciler.Observe.Laws.{Listed}
use tekton_task_group.Reconciler.Kind.{
  emit_event, encoded, reconcile, start, converge, pass_on, is_foreign, reconcile_kind,
}
use tekton_task_group.Reconciler.Kind.Counting.{asked, creations}
use tekton_task_group.Reconciler.Kind.Creations.{asked-start}
use tekton_task_group.Reconciler.Kind.Converge.{reading, patched, converge-ended}
use tekton_task_group.Reconciler.Kind.Outcome.{stored, Found, Valid, reconcile_done}
use tekton_task_group.Reconciler.Kind.Creation.{Unstarted, marked, wanted, named_world}
use tekton_task_group.Reconciler.History.{IsStable, Encodes}
use tekton_task_group.Reconciler.History.Turn.{patched_kept, asked-converge_lem, asked-reading}
use tekton_task_group.Reconciler.History.Lifecycle.{
  Phase, success, failure, phase_of, IsReadable, phase,
}

module _ {T : Types} {R : RunTypes} (E : Env T R) where
  -- The pass as `reconcile` is given it.
  abbrev pub given : Pass E → Pass E
  given p = reading E (start E p)

  -- The Run is one of the controller's, and once its pass has started it is not done.
  pub record IsOpen (p : Pass E) : Type 0 where
    pub ours : is_foreign E p.run ≡ false
    pub undone : E.runs.is_done (start E p).run.status ≡ false

  -- The task group is found and valid, the Run has no TaskRun, and the tasks are fetched and resolve
  -- to the task `task`, whose TaskRun the API server takes.
  pub record Creates (p : Pass E) : Type 0 where
    pub is_open : IsOpen p
    pub meta : ObjectMeta
    pub spec : TaskGroupSpec T
    pub used : UsedTasks T
    pub task : TaskSpec T
    pub task_run : TaskRun T R
    pub unstarted : Unstarted E (given p) meta spec
    pub fetched :
        fetch_uses_task_spec E (given p).world (marked E (given p) meta spec).run spec ≡ ok used
    pub resolved : task_spec E.steps spec used ≡ (task, none)
    pub taken :
        (E.cluster.create_task_run
          (named_world E (given p) meta spec)
          (given p).run.meta.namespace
          (wanted E (given p) meta spec task)).0
        ≡ ok task_run

  -- The task group is found and valid, and the lister finds the one TaskRun, which is done.
  pub record Concludes (p : Pass E) (tr : TaskRun T R) : Type 0 where
    pub is_open : IsOpen p
    pub meta : ObjectMeta
    pub spec : TaskGroupSpec T
    pub found : Found E (given p) meta spec
    pub valid : Valid E spec
    pub listed : Listed E (stored E (given p) meta spec) (ok (tr ∷ []))
    pub done : E.task_runs.is_done tr ≡ true

  -- What a TaskRun that is done makes of its Run.
  abbrev pub end_of : TaskRun T R → Phase
  end_of tr = if E.task_runs.is_successful tr then success else failure

module _ {T : Types} {R : RunTypes} (E : Env T R) (lawful : IsLawful E.runs)
    (stable : IsStable E.runs) (readable : IsReadable E.runs) (encodes : Encodes E.runs) where
  encoded_kept :
      (c : Option Condition) (p : Pass E)
      (r : (s : RunStatus R) × (E.runs.encode_extra_fields p.status p.run.status ≡ ok s))
      → phase E (emit_event E c (encoded E (ok r.0) p)) ≡ phase E p
  unfolding emit_event encoded
  encoded_kept c p (s, e) = ap phase_of (
      readable.condition_conditions p.run.status s
        (stable.encode_conditions p.status p.run.status s e))

  phase-converge : (p : Pass E) → phase E (converge E p).1 ≡ phase E (reconcile E (reading E p)).1
  phase-converge p =
      let q = (patched E p).1 in
      let r = encodes q.status q.run.status in
      rw (converge-ended E p, r.1)
        (encoded_kept (E.runs.get_condition p.run.status) q r
          ∙ ap (λ x. phase_of (E.runs.get_condition x.status)) ((patched_kept E p).0))

  pub reconcile_kind_open : (p : Pass E) → IsOpen E p → reconcile_kind E p ≡ converge E (start E p)
  unfolding reconcile_kind pass_on
  reconcile_kind_open p h = rw (h.ours, h.undone)

  pub phase-reconcile_kind :
      (p : Pass E)
      → IsOpen E p
      → phase E (reconcile_kind E p).1 ≡ phase E (reconcile E (given E p)).1
  phase-reconcile_kind p h = rw (reconcile_kind_open p h) (phase-converge (start E p))

  pub asked-reconcile_kind :
      (p : Pass E)
      → IsOpen E p
      → asked E (reconcile_kind E p).1 ≡ asked E (reconcile E (given E p)).1
  asked-reconcile_kind p h = rw (reconcile_kind_open p h) (asked-converge_lem E stable (start E p))

  pub asked-given : (p : Pass E) → asked E (given E p) ≡ asked E p
  asked-given p = asked-reading E stable (start E p) ∙ asked-start E p

  phase-end_of :
      (tr : TaskRun T R) (q : Pass E)
      → E.runs.get_condition q.run.status
        ≡ some (
            if E.task_runs.is_successful tr
            then record {
              status = is_true;
              reason = reason_succeeded;
              message = "TaskRun succeeded";
            }
            else record { status = is_false; reason = reason_failed; message = "TaskRun failed" })
      → phase E q ≡ end_of E tr
  phase-end_of tr q e = elim (Bool-cases (E.task_runs.is_successful tr)) [
    | inl good ↦ rw good (ap phase_of (rw good at e))
    | inr bad ↦ rw bad (ap phase_of (rw bad at e))
  ]

  -- A pass that finds the TaskRun done ends the Run as the TaskRun ended.
  pub Concludes-phase :
      (p : Pass E) (tr : TaskRun T R)
      → Concludes E p tr
      → (phase E (reconcile_kind E p).1 ≡ end_of E tr)
        × (asked E (reconcile_kind E p).1 ≡ asked E p)
  Concludes-phase p tr h =
      let (e, c, calls, s) =
        reconcile_done E (given E p) lawful h.meta h.spec tr h.found h.valid h.listed h.done in
      (
        phase-reconcile_kind p h.is_open ∙ phase-end_of tr (reconcile E (given E p)).1 c,
        asked-reconcile_kind p h.is_open ∙ ap creations calls ∙ asked-given p,
      )
