-- ===== src/Reconciler/Kind/Verdict/Whole.antt =====
-- How `reconcile` comes to one of its verdicts.
use tekton_task_group.Base.{
  ◌≡◌, refl, sym, ap, ◌∙◌, false, List, [], ◌∷◌, Option, none, some, Error, Result, ok, err, arith,
  Bool-cases, inl, inr, ◌==◌, subst,
}
use tekton_task_group.Upstream.{Types, ObjectMeta}
use tekton_task_group.Upstream.Run.{RunTypes, TaskRun, RunRef, EmbeddedRunSpec}
use tekton_task_group.Api.{TaskGroupSpec, reason_succeeded, reason_failed}
use tekton_task_group.Api.Validation.{validate_spec}
use tekton_task_group.Reconciler.Labels.{propagate, get_task_run_labels}
use tekton_task_group.Reconciler.Env.{Env}
use tekton_task_group.Reconciler.Pass.{Pass}
use tekton_task_group.Reconciler.Create.{
  get_task_group, get_referenced, get_embedded, got, could_not_get, no_meta, no_spec,
}
use tekton_task_group.Reconciler.Observe.{
  before, observe, conclude, record_task_run, process_task_run, update_task_run_status,
}
use tekton_task_group.Reconciler.Observe.Laws.{Listed, record_task_run_lem, process_task_run-calls}
use tekton_task_group.Reconciler.Kind.{settle, run_spec, run_found, reconcile}
use tekton_task_group.Reconciler.Kind.Counting.{asked, creations, asked-process_task_run}
use tekton_task_group.Reconciler.Kind.Verdict.{
  Alike, Verdict, left, failed, succeeded, running, settle_undone-Verdict,
}
use tekton_task_group.Reconciler.Kind.Creation.{store_task_group_spec-task_run}
use tekton_task_group.Reconciler.Kind.Outcome.{stored}

module _ {T : Types} {R : RunTypes} (E : Env T R) where
  -- What follows where a single TaskRun was recorded, and cancelled if it had to be.
  settle_one :
      (meta : ObjectMeta) (spec : TaskGroupSpec T) (tr : TaskRun T R) (p : Pass E)
      (r : Option Error × Pass E)
      → Listed E p (ok (tr ∷ []))
      → Alike E p.run.status r.1.run.status
      → asked E r.1 ≡ asked E p
      → r.1.status.task_run ≡ some tr.status
      → Verdict E p (settle E meta spec (conclude E tr r)).1
  unfolding settle conclude
  settle_one meta spec tr p (some e, q) listed alike same recorded =
      left alike same (λ t h. (tr.status, recorded))
  settle_one meta spec tr p (none, q) listed alike same recorded =
      elim (Bool-cases (E.task_runs.is_done tr)) [
        | inr undone ↦
            rw undone
              (settle_undone-Verdict E meta spec false p q same (λ t h. (tr.status, recorded)))
        | inl done ↦ elim (Bool-cases (E.task_runs.is_successful tr)) [
          | inl good ↦
              rw (done, good)
                (succeeded reason_succeeded "TaskRun succeeded" q.run.status tr refl same listed
                  done good recorded)
          | inr bad ↦
              rw (done, bad)
                (failed reason_failed "TaskRun failed" q.run.status refl (omega (arith, same))
                  (λ t h. (tr.status, recorded)))
        ]
      ]

  record_task_run-Alike :
      (tr : TaskRun T R) (p : Pass E) → Alike E p.run.status (record_task_run E tr p).run.status
  unfolding record_task_run
  record_task_run-Alike tr p =
      elim (Bool-cases (before tr.meta.creation_timestamp p.run.status.completion_time)) [
        | inl h ↦ rw h (record { conditions = refl; start_time = refl; extra_fields = refl })
        | inr h ↦ rw h (record { conditions = refl; start_time = refl; extra_fields = refl })
      ]

  settle_observe :
      (meta : ObjectMeta) (spec : TaskGroupSpec T) (found : Result (List (TaskRun T R)))
      (p : Pass E)
      → Listed E p found
      → Verdict E p (settle E meta spec (observe E found p)).1
  unfolding settle observe
  settle_observe meta spec (err e) p h =
      left (record { conditions = refl; start_time = refl; extra_fields = refl }) refl
        (λ t k. (t, k))
  settle_observe meta spec (ok []) p h =
      settle_undone-Verdict E meta spec false p p refl (λ t k. (t, k))
  settle_observe meta spec (ok (tr ∷ [])) p h =
      let q = record_task_run E tr p in
      let (calls, run, status) = process_task_run-calls E tr q in
      settle_one meta spec tr p (process_task_run E tr q) h
        (subst (λ x. Alike E p.run.status x.status) (sym run) (record_task_run-Alike tr p))
        (asked-process_task_run E tr q ∙ ap creations ((record_task_run_lem E tr p).0))
        (ap (λ x. x.task_run) status ∙ (record_task_run_lem E tr p).1)
  settle_observe meta spec (ok (a ∷ b ∷ rest)) p h =
      left (record { conditions = refl; start_time = refl; extra_fields = refl }) refl
        (λ t k. (t, k))

  -- The stored spec and the labels that are passed on have no part in it.
  Verdict-stored :
      (meta : ObjectMeta) (spec : TaskGroupSpec T) (p q : Pass E)
      → Verdict E (stored E p meta spec) q
      → Verdict E p q
  unfolding propagate get_task_run_labels
  Verdict-stored meta spec p q (left alike same has) =
      left alike same (λ t k. has t (store_task_group_spec-task_run p.status spec ∙ k))
  Verdict-stored meta spec p q (failed r m s e le has) =
      failed r m s e le (λ t k. has t (store_task_group_spec-task_run p.status spec ∙ k))
  Verdict-stored meta spec p q (succeeded r m s tr e same listed done good recorded) =
      succeeded r m s tr e same listed done good recorded
  Verdict-stored meta spec p q (running r m s t e le k) = running r m s t e le k

  run_spec-Verdict :
      (meta : ObjectMeta) (spec : TaskGroupSpec T) (p : Pass E)
      → Verdict E p (run_spec E meta spec p).1
  unfolding run_spec update_task_run_status
  run_spec-Verdict meta spec p =
      let q = stored E p meta spec in
      elim (Bool-cases (E.fields.is_nil (validate_spec E.validators spec))) [
        | inl valid ↦ rw valid (
            Verdict-stored meta spec p _ (
              settle_observe meta spec
                (E.cluster.list_task_runs q.world q.run.meta.namespace
                  (get_task_run_labels q.run false))
                q refl))
        | inr bad ↦ rw bad (
            Verdict-stored meta spec p _
              (failed _ _ q.run.status refl (omega arith) (λ t k. (t, k))))
      ]

  run_got-Verdict :
      (r : Result (ObjectMeta × TaskGroupSpec T)) (p : Pass E)
      → Verdict E p (run_found E (got E r p)).1
  unfolding run_found got could_not_get
  run_got-Verdict (ok (meta, spec)) p = run_spec-Verdict meta spec p
  run_got-Verdict (err e) p = failed _ _ p.run.status refl (omega arith) (λ t k. (t, k))

  run_embedded-Verdict :
      (s : Option (EmbeddedRunSpec R)) (p : Pass E)
      → Verdict E p (run_found E (get_embedded E s p)).1
  unfolding run_found get_embedded
  run_embedded-Verdict none p = run_spec-Verdict no_meta no_spec p
  run_embedded-Verdict (some s) p = run_got-Verdict _ p

  run_referenced-Verdict :
      (ref : Option RunRef) (p : Pass E) → Verdict E p (run_found E (get_referenced E ref p)).1
  unfolding get_referenced
  run_referenced-Verdict none p = run_embedded-Verdict p.run.spec.spec p
  run_referenced-Verdict (some ref) p = elim (Bool-cases (ref.name == "")) [
    | inl h ↦ rw h (run_embedded-Verdict p.run.spec.spec p)
    | inr h ↦ rw h (run_got-Verdict _ p)
  ]

  -- Whatever the task group is and however the calls of the API server end, `reconcile` leaves the
  -- Run's conditions, start time and extra fields as they were and asks for no TaskRun, or it
  -- fails the Run, or it marks the Run as succeeded, and then the one TaskRun that the lister finds
  -- by the Run's label is done and successful and its status is recorded, or it marks the Run as
  -- running with the status of a TaskRun recorded. It asks for at most one TaskRun, and for none
  -- where the Run succeeds.
  pub reconcile-Verdict : (p : Pass E) → Verdict E p (reconcile E p).1
  unfolding reconcile get_task_group
  reconcile-Verdict p = run_referenced-Verdict p.run.spec.ref p
