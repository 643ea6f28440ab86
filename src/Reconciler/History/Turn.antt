-- ===== src/Reconciler/History/Turn.antt =====
-- What one call of `ReconcileKind` leaves for the next.
use tekton_task_group.Base.{
  ◌≡◌, ◌⊎◌, refl, ap, ◌∙◌, true, Option, none, some, Result, ok, err, arith, Bool-cases, inl, inr,
  Returned, not, ◌||◌, ℕ,
}
use tekton_task_group.Upstream.{Types}
use tekton_task_group.Upstream.Run.{RunTypes, Run, RunStatus, Condition}
use tekton_task_group.Api.{TaskGroupRunStatus}
use tekton_task_group.Reconciler.Labels.{deep_equal}
use tekton_task_group.Reconciler.Env.{Env}
use tekton_task_group.Reconciler.Pass.{Pass}
use tekton_task_group.Reconciler.Kind.{
  no_status, decoded, encoded, emit_event, patch, patch_if_changed, update_labels_and_annotations,
  reconcile, adjust_start_time, start, converge,
}
use tekton_task_group.Reconciler.Kind.Counting.{asked, creations}
use tekton_task_group.Reconciler.Kind.Creations.{
  decoded_asked, encoded_asked, asked-emit_event, asked-patch_if_changed,
}
use tekton_task_group.Reconciler.Kind.Converge.{reading, patched, ended, converge-ended}
use tekton_task_group.Reconciler.History.{IsStable}

module _ {T : Types} {R : RunTypes} (E : Env T R) where
  -- The extra fields have a TaskRun.
  abbrev pub IsRecorded : RunStatus R → Type 0
  IsRecorded s =
      (t : R.TaskRunStatus) × ((E.runs.decode_extra_fields s no_status).0.task_run ≡ some t)

  -- No later pass asks for a TaskRun.
  abbrev pub IsSettled : RunStatus R → Type 0
  IsSettled s = (E.runs.is_done s ≡ true) ⊎ IsRecorded s

  patch_if_changed_kept :
      (r : Result (Run R)) (p : Pass E)
      → ((patch_if_changed E r p).1.run ≡ p.run) × ((patch_if_changed E r p).1.status ≡ p.status)
  unfolding patch_if_changed patch
  patch_if_changed_kept (err e) p = (refl, refl)
  patch_if_changed_kept (ok new_run) p =
      elim (Bool-cases (
        not (deep_equal p.run.meta.labels new_run.meta.labels)
        || not (deep_equal p.run.meta.annotations new_run.meta.annotations))) [
          | inl h ↦ rw h (refl, refl)
          | inr h ↦ rw h (refl, refl)
        ]

  -- The patch of the labels changes neither the Run nor its decoded status, and asks for no TaskRun.
  pub patched_kept :
      (p : Pass E)
      → let q = (reconcile E (reading E p)).1 in
        ((patched E p).1.run ≡ q.run)
        × ((patched E p).1.status ≡ q.status)
        × (asked E (patched E p).1 ≡ asked E q)
  unfolding update_labels_and_annotations
  patched_kept p =
      let q = (reconcile E (reading E p)).1 in
      let found = E.cluster.get_run q.world q.run.meta.namespace q.run.meta.name in
      let (run, status) = patch_if_changed_kept found q in
      (run, status, asked-patch_if_changed E found q)

  pub decoded_task_run :
      (r : Returned (TaskGroupRunStatus T R)) (p : Pass E) → (decoded E r p).status ≡ r.0
  unfolding decoded
  decoded_task_run (s, none) p = refl
  decoded_task_run (s, some e) p = refl

module _ {T : Types} {R : RunTypes} (E : Env T R) (stable : IsStable E.runs) where
  pub adjust_start_time_kept :
      (created : ℕ) (s : RunStatus R)
      → ((adjust_start_time E created s).conditions ≡ s.conditions)
        × ((adjust_start_time E created s).extra_fields ≡ s.extra_fields)
  unfolding adjust_start_time
  adjust_start_time_kept created s = ground arith

  -- The start of a Run keeps the extra fields, and a Run that is done.
  pub start_kept :
      (p : Pass E)
      → ((start E p).run.status.extra_fields ≡ p.run.status.extra_fields)
        × (E.runs.is_done p.run.status ≡ true → E.runs.is_done (start E p).run.status ≡ true)
  unfolding start emit_event
  start_kept p =
      let s = E.runs.initialize_conditions p.run.status in
      let (conditions, fields) = adjust_start_time_kept p.run.meta.creation_timestamp s in
      elim (Bool-cases (E.runs.has_started p.run.status)) [
        | inl h ↦ rw h (refl, λ done. done)
        | inr h ↦ rw h (
          fields ∙ stable.initialize_fields p.run.status,
          λ done. stable.done_conditions s _ conditions ∙ stable.initialize_done p.run.status done,
        )
      ]

  encoded-IsSettled :
      (c : Option Condition) (p : Pass E) (r : Result (RunStatus R))
      → E.runs.encode_extra_fields p.status p.run.status ≡ r
      → (E.runs.is_done p.run.status ≡ true)
        ⊎ ((t : R.TaskRunStatus) × (p.status.task_run ≡ some t))
      → IsSettled E (emit_event E c (encoded E r p)).run.status
  unfolding emit_event encoded
  encoded-IsSettled c p (ok s) e (inl done) = inl (
      stable.done_conditions p.run.status s (stable.encode_conditions p.status p.run.status s e)
      ∙ done)
  encoded-IsSettled c p (ok s) e (inr (t, h)) =
      inr (stable.decode_encoded p.status p.run.status s t e h)
  encoded-IsSettled c p (err x) e h = inl (stable.failed_done _ _ p.run.status)

  -- The end of a pass over a Run that is done or has a TaskRun in its decoded status.
  pub ended-IsSettled :
      (c : Option Condition) (p : Pass E)
      → (E.runs.is_done p.run.status ≡ true)
        ⊎ ((t : R.TaskRunStatus) × (p.status.task_run ≡ some t))
      → IsSettled E (ended E c p).run.status
  ended-IsSettled c p h = encoded-IsSettled c p _ refl h

  pub asked-ended : (c : Option Condition) (p : Pass E) → asked E (ended E c p) ≡ asked E p
  asked-ended c p = asked-emit_event E c _ ∙ ap creations (encoded_asked E _ p)

  pub asked-reading : (p : Pass E) → asked E (reading E p) ≡ asked E p
  asked-reading p = ap creations (decoded_asked E _ p)

  -- What the Run has before the patch of the labels, it has after the pass.
  pub converge_from :
      (p : Pass E)
      → let q = (reconcile E (reading E p)).1 in
        ((E.runs.is_done q.run.status ≡ true)
          ⊎ ((t : R.TaskRunStatus) × (q.status.task_run ≡ some t)))
        → IsSettled E (converge E p).1.run.status
  converge_from p h =
      let (run, status, same) = patched_kept E p in
      rw (converge-ended E p)
        (ended-IsSettled (E.runs.get_condition p.run.status) (patched E p).1 (rw (run, status) h))

  pub asked-converge_lem :
      (p : Pass E) → asked E (converge E p).1 ≡ asked E (reconcile E (reading E p)).1
  asked-converge_lem p =
      rw (converge-ended E p)
        (asked-ended (E.runs.get_condition p.run.status) (patched E p).1 ∙ (patched_kept E p).2)
