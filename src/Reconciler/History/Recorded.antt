-- ===== src/Reconciler/History/Recorded.antt =====
-- A Run whose extra fields have a TaskRun, over passes that may also begin with other conditions.
use tekton_task_group.Base.{◌≡◌, refl, ap, ◌∙◌, some, Bool-cases, inl, inr, Option, ok}
use tekton_task_group.Upstream.{Types}
use tekton_task_group.Upstream.Run.{RunTypes, RunStatus, Condition}
use tekton_task_group.Reconciler.Env.{Env}
use tekton_task_group.Reconciler.Pass.{Pass}
use tekton_task_group.Reconciler.Kind.{
  no_status, start, emit_event, encoded, converge, pass_on, is_foreign, reconcile_kind,
}
use tekton_task_group.Reconciler.Kind.Counting.{asked}
use tekton_task_group.Reconciler.Kind.Creations.{asked-start}
use tekton_task_group.Reconciler.Kind.Converge.{reading, patched, converge-ended}
use tekton_task_group.Reconciler.Kind.Verdict.{Verdict, StillHas, left, failed, succeeded, running}
use tekton_task_group.Reconciler.Kind.Verdict.Whole.{reconcile-Verdict}
use tekton_task_group.Reconciler.History.{IsStable, Encodes, Restarts, History, first, again}
use tekton_task_group.Reconciler.History.Turn.{IsRecorded, start_kept, patched_kept}
use tekton_task_group.Reconciler.History.Tally.{reading_task_run, converge_recorded}

module _ {T : Types} {R : RunTypes} (E : Env T R) (stable : IsStable E.runs)
    (encodes : Encodes E.runs) where
  Verdict-StillHas : {p q : Pass E} → Verdict E p q → StillHas E p q
  Verdict-StillHas (left alike same has) = has
  Verdict-StillHas (failed r m s e le has) = has
  Verdict-StillHas (succeeded r m s tr e same listed done good has) = λ t h. (tr.status, has)
  Verdict-StillHas (running r m s t e le has) = λ u h. (t, has)

  pub encoded-IsRecorded :
      (c : Option Condition) (p : Pass E) (t : R.TaskRunStatus)
      (r : (s : RunStatus R) × (E.runs.encode_extra_fields p.status p.run.status ≡ ok s))
      → p.status.task_run ≡ some t
      → IsRecorded E (emit_event E c (encoded E (ok r.0) p)).run.status
  unfolding emit_event encoded
  encoded-IsRecorded c p t (s, e) h = stable.decode_encoded p.status p.run.status s t e h

  pub converge_keeps :
      (p : Pass E) → IsRecorded E p.run.status → IsRecorded E (converge E p).1.run.status
  converge_keeps p h =
      let (t, k) = reading_task_run E stable p h in
      let (u, l) = Verdict-StillHas (reconcile-Verdict E (reading E p)) t k in
      let q = (patched E p).1 in
      let (run, status, same) = patched_kept E p in
      let r = encodes q.status q.run.status in
      rw (converge-ended E p, r.1)
        (encoded-IsRecorded (E.runs.get_condition p.run.status) q u r
          (ap (λ x. x.task_run) status ∙ l))

  pub same_fields :
      (s t : RunStatus R) → t.extra_fields ≡ s.extra_fields → IsRecorded E s → IsRecorded E t
  same_fields s t e (u, h) = (u, ap (λ d. d.0.task_run) (stable.decode_fields s t no_status e) ∙ h)

  pass_on-IsRecorded :
      (p : Pass E)
      → IsRecorded E p.run.status
      → (asked E (pass_on E p).1 ≡ asked E p) × IsRecorded E (pass_on E p).1.run.status
  unfolding pass_on
  pass_on-IsRecorded p h = elim (Bool-cases (E.runs.is_done p.run.status)) [
    | inl done ↦ rw done (refl, h)
    | inr more ↦ rw more (converge_recorded E stable p h, converge_keeps p h)
  ]

  pub reconcile_kind-IsRecorded :
      (p : Pass E)
      → IsRecorded E p.run.status
      → (asked E (reconcile_kind E p).1 ≡ asked E p)
        × IsRecorded E (reconcile_kind E p).1.run.status
  unfolding reconcile_kind
  reconcile_kind-IsRecorded p h = elim (Bool-cases (is_foreign E p.run)) [
    | inl foreign ↦ rw foreign (refl, h)
    | inr ours ↦
        let (same, kept) =
          pass_on-IsRecorded (start E p)
            (same_fields p.run.status (start E p).run.status ((start_kept E stable p).0) h) in
        rw ours (same ∙ asked-start E p, kept)
  ]

  pub History-kept :
      {p q : Pass E}
      → History E (Restarts E) p q
      → IsRecorded E p.run.status
      → (asked E q ≡ asked E p) × IsRecorded E q.run.status
  History-kept first h = (refl, h)
  History-kept (again {q} {r} past next) h =
      let (same, kept) = History-kept past h in
      let (same', kept') = reconcile_kind-IsRecorded q kept in
      (
        rw (next.calls_kept) (same' ∙ same),
        same_fields (reconcile_kind E q).1.run.status r.run.status next.fields_kept kept',
      )

  -- Once the extra fields of a Run have a TaskRun, no number of passes asks for another one, and
  -- the extra fields still have one after each of them. The conditions with which a pass begins
  -- may be any, so this holds where the library sets the Run's condition to unknown because its
  -- spec was changed. A status is always encoded, and each pass begins with the extra fields that
  -- the last one left.
  pub History-IsRecorded :
      {p q : Pass E}
      → History E (Restarts E) p q
      → IsRecorded E p.run.status
      → (asked E (reconcile_kind E q).1 ≡ asked E p)
        × IsRecorded E (reconcile_kind E q).1.run.status
  History-IsRecorded {q} past h =
      let (same, kept) = History-kept past h in
      let (same', kept') = reconcile_kind-IsRecorded q kept in (same' ∙ same, kept')
