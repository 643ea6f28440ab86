-- ===== src/Reconciler/History/Tally.antt =====
-- How many TaskRuns a Run has asked for after any number of passes.
use tekton_task_group.Base.{ℕ, ◌+◌, ◌≤◌, ◌≡◌, ◌⊎◌, refl, ap, ◌∙◌, some, arith, Bool-cases, inl, inr}
use tekton_task_group.Upstream.{Types}
use tekton_task_group.Upstream.Run.{RunTypes}
use tekton_task_group.Reconciler.Env.{Env}
use tekton_task_group.Reconciler.Pass.{Pass}
use tekton_task_group.Reconciler.Kind.{
  no_status, reconcile, start, converge, pass_on, is_foreign, reconcile_kind,
}
use tekton_task_group.Reconciler.Kind.Counting.{asked}
use tekton_task_group.Reconciler.Kind.Creations.{asked-start, reconcile_kind-creations}
use tekton_task_group.Reconciler.Kind.Single.{reconcile-creations_single}
use tekton_task_group.Reconciler.Kind.Converge.{reading}
use tekton_task_group.Reconciler.Kind.Verdict.{Verdict, left, failed, succeeded, running}
use tekton_task_group.Reconciler.Kind.Verdict.Whole.{reconcile-Verdict}
use tekton_task_group.Reconciler.History.{IsStable, Resumes, History, first, again}
use tekton_task_group.Reconciler.History.Turn.{
  IsRecorded, IsSettled, decoded_task_run, start_kept, converge_from, asked-converge_lem,
  asked-reading,
}

module _ {T : Types} {R : RunTypes} (E : Env T R) (stable : IsStable E.runs) where
  -- The decoded status has the TaskRun that the extra fields have.
  pub reading_task_run :
      (p : Pass E)
      → IsRecorded E p.run.status
      → (t : R.TaskRunStatus) × ((reading E p).status.task_run ≡ some t)
  reading_task_run p (t, h) = (t, ap (λ s. s.task_run) (decoded_task_run E _ p) ∙ h)

  -- A pass that asks for a TaskRun leaves the Run done, or with a TaskRun recorded.
  converge_settles :
      (p : Pass E)
      → Verdict E (reading E p) (reconcile E (reading E p)).1
      → (asked E (converge E p).1 ≡ asked E p) ⊎ IsSettled E (converge E p).1.run.status
  converge_settles p (left alike same has) =
      inl (asked-converge_lem E stable p ∙ same ∙ asked-reading E stable p)
  converge_settles p (failed r m s e le has) =
      inr (converge_from E stable p (inl (ap E.runs.is_done e ∙ stable.failed_done r m s)))
  converge_settles p (succeeded r m s tr e same listed done good has) =
      inl (asked-converge_lem E stable p ∙ same ∙ asked-reading E stable p)
  converge_settles p (running r m s t e le has) = inr (converge_from E stable p (inr (t, has)))

  -- A recorded TaskRun stays so, or the Run is done.
  converge-IsRecorded :
      (p : Pass E)
      → IsRecorded E p.run.status
      → Verdict E (reading E p) (reconcile E (reading E p)).1
      → IsSettled E (converge E p).1.run.status
  converge-IsRecorded p h (left alike same has) =
      let (t, k) = reading_task_run p h in converge_from E stable p (inr (has t k))
  converge-IsRecorded p h (failed r m s e le has) =
      converge_from E stable p (inl (ap E.runs.is_done e ∙ stable.failed_done r m s))
  converge-IsRecorded p h (succeeded r m s tr e same listed done good has) =
      converge_from E stable p (inr (tr.status, has))
  converge-IsRecorded p h (running r m s t e le has) = converge_from E stable p (inr (t, has))

  pub converge_recorded :
      (p : Pass E) → IsRecorded E p.run.status → asked E (converge E p).1 ≡ asked E p
  converge_recorded p h =
      asked-converge_lem E stable p
      ∙ reconcile-creations_single E (reading E p) (inl (reading_task_run p h))
      ∙ asked-reading E stable p

  start-IsSettled : (p : Pass E) → IsSettled E p.run.status → IsSettled E (start E p).run.status
  start-IsSettled p (inl done) = inl ((start_kept E stable p).1 done)
  start-IsSettled p (inr (t, h)) = inr (
    t,
    ap (λ d. d.0.task_run)
          (stable.decode_fields p.run.status (start E p).run.status no_status
            ((start_kept E stable p).0))
        ∙ h,
  )

  pass_on-IsSettled :
      (p : Pass E)
      → IsSettled E p.run.status
      → (asked E (pass_on E p).1 ≡ asked E p) × IsSettled E (pass_on E p).1.run.status
  unfolding pass_on
  pass_on-IsSettled p (inl done) = rw done (refl, inl done)
  pass_on-IsSettled p (inr h) = elim (Bool-cases (E.runs.is_done p.run.status)) [
    | inl done ↦ rw done (refl, inl done)
    | inr more ↦
        rw more (converge_recorded p h, converge-IsRecorded p h (reconcile-Verdict E (reading E p)))
  ]

  pass_on_settles :
      (p : Pass E) → (asked E (pass_on E p).1 ≡ asked E p) ⊎ IsSettled E (pass_on E p).1.run.status
  unfolding pass_on
  pass_on_settles p = elim (Bool-cases (E.runs.is_done p.run.status)) [
    | inl done ↦ rw done (inl refl)
    | inr more ↦ rw more (converge_settles p (reconcile-Verdict E (reading E p)))
  ]

  -- At most one TaskRun more than `k` was asked for, and if one was, no other will be.
  data Tally (k : ℕ) (p : Pass E) : Type 0 where
    unasked : asked E p ≡ k → Tally k p
    settled : asked E p ≤ k + 1 → IsSettled E p.run.status → Tally k p

  reconcile_kind-Tally : (k : ℕ) (p : Pass E) → Tally k p → Tally k (reconcile_kind E p).1
  unfolding reconcile_kind
  reconcile_kind-Tally k p (unasked e) = elim (Bool-cases (is_foreign E p.run)) [
    | inl foreign ↦ rw foreign (unasked e)
    | inr ours ↦ elim (pass_on_settles (start E p)) [
      | inl same ↦ rw ours (unasked (same ∙ asked-start E p ∙ e))
      | inr done ↦
          rw ours (settled (omega (arith, rw ours at (reconcile_kind-creations E p), e)) done)
    ]
  ]
  reconcile_kind-Tally k p (settled le h) = elim (Bool-cases (is_foreign E p.run)) [
    | inl foreign ↦ rw foreign (settled le h)
    | inr ours ↦
        let (same, done) = pass_on-IsSettled (start E p) (start-IsSettled p h) in
        rw ours (settled (omega (arith, same, asked-start E p, le)) done)
  ]

  Resumes-Tally : (k : ℕ) (p q : Pass E) → Resumes E p q → Tally k p → Tally k q
  Resumes-Tally k p q next (unasked e) = unasked (rw (next.calls_kept) e)
  Resumes-Tally k p q next (settled le (inl done)) =
      settled (rw (next.calls_kept) le) (inl (next.done_kept done))
  Resumes-Tally k p q next (settled le (inr (t, h))) = settled (rw (next.calls_kept) le) (
      inr (
        t,
        ap (λ d. d.0.task_run)
              (stable.decode_fields p.run.status q.run.status no_status next.fields_kept)
            ∙ h,
      ))

  History-Tally : {p q : Pass E} → History E (Resumes E) p q → Tally (asked E p) q
  History-Tally {p} first = unasked refl
  History-Tally {p} (again {q} {r} h next) =
      Resumes-Tally (asked E p) (reconcile_kind E q).1 r next
        (reconcile_kind-Tally (asked E p) q (History-Tally h))

  Tally-bound : (k : ℕ) (p : Pass E) → Tally k p → asked E p ≤ k + 1
  Tally-bound k p (unasked e) = omega (arith, e)
  Tally-bound k p (settled le h) = le

  -- However many passes are made over a Run, and whatever the world, the task group, the labels and
  -- the spec of the Run are in each of them, they ask for at most one TaskRun together, if each
  -- pass begins with the extra fields that the last one left, and with a Run that is done if the
  -- last one left it done.
  pub History-creations :
      {p q : Pass E} → History E (Resumes E) p q → asked E (reconcile_kind E q).1 ≤ asked E p + 1
  History-creations {p} {q} h =
      Tally-bound (asked E p) (reconcile_kind E q).1
        (reconcile_kind-Tally (asked E p) q (History-Tally h))
