-- ===== src/Reconciler/History/Lifecycle/Follows.antt =====
-- Every call of `ReconcileKind` follows the diagram.
use tekton_task_group.Base.{
  ◌≡◌, ◌⊎◌, refl, sym, ap, ◌∙◌, true, false, List, [], ◌∷◌, Option, none, some, ok, err, String,
  Returned, Result, Bool-cases, inl, inr, subst, arith,
}
use tekton_task_group.Upstream.{Types}
use tekton_task_group.Upstream.Run.{RunTypes, RunStatus, TaskRun, Condition}
use tekton_task_group.Api.{TaskGroupRunStatus}
use tekton_task_group.Reconciler.Labels.{get_task_run_labels}
use tekton_task_group.Reconciler.Env.{Env, IsLawful}
use tekton_task_group.Reconciler.Pass.{Pass}
use tekton_task_group.Reconciler.Observe.Laws.{Listed}
use tekton_task_group.Reconciler.Kind.{
  decoded, emit_event, encoded, reconcile, start, converge, pass_on, is_foreign, reconcile_kind,
}
use tekton_task_group.Reconciler.Kind.Converge.{reading, patched, ended, converge-ended}
use tekton_task_group.Reconciler.Kind.Verdict.{Verdict, left, failed, succeeded, running}
use tekton_task_group.Reconciler.Kind.Verdict.Whole.{reconcile-Verdict}
use tekton_task_group.Reconciler.History.{IsStable}
use tekton_task_group.Reconciler.History.Turn.{patched_kept, adjust_start_time_kept}
use tekton_task_group.Reconciler.History.Lifecycle.{
  Phase, pending, ongoing, success, failure, phase_of, is_final, begun, IsReadable, phase, Achieved,
  Edge, stay, begin, fail, succeed,
}

module _ {T : Types} {R : RunTypes} (E : Env T R) (lawful : IsLawful E.runs)
    (stable : IsStable E.runs) (readable : IsReadable E.runs) where
  -- The start of a pass keeps the phase or begins.
  start-phase :
      (p : Pass E) → (phase E (start E p) ≡ phase E p) ⊎ (phase E (start E p) ≡ begun (phase E p))
  unfolding start emit_event
  start-phase p =
      let s = E.runs.initialize_conditions p.run.status in
      elim (Bool-cases (E.runs.has_started p.run.status)) [
        | inl h ↦ rw h (inl refl)
        | inr h ↦ rw h (
            inr (
              ap phase_of (
                readable.condition_conditions s _
                  ((adjust_start_time_kept E stable p.run.meta.creation_timestamp s).0))
              ∙ readable.initialize_phase p.run.status))
      ]

  failed_phase :
      (reason message : String) (s : RunStatus R)
      → phase_of (E.runs.get_condition (E.runs.mark_run_failed reason message s)) ≡ failure
  failed_phase reason message s = ap phase_of (lawful.condition_failed reason message s)

  reading_phase :
      (p : Pass E) (r : Returned (TaskGroupRunStatus T R))
      → (phase E (decoded E r p) ≡ phase E p) ⊎ (phase E (decoded E r p) ≡ failure)
  unfolding decoded
  reading_phase p (s, none) = inl refl
  reading_phase p (s, some e) = inr (failed_phase _ _ p.run.status)

  encoded-phase :
      (c : Option Condition) (p : Pass E) (r : Result (RunStatus R))
      → E.runs.encode_extra_fields p.status p.run.status ≡ r
      → (phase E (emit_event E c (encoded E r p)) ≡ phase E p)
        ⊎ (phase E (emit_event E c (encoded E r p)) ≡ failure)
  unfolding emit_event encoded
  encoded-phase c p (ok s) e = inl (
      ap phase_of (
        readable.condition_conditions p.run.status s
          (stable.encode_conditions p.status p.run.status s e)))
  encoded-phase c p (err x) e = inr (failed_phase _ _ p.run.status)

  -- The phase after the pass is that before it, or one of the others, each for its reason.
  data Fate (p : Pass E) (x y : Phase) : Type 0 where
    same : y ≡ x → Fate p x y
    fails : y ≡ failure → Fate p x y
    runs_on : y ≡ ongoing → Fate p x y
    succeeds : y ≡ success → Achieved E p → Fate p x y

  Fate-Edge :
      (p : Pass E) (x y z : Phase)
      → (y ≡ x) ⊎ (y ≡ begun x)
      → is_final y ≡ false
      → Fate p y z
      → Edge E p x z
  Fate-Edge p pending y z (inl e) more (same f) = subst (Edge E p pending) (sym (f ∙ e)) stay
  Fate-Edge p pending y z (inr e) more (same f) = subst (Edge E p pending) (sym (f ∙ e)) begin
  Fate-Edge p pending y z e more (fails f) = subst (Edge E p pending) (sym f) (fail refl)
  Fate-Edge p pending y z e more (runs_on f) = subst (Edge E p pending) (sym f) begin
  Fate-Edge p pending y z e more (succeeds f a) = subst (Edge E p pending) (sym f) (succeed refl a)
  Fate-Edge p ongoing y z (inl e) more (same f) = subst (Edge E p ongoing) (sym (f ∙ e)) stay
  Fate-Edge p ongoing y z (inr e) more (same f) = subst (Edge E p ongoing) (sym (f ∙ e)) stay
  Fate-Edge p ongoing y z e more (fails f) = subst (Edge E p ongoing) (sym f) (fail refl)
  Fate-Edge p ongoing y z e more (runs_on f) = subst (Edge E p ongoing) (sym f) stay
  Fate-Edge p ongoing y z e more (succeeds f a) = subst (Edge E p ongoing) (sym f) (succeed refl a)
  Fate-Edge p success y z e more f = absurd (ground arith)
  Fate-Edge p failure y z e more f = absurd (ground arith)

  decoded_Listed :
      (p : Pass E) (r : Returned (TaskGroupRunStatus T R)) (found : Result (List (TaskRun T R)))
      → Listed E (decoded E r p) found
      → Listed E p found
  unfolding decoded get_task_run_labels
  decoded_Listed p (s, none) found h = h
  decoded_Listed p (s, some e) found h = h

  reading_Listed :
      (p : Pass E) (found : Result (List (TaskRun T R)))
      → Listed E (reading E p) found
      → Listed E p found
  reading_Listed p found h = decoded_Listed p _ found h

  stays : (p : Pass E) (x y : Phase) → (y ≡ x) ⊎ (y ≡ begun x) → is_final y ≡ true → Edge E p x y
  stays p x y (inl e) done = subst (Edge E p x) (sym e) stay
  stays p pending y (inr e) done = subst (Edge E p pending) (sym e) begin
  stays p ongoing y (inr e) done = subst (Edge E p ongoing) (sym e) stay
  stays p success y (inr e) done = subst (Edge E p success) (sym e) stay
  stays p failure y (inr e) done = subst (Edge E p failure) (sym e) stay

  Verdict-Fate :
      (p q : Pass E)
      → (phase E (reading E p) ≡ phase E p) ⊎ (phase E (reading E p) ≡ failure)
      → Verdict E (reading E p) q
      → Fate p (phase E p) (phase E q)
  unfolding decoded
  Verdict-Fate p q (inl e) (left alike same' has) =
      same (ap phase_of (readable.condition_conditions _ q.run.status alike.conditions) ∙ e)
  Verdict-Fate p q (inr e) (left alike same' has) =
      fails (ap phase_of (readable.condition_conditions _ q.run.status alike.conditions) ∙ e)
  Verdict-Fate p q d (failed r m s e le has) =
      fails (ap (λ x. phase_of (E.runs.get_condition x)) e ∙ failed_phase r m s)
  Verdict-Fate p q d (succeeded r m s tr e same' listed done good has) =
      succeeds
        (ap (λ x. phase_of (E.runs.get_condition x)) e
          ∙ ap phase_of (lawful.condition_succeeded r m s))
        (record {
          task_run = tr;
          listed = reading_Listed p (ok (tr ∷ [])) listed;
          done = done;
          successful = good;
        })
  Verdict-Fate p q d (running r m s t e le has) =
      runs_on (
        ap (λ x. phase_of (E.runs.get_condition x)) e
        ∙ ap phase_of (lawful.condition_running r m s))

  ended-Fate :
      (p q r : Pass E)
      → (phase E r ≡ phase E q) ⊎ (phase E r ≡ failure)
      → Fate p (phase E p) (phase E q)
      → Fate p (phase E p) (phase E r)
  ended-Fate p q r (inr e) f = fails e
  ended-Fate p q r (inl e) f = subst (Fate p (phase E p)) (sym e) f

  converge-Fate : (p : Pass E) → Fate p (phase E p) (phase E (converge E p).1)
  converge-Fate p =
      let q = (reconcile E (reading E p)).1 in
      let u = (patched E p).1 in
      let (run, status, same') = patched_kept E p in
      let fate = Verdict-Fate p q (reading_phase p _) (reconcile-Verdict E (reading E p)) in
      rw (converge-ended E p) (
        ended-Fate p u (ended E (E.runs.get_condition p.run.status) u)
          (encoded-phase (E.runs.get_condition p.run.status) u _ refl) (rw run fate))

  pass_on-Edge :
      (p : Pass E) (x : Phase)
      → (phase E p ≡ x) ⊎ (phase E p ≡ begun x)
      → Edge E p x (phase E (pass_on E p).1)
  unfolding pass_on
  pass_on-Edge p x e = elim (Bool-cases (E.runs.is_done p.run.status)) [
    | inl done ↦ rw done (stays p x (phase E p) e (sym (readable.done_phase p.run.status) ∙ done))
    | inr more ↦ rw more (
        Fate-Edge p x (phase E p) _ e (sym (readable.done_phase p.run.status) ∙ more)
          (converge-Fate p))
  ]

  -- Every call of `ReconcileKind`, whatever the API server answers, keeps the phase of the Run or
  -- follows the diagram: a Run that has succeeded or failed stays so, no Run goes back to pending,
  -- and a Run succeeds only where the lister finds one TaskRun for it, which is done and
  -- successful.
  pub reconcile_kind-Edge :
      (p : Pass E) → Edge E (start E p) (phase E p) (phase E (reconcile_kind E p).1)
  unfolding reconcile_kind
  reconcile_kind-Edge p = elim (Bool-cases (is_foreign E p.run)) [
    | inl foreign ↦ rw foreign stay
    | inr ours ↦ rw ours (pass_on-Edge (start E p) (phase E p) (start-phase p))
  ]
