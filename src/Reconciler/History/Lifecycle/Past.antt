-- ===== src/Reconciler/History/Lifecycle/Past.antt =====
-- What the phase of a Run says of the passes before.
use tekton_task_group.Base.{◌≡◌, refl, sym, ap, ◌∙◌, true, false, Bool-cases, inl, inr}
use tekton_task_group.Upstream.{Types}
use tekton_task_group.Upstream.Run.{RunTypes}
use tekton_task_group.Reconciler.Env.{Env, IsLawful}
use tekton_task_group.Reconciler.Pass.{Pass}
use tekton_task_group.Reconciler.Kind.{start, pass_on, is_foreign, reconcile_kind}
use tekton_task_group.Reconciler.Kind.Counting.{asked}
use tekton_task_group.Reconciler.Kind.Creations.{asked-start}
use tekton_task_group.Reconciler.History.{IsStable, Continues, History, first, again}
use tekton_task_group.Reconciler.History.Turn.{start_kept}
use tekton_task_group.Reconciler.History.Lifecycle.{
  Phase, success, phase_of, is_final, IsReadable, phase, Achieved, Edge, stay, begin, fail, succeed,
}
use tekton_task_group.Reconciler.History.Lifecycle.Follows.{reconcile_kind-Edge}

module _ {T : Types} {R : RunTypes} (E : Env T R) (lawful : IsLawful E.runs)
    (stable : IsStable E.runs) (readable : IsReadable E.runs) where
  pub Continues-phase : {p q : Pass E} → Continues E p q → phase E q ≡ phase E p
  Continues-phase next = ap phase_of (next.condition_kept)

  -- Between `p` and `q` there was a pass `r`, which had its TaskRun done and successful: the passes
  -- from `p` lead to it, and those that go on with what it left lead to `q`.
  pub record Succeeded (p q : Pass E) : Type 0 where
    pub pass : Pass E
    pub next_pass : Pass E
    pub before : History E (Continues E) p pass
    pub continued : Continues E (reconcile_kind E pass).1 next_pass
    pub after : History E (Continues E) next_pass q
    pub achieved : Achieved E (start E pass)

  Succeeded-again :
      {p q r : Pass E} → Succeeded p q → Continues E (reconcile_kind E q).1 r → Succeeded p r
  Succeeded-again h next = record {
    pass = h.pass;
    next_pass = h.next_pass;
    before = h.before;
    continued = h.continued;
    after = again h.after next;
    achieved = h.achieved;
  }

  Edge-Succeeded :
      (p q r : Pass E) (x y : Phase)
      → Edge E (start E q) x y
      → History E (Continues E) p q
      → Continues E (reconcile_kind E q).1 r
      → (x ≡ success → Succeeded p q)
      → y ≡ success
      → Succeeded p r
  Edge-Succeeded p q r x y stay past next ih e = Succeeded-again (ih e) next
  Edge-Succeeded p q r x y begin past next ih e = cc
  Edge-Succeeded p q r x y (fail more) past next ih e = cc
  Edge-Succeeded p q r x y (succeed more a) past next ih e = record {
    pass = q;
    next_pass = r;
    before = past;
    continued = next;
    after = first;
    achieved = a;
  }

  -- A Run that was neither done nor failed at first, and is succeeded after any number of passes,
  -- had a pass among these, before the one that finds it succeeded, at which the lister found one
  -- TaskRun for it, done and successful.
  pub History-Succeeded :
      {p q : Pass E}
      → History E (Continues E) p q
      → is_final (phase E p) ≡ false
      → phase E q ≡ success
      → Succeeded p q
  History-Succeeded first more e = cc (ap is_final e)
  History-Succeeded {p} {q = r} (again {q} past next) more e =
      Edge-Succeeded p q r (phase E q) (phase E (reconcile_kind E q).1)
        (reconcile_kind-Edge E lawful stable readable q) past next (History-Succeeded past more)
        (sym (Continues-phase next) ∙ e)

  Edge-final : (p : Pass E) (x y : Phase) → Edge E p x y → is_final x ≡ true → y ≡ x
  Edge-final p x y stay e = refl
  Edge-final p x y begin e = cc
  Edge-final p x y (fail more) e = cc
  Edge-final p x y (succeed more a) e = cc

  asked-pass_on_done :
      (p : Pass E) → E.runs.is_done p.run.status ≡ true → asked E (pass_on E p).1 ≡ asked E p
  unfolding pass_on
  asked-pass_on_done p h = rw h

  -- A pass over a Run that is done.
  final_kept :
      (p : Pass E)
      → is_final (phase E p) ≡ true
      → (phase E (reconcile_kind E p).1 ≡ phase E p) × (asked E (reconcile_kind E p).1 ≡ asked E p)
  unfolding reconcile_kind
  final_kept p h = (
    Edge-final (start E p) (phase E p) _ (reconcile_kind-Edge E lawful stable readable p) h,
    elim (Bool-cases (is_foreign E p.run)) [
      | inl foreign ↦ rw foreign
      | inr ours ↦ rw ours (
          asked-pass_on_done (start E p)
            ((start_kept E stable p).1 (readable.done_phase p.run.status ∙ h))
          ∙ asked-start E p)
    ],
  )

  -- A Run that has succeeded or failed stays as it is, and asks for no TaskRun, whatever number
  -- of passes is made over it.
  pub History-final :
      {p q : Pass E}
      → History E (Continues E) p q
      → is_final (phase E p) ≡ true
      → (phase E q ≡ phase E p) × (asked E q ≡ asked E p)
  History-final first h = (refl, refl)
  History-final {p} (again {q} {r} past next) h =
      let (same, none_asked) = History-final past h in
      let (same', none_asked') = final_kept q (ap is_final same ∙ h) in
      (Continues-phase next ∙ same' ∙ same, rw (next.calls_kept) (none_asked' ∙ none_asked))
