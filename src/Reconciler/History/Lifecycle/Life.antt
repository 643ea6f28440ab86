-- ===== src/Reconciler/History/Lifecycle/Life.antt =====
-- The life of a Run, from the pass that asks for its TaskRun to all that follow its end.
use tekton_task_group.Base.{arith, ◌+◌, ◌≡◌, ap, ◌∙◌, true, [], ◌∷◌, some, Bool-cases, inl, inr}
use tekton_task_group.Upstream.{Types}
use tekton_task_group.Upstream.Run.{RunTypes, TaskRun}
use tekton_task_group.Reconciler.Env.{Env, IsLawful}
use tekton_task_group.Reconciler.Pass.{Pass, create_task_run}
use tekton_task_group.Reconciler.Kind.{reconcile, start, converge, reconcile_kind}
use tekton_task_group.Reconciler.Kind.Counting.{asked, creations, creations-append}
use tekton_task_group.Reconciler.Kind.Converge.{reading, patched, converge-ended}
use tekton_task_group.Reconciler.Kind.Creation.{wanted, reconcile_creates}
use tekton_task_group.Reconciler.History.{
  IsStable, Encodes, Continues, Restarts, History, first, again,
}
use tekton_task_group.Reconciler.History.Turn.{IsRecorded, patched_kept}
use tekton_task_group.Reconciler.History.Recorded.{History-kept, same_fields, encoded-IsRecorded}
use tekton_task_group.Reconciler.History.Lifecycle.{ongoing, phase_of, is_final, IsReadable, phase}
use tekton_task_group.Reconciler.History.Lifecycle.Past.{History-final, Continues-phase}
use tekton_task_group.Reconciler.History.Lifecycle.Ends.{
  given, Creates, Concludes, end_of, Concludes-phase, phase-reconcile_kind, asked-reconcile_kind,
  asked-given, reconcile_kind_open,
}

module _ {T : Types} {R : RunTypes} (E : Env T R) where
  Restarted : {p q : Pass E} → Continues E p q → Restarts E p q
  Restarted next = record { fields_kept = next.fields_kept; calls_kept = next.calls_kept }

  all_Restarts : {p q : Pass E} → History E (Continues E) p q → History E (Restarts E) p q
  all_Restarts first = first
  all_Restarts (again past next) = again (all_Restarts past) (Restarted next)

  is_final-end_of : (tr : TaskRun T R) → is_final (end_of E tr) ≡ true
  is_final-end_of tr = elim (Bool-cases (E.task_runs.is_successful tr)) [
    | inl good ↦ rw good
    | inr bad ↦ rw bad
  ]

module _ {T : Types} {R : RunTypes} (E : Env T R) (lawful : IsLawful E.runs)
    (stable : IsStable E.runs) (readable : IsReadable E.runs) (encodes : Encodes E.runs) where
  converge-IsRecorded :
      (p : Pass E) (t : R.TaskRunStatus)
      → (reconcile E (reading E p)).1.status.task_run ≡ some t
      → IsRecorded E (converge E p).1.run.status
  converge-IsRecorded p t h =
      let q = (patched E p).1 in
      let (run, status, same) = patched_kept E p in
      let r = encodes q.status q.run.status in
      rw (converge-ended E p, r.1)
        (encoded-IsRecorded E stable encodes (E.runs.get_condition p.run.status) q t r
          (ap (λ x. x.task_run) status ∙ h))

  -- The pass that asks for the TaskRun.
  Creates-phase :
      (p : Pass E)
      → Creates E p
      → (phase E (reconcile_kind E p).1 ≡ ongoing)
        × (asked E (reconcile_kind E p).1 ≡ asked E p + 1)
        × IsRecorded E (reconcile_kind E p).1.run.status
  Creates-phase p h =
      let q = given E p in
      let task_run = wanted E q h.meta h.spec h.task in
      let (e, c, calls, s) =
        reconcile_creates E q h.meta h.spec lawful h.used h.task h.task_run h.unstarted h.fetched
          h.resolved h.taken in
      (
        phase-reconcile_kind E lawful stable readable encodes p h.is_open ∙ ap phase_of c,
        asked-reconcile_kind E lawful stable readable encodes p h.is_open
            ∙ ap creations calls
            ∙ creations-append q.calls (create_task_run task_run ∷ [])
            ∙ ap (λ n. n + 1) (asked-given E lawful stable readable encodes p),
        rw (reconcile_kind_open E lawful stable readable encodes p h.is_open)
            (converge-IsRecorded (start E p) h.task_run.status s),
      )

  -- A Run whose task group is found, valid and resolved, and whose TaskRun the API server takes, is
  -- ongoing after that pass. Once a later pass finds that TaskRun, or any one of the Run, done and
  -- alone, the Run is succeeded or failed as the TaskRun is after that pass and after all passes
  -- that follow, and exactly one TaskRun was asked for in all of them. Between the two passes, and
  -- after them, there may be any number of passes over any world, each of which begins with the
  -- condition and the extra fields that the last one left.
  pub History-ends :
      {p q r s t : Pass E} {tr : TaskRun T R}
      → Creates E p
      → Continues E (reconcile_kind E p).1 q
      → History E (Continues E) q r
      → Concludes E r tr
      → Continues E (reconcile_kind E r).1 s
      → History E (Continues E) s t
      → (phase E q ≡ ongoing) × (phase E t ≡ end_of E tr) × (asked E t ≡ asked E p + 1)
  History-ends {p} {q} {r} {s} {t} {tr} creates to_q past concludes to_s later =
      let (begins, one, recorded) = Creates-phase p creates in
      let kept =
        same_fields E stable encodes (reconcile_kind E p).1.run.status q.run.status to_q.fields_kept
          recorded in
      let (none_asked, still) = History-kept E stable encodes (all_Restarts E past) kept in
      let (ended, none_asked') = Concludes-phase E lawful stable readable encodes r tr concludes in
      let at_s : phase E s ≡ end_of E tr = Continues-phase E lawful stable readable to_s ∙ ended in
      let (stays, none_asked'') =
        History-final E lawful stable readable later (ap is_final at_s ∙ is_final-end_of E tr) in
      (
        Continues-phase E lawful stable readable to_q ∙ begins,
        stays ∙ at_s,
        none_asked''
            ∙ ap creations to_s.calls_kept
            ∙ none_asked'
            ∙ none_asked
            ∙ ap creations to_q.calls_kept
            ∙ one,
      )

  -- Without that condition a Run may get two TaskRuns: two passes that both begin with no TaskRun in
  -- the status and none in what the lister finds, as with caches that lag, ask for two.
  pub Creates-again :
      {p q : Pass E}
      → Creates E p
      → Creates E q
      → q.calls ≡ (reconcile_kind E p).1.calls
      → asked E (reconcile_kind E q).1 ≡ asked E p + 2
  Creates-again {p} {q} once twice same =
      let (begins, one, recorded) = Creates-phase p once in
      let (begins', one', recorded') = Creates-phase q twice in
      omega (arith, one', ap creations same, one)
