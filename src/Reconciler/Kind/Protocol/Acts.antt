-- ===== src/Reconciler/Kind/Protocol/Acts.antt =====
-- What one pass does about the TaskRun.
use tekton_task_group.Base.{
  ◌≡◌, refl, sym, ap, ◌∙◌, String, Bool, true, false, List, [], ◌∷◌, ◌++◌, append-nil, Option, none,
  some, Result, ok, err, Bool-cases, inl, inr, Returned, subst, Error,
}
use tekton_task_group.Upstream.{Types, TaskSpec, ObjectMeta}
use tekton_task_group.Upstream.Run.{RunTypes, TaskRun}
use tekton_task_group.Api.{TaskGroupSpec}
use tekton_task_group.Api.Validation.{validate_spec}
use tekton_task_group.Resolve.Task.{UsedTasks}
use tekton_task_group.Reconciler.Labels.{propagate, get_task_run_labels}
use tekton_task_group.Reconciler.Env.{Env}
use tekton_task_group.Reconciler.Pass.{Pass, cancel_task_run}
use tekton_task_group.Reconciler.Create.{
  create, create_fetched, create_resolved, request_task_run, get_task_group,
}
use tekton_task_group.Reconciler.Observe.{
  observe, conclude, record_task_run, process_task_run, update_task_run_status,
}
use tekton_task_group.Reconciler.Observe.Laws.{
  record_task_run_lem, process_task_run-calls, to_cancel,
}
use tekton_task_group.Reconciler.Kind.{
  create_unless, create_if_none, store_task_group_spec, settle, run_spec, run_found, reconcile,
}
use tekton_task_group.Reconciler.Kind.Counting.{conclude_asked, get_task_group_asked}
use tekton_task_group.Reconciler.Kind.Creations.{store_created_asked}
use tekton_task_group.Reconciler.Kind.Protocol.{Acted, stands_by, creates, cancels}

module _ {T : Types} {R : RunTypes} (E : Env T R) where
  create_resolved-Acted :
      (r : Returned (TaskSpec T)) (p : Pass E) → Acted p.calls (create_resolved E r p).1.calls
  unfolding create_resolved request_task_run
  create_resolved-Acted (spec, none) p = creates _ refl
  create_resolved-Acted (spec, some e) p = stands_by refl

  create_fetched-Acted :
      (spec : TaskGroupSpec T) (r : Result (UsedTasks T)) (p : Pass E)
      → Acted p.calls (create_fetched E spec r p).1.calls
  unfolding create_fetched
  create_fetched-Acted spec (ok used) p = create_resolved-Acted _ p
  create_fetched-Acted spec (err e) p = stands_by refl

  create_unless-Acted :
      (s : Option R.TaskRunStatus) (meta : ObjectMeta) (spec : TaskGroupSpec T) (p : Pass E)
      → Acted p.calls (create_unless E s meta spec p).1.calls
  unfolding create_unless create
  create_unless-Acted none meta spec p =
      subst (Acted p.calls) (sym (store_created_asked E meta (create E spec p)))
        (create_fetched-Acted spec _ p)
  create_unless-Acted (some s) meta spec p = stands_by refl

  -- After the lister was asked: nothing was called, or a TaskRun was cancelled, which is then
  -- recorded.
  data Observed (p q : Pass E) : Type 0 where
    none_cancelled : q.calls ≡ p.calls → Observed p q
    one_cancelled :
        (name : String) (s : R.TaskRunStatus)
        → q.calls ≡ p.calls ++ cancel_task_run name ∷ []
        → q.status.task_run ≡ some s
        → Observed p q

  conclude_status :
      (tr : TaskRun T R) (r : Option Error × Pass E) → (conclude E tr r).1.status ≡ r.1.status
  unfolding conclude
  conclude_status tr (none, p) = refl
  conclude_status tr (some e, p) = refl

  conclude-Observed :
      (tr : TaskRun T R) (p : Pass E)
      → Observed p (conclude E tr (process_task_run E tr (record_task_run E tr p))).1
  conclude-Observed tr p =
      let q = record_task_run E tr p in
      let (calls, _, status) = process_task_run-calls E tr q in
      let (kept, recorded) = record_task_run_lem E tr p in
      let same = conclude_asked E tr (process_task_run E tr q) in
      elim (Bool-cases (to_cancel E tr q)) [
        | inl h ↦
            one_cancelled tr.meta.name tr.status
              (same ∙ (rw h at calls) ∙ ap (λ c. c ++ cancel_task_run tr.meta.name ∷ []) kept)
              (ap (λ (s : _). s.task_run) (conclude_status tr (process_task_run E tr q) ∙ status)
                ∙ recorded)
        | inr h ↦ none_cancelled (same ∙ (rw h at calls) ∙ append-nil q.calls ∙ kept)
      ]

  observe-Observed :
      (found : Result (List (TaskRun T R))) (p : Pass E) → Observed p (observe E found p).1
  unfolding observe
  observe-Observed (err e) p = none_cancelled refl
  observe-Observed (ok []) p = none_cancelled refl
  observe-Observed (ok (tr ∷ [])) p = conclude-Observed tr p
  observe-Observed (ok (a ∷ b ∷ rest)) p = none_cancelled refl

  Observed-Acted : (p q : Pass E) → Observed p q → Acted p.calls q.calls
  Observed-Acted p q (none_cancelled h) = stands_by h
  Observed-Acted p q (one_cancelled name s h recorded) = cancels name h

  -- What follows the observation creates nothing where a TaskRun is recorded.
  settled-Acted :
      (p q : Pass E) (meta : ObjectMeta) (spec : TaskGroupSpec T) (t : Pass E)
      → Observed p q
      → t.calls ≡ q.calls
      → t.status ≡ q.status
      → Acted p.calls (create_unless E t.status.task_run meta spec t).1.calls
  unfolding create_unless
  settled-Acted p q meta spec t (none_cancelled h) calls status =
      subst (λ c. Acted c (create_unless E t.status.task_run meta spec t).1.calls) (calls ∙ h)
        (create_unless-Acted t.status.task_run meta spec t)
  settled-Acted p q meta spec t (one_cancelled name s h recorded) calls status =
      rw (ap (λ (s : _). s.task_run) status, recorded) (cancels name (calls ∙ h))

  settle-Acted :
      (p : Pass E) (meta : ObjectMeta) (spec : TaskGroupSpec T) (r : Result (Bool × Bool) × Pass E)
      → Observed p r.1
      → Acted p.calls (settle E meta spec r).1.calls
  unfolding settle create_if_none
  settle-Acted p meta spec (err e, q) h = Observed-Acted p q h
  settle-Acted p meta spec (ok (true, true), q) h = Observed-Acted p q h
  settle-Acted p meta spec (ok (true, false), q) h = Observed-Acted p q h
  settle-Acted p meta spec (ok (false, _), q) h = settled-Acted p q meta spec _ h refl refl

  run_spec-Acted :
      (meta : ObjectMeta) (spec : TaskGroupSpec T) (p : Pass E)
      → Acted p.calls (run_spec E meta spec p).1.calls
  unfolding run_spec update_task_run_status
  run_spec-Acted meta spec p =
      let q = record p {
        status = store_task_group_spec p.status spec;
        run = propagate p.run meta;
      } in
      let seen =
        observe-Observed
          (E.cluster.list_task_runs q.world q.run.meta.namespace (get_task_run_labels q.run false))
          q in
      elim (Bool-cases (E.fields.is_nil (validate_spec E.validators spec))) [
        | inl h ↦ rw h (settle-Acted q meta spec (update_task_run_status E q) seen)
        | inr h ↦ rw h (stands_by refl)
      ]

  run_found-Acted :
      (r : Result (ObjectMeta × TaskGroupSpec T) × Pass E) → Acted r.1.calls (run_found E r).1.calls
  unfolding run_found
  run_found-Acted (ok (meta, spec), p) = run_spec-Acted meta spec p
  run_found-Acted (err e, p) = stands_by refl

  pub reconcile-Acted : (p : Pass E) → Acted p.calls (reconcile E p).1.calls
  unfolding reconcile
  reconcile-Acted p =
      subst (λ c. Acted c (reconcile E p).1.calls) (get_task_group_asked E p)
        (run_found-Acted (get_task_group E p))
