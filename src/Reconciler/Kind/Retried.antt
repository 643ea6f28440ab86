-- ===== src/Reconciler/Kind/Retried.antt =====
-- The errors that `reconcile` hands back, for which the pass is made again.
use tekton_task_group.Base.{
  ◌≡◌, refl, sym, ap, ◌∙◌, Bool, true, false, Option, none, some, Error, Result, ok, err,
  Bool-cases, ◌⊎◌, inl, inr,
}
use tekton_task_group.Upstream.{Types, ObjectMeta}
use tekton_task_group.Upstream.Run.{RunTypes, TaskRun}
use tekton_task_group.Api.{TaskGroupSpec}
use tekton_task_group.Api.Validation.{validate_spec}
use tekton_task_group.Reconciler.Labels.{propagate, get_task_run_labels}
use tekton_task_group.Reconciler.Env.{Env}
use tekton_task_group.Reconciler.Pass.{Pass}
use tekton_task_group.Reconciler.Create.{create, get_task_group}
use tekton_task_group.Reconciler.Observe.{update_task_run_status}
use tekton_task_group.Reconciler.Kind.{
  store_created, create_unless, create_if_none, store_task_group_spec, settle, run_spec, run_found,
  reconcile,
}
use tekton_task_group.Reconciler.Kind.Counting.{
  asked, asked-observe, get_task_group_asked, creations,
}

module _ {T : Types} {R : RunTypes} (E : Env T R) where
  -- An action on the pass hands back no error, or it asked for no TaskRun.
  abbrev Settled : Pass E → Option Error × Pass E → Type 0
  Settled p r = (r.0 ≡ none) ⊎ (asked E r.1 ≡ asked E p)

  store_created-none :
      (meta : ObjectMeta) (r : Result (TaskRun T R) × Pass E) → (store_created E meta r).0 ≡ none
  unfolding store_created
  store_created-none meta (ok tr, p) = refl
  store_created-none meta (err e, p) = refl

  create_unless-none :
      (s : Option R.TaskRunStatus) (meta : ObjectMeta) (spec : TaskGroupSpec T) (p : Pass E)
      → (create_unless E s meta spec p).0 ≡ none
  unfolding create_unless
  create_unless-none none meta spec p = store_created-none meta (create E spec p)
  create_unless-none (some s) meta spec p = refl

  settle-Settled :
      (meta : ObjectMeta) (spec : TaskGroupSpec T) (r : Result (Bool × Bool) × Pass E)
      → Settled r.1 (settle E meta spec r)
  unfolding settle create_if_none
  settle-Settled meta spec (err e, p) = inr refl
  settle-Settled meta spec (ok (true, true), p) = inl refl
  settle-Settled meta spec (ok (true, false), p) = inl refl
  settle-Settled meta spec (ok (false, _), p) =
      inl (create_unless-none p.status.task_run meta spec _)

  Settled-before :
      (p q : Pass E) (r : Option Error × Pass E) → asked E p ≡ asked E q → Settled p r → Settled q r
  Settled-before p q r e (inl h) = inl h
  Settled-before p q r e (inr h) = inr (h ∙ e)

  run_spec-Settled :
      (meta : ObjectMeta) (spec : TaskGroupSpec T) (p : Pass E) → Settled p (run_spec E meta spec p)
  unfolding run_spec update_task_run_status
  run_spec-Settled meta spec p =
      let q = record p {
        status = store_task_group_spec p.status spec;
        run = propagate p.run meta;
      } in
      elim (Bool-cases (E.fields.is_nil (validate_spec E.validators spec))) [
        | inl h ↦ rw h (
            Settled-before (update_task_run_status E q).1 p
              (settle E meta spec (update_task_run_status E q))
              (asked-observe E
                (E.cluster.list_task_runs q.world q.run.meta.namespace
                  (get_task_run_labels q.run false))
                q)
              (settle-Settled meta spec (update_task_run_status E q)))
        | inr h ↦ rw h (inl refl)
      ]

  run_found-Settled :
      (r : Result (ObjectMeta × TaskGroupSpec T) × Pass E) → Settled r.1 (run_found E r)
  unfolding run_found
  run_found-Settled (ok (meta, spec), p) = run_spec-Settled meta spec p
  run_found-Settled (err e, p) = inr refl

  reconcile-Settled : (p : Pass E) → Settled p (reconcile E p)
  unfolding reconcile
  reconcile-Settled p =
      Settled-before (get_task_group E p).1 p (reconcile E p)
        (ap creations (get_task_group_asked E p)) (run_found-Settled (get_task_group E p))

  one_of :
      (p : Pass E) (e : Error) (r : Option Error × Pass E)
      → r.0 ≡ some e
      → Settled p r
      → asked E r.1 ≡ asked E p
  one_of p e r h (inl none_back) = cc (sym none_back ∙ h)
  one_of p e r h (inr same) = same

  -- Whatever the task group is and whatever the API server answers, `reconcile` asks for no TaskRun
  -- where it hands back an error. So a TaskRun is never asked for in a call that is made again for
  -- an error of `reconcile`.
  pub reconcile_retried :
      (p : Pass E) (e : Error) → (reconcile E p).0 ≡ some e → asked E (reconcile E p).1 ≡ asked E p
  reconcile_retried p e h = one_of p e (reconcile E p) h (reconcile-Settled p)
