-- ===== src/Reconciler/Kind/Single.antt =====
-- `reconcile` asks for no second TaskRun.
use tekton_task_group.Base.{
  ◌≡◌, refl, ap, ◌∙◌, Bool, true, false, List, [], ◌∷◌, Option, none, some, Error, Result, ok, err,
  ◌⊎◌, if◌then◌else◌, ◌==◌, inl, inr, Bool-cases,
}
use tekton_task_group.Upstream.{Types, ObjectMeta}
use tekton_task_group.Upstream.Run.{RunTypes, TaskRun, RunRef, EmbeddedRunSpec}
use tekton_task_group.Api.{TaskGroupSpec}
use tekton_task_group.Api.Validation.{validate_spec}
use tekton_task_group.Reconciler.Labels.{propagate, get_task_run_labels}
use tekton_task_group.Reconciler.Env.{Env}
use tekton_task_group.Reconciler.Pass.{Pass}
use tekton_task_group.Reconciler.Create.{
  get_task_group, get_referenced, get_embedded, got, could_not_get,
}
use tekton_task_group.Reconciler.Observe.{
  observe, conclude, record_task_run, process_task_run, update_task_run_status,
}
use tekton_task_group.Reconciler.Observe.Laws.{Listed, record_task_run_lem, process_task_run-calls}
use tekton_task_group.Reconciler.Kind.{
  settle, create_unless, create_if_none, run_spec, run_found, reconcile,
}
use tekton_task_group.Reconciler.Kind.Counting.{creations, asked-observe, get_task_group_asked}
use tekton_task_group.Reconciler.Kind.Outcome.{stored}
use tekton_task_group.Reconciler.Kind.Creation.{store_task_group_spec-task_run}

module _ {T : Types} {R : RunTypes} (E : Env T R) where
  create_unless-some :
      (o : Option R.TaskRunStatus) (s : R.TaskRunStatus) (meta : ObjectMeta)
      (spec : TaskGroupSpec T) (p : Pass E)
      → o ≡ some s
      → create_unless E o meta spec p ≡ (none, p)
  unfolding create_unless
  create_unless-some o s meta spec p h = rw h

  settle_known :
      (meta : ObjectMeta) (spec : TaskGroupSpec T) (r : Result (Bool × Bool) × Pass E)
      (s : R.TaskRunStatus)
      → r.1.status.task_run ≡ some s
      → (settle E meta spec r).1.calls ≡ r.1.calls
  unfolding settle create_if_none
  settle_known meta spec (err e, p) s h = refl
  settle_known meta spec (ok (true, true), p) s h = refl
  settle_known meta spec (ok (true, false), p) s h = refl
  settle_known meta spec (ok (false, _), p) s h =
      ap (λ x. x.1.calls) (create_unless-some p.status.task_run s meta spec _ h)

  conclude_status :
      (tr : TaskRun T R) (r : Option Error × Pass E) → (conclude E tr r).1.status ≡ r.1.status
  unfolding conclude
  conclude_status tr (none, p) = refl
  conclude_status tr (some e, p) = refl

  -- After the TaskRuns were looked at, the status has one if it had one or a single one is listed.
  observe_known :
      (found : Result (List (TaskRun T R))) (p : Pass E) (s : R.TaskRunStatus)
      → p.status.task_run ≡ some s
      → (t : R.TaskRunStatus) × ((observe E found p).1.status.task_run ≡ some t)
  unfolding observe
  observe_known (err e) p s h = (s, h)
  observe_known (ok []) p s h = (s, h)
  observe_known (ok (tr ∷ [])) p s h = (
    tr.status,
    ap (λ t. t.task_run)
          (conclude_status tr (process_task_run E tr (record_task_run E tr p))
            ∙ (process_task_run-calls E tr (record_task_run E tr p)).2)
        ∙ (record_task_run_lem E tr p).1,
  )
  observe_known (ok (a ∷ b ∷ rest)) p s h = (s, h)

  -- The status of the pass has a TaskRun, or the lister finds one.
  abbrev pub HasTaskRun : Pass E → Type 0
  HasTaskRun p =
      ((s : R.TaskRunStatus) × (p.status.task_run ≡ some s))
      ⊎ ((tr : TaskRun T R) × (rest : List (TaskRun T R)) × Listed E p (ok (tr ∷ rest)))

  observe_listed :
      (meta : ObjectMeta) (spec : TaskGroupSpec T) (tr : TaskRun T R) (rest : List (TaskRun T R))
      (p : Pass E)
      → (settle E meta spec (observe E (ok (tr ∷ rest)) p)).1.calls
        ≡ (observe E (ok (tr ∷ rest)) p).1.calls
  unfolding settle observe
  observe_listed meta spec tr [] p =
      let q = record_task_run E tr p in
      settle_known meta spec (conclude E tr (process_task_run E tr q)) tr.status (
        ap (λ t. t.task_run)
          (conclude_status tr (process_task_run E tr q) ∙ (process_task_run-calls E tr q).2)
        ∙ (record_task_run_lem E tr p).1)
  observe_listed meta spec a (b ∷ rest) p = refl

  settle_single :
      (meta : ObjectMeta) (spec : TaskGroupSpec T) (p : Pass E)
      → HasTaskRun p
      → creations (settle E meta spec (update_task_run_status E p)).1.calls ≡ creations p.calls
  unfolding update_task_run_status
  settle_single meta spec p (inl (s, h)) =
      let found =
        E.cluster.list_task_runs p.world p.run.meta.namespace (get_task_run_labels p.run false) in
      let (t, k) = observe_known found p s h in
      ap creations (settle_known meta spec (observe E found p) t k) ∙ asked-observe E found p
  settle_single meta spec p (inr (tr, rest, h)) =
      rw h (ap creations (observe_listed meta spec tr rest p) ∙ asked-observe E (ok (tr ∷ rest)) p)

  run_spec_single :
      (meta : ObjectMeta) (spec : TaskGroupSpec T) (p : Pass E)
      → HasTaskRun p
      → creations (run_spec E meta spec p).1.calls ≡ creations p.calls
  unfolding run_spec get_task_run_labels propagate
  run_spec_single meta spec p h =
      elim (Bool-cases (E.fields.is_nil (validate_spec E.validators spec))) [
        | inl valid ↦ rw valid (settle_single meta spec (stored E p meta spec) (kept h))
        | inr invalid ↦ rw invalid
      ]
    where
      kept : HasTaskRun p → HasTaskRun (stored E p meta spec)
      kept (inl (s, k)) = inl (s, store_task_group_spec-task_run p.status spec ∙ k)
      kept (inr k) = inr k

  run_found_single :
      (r : Result (ObjectMeta × TaskGroupSpec T) × Pass E)
      → HasTaskRun r.1
      → creations (run_found E r).1.calls ≡ creations r.1.calls
  unfolding run_found
  run_found_single (ok (meta, spec), p) h = run_spec_single meta spec p h
  run_found_single (err e, p) h = refl

  got-HasTaskRun :
      (r : Result (ObjectMeta × TaskGroupSpec T)) (p : Pass E)
      → HasTaskRun p
      → HasTaskRun (got E r p).1
  unfolding got could_not_get get_task_run_labels
  got-HasTaskRun (ok found) p h = h
  got-HasTaskRun (err e) p h = h

  get_embedded-HasTaskRun :
      (s : Option (EmbeddedRunSpec R)) (p : Pass E)
      → HasTaskRun p
      → HasTaskRun (get_embedded E s p).1
  unfolding get_embedded
  get_embedded-HasTaskRun none p h = h
  get_embedded-HasTaskRun (some s) p h = got-HasTaskRun _ p h

  either_HasTaskRun :
      {A : Type 0} (b : Bool) (q r : A × Pass E)
      → HasTaskRun q.1
      → HasTaskRun r.1
      → HasTaskRun (if b then q else r).1
  either_HasTaskRun true q r h k = h
  either_HasTaskRun false q r h k = k

  get_referenced-HasTaskRun :
      (ref : Option RunRef) (p : Pass E) → HasTaskRun p → HasTaskRun (get_referenced E ref p).1
  unfolding get_referenced
  get_referenced-HasTaskRun none p h = get_embedded-HasTaskRun p.run.spec.spec p h
  get_referenced-HasTaskRun (some ref) p h =
      either_HasTaskRun (ref.name == "") (get_embedded E p.run.spec.spec p) (got E _ p)
        (get_embedded-HasTaskRun p.run.spec.spec p h) (got-HasTaskRun _ p h)

  -- A Run that has a TaskRun, in its decoded status or in what the lister finds by the Run's label,
  -- gets no second one, whatever its task group is and however the calls end.
  pub reconcile-creations_single :
      (p : Pass E) → HasTaskRun p → creations (reconcile E p).1.calls ≡ creations p.calls
  unfolding reconcile get_task_group
  reconcile-creations_single p h =
      run_found_single (get_task_group E p) (get_referenced-HasTaskRun p.run.spec.ref p h)
      ∙ ap creations (get_task_group_asked E p)
