-- ===== src/Reconciler/Kind/Creations.antt =====
-- How many TaskRuns one pass of the reconciler asks for.
use tekton_task_group.Base.{
  ◌+◌, ◌≤◌, ◌≡◌, refl, sym, ap, Bool, true, false, not, ◌||◌, subst, Option, none, some, Result, ok,
  err, arith, Bool-cases, inl, inr, Returned,
}
use tekton_task_group.Upstream.{Types, ObjectMeta}
use tekton_task_group.Upstream.Run.{RunTypes, Run, TaskRun, Condition, RunStatus}
use tekton_task_group.Api.{TaskGroupSpec, TaskGroupRunStatus}
use tekton_task_group.Api.Validation.{validate_spec}
use tekton_task_group.Reconciler.Labels.{propagate, deep_equal, get_task_run_labels}
use tekton_task_group.Reconciler.Env.{Env}
use tekton_task_group.Reconciler.Pass.{Pass, with_status}
use tekton_task_group.Reconciler.Create.{create, get_task_group}
use tekton_task_group.Reconciler.Observe.{update_task_run_status}
use tekton_task_group.Reconciler.Kind.{
  store_created, create_unless, create_if_none, store_task_group_spec, patch, emit_event,
  adjust_start_time, no_status, settle, run_spec, run_found, reconcile, patch_if_changed,
  update_labels_and_annotations, start, decoded, encoded, converge, pass_on, is_foreign,
  reconcile_kind,
}
use tekton_task_group.Reconciler.Kind.Counting.{
  creations, creations_other, asked, get_task_group_asked, asked-observe, asked-create_fetched,
}

module _ {T : Types} {R : RunTypes} (E : Env T R) where
  pub store_created_asked :
      (meta : ObjectMeta) (r : Result (TaskRun T R) × Pass E)
      → (store_created E meta r).1.calls ≡ r.1.calls
  unfolding store_created
  store_created_asked meta (ok tr, p) = refl
  store_created_asked meta (err e, p) = refl

  pub asked-create_unless :
      (s : Option R.TaskRunStatus) (meta : ObjectMeta) (spec : TaskGroupSpec T) (p : Pass E)
      → asked E (create_unless E s meta spec p).1 ≤ asked E p + 1
  unfolding create_unless create
  asked-create_unless none meta spec p =
      subst (λ c. creations c ≤ asked E p + 1) (sym (store_created_asked meta (create E spec p)))
        (asked-create_fetched E spec _ p)
  asked-create_unless (some s) meta spec p = omega arith

  asked-settle :
      (meta : ObjectMeta) (spec : TaskGroupSpec T) (r : Result (Bool × Bool) × Pass E)
      → asked E (settle E meta spec r).1 ≤ asked E r.1 + 1
  unfolding settle create_if_none
  asked-settle meta spec (err e, p) = omega arith
  asked-settle meta spec (ok (true, true), p) = omega arith
  asked-settle meta spec (ok (true, false), p) = omega arith
  asked-settle meta spec (ok (false, _), p) = asked-create_unless p.status.task_run meta spec _

  -- Beside the TaskRuns that the Run is validated for, none is asked E for.
  asked-run_spec :
      (meta : ObjectMeta) (spec : TaskGroupSpec T) (p : Pass E)
      → asked E (run_spec E meta spec p).1 ≤ asked E p + 1
  unfolding run_spec update_task_run_status
  asked-run_spec meta spec p =
      let q = record p {
        status = store_task_group_spec p.status spec;
        run = propagate p.run meta;
      } in
      let e =
        asked-observe E
          (E.cluster.list_task_runs q.world q.run.meta.namespace (get_task_run_labels q.run false))
          q in
      let le = asked-settle meta spec (update_task_run_status E q) in
      elim (Bool-cases (E.fields.is_nil (validate_spec E.validators spec))) [
        | inl h ↦ rw h (omega (arith, e, le))
        | inr h ↦ rw h (omega arith)
      ]

  asked-run_found :
      (r : Result (ObjectMeta × TaskGroupSpec T) × Pass E)
      → asked E (run_found E r).1 ≤ asked E r.1 + 1
  unfolding run_found
  asked-run_found (ok (meta, spec), p) = asked-run_spec meta spec p
  asked-run_found (err e, p) = omega arith

  asked-reconcile : (p : Pass E) → asked E (reconcile E p).1 ≤ asked E p + 1
  unfolding reconcile
  asked-reconcile p =
      omega (arith, asked-run_found (get_task_group E p), ap creations (get_task_group_asked E p))

  pub asked-patch_if_changed :
      (r : Result (Run R)) (p : Pass E) → asked E (patch_if_changed E r p).1 ≡ asked E p
  unfolding patch_if_changed patch
  asked-patch_if_changed (err e) p = refl
  asked-patch_if_changed (ok new_run) p =
      elim (Bool-cases (
        not (deep_equal p.run.meta.labels new_run.meta.labels)
        || not (deep_equal p.run.meta.annotations new_run.meta.annotations))) [
          | inl h ↦ rw h (creations_other p.calls _ refl)
          | inr h ↦ rw h
        ]

  pub decoded_asked :
      (r : Returned (TaskGroupRunStatus T R)) (p : Pass E) → (decoded E r p).calls ≡ p.calls
  unfolding decoded
  decoded_asked (s, none) p = refl
  decoded_asked (s, some e) p = refl

  pub encoded_asked : (r : Result (RunStatus R)) (p : Pass E) → (encoded E r p).calls ≡ p.calls
  unfolding encoded
  encoded_asked (ok s) p = refl
  encoded_asked (err e) p = refl

  pub asked-emit_event :
      (c : Option Condition) (p : Pass E) → asked E (emit_event E c p) ≡ asked E p
  unfolding emit_event
  asked-emit_event c p = creations_other p.calls _ refl

  pub asked-start : (p : Pass E) → asked E (start E p) ≡ asked E p
  unfolding start
  asked-start p = elim (Bool-cases (E.runs.has_started p.run.status)) [
    | inl h ↦ rw h
    | inr h ↦ rw h (
        asked-emit_event none (
          with_status E
            (adjust_start_time E p.run.meta.creation_timestamp
              (E.runs.initialize_conditions p.run.status))
            p))
  ]

  pub asked-converge : (p : Pass E) → asked E (converge E p).1 ≤ asked E p + 1
  unfolding converge update_labels_and_annotations
  asked-converge p =
      let q = decoded E (E.runs.decode_extra_fields p.run.status no_status) p in
      let r = (reconcile E q).1 in
      let s = (update_labels_and_annotations E r).1 in
      let t = encoded E (E.runs.encode_extra_fields s.status s.run.status) s in
      omega (
        arith,
        asked-emit_event (E.runs.get_condition p.run.status) t,
        ap creations (encoded_asked (E.runs.encode_extra_fields s.status s.run.status) s),
        asked-patch_if_changed (E.cluster.get_run r.world r.run.meta.namespace r.run.meta.name) r,
        asked-reconcile q,
        ap creations (decoded_asked (E.runs.decode_extra_fields p.run.status no_status) p),
      )

  asked-pass_on : (p : Pass E) → asked E (pass_on E p).1 ≤ asked E p + 1
  unfolding pass_on
  asked-pass_on p = elim (Bool-cases (E.runs.is_done p.run.status)) [
    | inl h ↦ rw h (omega arith)
    | inr h ↦ rw h (asked-converge p)
  ]

  -- However the API server answers, one call of `ReconcileKind` asks for at most one more
  -- TaskRun.
  pub reconcile_kind-creations :
      (p : Pass E) → creations (reconcile_kind E p).1.calls ≤ creations p.calls + 1
  unfolding reconcile_kind
  reconcile_kind-creations p = elim (Bool-cases (is_foreign E p.run)) [
    | inl h ↦ rw h (omega arith)
    | inr h ↦ rw h (omega (arith, asked-pass_on (start E p), asked-start p))
  ]
