-- ===== src/Reconciler/Kind.antt =====
-- pkg/reconciler/taskgroup/taskgroup.go, the functions `reconcile` and `ReconcileKind`.
pub mod Idle
pub mod Counting
pub mod Creations
pub mod Protocol
pub mod Unfinished
pub mod Retried
pub mod Outcome
pub mod Creation
pub mod Single
pub mod Converge
pub mod Verdict
use tekton_task_group.Base.{
  ℕ, String, ◌<>◌, Bool, true, false, not, ◌||◌, ◌!=◌, List, [], ◌∷◌, ◌++◌, Option, none, some,
  if◌then◌else◌, ltb, Error, wrap, error_text, Result, ok, err, Returned,
}
use tekton_task_group.Upstream.{Types, ObjectMeta}
use tekton_task_group.Upstream.Run.{
  RunTypes, Run, RunStatus, RunRef, EmbeddedRunSpec, TaskRun, Condition,
}
use tekton_task_group.Api.{
  TaskGroupSpec, TaskGroupRunStatus, reason_running, reason_failed, reason_succeeded,
  reason_failed_validation, reason_internal_error, scheme_group_version, task_group_controller_name,
}
use tekton_task_group.Api.Validation.{validate_spec}
use tekton_task_group.Reconciler.Labels.{propagate, deep_equal}
use tekton_task_group.Reconciler.Env.{Env}
use tekton_task_group.Reconciler.Pass.{
  Pass, Attempt, patch_run, emit, called, with_status, mark_failed, mark_succeeded, mark_running,
}
use tekton_task_group.Reconciler.Create.{create, get_task_group, full_name}
use tekton_task_group.Reconciler.Observe.{update_task_run_status}

-- `storeTaskGroupSpec`: only the first spec is kept.
unfoldable pub store_task_group_spec :
    {T : Types} {R : RunTypes} → TaskGroupRunStatus T R → TaskGroupSpec T → TaskGroupRunStatus T R
store_task_group_spec status tls = elim status.task_group_spec [
  | none ↦ record status { task_group_spec = some tls }
  | some _ ↦ status
]

-- `&TaskGroupRunStatus{}`
abbrev pub no_status : {T : Types} {R : RunTypes} → TaskGroupRunStatus T R
no_status = record { task_group_spec = none; task_run = none }

module _ {T : Types} {R : RunTypes} (E : Env T R) where
  abbrev pub cannot_run : ObjectMeta → String
  cannot_run meta = "TaskGroup " <> (full_name meta <> " can't be Run; ")

  -- What follows the call of `createTaskRun`.
  unfoldable pub store_created : ObjectMeta → Result (TaskRun T R) × Pass E → Option Error × Pass E
  store_created meta (ok tr, p) =
      (none, record p { status = record p.status { task_run = some tr.status } })
  store_created meta (err e, p) = (
    none,
    mark_failed E reason_failed_validation
        (cannot_run meta <> ("failed to create TaskRun: " <> error_text e)) p,
  )

  -- `if status.TaskRun == nil`, of the status that is given first.
  unfoldable pub create_unless : Option R.TaskRunStatus → ObjectMeta → TaskGroupSpec T → Attempt E
  unfolding create store_created
  create_unless (some _) meta spec p = (none, p)
  create_unless none meta spec p = store_created meta (create E spec p)

  unfoldable pub create_if_none : ObjectMeta → TaskGroupSpec T → Attempt E
  unfolding create_unless
  create_if_none meta spec p = create_unless p.status.task_run meta spec p

  -- What follows the call of `updateTaskRunStatus`: done, failed, or not done.
  unfoldable pub settle :
      ObjectMeta → TaskGroupSpec T → Result (Bool × Bool) × Pass E → Option Error × Pass E
  unfolding create_if_none
  settle meta spec (err e, p) =
      (some (wrap ("error updating TaskRun status for Run " <> full_name p.run.meta) e), p)
  settle meta spec (ok (true, true), p) = (none, mark_failed E reason_failed "TaskRun failed" p)
  settle meta spec (ok (true, false), p) =
      (none, mark_succeeded E reason_succeeded "TaskRun succeeded" p)
  settle meta spec (ok (false, _), p) =
      create_if_none meta spec (mark_running E reason_running (p.run.meta.name <> " running") p)

  -- The spec is stored, the labels are passed on, and the spec is validated.
  unfoldable pub run_spec : ObjectMeta → TaskGroupSpec T → Attempt E
  unfolding store_task_group_spec propagate validate_spec update_task_run_status settle
  run_spec meta spec p =
      let p = record p {
        status = store_task_group_spec p.status spec;
        run = propagate p.run meta;
      } in
      let e = validate_spec E.validators spec in
      if E.fields.is_nil e then settle meta spec (update_task_run_status E p) else (
        none,
        mark_failed E reason_failed_validation
            (cannot_run meta <> ("it has an invalid spec: " <> E.field_error_text e)) p,
      )

  unfoldable pub run_found : Result (ObjectMeta × TaskGroupSpec T) × Pass E → Option Error × Pass E
  unfolding run_spec
  run_found (ok (meta, spec), p) = run_spec meta spec p
  run_found (err e, p) = (some e, p)

  -- `reconcile`
  unfoldable pub reconcile : Attempt E
  unfolding run_found get_task_group
  reconcile p = run_found (get_task_group E p)

  unfoldable pub patch : Attempt E
  patch p =
      let (e, w) =
        E.cluster.patch_run p.world p.run.meta.namespace p.run.meta.name p.run.meta.labels
          p.run.meta.annotations in
      (e, called E (patch_run p.run.meta.labels p.run.meta.annotations) w p)

  -- The merge patch, if the labels or annotations differ from the cached Run's.
  unfoldable pub patch_if_changed : Result (Run R) → Attempt E
  unfolding deep_equal patch
  patch_if_changed (err e) p = (
    some
        (wrap ("error getting Run " <> (p.run.meta.name <> " when updating labels/annotations")) e),
    p,
  )
  patch_if_changed (ok new_run) p =
      if not (deep_equal p.run.meta.labels new_run.meta.labels)
        || not (deep_equal p.run.meta.annotations new_run.meta.annotations)
      then patch p
      else (none, p)

  -- `updateLabelsAndAnnotations`
  unfoldable pub update_labels_and_annotations : Attempt E
  unfolding patch_if_changed
  update_labels_and_annotations p =
      patch_if_changed (E.cluster.get_run p.world p.run.meta.namespace p.run.meta.name) p

  -- `events.Emit(ctx, before, after, run)`
  unfoldable pub emit_event : Option Condition → Pass E → Pass E
  emit_event before p =
      let after = E.runs.get_condition p.run.status in
      called E (emit before after) (E.cluster.emit p.world before after p.run) p

  -- The start time is not before the creation of the Run.
  unfoldable pub adjust_start_time : ℕ → RunStatus R → RunStatus R
  adjust_start_time created s = elim s.start_time [
    | none ↦ s
    | some t ↦ if ltb t created then record s { start_time = some created } else s
  ]

  -- A Run that has not started: initialize its conditions and tell that it starts.
  unfoldable pub start : Pass E → Pass E
  unfolding emit_event adjust_start_time
  start p =
      if E.runs.has_started p.run.status
      then p
      else emit_event none (
          with_status E
            (adjust_start_time p.run.meta.creation_timestamp
              (E.runs.initialize_conditions p.run.status))
            p)

  abbrev pub internal_error : String → Error → Pass E → Pass E
  internal_error what e =
      mark_failed E reason_internal_error
        ("Internal error calling " <> (what <> (": " <> error_text e)))

  -- `DecodeExtraFields`. After an error the pass goes on.
  unfoldable pub decoded : Returned (TaskGroupRunStatus T R) → Pass E → Pass E
  decoded (status, none) p = record p { status = status }
  decoded (status, some e) p = internal_error "DecodeExtraFields" e (record p { status = status })

  unfoldable pub encoded : Result (RunStatus R) → Pass E → Pass E
  encoded (ok s) p = with_status E s p
  encoded (err e) p = internal_error "EncodeExtraFields" e p

  -- `merr = multierror.Append(merr, err)`
  abbrev pub append_error : List Error → Option Error → List Error
  append_error merr none = merr
  append_error merr (some e) = merr ++ e ∷ []

  -- What follows the test whether the Run is done.
  unfoldable pub converge : Pass E → List Error × Pass E
  unfolding decoded encoded reconcile update_labels_and_annotations emit_event
  converge p =
      let before = E.runs.get_condition p.run.status in
      let p = decoded (E.runs.decode_extra_fields p.run.status no_status) p in
      let (e, p) = reconcile p in
      let (f, p) = update_labels_and_annotations p in
      let p = encoded (E.runs.encode_extra_fields p.status p.run.status) p in
      (append_error (append_error [] e) f, emit_event before p)

  unfoldable pub pass_on : Pass E → List Error × Pass E
  unfolding converge
  pass_on p = if E.runs.is_done p.run.status then ([], p) else converge p

  -- The API version and the kind that the Run refers to.
  unfoldable pub referenced : Option RunRef → Option (EmbeddedRunSpec R) → String × String
  referenced (some ref) _ = (ref.api_version, ref.kind)
  referenced none (some embedded) = (embedded.api_version, embedded.kind)
  referenced none none = ("", "")

  unfoldable pub is_foreign : Run R → Bool
  unfolding referenced
  is_foreign run =
      let (api_version, kind) = referenced run.spec.ref run.spec.spec in
      api_version != scheme_group_version || kind != task_group_controller_name

  -- `ReconcileKind`
  unfoldable pub reconcile_kind : Pass E → List Error × Pass E
  unfolding is_foreign start pass_on
  reconcile_kind p = if is_foreign p.run then ([], p) else pass_on (start p)
