-- ===== src/Reconciler/Kind/Outcome.antt =====
-- The outcome of `reconcile`, by what the task group and the listed TaskRuns are.
use tekton_task_group.Base.{
  ◌≡◌, refl, ap, ◌∙◌, String, ◌<>◌, Bool, true, false, not, List, [], ◌∷◌, Option, none, some,
  if◌then◌else◌, Error, plain, wrap, ok, err,
}
use tekton_task_group.Upstream.{Types, ObjectMeta}
use tekton_task_group.Upstream.Run.{RunTypes, TaskRun, Condition, is_true, is_false}
use tekton_task_group.Api.{TaskGroupSpec, reason_failed, reason_succeeded}
use tekton_task_group.Api.Validation.{validate_spec}
use tekton_task_group.Reconciler.Labels.{propagate}
use tekton_task_group.Reconciler.Env.{Env, IsLawful}
use tekton_task_group.Reconciler.Pass.{Pass}
use tekton_task_group.Reconciler.Create.{full_name, get_task_group}
use tekton_task_group.Reconciler.Observe.{update_task_run_status, record_task_run}
use tekton_task_group.Reconciler.Observe.Laws.{
  record_task_run_lem, Listed, update_task_run_status_many, update_task_run_status_done,
}
use tekton_task_group.Reconciler.Kind.{
  store_task_group_spec, settle, run_spec, run_found, reconcile,
}

module _ {T : Types} {R : RunTypes} (E : Env T R) where
  -- The Run's condition, as the status of a pass has it.
  abbrev pub condition : Pass E → Option Condition
  condition q = E.runs.get_condition q.run.status

  abbrev pub Valid : TaskGroupSpec T → Type 0
  Valid spec = E.fields.is_nil (validate_spec E.validators spec) ≡ true

module _ {T : Types} {R : RunTypes} (E : Env T R) (p : Pass E) where
  -- The pass once the task group's spec is stored and its labels and annotations are passed on.
  abbrev pub stored : ObjectMeta → TaskGroupSpec T → Pass E
  stored meta spec = record p {
    status = store_task_group_spec p.status spec;
    run = propagate p.run meta;
  }

  abbrev pub Found : ObjectMeta → TaskGroupSpec T → Type 0
  Found meta spec = get_task_group E p ≡ (ok (meta, spec), p)

  abbrev retrieval_text : String
  retrieval_text = "Error retrieving TaskGroup for Run " <> full_name p.run.meta

  reconcile-Found :
      (meta : ObjectMeta) (spec : TaskGroupSpec T)
      → Found meta spec
      → reconcile E p ≡ run_spec E meta spec p
  unfolding reconcile run_found
  reconcile-Found meta spec h = rw h

  run_spec-Valid :
      (meta : ObjectMeta) (spec : TaskGroupSpec T)
      → Valid E spec
      → run_spec E meta spec p ≡ settle E meta spec (update_task_run_status E (stored meta spec))
  unfolding run_spec
  run_spec-Valid meta spec h = rw h

  pub reconcile-Valid :
      (meta : ObjectMeta) (spec : TaskGroupSpec T)
      → Found meta spec
      → Valid E spec
      → reconcile E p ≡ settle E meta spec (update_task_run_status E (stored meta spec))
  reconcile-Valid meta spec found valid =
      reconcile-Found meta spec found ∙ run_spec-Valid meta spec valid

  settle_done :
      IsLawful E.runs
      → (meta : ObjectMeta) (spec : TaskGroupSpec T) (good : Bool) (q : Pass E)
      → ((settle E meta spec (ok (true, not good), q)).0 ≡ none)
        × (condition E (settle E meta spec (ok (true, not good), q)).1
            ≡ some (
                if good
                then record {
                  status = is_true;
                  reason = reason_succeeded;
                  message = "TaskRun succeeded";
                }
                else record {
                  status = is_false;
                  reason = reason_failed;
                  message = "TaskRun failed";
                }))
        × ((settle E meta spec (ok (true, not good), q)).1.calls ≡ q.calls)
        × ((settle E meta spec (ok (true, not good), q)).1.status ≡ q.status)
  unfolding settle
  settle_done law meta spec true q = (refl, law.condition_succeeded _ _ q.run.status, refl, refl)
  settle_done law meta spec false q = (refl, law.condition_failed _ _ q.run.status, refl, refl)

  -- Where the task group is found and valid and the lister finds one TaskRun of the Run, which is
  -- done, the Run's condition is succeeded or failed as the TaskRun's is. Its status has the
  -- TaskRun's, no error is handed back and nothing is asked of the API server.
  pub reconcile_done :
      IsLawful E.runs
      → (meta : ObjectMeta) (spec : TaskGroupSpec T) (tr : TaskRun T R) → Found meta spec
      → Valid E spec
      → Listed E (stored meta spec) (ok (tr ∷ []))
      → E.task_runs.is_done tr ≡ true
      → ((reconcile E p).0 ≡ none)
        × (condition E (reconcile E p).1
            ≡ some (
                if E.task_runs.is_successful tr
                then record {
                  status = is_true;
                  reason = reason_succeeded;
                  message = "TaskRun succeeded";
                }
                else record {
                  status = is_false;
                  reason = reason_failed;
                  message = "TaskRun failed";
                }))
        × ((reconcile E p).1.calls ≡ p.calls)
        × ((reconcile E p).1.status.task_run ≡ some tr.status)
  reconcile_done law meta spec tr found valid listed done =
      let q = record_task_run E tr (stored meta spec) in
      let (e, c, k, s) = settle_done law meta spec (E.task_runs.is_successful tr) q in
      rw
        (
          reconcile-Valid meta spec found valid,
          update_task_run_status_done E (stored meta spec) tr listed done,
        )
        (
          e,
          c,
          k ∙ (record_task_run_lem E tr (stored meta spec)).0,
          ap (λ t. t.task_run) s ∙ (record_task_run_lem E tr (stored meta spec)).1,
        )

  settle_err :
      (meta : ObjectMeta) (spec : TaskGroupSpec T) (e : Error) (q : Pass E)
      → settle E meta spec (err e, q)
        ≡ (some (wrap ("error updating TaskRun status for Run " <> full_name q.run.meta) e), q)
  unfolding settle
  settle_err meta spec e q = refl

  -- More than one TaskRun of the Run is an error that is handed back. The Run is not failed.
  pub reconcile_many :
      (meta : ObjectMeta) (spec : TaskGroupSpec T) (a b : TaskRun T R) (rest : List (TaskRun T R))
      → Found meta spec
      → Valid E spec
      → Listed E (stored meta spec) (ok (a ∷ b ∷ rest))
      → reconcile E p ≡ (
        some (
            wrap
              ("error updating TaskRun status for Run " <> full_name p.run.meta)
              (plain "Multiple taskRuns, this is a problem")),
        stored meta spec,
      )
  unfolding propagate
  reconcile_many meta spec a b rest found valid listed =
      reconcile-Valid meta spec found valid
      ∙ ap (settle E meta spec) (update_task_run_status_many E (stored meta spec) a b rest listed)
      ∙ settle_err meta spec _ (stored meta spec)
