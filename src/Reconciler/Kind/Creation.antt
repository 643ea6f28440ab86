-- ===== src/Reconciler/Kind/Creation.antt =====
-- What `reconcile` does where no TaskRun of the Run is listed, or where one is.
use tekton_task_group.Base.{
  ◌≡◌, refl, ap, ◌∙◌, ◌<>◌, Bool, false, [], ◌∷◌, ◌++◌, none, some, Error, error_text, ok, err, inl,
  inr, Option-cases,
}
use tekton_task_group.Upstream.{Types, TaskSpec, ObjectMeta}
use tekton_task_group.Upstream.Run.{RunTypes, TaskRun, is_false, is_unknown}
use tekton_task_group.Api.{
  TaskGroupSpec, TaskGroupRunStatus, reason_running, reason_failed_validation,
}
use tekton_task_group.Resolve.Task.{UsedTasks, task_spec}
use tekton_task_group.Reconciler.Labels.{propagate}
use tekton_task_group.Reconciler.Env.{Env, IsLawful}
use tekton_task_group.Reconciler.Pass.{Pass, create_task_run, mark_running}
use tekton_task_group.Reconciler.Create.{
  create, fetch_uses_task_spec, new_task_run, request_task_run,
}
use tekton_task_group.Reconciler.Create.Requests.{create_unresolved, create_requests}
use tekton_task_group.Reconciler.Observe.Laws.{Listed, update_task_run_status_none}
use tekton_task_group.Reconciler.Kind.{
  store_task_group_spec, store_created, create_unless, create_if_none, settle, reconcile,
  cannot_run,
}
use tekton_task_group.Reconciler.Kind.Outcome.{condition, stored, Found, Valid, reconcile-Valid}

-- The stored spec has no effect on the status of the TaskRun.
pub store_task_group_spec-task_run :
    {T : Types} {R : RunTypes} (status : TaskGroupRunStatus T R) (tls : TaskGroupSpec T)
    → (store_task_group_spec status tls).task_run ≡ status.task_run
unfolding store_task_group_spec
store_task_group_spec-task_run status tls = elim (Option-cases status.task_group_spec) [
  | inl h ↦ rw h
  | inr (s, h) ↦ rw h
]

module _ {T : Types} {R : RunTypes} (E : Env T R) (p : Pass E) (meta : ObjectMeta)
    (spec : TaskGroupSpec T) where
  -- The pass once the Run is marked as running.
  abbrev pub marked : Pass E
  marked = mark_running E reason_running (p.run.meta.name <> " running") (stored E p meta spec)

  -- Nothing is listed for the Run, and its status has no TaskRun either.
  pub record Unstarted : Type 0 where
    pub found : Found E p meta spec
    pub valid : Valid E spec
    pub listed : Listed E (stored E p meta spec) (ok [])
    pub no_task_run : p.status.task_run ≡ none

  settle_undone :
      (b : Bool) (q : Pass E)
      → settle E meta spec (ok (false, b), q)
        ≡ create_unless E q.status.task_run meta spec
            (mark_running E reason_running (q.run.meta.name <> " running") q)
  unfolding settle create_if_none
  settle_undone b q = refl

  reconcile_unstarted : Unstarted → reconcile E p ≡ store_created E meta (create E spec marked)
  unfolding create_unless propagate
  reconcile_unstarted h =
      reconcile-Valid E p meta spec h.found h.valid
      ∙ ap (settle E meta spec) (update_task_run_status_none E (stored E p meta spec) h.listed)
      ∙ settle_undone false (stored E p meta spec)
      ∙ ap (λ s. create_unless E s meta spec marked)
          (store_task_group_spec-task_run p.status spec ∙ h.no_task_run)

  -- The failure that a TaskRun could not be created is written into the Run, and is not handed back.
  store_created_failed :
      IsLawful E.runs
      → (e : Error) (q : Pass E)
      → ((store_created E meta (err e, q)).0 ≡ none)
        × (condition E (store_created E meta (err e, q)).1
            ≡ some (record {
              status = is_false;
              reason = reason_failed_validation;
              message = cannot_run E meta <> ("failed to create TaskRun: " <> error_text e);
            }))
        × ((store_created E meta (err e, q)).1.calls ≡ q.calls)
  unfolding store_created
  store_created_failed law e q = (refl, law.condition_failed _ _ q.run.status, refl)

  -- So too where the tasks were fetched but do not resolve to one task.
  pub reconcile_unresolved :
      IsLawful E.runs
      → (e : Error) (used : UsedTasks T) (task : TaskSpec T) → Unstarted
      → fetch_uses_task_spec E p.world marked.run spec ≡ ok used
      → task_spec E.steps spec used ≡ (task, some e)
      → ((reconcile E p).0 ≡ none)
        × (condition E (reconcile E p).1
            ≡ some (record {
              status = is_false;
              reason = reason_failed_validation;
              message = cannot_run E meta <> ("failed to create TaskRun: " <> error_text e);
            }))
        × ((reconcile E p).1.calls ≡ p.calls)
  reconcile_unresolved law e used task h fetched unresolved =
      rw (reconcile_unstarted h, create_unresolved E spec marked used task e fetched unresolved)
        (store_created_failed law e marked)

  -- The TaskRun that is asked for, and the world in which it is.
  abbrev pub wanted : TaskSpec T → TaskRun T R
  wanted task = new_task_run E marked.run (E.cluster.random_name p.world p.run.meta.name).0 task

  abbrev pub named_world : E.cluster.World
  named_world = (E.cluster.random_name p.world p.run.meta.name).1

  store_created_ok :
      IsLawful E.runs
      → (task : TaskSpec T) (tr : TaskRun T R)
      → (E.cluster.create_task_run named_world p.run.meta.namespace (wanted task)).0 ≡ ok tr
      → ((store_created E meta (request_task_run E task marked)).0 ≡ none)
        × (condition E (store_created E meta (request_task_run E task marked)).1
            ≡ some (record {
              status = is_unknown;
              reason = reason_running;
              message = p.run.meta.name <> " running";
            }))
        × ((store_created E meta (request_task_run E task marked)).1.calls
            ≡ p.calls ++ create_task_run (wanted task) ∷ [])
        × ((store_created E meta (request_task_run E task marked)).1.status.task_run
            ≡ some tr.status)
  unfolding store_created request_task_run propagate
  store_created_ok law task tr created =
      rw created (refl, law.condition_running _ _ p.run.status, refl, refl)

  -- A Run whose task group is found and valid, that has no TaskRun in its status and none in what
  -- the lister finds, and whose used tasks are fetched and resolve to one task, has exactly one
  -- TaskRun asked for: the one made of the Run with the task group's labels and of that task.
  -- Where the API server takes it, the Run's condition is running, whatever it was before, its
  -- status has the TaskRun's, and no error is handed back.
  pub reconcile_creates :
      IsLawful E.runs
      → (used : UsedTasks T) (task : TaskSpec T) (tr : TaskRun T R) → Unstarted
      → fetch_uses_task_spec E p.world marked.run spec ≡ ok used
      → task_spec E.steps spec used ≡ (task, none)
      → (E.cluster.create_task_run named_world p.run.meta.namespace (wanted task)).0 ≡ ok tr
      → ((reconcile E p).0 ≡ none)
        × (condition E (reconcile E p).1
            ≡ some (record {
              status = is_unknown;
              reason = reason_running;
              message = p.run.meta.name <> " running";
            }))
        × ((reconcile E p).1.calls ≡ p.calls ++ create_task_run (wanted task) ∷ [])
        × ((reconcile E p).1.status.task_run ≡ some tr.status)
  reconcile_creates law used task tr h fetched resolved created =
      rw (reconcile_unstarted h, create_requests E spec marked used task fetched resolved)
        (store_created_ok law task tr created)

  store_created_refused :
      IsLawful E.runs
      → (task : TaskSpec T) (e : Error)
      → (E.cluster.create_task_run named_world p.run.meta.namespace (wanted task)).0 ≡ err e
      → ((store_created E meta (request_task_run E task marked)).0 ≡ none)
        × (condition E (store_created E meta (request_task_run E task marked)).1
            ≡ some (record {
              status = is_false;
              reason = reason_failed_validation;
              message = cannot_run E meta <> ("failed to create TaskRun: " <> error_text e);
            }))
        × ((store_created E meta (request_task_run E task marked)).1.calls
            ≡ p.calls ++ create_task_run (wanted task) ∷ [])
        × ((store_created E meta (request_task_run E task marked)).1.status.task_run
            ≡ p.status.task_run)
  unfolding store_created request_task_run propagate
  store_created_refused law task e refused =
      rw refused
        (refl, law.condition_failed _ _ _, refl, store_task_group_spec-task_run p.status spec)
