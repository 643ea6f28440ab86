-- ===== src/Reconciler/Create/Requests.antt =====
-- What `createTaskRun` asks of the API server.
use tekton_task_group.Base.{◌≡◌, ap, ◌∙◌, [], ◌∷◌, ◌++◌, none, some, Error, ok, err}
use tekton_task_group.Upstream.{Types, TaskSpec}
use tekton_task_group.Upstream.Run.{RunTypes}
use tekton_task_group.Api.{TaskGroupSpec}
use tekton_task_group.Resolve.Task.{UsedTasks, task_spec}
use tekton_task_group.Reconciler.Env.{Env}
use tekton_task_group.Reconciler.Pass.{Pass, create_task_run}
use tekton_task_group.Reconciler.Create.{
  create, create_fetched, create_resolved, request_task_run, fetch_uses_task_spec, new_task_run,
}

module _ {T : Types} {R : RunTypes} (E : Env T R) (spec : TaskGroupSpec T) (p : Pass E) where
  -- Where a used task cannot be fetched the pass is left as it was: nothing is created.
  pub create_unfetched :
      (e : Error) → fetch_uses_task_spec E p.world p.run spec ≡ err e → create E spec p ≡ (err e, p)
  unfolding create create_fetched
  create_unfetched e h = rw h

  create_of_task_spec :
      (used : UsedTasks T)
      → fetch_uses_task_spec E p.world p.run spec ≡ ok used
      → create E spec p ≡ create_resolved E (task_spec E.steps spec used) p
  unfolding create create_fetched
  create_of_task_spec used h = rw h

  -- Where the resolution fails the pass is left as it was too.
  pub create_unresolved :
      (used : UsedTasks T) (task : TaskSpec T) (e : Error)
      → fetch_uses_task_spec E p.world p.run spec ≡ ok used
      → task_spec E.steps spec used ≡ (task, some e)
      → create E spec p ≡ (err e, p)
  unfolding create_resolved
  create_unresolved used task e h r = create_of_task_spec used h ∙ rw r

  -- Where both succeed, what is left is to ask for the TaskRun.
  pub create_requests :
      (used : UsedTasks T) (task : TaskSpec T)
      → fetch_uses_task_spec E p.world p.run spec ≡ ok used
      → task_spec E.steps spec used ≡ (task, none)
      → create E spec p ≡ request_task_run E task p
  unfolding create_resolved
  create_requests used task h r = create_of_task_spec used h ∙ rw r

  -- Where both succeed, exactly one TaskRun is asked for, after all earlier calls. It is in the
  -- Run's namespace, belongs to the Run, has the labels and annotations of the Run, takes over its
  -- parameters, service account, pod template and workspaces, and embeds the resolved task.
  pub create_calls :
      (used : UsedTasks T) (task : TaskSpec T)
      → fetch_uses_task_spec E p.world p.run spec ≡ ok used
      → task_spec E.steps spec used ≡ (task, none)
      → ((create E spec p).1.calls
          ≡ p.calls
            ++ create_task_run
                (new_task_run E p.run (E.cluster.random_name p.world p.run.meta.name).0 task)
              ∷ [])
        × ((create E spec p).1.run ≡ p.run)
  unfolding request_task_run
  create_calls used task h r = (
    ap (λ x. x.1.calls) (create_requests used task h r),
    ap (λ x. x.1.run) (create_requests used task h r),
  )
