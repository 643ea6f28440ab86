-- ===== src/Reconciler/Observe/Laws.antt =====
-- What `updateTaskRunStatus` finds and does.
use tekton_task_group.Base.{
  ◌≡◌, refl, sym, ap, ◌∙◌, Bool, true, false, not, ◌&&◌, List, [], ◌∷◌, ◌++◌, append-nil, Option,
  none, some, if◌then◌else◌, Error, plain, Result, ok, err, Bool-cases, inl, inr, arith,
}
use tekton_task_group.Upstream.{Types}
use tekton_task_group.Upstream.Run.{RunTypes, TaskRun}
use tekton_task_group.Reconciler.Labels.{get_task_run_labels}
use tekton_task_group.Reconciler.Env.{Env}
use tekton_task_group.Reconciler.Pass.{Pass, cancel_task_run}
use tekton_task_group.Reconciler.Observe.{
  before, cancel, process_task_run, record_task_run, conclude, observe, update_task_run_status,
}

module _ {T : Types} {R : RunTypes} (E : Env T R) where
  -- What the lister finds by the Run's selector.
  abbrev pub Listed : Pass E → Result (List (TaskRun T R)) → Type 0
  Listed p found =
      E.cluster.list_task_runs p.world p.run.meta.namespace (get_task_run_labels p.run false)
      ≡ found

  abbrev pub to_cancel : TaskRun T R → Pass E → Bool
  to_cancel tr p =
      not (E.task_runs.is_done tr)
      && (E.runs.is_cancelled p.run && not (E.task_runs.is_cancelled tr))

  pub process_cancels :
      (tr : TaskRun T R) (p : Pass E)
      → to_cancel tr p ≡ true
      → process_task_run E tr p ≡ cancel E tr p
  unfolding process_task_run
  process_cancels tr p h = ground (arith, h)

  pub process_leaves :
      (tr : TaskRun T R) (p : Pass E) → to_cancel tr p ≡ false → process_task_run E tr p ≡ (none, p)
  unfolding process_task_run
  process_leaves tr p h = ground (arith, h)

  -- A TaskRun is cancelled exactly if it is not done, its Run is cancelled and it is not yet
  -- cancelled itself. Nothing else is asked of the API server, and neither the Run nor its decoded
  -- status is changed.
  pub process_task_run-calls :
      (tr : TaskRun T R) (p : Pass E)
      → ((process_task_run E tr p).1.calls
          ≡ p.calls ++ (if to_cancel tr p then cancel_task_run tr.meta.name ∷ [] else []))
        × ((process_task_run E tr p).1.run ≡ p.run)
        × ((process_task_run E tr p).1.status ≡ p.status)
  unfolding cancel
  process_task_run-calls tr p = elim (Bool-cases (to_cancel tr p)) [
    | inl h ↦ rw (process_cancels tr p h, h) (refl, refl, refl)
    | inr h ↦ rw (process_leaves tr p h, h) (sym (append-nil p.calls), refl, refl)
  ]

  -- More than one TaskRun of a Run is an error, and the pass is left as it was.
  pub update_task_run_status_many :
      (p : Pass E) (a b : TaskRun T R) (rest : List (TaskRun T R))
      → Listed p (ok (a ∷ b ∷ rest))
      → update_task_run_status E p ≡ (err (plain "Multiple taskRuns, this is a problem"), p)
  unfolding update_task_run_status
  update_task_run_status_many p a b rest h = rw h

  -- With no TaskRun there is nothing to tell, and the pass is left as it was.
  pub update_task_run_status_none :
      (p : Pass E) → Listed p (ok []) → update_task_run_status E p ≡ (ok (false, false), p)
  unfolding update_task_run_status
  update_task_run_status_none p h = rw h

  conclude_done :
      (tr : TaskRun T R) (p : Pass E)
      → E.task_runs.is_done tr ≡ true
      → conclude E tr (process_task_run E tr p) ≡ (ok (true, not (E.task_runs.is_successful tr)), p)
  unfolding conclude process_task_run
  conclude_done tr p h =
      rw h (ap (λ (b : Bool). (ok (b, b && not (E.task_runs.is_successful tr)), p)) h)

  -- A single TaskRun that is done is reported so, failed exactly if it was not successful. Its
  -- status is recorded, and nothing is asked of the API server.
  pub update_task_run_status_done :
      (p : Pass E) (tr : TaskRun T R)
      → Listed p (ok (tr ∷ []))
      → E.task_runs.is_done tr ≡ true
      → update_task_run_status E p
        ≡ (ok (true, not (E.task_runs.is_successful tr)), record_task_run E tr p)
  unfolding update_task_run_status observe
  update_task_run_status_done p tr h done =
      ap (λ found. observe E found p) h ∙ conclude_done tr (record_task_run E tr p) done

  -- The status of the TaskRun is recorded, and no call is made.
  pub record_task_run_lem :
      (tr : TaskRun T R) (p : Pass E)
      → ((record_task_run E tr p).calls ≡ p.calls)
        × ((record_task_run E tr p).status.task_run ≡ some tr.status)
  unfolding record_task_run
  record_task_run_lem tr p =
      elim (Bool-cases (before tr.meta.creation_timestamp p.run.status.completion_time)) [
        | inl h ↦ rw h (refl, refl)
        | inr h ↦ rw h (refl, refl)
      ]

  record_task_run_times :
      (tr : TaskRun T R) (p : Pass E)
      → ((record_task_run E tr p).run.status.start_time ≡ p.run.status.start_time)
        × ((record_task_run E tr p).run.status.completion_time ≡ (
            if before tr.meta.creation_timestamp p.run.status.completion_time
            then some tr.meta.creation_timestamp
            else p.run.status.completion_time))
  unfolding record_task_run
  record_task_run_times tr p =
      elim (Bool-cases (before tr.meta.creation_timestamp p.run.status.completion_time)) [
        | inl h ↦ rw h (refl, refl)
        | inr h ↦ rw h (refl, refl)
      ]

  conclude_run : (tr : TaskRun T R) (r : Option Error × Pass E) → (conclude E tr r).1.run ≡ r.1.run
  unfolding conclude
  conclude_run tr (none, p) = refl
  conclude_run tr (some e, p) = refl

  -- The one TaskRun that the lister finds, if it was created before the Run's recorded
  -- completion, moves the completion time of the Run back to its creation, which is kept
  -- otherwise. The start time is never changed.
  pub update_task_run_status_times :
      (p : Pass E) (tr : TaskRun T R)
      → Listed p (ok (tr ∷ []))
      → ((update_task_run_status E p).1.run.status.start_time ≡ p.run.status.start_time)
        × ((update_task_run_status E p).1.run.status.completion_time ≡ (
            if before tr.meta.creation_timestamp p.run.status.completion_time
            then some tr.meta.creation_timestamp
            else p.run.status.completion_time))
  unfolding update_task_run_status observe
  update_task_run_status_times p tr h = rw (same_run) (record_task_run_times tr p)
    where
      same_run : (update_task_run_status E p).1.run ≡ (record_task_run E tr p).run
      same_run =
          ap (λ found. (observe E found p).1.run) h
          ∙ conclude_run tr (process_task_run E tr (record_task_run E tr p))
          ∙ (process_task_run-calls tr (record_task_run E tr p)).1
