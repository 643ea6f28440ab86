-- ===== src/Reconciler/Kind/Unfinished.antt =====
-- The outcome of `reconcile` where the one TaskRun of the Run is not done yet.
use mathlib.Core.Option
use tekton_task_group.Base.{
  ◌≡◌, refl, ap, ◌∙◌, String, ◌<>◌, false, [], ◌∷◌, ◌++◌, Option, none, some, if◌then◌else◌, Error,
  plain, wrap, error_text, ok, Bool-cases, inl, inr,
}
use tekton_task_group.Upstream.{Types, ObjectMeta}
use tekton_task_group.Upstream.Run.{RunTypes, TaskRun, Condition, is_unknown}
use tekton_task_group.Api.{TaskGroupSpec, reason_running}
use tekton_task_group.Reconciler.Labels.{propagate}
use tekton_task_group.Reconciler.Env.{Env, IsLawful}
use tekton_task_group.Reconciler.Pass.{Pass, cancel_task_run}
use tekton_task_group.Reconciler.Create.{full_name}
use tekton_task_group.Reconciler.Observe.{
  before, cancel_patches, cancel, process_task_run, record_task_run, conclude, observe,
  update_task_run_status,
}
use tekton_task_group.Reconciler.Observe.Laws.{
  Listed, to_cancel, process_cancels, process_leaves, process_task_run-calls, record_task_run_lem,
}
use tekton_task_group.Reconciler.Kind.{create_unless, create_if_none, settle, reconcile}
use tekton_task_group.Reconciler.Kind.Outcome.{condition, stored, Found, Valid, reconcile-Valid}

map_lem :
    {A B : Type 0} (f : A → B) (o : Option A)
    → elim o [ none ↦ none | some a ↦ some (f a) ] ≡ Option.map f o
map_lem f none = refl
map_lem f (some a) = refl

module _ {T : Types} {R : RunTypes} (E : Env T R) where
  -- What the API server answers to the patch that cancels a TaskRun, where it is sent.
  abbrev pub refusal : TaskRun T R → Pass E → Option Error
  refusal tr q =
      if to_cancel E tr q
      then Option.map
          (λ e. plain (
            "Failed to patch TaskRun `"
            <> (tr.meta.name <> ("` with cancellation: " <> error_text e))))
          (E.cluster.patch_task_run q.world q.run.meta.namespace tr.meta.name cancel_patches).0
      else none

  cancel-refusal :
      (tr : TaskRun T R) (q : Pass E)
      → (cancel E tr q).0
        ≡ Option.map
            (λ e. plain (
              "Failed to patch TaskRun `"
              <> (tr.meta.name <> ("` with cancellation: " <> error_text e))))
            (E.cluster.patch_task_run q.world q.run.meta.namespace tr.meta.name cancel_patches).0
  unfolding cancel
  cancel-refusal tr q =
      map_lem _
        (E.cluster.patch_task_run q.world q.run.meta.namespace tr.meta.name cancel_patches).0

  process_task_run-refusal :
      (tr : TaskRun T R) (q : Pass E) → (process_task_run E tr q).0 ≡ refusal tr q
  process_task_run-refusal tr q = elim (Bool-cases (to_cancel E tr q)) [
    | inl h ↦ rw (process_cancels E tr q h, h) (cancel-refusal tr q)
    | inr h ↦ rw (process_leaves E tr q h, h) refl
  ]

  -- The condition of a Run that runs.
  abbrev pub running : String → Condition
  running name = record {
    status = is_unknown;
    reason = reason_running;
    message = name <> " running";
  }

  -- The condition of a Run once its TaskRun was looked at, with an error or not.
  abbrev pub seen : Pass E → Option Error → Option Condition
  seen q none = some (running q.run.meta.name)
  seen q (some e) = condition E q

  abbrev pub unprocessed : TaskRun T R → ObjectMeta → Error → Error
  unprocessed tr meta e =
      wrap ("error updating TaskRun status for Run " <> full_name meta)
        (plain ("error processing TaskRun " <> (tr.meta.name <> (": " <> E.error_go_syntax e))))

  settle_undone :
      IsLawful E.runs
      → (meta : ObjectMeta) (spec : TaskGroupSpec T) (tr : TaskRun T R) (r : Option Error × Pass E)
      → E.task_runs.is_done tr ≡ false
      → r.1.status.task_run ≡ some tr.status
      → ((settle E meta spec (conclude E tr r)).0 ≡ Option.map (unprocessed tr r.1.run.meta) r.0)
        × (condition E (settle E meta spec (conclude E tr r)).1 ≡ seen r.1 r.0)
        × ((settle E meta spec (conclude E tr r)).1.calls ≡ r.1.calls)
        × ((settle E meta spec (conclude E tr r)).1.status ≡ r.1.status)
  unfolding settle conclude create_if_none create_unless
  settle_undone law meta spec tr (none, q) undone recorded =
      rw (undone, recorded) (refl, law.condition_running _ _ q.run.status, refl, refl)
  settle_undone law meta spec tr (some e, q) undone recorded = (refl, refl, refl, refl)

  seen_run : (a b : Pass E) (o : Option Error) → a.run ≡ b.run → seen a o ≡ seen b o
  seen_run a b none h = ap (λ run. some (running run.meta.name)) h
  seen_run a b (some e) h = ap (λ run. E.runs.get_condition run.status) h

  record_task_run_meta :
      (tr : TaskRun T R) (p : Pass E) → (record_task_run E tr p).run.meta ≡ p.run.meta
  unfolding record_task_run
  record_task_run_meta tr p =
      elim (Bool-cases (before tr.meta.creation_timestamp p.run.status.completion_time)) [
        | inl h ↦ rw h refl
        | inr h ↦ rw h refl
      ]

  update_task_run_status_one :
      (p : Pass E) (tr : TaskRun T R)
      → Listed E p (ok (tr ∷ []))
      → update_task_run_status E p ≡ conclude E tr (process_task_run E tr (record_task_run E tr p))
  unfolding update_task_run_status observe
  update_task_run_status_one p tr h = ap (λ found. observe E found p) h

  -- Where the task group is found and valid and the lister finds one TaskRun of the Run, which is
  -- not done, no TaskRun is asked for. The TaskRun is cancelled exactly if the Run is cancelled and
  -- it is not yet cancelled itself, and its status is recorded. The condition of the Run is running;
  -- where the cancelling is refused it is left as it was, and the refusal is handed back.
  pub reconcile_undone :
      IsLawful E.runs
      → (p : Pass E) (meta : ObjectMeta) (spec : TaskGroupSpec T) (tr : TaskRun T R)
      → Found E p meta spec
      → Valid E spec
      → Listed E (stored E p meta spec) (ok (tr ∷ []))
      → E.task_runs.is_done tr ≡ false
      → let q = record_task_run E tr (stored E p meta spec) in
        ((reconcile E p).0 ≡ Option.map (unprocessed tr p.run.meta) (refusal tr q))
        × (condition E (reconcile E p).1 ≡ seen q (refusal tr q))
        × ((reconcile E p).1.calls
            ≡ p.calls ++ (if to_cancel E tr q then cancel_task_run tr.meta.name ∷ [] else []))
        × ((reconcile E p).1.status.task_run ≡ some tr.status)
  unfolding propagate
  reconcile_undone law p meta spec tr found valid listed undone =
      let s = stored E p meta spec in
      let q = record_task_run E tr s in
      let r = process_task_run E tr q in
      let (calls, same_run, same_status) = process_task_run-calls E tr q in
      let (kept, recorded) = record_task_run_lem E tr s in
      let (e, c, k, t) =
        settle_undone law meta spec tr r undone (ap (λ t. t.task_run) same_status ∙ recorded) in
      rw (reconcile-Valid E p meta spec found valid, update_task_run_status_one s tr listed)
        (
          e
              ∙ ap (λ m. Option.map (unprocessed tr m) r.0)
                  (ap (λ run. run.meta) same_run ∙ record_task_run_meta tr s)
              ∙ ap (Option.map (unprocessed tr p.run.meta)) (process_task_run-refusal tr q),
          c ∙ seen_run r.1 q r.0 same_run ∙ ap (seen q) (process_task_run-refusal tr q),
          k
              ∙ calls
              ∙ ap (λ c. c ++ (if to_cancel E tr q then cancel_task_run tr.meta.name ∷ [] else []))
                  kept,
          ap (λ t. t.task_run) (t ∙ same_status) ∙ recorded,
        )
