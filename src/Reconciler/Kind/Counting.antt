-- ===== src/Reconciler/Kind/Counting.antt =====
-- How many TaskRuns the parts of a pass ask for.
use tekton_task_group.Base.{
  ℕ, ◌+◌, ◌≤◌, ◌≡◌, refl, ap, ◌∙◌, Bool, true, false, List, [], ◌∷◌, ◌++◌, append-nil, ◌==◌, Option,
  none, some, length, keep, length-append, keep-append, Error, Result, ok, err, arith, Bool-cases,
  inl, inr, Returned,
}
use tekton_task_group.Upstream.{Types, TaskSpec, ObjectMeta}
use tekton_task_group.Upstream.Run.{RunTypes, TaskRun, RunRef, EmbeddedRunSpec}
use tekton_task_group.Api.{TaskGroupSpec}
use tekton_task_group.Resolve.Task.{UsedTasks}
use tekton_task_group.Reconciler.Env.{Env}
use tekton_task_group.Reconciler.Pass.{
  Pass, Call, create_task_run, cancel_task_run, patch_run, emit,
}
use tekton_task_group.Reconciler.Create.{
  create_fetched, create_resolved, request_task_run, get_task_group, got, get_embedded,
  get_referenced,
}
use tekton_task_group.Reconciler.Observe.{observe, conclude, record_task_run, process_task_run}
use tekton_task_group.Reconciler.Observe.Laws.{
  record_task_run_lem, process_task_run-calls, to_cancel,
}

abbrev pub is_creation : {T : Types} {R : RunTypes} → Call T R → Bool
is_creation (create_task_run _) = true
is_creation (cancel_task_run _) = false
is_creation (patch_run _ _) = false
is_creation (emit _ _) = false

-- The number of TaskRuns that were asked for.
abbrev pub creations : {T : Types} {R : RunTypes} → List (Call T R) → ℕ
creations calls = length (keep is_creation calls)

pub creations-append :
    {T : Types} {R : RunTypes} (xs ys : List (Call T R))
    → creations (xs ++ ys) ≡ creations xs + creations ys
creations-append xs ys =
    ap length (keep-append is_creation xs ys)
    ∙ length-append (keep is_creation xs) (keep is_creation ys)

-- A call that creates nothing leaves the number as it is.
pub creations_other :
    {T : Types} {R : RunTypes} (xs : List (Call T R)) (c : Call T R)
    → is_creation c ≡ false
    → creations (xs ++ c ∷ []) ≡ creations xs
creations_other xs c h = creations-append xs (c ∷ []) ∙ rw h (omega arith)

module _ {T : Types} {R : RunTypes} (E : Env T R) where
  -- What a pass has asked for.
  abbrev pub asked : Pass E → ℕ
  asked p = creations p.calls

  pub got_asked :
      (r : Result (ObjectMeta × TaskGroupSpec T)) (p : Pass E) → (got E r p).1.calls ≡ p.calls
  unfolding got
  got_asked (ok found) p = refl
  got_asked (err e) p = refl

  pub get_embedded_asked :
      (s : Option (EmbeddedRunSpec R)) (p : Pass E) → (get_embedded E s p).1.calls ≡ p.calls
  unfolding get_embedded
  get_embedded_asked none p = refl
  get_embedded_asked (some s) p = got_asked _ p

  pub get_referenced_asked :
      (ref : Option RunRef) (p : Pass E) → (get_referenced E ref p).1.calls ≡ p.calls
  unfolding get_referenced
  get_referenced_asked none p = get_embedded_asked p.run.spec.spec p
  get_referenced_asked (some ref) p = elim (Bool-cases (ref.name == "")) [
    | inl h ↦ rw h (get_embedded_asked p.run.spec.spec p)
    | inr h ↦ rw h (got_asked _ p)
  ]

  pub get_task_group_asked : (p : Pass E) → (get_task_group E p).1.calls ≡ p.calls
  unfolding get_task_group
  get_task_group_asked p = get_referenced_asked p.run.spec.ref p

  pub asked-process_task_run :
      (tr : TaskRun T R) (p : Pass E) → asked (process_task_run E tr p).1 ≡ asked p
  asked-process_task_run tr p = elim (Bool-cases (to_cancel E tr p)) [
    | inl h ↦
        ap creations (rw h at (process_task_run-calls E tr p).0) ∙ creations_other p.calls _ refl
    | inr h ↦
        ap creations (rw h at (process_task_run-calls E tr p).0) ∙ ap creations (append-nil p.calls)
  ]

  pub conclude_asked :
      (tr : TaskRun T R) (r : Option Error × Pass E) → (conclude E tr r).1.calls ≡ r.1.calls
  unfolding conclude
  conclude_asked tr (none, p) = refl
  conclude_asked tr (some e, p) = refl

  pub asked-observe :
      (found : Result (List (TaskRun T R))) (p : Pass E) → asked (observe E found p).1 ≡ asked p
  unfolding observe
  asked-observe (err e) p = refl
  asked-observe (ok []) p = refl
  asked-observe (ok (tr ∷ [])) p =
      ap creations (conclude_asked tr (process_task_run E tr (record_task_run E tr p)))
      ∙ asked-process_task_run tr (record_task_run E tr p)
      ∙ ap creations ((record_task_run_lem E tr p).0)
  asked-observe (ok (a ∷ b ∷ rest)) p = refl

  pub asked-create_resolved :
      (r : Returned (TaskSpec T)) (p : Pass E) → asked (create_resolved E r p).1 ≤ asked p + 1
  unfolding create_resolved request_task_run
  asked-create_resolved (spec, none) p =
      omega (arith, creations-append p.calls (create_task_run _ ∷ []))
  asked-create_resolved (spec, some e) p = omega arith

  pub asked-create_fetched :
      (spec : TaskGroupSpec T) (r : Result (UsedTasks T)) (p : Pass E)
      → asked (create_fetched E spec r p).1 ≤ asked p + 1
  unfolding create_fetched
  asked-create_fetched spec (ok used) p = asked-create_resolved _ p
  asked-create_fetched spec (err e) p = omega arith
