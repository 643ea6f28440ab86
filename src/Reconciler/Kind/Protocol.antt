-- ===== src/Reconciler/Kind/Protocol.antt =====
-- The calls of one pass to what is outside of it, and their order.
pub mod Acts
pub mod Whole
use tekton_task_group.Base.{
  ℕ, ◌+◌, ◌≤◌, ◌≡◌, refl, sym, ap, ◌∙◌, String, Bool, true, false, not, ◌||◌, List, [], ◌∷◌, ◌++◌,
  append-nil, Option, none, some, length, length-append, Result, ok, err, arith, Bool-cases, inl,
  inr, Returned, subst, Error,
}
use tekton_task_group.Base.GoMap.{GoMap}
use tekton_task_group.Upstream.{Types, TaskSpec, ObjectMeta}
use tekton_task_group.Upstream.Run.{RunTypes, Run, TaskRun, Condition}
use tekton_task_group.Api.{TaskGroupSpec}
use tekton_task_group.Api.Validation.{validate_spec}
use tekton_task_group.Resolve.Task.{UsedTasks}
use tekton_task_group.Reconciler.Labels.{propagate, deep_equal, get_task_run_labels}
use tekton_task_group.Reconciler.Env.{Env}
use tekton_task_group.Reconciler.Pass.{
  Pass, Call, create_task_run, cancel_task_run, patch_run, emit,
}
use tekton_task_group.Reconciler.Create.{
  create, create_fetched, create_resolved, request_task_run, get_task_group,
}
use tekton_task_group.Reconciler.Observe.{
  observe, conclude, record_task_run, process_task_run, update_task_run_status,
}
use tekton_task_group.Reconciler.Observe.Laws.{
  record_task_run_lem, process_task_run-calls, to_cancel,
}
use tekton_task_group.Reconciler.Kind.{
  create_unless, create_if_none, store_task_group_spec, patch, emit_event, no_status, settle,
  run_spec, run_found, reconcile, patch_if_changed, update_labels_and_annotations, start, decoded,
  encoded, converge, pass_on, is_foreign, reconcile_kind,
}
use tekton_task_group.Reconciler.Kind.Counting.{conclude_asked, get_task_group_asked}
use tekton_task_group.Reconciler.Kind.Creations.{store_created_asked, decoded_asked, encoded_asked}

module _ {T : Types} {R : RunTypes} where
  -- The event that a Run starts, which is told without a condition before it.
  pub data Started (before after : List (Call T R)) : Type 0 where
    had_started : after ≡ before → Started before after
    starts : (c : Option Condition) → after ≡ before ++ emit none c ∷ [] → Started before after

  -- What is done about the TaskRun: it is asked for, or cancelled, or neither.
  pub data Acted (before after : List (Call T R)) : Type 0 where
    stands_by : after ≡ before → Acted before after
    creates : (tr : TaskRun T R) → after ≡ before ++ create_task_run tr ∷ [] → Acted before after
    cancels : (name : String) → after ≡ before ++ cancel_task_run name ∷ [] → Acted before after

  -- The patch of the Run's labels and annotations.
  pub data Patched (before after : List (Call T R)) : Type 0 where
    same_labels : after ≡ before → Patched before after
    patches :
        (labels annotations : Option (GoMap String))
        → after ≡ before ++ patch_run labels annotations ∷ []
        → Patched before after

  -- The calls of a pass: of one that only starts the Run at most, or of one that goes on to the
  -- TaskRun, the labels and the last event, in this order.
  pub data Protocol (before after : List (Call T R)) : Type 0 where
    returns : Started before after → Protocol before after
    works :
        (a b c : List (Call T R)) (d e : Option Condition)
        → Started before a
        → Acted a b
        → Patched b c
        → after ≡ c ++ emit d e ∷ []
        → Protocol before after

  one_more :
      (xs ys : List (Call T R)) (c : Call T R) → ys ≡ xs ++ c ∷ [] → length ys ≡ length xs + 1
  one_more xs ys c h = ap length h ∙ length-append xs (c ∷ [])

  Started-length : (xs ys : List (Call T R)) → Started xs ys → length ys ≤ length xs + 1
  Started-length xs ys (had_started h) = omega (arith, ap length h)
  Started-length xs ys (starts c h) = omega (arith, one_more xs ys _ h)

  Acted-length : (xs ys : List (Call T R)) → Acted xs ys → length ys ≤ length xs + 1
  Acted-length xs ys (stands_by h) = omega (arith, ap length h)
  Acted-length xs ys (creates tr h) = omega (arith, one_more xs ys _ h)
  Acted-length xs ys (cancels name h) = omega (arith, one_more xs ys _ h)

  Patched-length : (xs ys : List (Call T R)) → Patched xs ys → length ys ≤ length xs + 1
  Patched-length xs ys (same_labels h) = omega (arith, ap length h)
  Patched-length xs ys (patches l a h) = omega (arith, one_more xs ys _ h)

  pub Protocol-length : (xs ys : List (Call T R)) → Protocol xs ys → length ys ≤ length xs + 4
  Protocol-length xs ys (returns h) = omega (arith, Started-length xs ys h)
  Protocol-length xs ys (works a b c d e started acted patched ends) = omega (
    arith,
    Started-length xs a started,
    Acted-length a b acted,
    Patched-length b c patched,
    one_more c ys _ ends,
  )
