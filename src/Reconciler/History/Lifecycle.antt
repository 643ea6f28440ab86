-- ===== src/Reconciler/History/Lifecycle.antt =====
-- The life of a Run as a diagram of four phases, which every call of `ReconcileKind` follows.
pub mod Follows
pub mod Past
pub mod Ends
pub mod Life
use tekton_task_group.Base.{
  ℕ, ◌+◌, ◌≡◌, ◌⊎◌, refl, sym, ap, ◌∙◌, Bool, true, false, List, [], ◌∷◌, Option, none, some, ok,
  err, String, Returned, Result, Bool-cases, inl, inr, subst, arith,
}
use tekton_task_group.Upstream.{Types}
use tekton_task_group.Upstream.Run.{
  RunTypes, RunStatus, TaskRun, Condition, is_true, is_false, is_unknown,
}
use tekton_task_group.Api.{TaskGroupRunStatus}
use tekton_task_group.Reconciler.Labels.{get_task_run_labels}
use tekton_task_group.Reconciler.Env.{RunApi, Env, IsLawful}
use tekton_task_group.Reconciler.Pass.{Pass}
use tekton_task_group.Reconciler.Observe.Laws.{Listed}
use tekton_task_group.Reconciler.Kind.{
  adjust_start_time, decoded, emit_event, encoded, reconcile, start, converge, pass_on, is_foreign,
  reconcile_kind,
}
use tekton_task_group.Reconciler.Kind.Converge.{reading, patched, ended, converge-ended}
use tekton_task_group.Reconciler.Kind.Verdict.{Verdict, left, failed, succeeded, running}
use tekton_task_group.Reconciler.Kind.Verdict.Whole.{reconcile-Verdict}
use tekton_task_group.Reconciler.History.{IsStable, Continues, History, first, again}
use tekton_task_group.Reconciler.History.Turn.{patched_kept, adjust_start_time_kept}

pub data Phase : Type 0 where
  pending ongoing success failure : Phase

abbrev pub phase_of : Option Condition → Phase
phase_of none = pending
phase_of (some c) = elim c.status [ is_true ↦ success | is_false ↦ failure | is_unknown ↦ ongoing ]

abbrev pub is_final : Phase → Bool
is_final pending = false
is_final ongoing = false
is_final success = true
is_final failure = true

-- `InitializeConditions` sets a condition that is not there to unknown.
abbrev pub begun : Phase → Phase
begun pending = ongoing
begun ongoing = ongoing
begun success = success
begun failure = failure

-- How a Run's condition is read off its status.
pub record IsReadable {T : Types} {R : RunTypes} (A : RunApi T R) : Type 0 where
  pub condition_conditions :
      (s t : RunStatus R) → t.conditions ≡ s.conditions → A.get_condition t ≡ A.get_condition s
  pub done_phase : (s : RunStatus R) → A.is_done s ≡ is_final (phase_of (A.get_condition s))
  pub initialize_phase :
      (s : RunStatus R)
      → phase_of (A.get_condition (A.initialize_conditions s))
        ≡ begun (phase_of (A.get_condition s))

module _ {T : Types} {R : RunTypes} (E : Env T R) where
  abbrev pub phase : Pass E → Phase
  phase p = phase_of (E.runs.get_condition p.run.status)

  -- The one TaskRun that the lister finds is done and successful.
  pub record Achieved (p : Pass E) : Type 0 where
    pub task_run : TaskRun T R
    pub listed : Listed E p (ok (task_run ∷ []))
    pub done : E.task_runs.is_done task_run ≡ true
    pub successful : E.task_runs.is_successful task_run ≡ true

  -- The diagram, for a pass that has started. A pass may leave the phase as it is.
  pub data Edge (p : Pass E) : Phase → Phase → Type 0 where
    stay : {x : Phase} → Edge p x x
    begin : Edge p pending ongoing
    fail : {x : Phase} → is_final x ≡ false → Edge p x failure
    succeed : {x : Phase} → is_final x ≡ false → Achieved p → Edge p x success
