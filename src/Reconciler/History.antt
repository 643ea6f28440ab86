-- ===== src/Reconciler/History.antt =====
-- The passes of pkg/reconciler/taskgroup/taskgroup.go over one Run, one after the other. Between
-- two passes the library behind the controller writes the Run's status and reads the Run again,
-- while users and other controllers change everything else.
pub mod Turn
pub mod Tally
pub mod Recorded
pub mod Lifecycle
use tekton_task_group.Base.{◌≡◌, refl, true, String, none, some, ok, Result}
use tekton_task_group.Upstream.{Types}
use tekton_task_group.Upstream.Run.{RunTypes, RunStatus}
use tekton_task_group.Api.{TaskGroupRunStatus}
use tekton_task_group.Reconciler.Env.{RunApi, Env}
use tekton_task_group.Reconciler.Pass.{Pass}
use tekton_task_group.Reconciler.Kind.{no_status, reconcile_kind}

-- What v1alpha1 documents of a Run's status over several passes. Whether a Run is done is read off
-- its conditions. Its extra fields are JSON, which gives back whether there is a TaskRun.
pub record IsStable {T : Types} {R : RunTypes} (A : RunApi T R) : Type 0 where
  pub done_conditions :
      (s t : RunStatus R) → t.conditions ≡ s.conditions → A.is_done t ≡ A.is_done s
  pub failed_done :
      (reason message : String) (s : RunStatus R)
      → A.is_done (A.mark_run_failed reason message s) ≡ true
  pub initialize_done :
      (s : RunStatus R) → A.is_done s ≡ true → A.is_done (A.initialize_conditions s) ≡ true
  pub initialize_fields :
      (s : RunStatus R) → (A.initialize_conditions s).extra_fields ≡ s.extra_fields
  pub decode_fields :
      (s t : RunStatus R) (into : TaskGroupRunStatus T R)
      → t.extra_fields ≡ s.extra_fields
      → A.decode_extra_fields t into ≡ A.decode_extra_fields s into
  pub encode_conditions :
      (status : TaskGroupRunStatus T R) (s t : RunStatus R)
      → A.encode_extra_fields status s ≡ ok t
      → t.conditions ≡ s.conditions
  pub decode_encoded :
      (status : TaskGroupRunStatus T R) (s t : RunStatus R) (tr : R.TaskRunStatus)
      → A.encode_extra_fields status s ≡ ok t
      → status.task_run ≡ some tr
      → (u : R.TaskRunStatus) × ((A.decode_extra_fields t no_status).0.task_run ≡ some u)

-- A status that is made of texts and pointers always becomes JSON.
abbrev pub Encodes : {T : Types} {R : RunTypes} → RunApi T R → Type 0
Encodes {T} {R} A =
    (status : TaskGroupRunStatus T R) (s : RunStatus R)
    → (t : RunStatus R) × (A.encode_extra_fields status s ≡ ok t)

module _ {T : Types} {R : RunTypes} (E : Env T R) where
  -- The pass `q` begins with the status that `p` left: a Run that is done stays done. Its labels, its
  -- spec and the world may be others.
  pub record Resumes (p q : Pass E) : Type 0 where
    pub fields_kept : q.run.status.extra_fields ≡ p.run.status.extra_fields
    pub done_kept : E.runs.is_done p.run.status ≡ true → E.runs.is_done q.run.status ≡ true
    pub calls_kept : q.calls ≡ p.calls

  -- The same, where the conditions may be others too: once the Run's spec is changed, the library
  -- sets its condition to unknown before the pass.
  pub record Restarts (p q : Pass E) : Type 0 where
    pub fields_kept : q.run.status.extra_fields ≡ p.run.status.extra_fields
    pub calls_kept : q.calls ≡ p.calls

  -- `q` is a pass that begins, after any number of passes since `p` began.
  pub data History (Next : Pass E → Pass E → Type 0) (p : Pass E) : Pass E → Type 0 where
    first : History Next p p
    again : {q r : Pass E} → History Next p q → Next (reconcile_kind E q).1 r → History Next p r

  -- The pass `q` begins where `p` ended, with the same condition.
  pub record Continues (p q : Pass E) : Type 0 where
    pub condition_kept : E.runs.get_condition q.run.status ≡ E.runs.get_condition p.run.status
    pub fields_kept : q.run.status.extra_fields ≡ p.run.status.extra_fields
    pub calls_kept : q.calls ≡ p.calls
