-- ===== src/Reconciler/Pass.antt =====
-- One pass of the reconciler: the Run and its decoded status, which it changes in place, the world,
-- and the calls that it made to the API server, in order.
use tekton_task_group.Base.{String, Option, List, [], ◌∷◌, ◌++◌, Result, Error}
use tekton_task_group.Base.GoMap.{GoMap}
use tekton_task_group.Upstream.{Types}
use tekton_task_group.Upstream.Run.{RunTypes, Run, RunStatus, TaskRun, Condition}
use tekton_task_group.Api.{TaskGroupRunStatus}
use tekton_task_group.Reconciler.Env.{Env}

-- A call that changes something outside the pass. Reading is no such call.
pub data Call (T : Types) (R : RunTypes) : Type 0 where
  create_task_run : TaskRun T R → Call T R
  cancel_task_run : String → Call T R
  patch_run : Option (GoMap String) → Option (GoMap String) → Call T R
  emit : Option Condition → Option Condition → Call T R

module _ {T : Types} {R : RunTypes} (E : Env T R) where
  pub record Pass : Type 0 where
    pub run : Run R
    pub status : TaskGroupRunStatus T R
    pub world : E.cluster.World
    pub calls : List (Call T R)

  -- A fallible action on a pass. What it changed before an error stays changed.
  abbrev pub Action : Type 0 → Type 0
  Action A = Pass → Result A × Pass

  -- An action that only fails or not.
  abbrev pub Attempt : Type 0
  Attempt = Pass → Option Error × Pass

  abbrev pub with_status : RunStatus R → Pass → Pass
  with_status s p = record p { run = record p.run { status = s } }

  -- A call, with the world that it leaves.
  abbrev pub called : Call T R → E.cluster.World → Pass → Pass
  called c w p = record p { world = w; calls = p.calls ++ c ∷ [] }

  -- `run.Status.MarkRunFailed(reason, message)` and its like
  abbrev pub mark_failed : String → String → Pass → Pass
  mark_failed reason message p = with_status (E.runs.mark_run_failed reason message p.run.status) p

  abbrev pub mark_succeeded : String → String → Pass → Pass
  mark_succeeded reason message p =
      with_status (E.runs.mark_run_succeeded reason message p.run.status) p

  abbrev pub mark_running : String → String → Pass → Pass
  mark_running reason message p =
      with_status (E.runs.mark_run_running reason message p.run.status) p
