-- ===== src/Reconciler/Env.antt =====
-- What the reconciler calls: the methods of Runs and TaskRuns, the API server behind its clients and
-- listers, and the fetching of tasks. All of it is code of the libraries.
use tekton_task_group.Base.{String, Bool, Option, some, List, Error, Result, Returned, ◌≡◌}
use tekton_task_group.Base.GoMap.{GoMap}
use tekton_task_group.Upstream.{Types, TaskSpec, TaskRef, StepApi}
use tekton_task_group.Upstream.FieldError.{FieldErrors}
use tekton_task_group.Upstream.Run.{
  RunTypes, Run, RunStatus, TaskRun, Condition, is_true, is_false, is_unknown,
}
use tekton_task_group.Api.{TaskGroup, TaskGroupSpec, TaskGroupRunStatus}
use tekton_task_group.Api.Validation.{Validators}

-- The methods of `v1alpha1.Run` and of its status. The clock's reading is fixed for one pass.
pub record RunApi (T : Types) (R : RunTypes) : Type 0 where
  pub has_started : RunStatus R → Bool
  pub is_done : RunStatus R → Bool
  pub is_cancelled : Run R → Bool
  pub get_condition : RunStatus R → Option Condition
  pub initialize_conditions : RunStatus R → RunStatus R
  -- The reason, and the message with its arguments put in.
  pub mark_run_failed : String → String → RunStatus R → RunStatus R
  pub mark_run_succeeded : String → String → RunStatus R → RunStatus R
  pub mark_run_running : String → String → RunStatus R → RunStatus R
  -- Beside an error the decoded status holds what was read before it.
  pub decode_extra_fields : RunStatus R → TaskGroupRunStatus T R → Returned (TaskGroupRunStatus T R)
  pub encode_extra_fields : TaskGroupRunStatus T R → RunStatus R → Result (RunStatus R)
  -- `kmeta.NewControllerRef`
  pub new_controller_ref : Run R → R.OwnerReference

-- The methods of `v1beta1.TaskRun`.
pub record TaskRunApi (T : Types) (R : RunTypes) : Type 0 where
  pub is_done : TaskRun T R → Bool
  pub is_successful : TaskRun T R → Bool
  pub is_cancelled : TaskRun T R → Bool

-- `jsonpatch.JsonPatchOperation`, with a text as its value
pub record JsonPatchOperation : Type 0 where
  pub operation : String
  pub path : String
  pub value : String

-- The API server and the listers' caches, as a world that the calls read and change.
pub record Cluster (T : Types) (R : RunTypes) : Type 1 where
  pub World : Type 0
  pub get_task_group : World → String → String → Result (TaskGroup T)
  pub list_task_runs : World → String → GoMap String → Result (List (TaskRun T R))
  pub create_task_run : World → String → TaskRun T R → Result (TaskRun T R) × World
  -- A JSON patch of the TaskRun of a name.
  pub patch_task_run : World → String → String → List JsonPatchOperation → Option Error × World
  pub get_run : World → String → String → Result (Run R)
  -- The merge patch of a Run's labels and annotations.
  pub patch_run :
      World → String → String → Option (GoMap String) → Option (GoMap String) → Option Error × World
  pub emit : World → Option Condition → Option Condition → Run R → World
  -- `names.SimpleNameGenerator.RestrictLengthWithRandomSuffix`
  pub random_name : World → String → String × World
  -- `resources.GetTaskFunc` with a namespace and a service account, and `resources.GetTaskData`
  pub TaskGetter : Type 0
  pub get_task_func : World → TaskRef T → String → String → Result TaskGetter
  pub get_task_data : World → TaskRef T → TaskGetter → Result (TaskSpec T)
  pub is_get_task_err_transient : Error → Bool

-- All that one controller runs on. `error_go_syntax` is the verb `%#v`.
pub record Env (T : Types) (R : RunTypes) : Type 1 where
  pub steps : StepApi T
  pub fields : FieldErrors
  pub validators : Validators T fields
  pub field_error_text : fields.FieldError → String
  pub runs : RunApi T R
  pub task_runs : TaskRunApi T R
  pub cluster : Cluster T R
  pub unmarshal_spec : R.RawExtension → Result (TaskGroupSpec T)
  pub error_go_syntax : Error → String

-- What v1alpha1 documents of its methods, where a theorem needs it.
pub record IsLawful {T : Types} {R : RunTypes} (A : RunApi T R) : Type 0 where
  pub condition_failed :
      (reason message : String) (s : RunStatus R)
      → A.get_condition (A.mark_run_failed reason message s)
        ≡ some (record { status = is_false; reason = reason; message = message })
  pub condition_succeeded :
      (reason message : String) (s : RunStatus R)
      → A.get_condition (A.mark_run_succeeded reason message s)
        ≡ some (record { status = is_true; reason = reason; message = message })
  pub condition_running :
      (reason message : String) (s : RunStatus R)
      → A.get_condition (A.mark_run_running reason message s)
        ≡ some (record { status = is_unknown; reason = reason; message = message })
