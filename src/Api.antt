-- ===== src/Api.antt =====
-- pkg/apis/taskgroup/v1alpha1/taskgroup_types.go: the types of a TaskGroup.
pub mod Register
pub mod Validation
use tekton_task_group.Base.{String, Option, List}
use tekton_task_group.Upstream
use tekton_task_group.Upstream.Run.{RunTypes}
use tekton_task_group.Upstream.{
  Types, ParamSpec, WorkspaceDeclaration, TaskResult, Sidecar, Volume, TaskRef, ObjectMeta,
}

pub record ParamBinding : Type 0 where
  pub name : String
  pub param : String

pub record WorkspaceBinding : Type 0 where
  pub name : String
  pub workspace : String

pub record Uses (T : Types) : Type 0 where
  pub task_ref : TaskRef T
  pub param_bindings : List ParamBinding
  pub workspace_bindings : List WorkspaceBinding

-- The embedded `v1beta1.Step` is the field `step`.
pub record Step (T : Types) : Type 0 where
  pub step : Upstream.Step T
  pub uses : Option (Uses T)

unfoldable pub to_upstream : {T : Types} → Step T → Upstream.Step T
to_upstream s = s.step

pub record TaskGroupSpec (T : Types) : Type 0 where
  pub params : List (ParamSpec T)
  pub description : String
  pub steps : List (Step T)
  pub volumes : List (Volume T)
  pub step_template : Option T.Container
  pub sidecars : List (Sidecar T)
  pub workspaces : List WorkspaceDeclaration
  pub results : List TaskResult

pub record TaskGroup (T : Types) : Type 0 where
  pub meta : ObjectMeta
  pub spec : TaskGroupSpec T

-- `TaskGroupRunReason`: the reasons that a Run's condition is given.
abbrev pub reason_started : String
reason_started = "Started"

abbrev pub reason_running : String
reason_running = "Running"

abbrev pub reason_failed : String
reason_failed = "Failed"

abbrev pub reason_succeeded : String
reason_succeeded = "Succeeded"

abbrev pub reason_couldnt_cancel : String
reason_couldnt_cancel = "TaskGroupRunCouldntCancel"

abbrev pub reason_couldnt_get_task_group : String
reason_couldnt_get_task_group = "CouldntGetTaskGroup"

abbrev pub reason_failed_validation : String
reason_failed_validation = "TaskGroupValidationFailed"

abbrev pub reason_internal_error : String
reason_internal_error = "TaskGroupInternalError"

-- `TaskGroupRunStatus`, which is kept in the extra fields of a Run's status.
pub record TaskGroupRunStatus (T : Types) (R : RunTypes) : Type 0 where
  pub task_group_spec : Option (TaskGroupSpec T)
  pub task_run : Option R.TaskRunStatus

-- `GroupName` (pkg/apis/taskgroup/register.go), `SchemeGroupVersion.String()` and
-- `TaskGroupControllerName` (pkg/apis/taskgroup/controller.go)
abbrev pub group_name : String
group_name = "custom.tekton.dev"

abbrev pub scheme_group_version : String
scheme_group_version = "custom.tekton.dev/v1alpha1"

abbrev pub task_group_controller_name : String
task_group_controller_name = "TaskGroup"
