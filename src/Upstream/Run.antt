-- ===== src/Upstream/Run.antt =====
-- github.com/tektoncd/pipeline: Runs (v1alpha1) and TaskRuns (v1beta1), as far as the program reads
-- or sets them. What it only passes on has an unknown type.
use tekton_task_group.Base.{ℕ, String, Option, List}
use tekton_task_group.Upstream.{Types, TaskSpec, ObjectMeta}

pub record RunTypes : Type 1 where
  -- The conditions of a Run's status
  pub Conditions : Type 0
  -- `runtime.RawExtension`
  pub RawExtension : Type 0
  pub Param : Type 0
  pub PodTemplate : Type 0
  pub WorkspaceBinding : Type 0
  pub OwnerReference : Type 0
  -- `v1beta1.TaskRunStatus`, and its zero value
  pub TaskRunStatus : Type 0
  pub no_task_run_status : TaskRunStatus

-- `corev1.ConditionStatus` and `apis.Condition`
pub data ConditionStatus : Type 0 where
  is_true is_false is_unknown : ConditionStatus

pub record Condition : Type 0 where
  pub status : ConditionStatus
  pub reason : String
  pub message : String

-- `v1beta1.TaskRef` of a Run, and its embedded spec
pub record RunRef : Type 0 where
  pub api_version : String
  pub kind : String
  pub name : String

pub record EmbeddedRunSpec (R : RunTypes) : Type 0 where
  pub api_version : String
  pub kind : String
  pub raw : R.RawExtension

pub record RunSpec (R : RunTypes) : Type 0 where
  pub ref : Option RunRef
  pub spec : Option (EmbeddedRunSpec R)
  pub params : List R.Param
  pub status : String
  pub service_account_name : String
  pub pod_template : Option R.PodTemplate
  pub workspaces : List R.WorkspaceBinding

-- Times are counts of time units; `none` is the nil pointer.
pub record RunStatus (R : RunTypes) : Type 0 where
  pub conditions : R.Conditions
  pub start_time : Option ℕ
  pub completion_time : Option ℕ
  pub extra_fields : R.RawExtension

pub record Run (R : RunTypes) : Type 0 where
  pub meta : ObjectMeta
  pub spec : RunSpec R
  pub status : RunStatus R

pub record TaskRunSpec (T : Types) (R : RunTypes) : Type 0 where
  pub params : List R.Param
  pub service_account_name : String
  pub pod_template : Option R.PodTemplate
  pub workspaces : List R.WorkspaceBinding
  pub task_spec : Option (TaskSpec T)
  pub status : String

pub record TaskRun (T : Types) (R : RunTypes) : Type 0 where
  pub meta : ObjectMeta
  pub owner_references : List R.OwnerReference
  pub spec : TaskRunSpec T R
  pub status : R.TaskRunStatus
