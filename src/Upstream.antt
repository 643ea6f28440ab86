-- ===== src/Upstream.antt =====
-- What the program takes from the libraries that it is built on: the types of
-- github.com/tektoncd/pipeline (v1beta1) and of Kubernetes (corev1), as far as the program reads
-- them, and the library functions that it calls. What it only passes on has an unknown type.
pub mod FieldError
pub mod Run
use tekton_task_group.Base.{ℕ, String, Bool, Option, none, ◌≡◌, List, Result, ok}
use tekton_task_group.Base.GoMap.{GoMap}

pub record Types : Type 1 where
  -- `corev1.Container`
  pub Container : Type 0
  -- `v1beta1.Step`, less the name
  pub StepBody : Type 0
  -- `v1beta1.Sidecar`, less the name
  pub SidecarBody : Type 0
  -- `corev1.Volume`, less the name
  pub VolumeSource : Type 0
  -- `v1beta1.ArrayOrString`
  pub ArrayOrString : Type 0
  -- `v1beta1.ResolverRef`
  pub ResolverRef : Type 0

pub record Step (T : Types) : Type 0 where
  pub name : String
  pub body : T.StepBody

pub record Sidecar (T : Types) : Type 0 where
  pub name : String
  pub body : T.SidecarBody

pub record Volume (T : Types) : Type 0 where
  pub name : String
  pub source : T.VolumeSource

pub record ParamSpec (T : Types) : Type 0 where
  pub name : String
  pub param_type : String
  pub description : String
  pub default : Option T.ArrayOrString

pub record WorkspaceDeclaration : Type 0 where
  pub name : String
  pub description : String
  pub mount_path : String
  pub read_only : Bool
  pub optional : Bool

pub record TaskResult : Type 0 where
  pub name : String
  pub description : String

pub record TaskRef (T : Types) : Type 0 where
  pub name : String
  pub kind : String
  pub api_version : String
  pub bundle : String
  pub resolver : T.ResolverRef

-- `v1beta1.TaskSpec`. Its field `Resources` is never read, set or copied by itself.
pub record TaskSpec (T : Types) : Type 0 where
  pub params : List (ParamSpec T)
  pub description : String
  pub steps : List (Step T)
  pub volumes : List (Volume T)
  pub step_template : Option T.Container
  pub sidecars : List (Sidecar T)
  pub workspaces : List WorkspaceDeclaration
  pub results : List TaskResult

-- `metav1.ObjectMeta`, as far as the program reads it. `none` is the nil map, and a time is a count
-- of time units.
pub record ObjectMeta : Type 0 where
  pub name : String
  pub namespace : String
  pub creation_timestamp : ℕ
  pub labels : Option (GoMap String)
  pub annotations : Option (GoMap String)

-- The two functions of v1beta1 that the resolution calls.
pub record StepApi (T : Types) : Type 0 where
  pub apply_step_replacements : Step T → GoMap String → GoMap (List String) → Step T
  pub merge_steps_with_step_template : Option T.Container → List (Step T) → Result (List (Step T))

-- What v1beta1 documents of them, where a theorem needs it: with no template the steps are
-- returned as they are.
pub record IsLawful {T : Types} (P : StepApi T) : Type 0 where
  pub merge_no_template :
      (steps : List (Step T)) → P.merge_steps_with_step_template none steps ≡ ok steps
