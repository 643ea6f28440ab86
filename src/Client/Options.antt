-- ===== src/Client/Options.antt =====
-- What the typed client and its fake share: the options of the calls, and the calls themselves.
use tekton_task_group.Base.{ℕ, String, Bool, List, Option}
use tekton_task_group.Upstream.{Types}
use tekton_task_group.Api.{TaskGroup}

-- The types of apimachinery that the client only passes on.
pub record ClientTypes : Type 1 where
  pub GetOptions : Type 0
  pub CreateOptions : Type 0
  pub UpdateOptions : Type 0
  pub DeleteOptions : Type 0
  pub PatchOptions : Type 0
  pub PatchType : Type 0
  pub ListMeta : Type 0
  pub Watch : Type 0
  -- The selectors and the other fields of `v1.ListOptions`
  pub Selectors : Type 0

-- `v1.ListOptions`. `TimeoutSeconds` is an int64, by its bits.
pub record ListOptions (C : ClientTypes) : Type 0 where
  pub selectors : C.Selectors
  pub watch : Bool
  pub timeout_seconds : Option ℕ

-- `TaskGroupList`
pub record TaskGroupList (T : Types) (C : ClientTypes) : Type 0 where
  pub list_meta : C.ListMeta
  pub items : List (TaskGroup T)

-- The methods of `TaskGroupInterface` with their arguments.
pub data Operation (T : Types) (C : ClientTypes) : Type 0 where
  create : TaskGroup T → C.CreateOptions → Operation T C
  update : TaskGroup T → C.UpdateOptions → Operation T C
  delete : String → C.DeleteOptions → Operation T C
  delete_collection : C.DeleteOptions → ListOptions C → Operation T C
  get : String → C.GetOptions → Operation T C
  list : ListOptions C → Operation T C
  watch : ListOptions C → Operation T C
  patch : String → C.PatchType → String → C.PatchOptions → List String → Operation T C
