-- ===== src/Client/Dynamic.antt =====
-- pkg/client/injection/client/client.go, the wrapper of a dynamic client: TaskGroups go to the API
-- server and come back as unstructured objects, through JSON.
pub mod Laws
use tekton_task_group.Base.{
  String, List, [], Option, none, some, Error, plain, prefixed, Result, ok, err, ◌>>=◌,
}
use tekton_task_group.Base.Panics.{Panicking, panics}
use tekton_task_group.Upstream.{Types}
use tekton_task_group.Api.{TaskGroup}
use tekton_task_group.Client.Options.{
  ClientTypes, ListOptions, TaskGroupList, Operation, create, update, delete, delete_collection,
  get, list, watch, patch,
}

-- `schema.GroupVersionKind` and `schema.GroupVersionResource`
pub record GroupVersionKind : Type 0 where
  pub group : String
  pub version : String
  pub kind : String

pub record GroupVersionResource : Type 0 where
  pub group : String
  pub version : String
  pub resource : String

-- A TaskGroup with its `TypeMeta`, by the group, version and kind that this stands for.
pub record KindedTaskGroup (T : Types) : Type 0 where
  pub type_meta : GroupVersionKind
  pub task_group : TaskGroup T

-- encoding/json at the types that the wrapper converts, and unstructured objects and lists.
pub record Json (T : Types) (C : ClientTypes) : Type 1 where
  pub Unstructured : Type 0
  pub UnstructuredList : Type 0
  pub Bytes : Type 0
  pub marshal_task_group : KindedTaskGroup T → Result Bytes
  pub marshal_unstructured : Unstructured → Result Bytes
  pub marshal_unstructured_list : UnstructuredList → Result Bytes
  pub unmarshal_unstructured : Bytes → Result Unstructured
  pub unmarshal_task_group : Bytes → Result (KindedTaskGroup T)
  pub unmarshal_task_group_list : Bytes → Result (TaskGroupList T C)

-- `convert`
unfoldable pub convert :
    {A B : Type 0} {Bytes : Type 0} → (A → Result Bytes) → (Bytes → Result B) → A → Result B
convert marshal unmarshal from = elim (marshal from) [
  | err e ↦ err (prefixed "Marshal() = " e)
  | ok bs ↦ elim (unmarshal bs) [ err e ↦ err (prefixed "Unmarshal() = " e) | ok to ↦ ok to ]
]

module _ {T : Types} {C : ClientTypes} (J : Json T C) where
  -- The calls of `dynamic.ResourceInterface` that the wrapper makes.
  pub data Call : Type 0 where
    create_object : J.Unstructured → C.CreateOptions → Call
    update_object : J.Unstructured → C.UpdateOptions → Call
    update_status_object : J.Unstructured → C.UpdateOptions → Call
    get_object : String → C.GetOptions → Call
    patch_object : String → C.PatchType → String → C.PatchOptions → List String → Call

  -- A dynamic client. A call goes to a resource and a namespace.
  pub record DynamicClient : Type 1 where
    pub World : Type 0
    pub send : GroupVersionResource → String → Call → World → Result J.Unstructured × World
    pub send_list :
        GroupVersionResource → String → ListOptions C → World → Result J.UnstructuredList × World
    pub send_delete :
        GroupVersionResource → String → String → C.DeleteOptions → World → Option Error × World
    pub send_delete_collection :
        GroupVersionResource
        → String
        → C.DeleteOptions
        → ListOptions C
        → World
        → Option Error × World

  -- What the methods hand back.
  pub data Outcome : Type 0 where
    task_group : Result (KindedTaskGroup T) → Outcome
    task_groups : Result (TaskGroupList T C) → Outcome
    watching : Result C.Watch → Outcome
    deleted : Option Error → Outcome

-- `in.SetGroupVersionKind(...)`
abbrev pub task_group_kind : GroupVersionKind
task_group_kind = record { group = "custom.tekton.dev"; version = "v1alpha1"; kind = "TaskGroup" }

abbrev pub set_group_version_kind : {T : Types} → KindedTaskGroup T → KindedTaskGroup T
set_group_version_kind in_object = record in_object { type_meta = task_group_kind }

-- What `TaskGroups` gives the dynamic client.
abbrev pub task_groups_gvr : GroupVersionResource
task_groups_gvr = record {
  group = "custom.tekton.dev";
  version = "v1alpha1";
  resource = "taskgroups";
}

-- `Discovery` and `RESTClient` of the wrapper
unfoldable pub dynamic_discovery : {D : Type 0} → Panicking D
dynamic_discovery = panics "Discovery called on dynamic client!"

unfoldable pub dynamic_rest_client : {R : Type 0} → Panicking R
dynamic_rest_client = panics "RESTClient called on dynamic client!"

module _ {T : Types} {C : ClientTypes} (J : Json T C) (D : DynamicClient J) (ns : String) where
  -- `convert(in, uo)` and `convert(uo, out)`
  unfoldable pub to_unstructured : KindedTaskGroup T → Result J.Unstructured
  unfolding convert
  to_unstructured = convert J.marshal_task_group J.unmarshal_unstructured

  unfoldable pub from_unstructured : J.Unstructured → Result (KindedTaskGroup T)
  unfolding convert
  from_unstructured = convert J.marshal_unstructured J.unmarshal_task_group

  unfoldable pub from_unstructured_list : J.UnstructuredList → Result (TaskGroupList T C)
  unfolding convert
  from_unstructured_list = convert J.marshal_unstructured_list J.unmarshal_task_group_list

  -- A call, and its object as a TaskGroup.
  unfoldable pub sent : Call J → D.World → Outcome J × D.World
  unfolding from_unstructured
  sent call w =
      let (r, w') = D.send task_groups_gvr ns call w in (task_group (r >>= from_unstructured), w')

  -- `Create`, `Update` and `UpdateStatus` send the object with its kind.
  unfoldable pub sent_object :
      (J.Unstructured → Call J) → Result J.Unstructured → D.World → Outcome J × D.World
  unfolding sent
  sent_object call (ok uo) w = sent (call uo) w
  sent_object call (err e) w = (task_group (err e), w)

  unfoldable pub update_status : KindedTaskGroup T → C.UpdateOptions → D.World → Outcome J × D.World
  unfolding sent_object to_unstructured
  update_status in_object opts w =
      sent_object (λ uo. update_status_object uo opts)
        (to_unstructured (set_group_version_kind in_object)) w

  -- The methods of `wrapCustomV1alpha1TaskGroupImpl`, at an object with that type. `Patch` does not
  -- hand its subresources on.
  unfoldable pub perform : GroupVersionKind → Operation T C → D.World → Outcome J × D.World
  unfolding sent sent_object to_unstructured from_unstructured_list
  perform kind (create tg opts) w =
      sent_object (λ uo. create_object uo opts)
        (to_unstructured (set_group_version_kind (record { type_meta = kind; task_group = tg }))) w
  perform kind (update tg opts) w =
      sent_object (λ uo. update_object uo opts)
        (to_unstructured (set_group_version_kind (record { type_meta = kind; task_group = tg }))) w
  perform kind (delete name opts) w =
      let (e, w') = D.send_delete task_groups_gvr ns name opts w in (deleted e, w')
  perform kind (delete_collection opts list_opts) w =
      let (e, w') = D.send_delete_collection task_groups_gvr ns opts list_opts w in (deleted e, w')
  perform kind (get name opts) w = sent (get_object name opts) w
  perform kind (list opts) w =
      let (r, w') = D.send_list task_groups_gvr ns opts w in
      (task_groups (r >>= from_unstructured_list), w')
  perform kind (watch opts) w = (watching (err (plain "NYI: Watch")), w)
  perform kind (patch name pt content opts subresources) w =
      sent (patch_object name pt content opts []) w
