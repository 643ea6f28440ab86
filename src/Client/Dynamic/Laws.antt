-- ===== src/Client/Dynamic/Laws.antt =====
-- The wrapper of a dynamic client asks the API server for what the typed client does.
use tekton_task_group.Base.{
  String, ◌≡◌, refl, false, List, [], ◌∷◌, ◌++◌, none, some, Option, Error, Result, ok,
}
use tekton_task_group.Upstream.{Types}
use tekton_task_group.Api.{TaskGroup, group_name, task_group_controller_name}
use tekton_task_group.Client.Options.{
  ClientTypes, ListOptions, Operation, create, update, delete, delete_collection, get, list, watch,
  patch,
}
use tekton_task_group.Client.Typed.{request}
use tekton_task_group.Client.Fake.Laws.{Asked, asked_by_request}
use tekton_task_group.Client.Dynamic.{
  GroupVersionKind, GroupVersionResource, Json, Call, create_object, update_object,
  update_status_object, get_object, patch_object, DynamicClient, to_unstructured, sent, sent_object,
  perform,
}

-- The resource and the kind under which the API server has TaskGroups.
abbrev pub served_resource : GroupVersionResource
served_resource = record { group = group_name; version = "v1alpha1"; resource = "taskgroups" }

abbrev pub served_kind : GroupVersionKind
served_kind = record { group = group_name; version = "v1alpha1"; kind = task_group_controller_name }

-- What an API server answers to a dynamic client.
pub record Answers {T : Types} {C : ClientTypes} (J : Json T C) : Type 0 where
  pub to_call : GroupVersionResource → String → Call J → Result J.Unstructured
  pub to_list : GroupVersionResource → String → ListOptions C → Result J.UnstructuredList
  pub to_delete : GroupVersionResource → String → String → C.DeleteOptions → Option Error
  pub to_delete_collection :
      GroupVersionResource → String → C.DeleteOptions → ListOptions C → Option Error

module _ {T : Types} {C : ClientTypes} (J : Json T C) (name_of : J.Unstructured → String) where
  abbrev asking :
      String
      → Option String
      → List String
      → GroupVersionResource
      → String
      → GroupVersionResource × Asked
  asking verb name sub_resource gvr ns = (
    gvr,
    record {
      verb = verb;
      namespace = ns;
      resource = gvr.resource;
      name = name;
      sub_resource = sub_resource;
    },
  )

  -- What a call asks for. An update names the object that it sends.
  abbrev pub asked_by_call : GroupVersionResource → String → Call J → GroupVersionResource × Asked
  asked_by_call gvr ns (create_object uo opts) = asking "create" none [] gvr ns
  asked_by_call gvr ns (update_object uo opts) = asking "update" (some (name_of uo)) [] gvr ns
  asked_by_call gvr ns (update_status_object uo opts) =
      asking "update" (some (name_of uo)) ("status" ∷ []) gvr ns
  asked_by_call gvr ns (get_object name opts) = asking "get" (some name) [] gvr ns
  asked_by_call gvr ns (patch_object name pt content opts subresources) =
      asking "patch" (some name) subresources gvr ns

  -- A dynamic client that notes what it is asked for, in order, and gives the answers.
  abbrev pub recorder : Answers J → DynamicClient J
  recorder answers = record {
    World = List (GroupVersionResource × Asked);
    send = λ gvr ns call w. (answers.to_call gvr ns call, w ++ asked_by_call gvr ns call ∷ []);
    send_list =
        λ gvr ns opts w. (answers.to_list gvr ns opts, w ++ asking "list" none [] gvr ns ∷ []);
    send_delete = λ gvr ns name opts w.
        (answers.to_delete gvr ns name opts, w ++ asking "delete" (some name) [] gvr ns ∷ []);
    send_delete_collection = λ gvr ns opts list_opts w. (
      answers.to_delete_collection gvr ns opts list_opts,
      w ++ asking "delete-collection" none [] gvr ns ∷ [],
    );
  }

  -- The TaskGroup, with its kind set, can be written as an unstructured object of its name.
  abbrev pub IsWritten : Answers J → String → TaskGroup T → Type 0
  IsWritten answers ns tg =
      (uo : J.Unstructured) × (to_unstructured J (recorder answers) ns
          (record { type_meta = served_kind; task_group = tg })
        ≡ ok uo)
      × (name_of uo ≡ tg.meta.name)

  -- An operation that is sent as it is: not `Watch`, which the wrapper does not have, nor a patch of
  -- subresources, nor a list with the option to watch.
  abbrev pub IsSent : Answers J → String → Operation T C → Type 0
  IsSent answers ns (create tg opts) = IsWritten answers ns tg
  IsSent answers ns (update tg opts) = IsWritten answers ns tg
  IsSent answers ns (delete name opts) = Unit
  IsSent answers ns (delete_collection opts list_opts) = Unit
  IsSent answers ns (get name opts) = Unit
  IsSent answers ns (list opts) = opts.watch ≡ false
  IsSent answers ns (watch opts) = ⊥
  IsSent answers ns (patch name pt content opts subresources) = subresources ≡ []

  -- Whatever the API server answers, the wrapper of a dynamic client makes one call for each method,
  -- and asks by it for what the typed client's request asks for: the same verb on the resource of
  -- TaskGroups, with the same namespace, name and subresources. `Watch` is left out, and so are
  -- patches of subresources, lists with the option to watch, and objects that cannot be written as
  -- unstructured ones. The type that the object is given with does not matter.
  pub perform-request :
      (answers : Answers J) (ns : String) (kind : GroupVersionKind) (op : Operation T C)
      → (before : List (GroupVersionResource × Asked)) → IsSent answers ns op
      → (perform J (recorder answers) ns kind op before).1
        ≡ before ++ (served_resource, asked_by_request (request ns op)) ∷ []
  unfolding perform sent sent_object request
  perform-request answers ns kind (create tg opts) w (uo, e, named) = rw e
  perform-request answers ns kind (update tg opts) w (uo, e, named) = rw (e, named)
  perform-request answers ns kind (delete name opts) w h = refl
  perform-request answers ns kind (delete_collection opts list_opts) w h = refl
  perform-request answers ns kind (get name opts) w h = refl
  perform-request answers ns kind (list opts) w h = rw h
  perform-request answers ns kind (watch opts) w h = absurd h
  perform-request answers ns kind (patch name pt content opts subresources) w h = rw h
