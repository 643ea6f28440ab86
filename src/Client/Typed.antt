-- ===== src/Client/Typed.antt =====
-- pkg/client/clientset/versioned/typed/taskgroup/v1alpha1/taskgroup.go: the requests of the typed
-- client to the API server.
use Prim.Native.Nat.{◌^◌}
use tekton_task_group.Base.{
  ℕ, ◌*◌, ◌%◌, String, true, List, [], Option, none, some, Error, Returned,
}
use tekton_task_group.Upstream.{Types}
use tekton_task_group.Api.{TaskGroup}
use tekton_task_group.Client.Options.{
  ClientTypes, ListOptions, TaskGroupList, Operation, create, update, delete, delete_collection,
  get, list, watch, patch,
}

pub data Verb : Type 0 where
  verb_get verb_post verb_put verb_delete verb_patch : Verb

-- `VersionedParams` and `Body`
pub data Params (C : ClientTypes) : Type 0 where
  get_options : C.GetOptions → Params C
  list_options : ListOptions C → Params C
  create_options : C.CreateOptions → Params C
  update_options : C.UpdateOptions → Params C
  patch_options : C.PatchOptions → Params C

pub data Body (T : Types) (C : ClientTypes) : Type 0 where
  object : TaskGroup T → Body T C
  delete_options : C.DeleteOptions → Body T C
  bytes : C.PatchType → String → Body T C

-- What a `rest.Request` is given before it is sent. No name and no timeout is what it starts with.
pub record Request (T : Types) (C : ClientTypes) : Type 0 where
  pub verb : Verb
  pub namespace : String
  pub resource : String
  pub name : Option String
  pub sub_resource : List String
  pub params : Option (Params C)
  pub timeout : Option ℕ
  pub body : Option (Body T C)

-- The REST client: a request is sent and what comes back is decoded. The result is the zero value
-- or what was decoded of it where there is an error.
pub record RestClient (T : Types) (C : ClientTypes) : Type 1 where
  pub World : Type 0
  pub into_task_group : Request T C → World → Returned (TaskGroup T) × World
  pub into_list : Request T C → World → Returned (TaskGroupList T C) × World
  pub into_error : Request T C → World → Option Error × World
  pub into_watch : Request T C → World → Returned C.Watch × World

-- `time.Duration(*opts.TimeoutSeconds) * time.Second`, an int64 by its bits, and 0 without one.
unfoldable pub timeout_of : {C : ClientTypes} → ListOptions C → ℕ
timeout_of opts = elim opts.timeout_seconds [ none ↦ 0 | some s ↦ (s * 1000000000) % 2 ^ 64 ]

module _ {T : Types} {C : ClientTypes} (ns : String) where
  -- What each of the methods starts from.
  abbrev on_task_groups : Verb → Request T C
  on_task_groups verb = record {
    verb = verb;
    namespace = ns;
    resource = "taskgroups";
    name = none;
    sub_resource = [];
    params = none;
    timeout = none;
    body = none;
  }

  -- The request of a method.
  unfoldable pub request : Operation T C → Request T C
  unfolding timeout_of
  request (get name options) = record (on_task_groups verb_get) {
    name = some name;
    params = some (get_options options);
  }
  request (list opts) = record (on_task_groups verb_get) {
    params = some (list_options opts);
    timeout = some (timeout_of opts);
  }
  request (watch opts) = record (on_task_groups verb_get) {
    params = some (list_options (record opts { watch = true }));
    timeout = some (timeout_of opts);
  }
  request (create tg opts) = record (on_task_groups verb_post) {
    params = some (create_options opts);
    body = some (object tg);
  }
  request (update tg opts) = record (on_task_groups verb_put) {
    name = some tg.meta.name;
    params = some (update_options opts);
    body = some (object tg);
  }
  request (delete name opts) = record (on_task_groups verb_delete) {
    name = some name;
    body = some (delete_options opts);
  }
  request (delete_collection opts list_opts) = record (on_task_groups verb_delete) {
    params = some (list_options list_opts);
    timeout = some (timeout_of list_opts);
    body = some (delete_options opts);
  }
  request (patch name pt content opts subresources) = record (on_task_groups verb_patch) {
    name = some name;
    sub_resource = subresources;
    params = some (patch_options opts);
    body = some (bytes pt content);
  }

-- What a method hands back: the object, the list or the watch beside an error, or the error alone.
pub data Outcome (T : Types) (C : ClientTypes) : Type 0 where
  task_group : Returned (TaskGroup T) → Outcome T C
  task_groups : Returned (TaskGroupList T C) → Outcome T C
  watching : Returned C.Watch → Outcome T C
  deleted : Option Error → Outcome T C

module _ {T : Types} {C : ClientTypes} (R : RestClient T C) (ns : String) where
  abbrev pub as_task_group : Request T C → R.World → Outcome T C × R.World
  as_task_group r w = let (returned, w') = R.into_task_group r w in (task_group returned, w')

  -- The methods of `taskGroups`, each with its request.
  unfoldable pub perform : Operation T C → R.World → Outcome T C × R.World
  unfolding request
  perform (get name options) w = as_task_group (request ns (get name options)) w
  perform (list opts) w =
      let (returned, w') = R.into_list (request ns (list opts)) w in (task_groups returned, w')
  perform (watch opts) w =
      let (returned, w') = R.into_watch (request ns (watch opts)) w in (watching returned, w')
  perform (create tg opts) w = as_task_group (request ns (create tg opts)) w
  perform (update tg opts) w = as_task_group (request ns (update tg opts)) w
  perform (delete name opts) w =
      let (e, w') = R.into_error (request ns (delete name opts)) w in (deleted e, w')
  perform (delete_collection opts list_opts) w =
      let (e, w') = R.into_error (request ns (delete_collection opts list_opts)) w in
      (deleted e, w')
  perform (patch name pt content opts subresources) w =
      as_task_group (request ns (patch name pt content opts subresources)) w
