-- ===== src/Client/Fake.antt =====
-- pkg/client/clientset/versioned/typed/taskgroup/v1alpha1/fake/fake_taskgroup.go: the fake client,
-- which invokes an action for each method.
pub mod Laws
pub mod Clientset
use tekton_task_group.Base.{
  String, Bool, true, List, [], ◌∷◌, ◌++◌, Option, none, some, if◌then◌else◌, Error,
}
use tekton_task_group.Base.GoMap.{GoMap}
use tekton_task_group.Upstream.{Types}
use tekton_task_group.Api.{TaskGroup}
use tekton_task_group.Reconciler.Labels.{entries}
use tekton_task_group.Client.Options.{
  ClientTypes, ListOptions, TaskGroupList, Operation, create, update, delete, delete_collection,
  get, list, watch, patch,
}

-- k8s.io/client-go/testing: the actions.
pub data Action (T : Types) (C : ClientTypes) : Type 0 where
  get_action : String → String → String → Action T C
  list_action : String → String → String → ListOptions C → Action T C
  watch_action : String → String → ListOptions C → Action T C
  create_action : String → String → TaskGroup T → Action T C
  update_action : String → String → TaskGroup T → Action T C
  delete_action : String → String → String → Action T C
  delete_collection_action : String → String → ListOptions C → Action T C
  patch_action : String → String → String → C.PatchType → String → List String → Action T C

-- `testing.Fake` with its reactors. The object is nil where a reactor gives none.
pub record Fake (T : Types) (C : ClientTypes) : Type 1 where
  pub World : Type 0
  pub invokes : Action T C → World → (Option (TaskGroup T) × Option Error) × World
  pub invokes_list : Action T C → World → (Option (TaskGroupList T C) × Option Error) × World
  pub invokes_watch : Action T C → World → (Option C.Watch × Option Error) × World
  -- The label selector that `ExtractFromListOptions` finds, as a test of labels.
  pub extract_label : ListOptions C → Option (GoMap String → Bool)

-- The group's resource and kind, each of which the actions are given as a whole.
abbrev pub task_groups_resource : String
task_groups_resource = "taskgroups"

abbrev pub task_groups_kind : String
task_groups_kind = "TaskGroup"

unfoldable pub label_or_everything : Option (GoMap String → Bool) → GoMap String → Bool
label_or_everything none labels = true
label_or_everything (some label) labels = label labels

-- The loop of `List`.
unfoldable pub matching_items :
    {T : Types}
    → (GoMap String → Bool)
    → List (TaskGroup T)
    → List (TaskGroup T)
    → List (TaskGroup T)
matching_items label [] out = out
matching_items label (item ∷ items) out =
    matching_items label items (if label (entries item.meta.labels) then out ++ item ∷ [] else out)

-- What a method hands back.
pub data Outcome (T : Types) (C : ClientTypes) : Type 0 where
  task_group : Option (TaskGroup T) × Option Error → Outcome T C
  task_groups : Option (TaskGroupList T C) × Option Error → Outcome T C
  watching : Option C.Watch × Option Error → Outcome T C
  deleted : Option Error → Outcome T C

module _ {T : Types} {C : ClientTypes} (ns : String) where
  -- The action of a method.
  unfoldable pub action : Operation T C → Action T C
  action (get name options) = get_action task_groups_resource ns name
  action (list opts) = list_action task_groups_resource task_groups_kind ns opts
  action (watch opts) = watch_action task_groups_resource ns opts
  action (create tg opts) = create_action task_groups_resource ns tg
  action (update tg opts) = update_action task_groups_resource ns tg
  action (delete name opts) = delete_action task_groups_resource ns name
  action (delete_collection opts list_opts) =
      delete_collection_action task_groups_resource ns list_opts
  action (patch name pt content opts subresources) =
      patch_action task_groups_resource ns name pt content subresources

module _ {T : Types} {C : ClientTypes} (F : Fake T C) where
  -- What `List` makes of the list that it is given.
  unfoldable pub filtered :
      ListOptions C
      → Option (TaskGroupList T C) × Option Error
      → Option (TaskGroupList T C) × Option Error
  unfolding label_or_everything matching_items
  filtered opts (none, e) = (none, e)
  filtered opts (some obj, e) = (
    some (record {
      list_meta = obj.list_meta;
      items = matching_items (label_or_everything (F.extract_label opts)) obj.items [];
    }),
    e,
  )

module _ {T : Types} {C : ClientTypes} (F : Fake T C) (ns : String) where
  abbrev invoked : Action T C → F.World → Outcome T C × F.World
  invoked a w = let (returned, w') = F.invokes a w in (task_group returned, w')

  -- The methods of `FakeTaskGroups`, each with its action.
  unfoldable pub perform : Operation T C → F.World → Outcome T C × F.World
  unfolding action filtered
  perform (get name options) w = invoked (action ns (get name options)) w
  perform (list opts) w =
      let (returned, w') = F.invokes_list (action ns (list opts)) w in
      (task_groups (filtered F opts returned), w')
  perform (watch opts) w =
      let (returned, w') = F.invokes_watch (action ns (watch opts)) w in (watching returned, w')
  perform (create tg opts) w = invoked (action ns (create tg opts)) w
  perform (update tg opts) w = invoked (action ns (update tg opts)) w
  perform (delete name opts) w =
      let ((_, e), w') = F.invokes (action ns (delete name opts)) w in (deleted e, w')
  perform (delete_collection opts list_opts) w =
      let ((_, e), w') = F.invokes_list (action ns (delete_collection opts list_opts)) w in
      (deleted e, w')
  perform (patch name pt content opts subresources) w =
      invoked (action ns (patch name pt content opts subresources)) w
