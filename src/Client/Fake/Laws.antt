-- ===== src/Client/Fake/Laws.antt =====
-- The fake client does what the typed client asks of the API server.
use tekton_task_group.Base.{
  String, ◌≡◌, refl, sym, Bool, true, false, List, [], ◌∷◌, ◌++◌, append-nil, append_assoc, Option,
  none, some, keep, Error, Bool-cases, inl, inr,
}
use tekton_task_group.Base.GoMap.{GoMap}
use tekton_task_group.Upstream.{Types}
use tekton_task_group.Api.{TaskGroup}
use tekton_task_group.Reconciler.Labels.{entries}
use tekton_task_group.Client.Options.{
  ClientTypes, ListOptions, TaskGroupList, Operation, create, update, delete, delete_collection,
  get, list, watch, patch,
}
use tekton_task_group.Client.Typed.{
  Verb, verb_get, verb_post, verb_put, verb_delete, verb_patch, Request, Params, list_options,
  get_options, create_options, update_options, patch_options, request,
}
use tekton_task_group.Client.Fake.{
  Action, get_action, list_action, watch_action, create_action, update_action, delete_action,
  delete_collection_action, patch_action, Fake, label_or_everything, matching_items, action,
  filtered,
}

-- What the API server is asked to do: the verb of its authorization, and on what.
pub record Asked : Type 0 where
  pub verb : String
  pub namespace : String
  pub resource : String
  pub name : Option String
  pub sub_resource : List String

abbrev is_watch : {C : ClientTypes} → Option (Params C) → Bool
is_watch (some (list_options opts)) = opts.watch
is_watch (some (get_options _)) = false
is_watch (some (create_options _)) = false
is_watch (some (update_options _)) = false
is_watch (some (patch_options _)) = false
is_watch none = false

-- How the API server reads the verb of a request: GET of a name is a get, and without a name a
-- list or a watch; DELETE without a name deletes a collection.
abbrev verb_of : Verb → Option String → Bool → String
verb_of verb_get (some _) _ = "get"
verb_of verb_get none true = "watch"
verb_of verb_get none false = "list"
verb_of verb_post _ _ = "create"
verb_of verb_put _ _ = "update"
verb_of verb_delete (some _) _ = "delete"
verb_of verb_delete none _ = "delete-collection"
verb_of verb_patch _ _ = "patch"

matching_items_lem :
    {T : Types} (label : GoMap String → Bool) (items out : List (TaskGroup T))
    → matching_items label items out ≡ out ++ keep (λ item. label (entries item.meta.labels)) items
unfolding matching_items
matching_items_lem label [] out = sym (append-nil out)
matching_items_lem label (item ∷ items) out = elim (Bool-cases (label (entries item.meta.labels))) [
  | inl h ↦ rw (h, matching_items_lem label items (out ++ item ∷ []), append_assoc)
  | inr h ↦ rw (h, matching_items_lem label items out)
]

module _ {T : Types} {C : ClientTypes} where
  abbrev pub asked_by_request : Request T C → Asked
  asked_by_request r = record {
    verb = verb_of r.verb r.name (is_watch r.params);
    namespace = r.namespace;
    resource = r.resource;
    name = r.name;
    sub_resource = r.sub_resource;
  }

  -- How an action says the same. An update names the object that it is given.
  abbrev pub asked_by_action : Action T C → Asked
  asked_by_action (get_action resource ns name) = record {
    verb = "get";
    namespace = ns;
    resource = resource;
    name = some name;
    sub_resource = [];
  }
  asked_by_action (list_action resource _ ns _) = record {
    verb = "list";
    namespace = ns;
    resource = resource;
    name = none;
    sub_resource = [];
  }
  asked_by_action (watch_action resource ns _) = record {
    verb = "watch";
    namespace = ns;
    resource = resource;
    name = none;
    sub_resource = [];
  }
  asked_by_action (create_action resource ns _) = record {
    verb = "create";
    namespace = ns;
    resource = resource;
    name = none;
    sub_resource = [];
  }
  asked_by_action (update_action resource ns tg) = record {
    verb = "update";
    namespace = ns;
    resource = resource;
    name = some tg.meta.name;
    sub_resource = [];
  }
  asked_by_action (delete_action resource ns name) = record {
    verb = "delete";
    namespace = ns;
    resource = resource;
    name = some name;
    sub_resource = [];
  }
  asked_by_action (delete_collection_action resource ns _) = record {
    verb = "delete-collection";
    namespace = ns;
    resource = resource;
    name = none;
    sub_resource = [];
  }
  asked_by_action (patch_action resource ns name _ _ subresources) = record {
    verb = "patch";
    namespace = ns;
    resource = resource;
    name = some name;
    sub_resource = subresources;
  }

  -- An operation that is not a list with the option to watch.
  abbrev pub IsPlain : Operation T C → Type 0
  IsPlain (list opts) = opts.watch ≡ false
  IsPlain _ = Unit

  -- For each method, the fake client's action and the typed client's request ask for the same: the
  -- same verb on the same resource, namespace, name and subresources. A list must not be given the
  -- option to watch.
  pub action-request :
      (ns : String) (op : Operation T C)
      → IsPlain op
      → asked_by_action (action ns op) ≡ asked_by_request (request ns op)
  unfolding action request
  action-request ns (create tg opts) h = refl
  action-request ns (update tg opts) h = refl
  action-request ns (delete name opts) h = refl
  action-request ns (delete_collection opts list_opts) h = refl
  action-request ns (get name opts) h = refl
  action-request ns (list opts) h = rw h
  action-request ns (watch opts) h = refl
  action-request ns (patch name pt content opts subresources) h = refl

  -- The fake client's list has the items that the label selector of the options matches, in order,
  -- all of them if there is no selector, with the error that came beside them.
  pub filtered_lem :
      (F : Fake T C) (opts : ListOptions C) (obj : TaskGroupList T C) (e : Option Error)
      → filtered F opts (some obj, e) ≡ (
        some (record obj {
          items =
              keep
                (λ item. label_or_everything (F.extract_label opts) (entries item.meta.labels))
                obj.items;
        }),
        e,
      )
  unfolding filtered
  filtered_lem F opts obj e =
      rw (matching_items_lem (label_or_everything (F.extract_label opts)) obj.items [])
