-- ===== src/Client/Injection/Listing.antt =====
-- pkg/client/injection/informers/taskgroup/v1alpha1/taskgroup: the listers over a client instead of
-- a cache, `wrapper` of taskgroup.go and `wrapper` of filtered/taskgroup.go.
use tekton_task_group.Base.{String, false, List, [], ◌∷◌, ◌++◌, none, some, plain, Result, ok, err}
use tekton_task_group.Upstream.{Types}
use tekton_task_group.Api.{TaskGroup}
use tekton_task_group.Client.Options.{ClientTypes, ListOptions, Operation, list, get}
use tekton_task_group.Client.Typed
use tekton_task_group.Client.Typed.{Outcome}
use tekton_task_group.Client.Informer.{InformerApi}
use tekton_task_group.Client.Injection.{Wrapper}

-- k8s.io/apimachinery/pkg/labels, the options that a wrapper sets, and the clients.
pub record WrapperApi {T : Types} {C : ClientTypes} (A : InformerApi T C) : Type 1 where
  pub Selector : Type 0
  pub Requirements : Type 0
  pub to_string : Selector → String
  pub add : Selector → Requirements → Selector
  pub parse_to_requirements : String → Result Requirements
  -- `v1.ListOptions` with a label selector and a resource version, and `v1.GetOptions`
  pub list_selectors : String → String → C.Selectors
  pub get_options : String → C.GetOptions
  pub World : Type 0
  -- A method of `client.CustomV1alpha1().TaskGroups(namespace)`
  pub call : A.Client → String → Operation T C → World → Outcome T C × World

module _ {T : Types} {C : ClientTypes} (A : InformerApi T C) (W : WrapperApi A) where
  -- The loop over the items.
  unfoldable pub append_items : List (TaskGroup T) → List (TaskGroup T) → List (TaskGroup T)
  append_items [] ret = ret
  append_items (item ∷ items) ret = append_items items (ret ++ item ∷ [])

  -- A method of a client has its own kind of outcome.
  unfoldable pub listed : Outcome T C → Result (List (TaskGroup T))
  unfolding append_items
  listed (Typed.task_groups (lo, none)) = ok (append_items lo.items [])
  listed (Typed.task_groups (lo, some e)) = err e
  listed (Typed.task_group _) = err (plain "no list")
  listed (Typed.watching _) = err (plain "no list")
  listed (Typed.deleted _) = err (plain "no list")

  unfoldable pub got_one : Outcome T C → Result (TaskGroup T)
  got_one (Typed.task_group (tg, none)) = ok tg
  got_one (Typed.task_group (tg, some e)) = err e
  got_one (Typed.task_groups _) = err (plain "no object")
  got_one (Typed.watching _) = err (plain "no object")
  got_one (Typed.deleted _) = err (plain "no object")

  abbrev pub list_options : String → String → ListOptions C
  list_options selector resource_version = record {
    selectors = W.list_selectors selector resource_version;
    watch = false;
    timeout_seconds = none;
  }

  -- `TaskGroups` of both
  unfoldable pub task_groups : Wrapper A → String → Wrapper A
  task_groups w namespace = record w { namespace = namespace }

  unfoldable pub set_resource_version : String → Wrapper A → Wrapper A
  set_resource_version resource_version w = record w { resource_version = resource_version }

  -- `List` and `Get` of taskgroup.go
  unfoldable pub wrapper_list :
      Wrapper A → W.Selector → W.World → Result (List (TaskGroup T)) × W.World
  unfolding listed
  wrapper_list w selector world =
      let (outcome, world') =
        W.call w.client w.namespace (list (list_options (W.to_string selector) w.resource_version))
          world in
      (listed outcome, world')

  unfoldable pub wrapper_get : Wrapper A → String → W.World → Result (TaskGroup T) × W.World
  unfolding got_one
  wrapper_get w name world =
      let (outcome, world') =
        W.call w.client w.namespace (get name (W.get_options w.resource_version)) world in
      (got_one outcome, world')

  unfoldable pub list_required :
      Wrapper A
      → W.Selector
      → Result W.Requirements
      → W.World
      → Result (List (TaskGroup T)) × W.World
  unfolding listed
  list_required w selector (err e) world = (err e, world)
  list_required w selector (ok reqs) world =
      let (outcome, world') =
        W.call w.client w.namespace (list (list_options (W.to_string (W.add selector reqs)) ""))
          world in
      (listed outcome, world')

  -- `List` and `Get` of filtered/taskgroup.go. `Get` does not test the selector.
  unfoldable pub filtered_list :
      Wrapper A → W.Selector → W.World → Result (List (TaskGroup T)) × W.World
  unfolding list_required
  filtered_list w selector world =
      list_required w selector (W.parse_to_requirements w.selector) world

  unfoldable pub filtered_get : Wrapper A → String → W.World → Result (TaskGroup T) × W.World
  unfolding got_one
  filtered_get w name world =
      let (outcome, world') = W.call w.client w.namespace (get name (W.get_options "")) world in
      (got_one outcome, world')
