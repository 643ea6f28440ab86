-- ===== src/Client/Lister.antt =====
-- pkg/client/listers/taskgroup/v1alpha1/taskgroup.go: the lister of TaskGroups over an indexer.
use tekton_task_group.Base.{
  String, ◌<>◌, Bool, List, [], ◌∷◌, ◌++◌, Option, none, some, Error, Result, ok, err,
}
use tekton_task_group.Base.GoMap.{GoMap}
use tekton_task_group.Upstream.{Types}
use tekton_task_group.Api.{TaskGroup}

-- `cache.Indexer` of TaskGroups. A listing calls back with some objects, in this order, and returns
-- an error or not. `not_found` is `errors.NewNotFound(Resource("taskgroup"), name)`.
pub record Indexer (T : Types) : Type 0 where
  pub list_all : (GoMap String → Bool) → List (TaskGroup T) × Option Error
  pub list_all_by_namespace : String → (GoMap String → Bool) → List (TaskGroup T) × Option Error
  pub get_by_key : String → Result (Option (TaskGroup T))
  pub not_found : String → Error

-- `taskGroupLister` and `taskGroupNamespaceLister`
pub record TaskGroupLister (T : Types) : Type 0 where
  pub indexer : Indexer T

pub record TaskGroupNamespaceLister (T : Types) : Type 0 where
  pub indexer : Indexer T
  pub namespace : String

module _ {T : Types} where
  -- `ret = append(ret, m)` for each object that the listing calls back with.
  unfoldable pub append_each : List (TaskGroup T) → List (TaskGroup T) → List (TaskGroup T)
  append_each [] ret = ret
  append_each (m ∷ ms) ret = append_each ms (ret ++ m ∷ [])

  unfoldable pub new_task_group_lister : Indexer T → TaskGroupLister T
  new_task_group_lister indexer = record { indexer = indexer }

  -- `taskGroupLister.List`
  unfoldable pub list :
      TaskGroupLister T → (GoMap String → Bool) → List (TaskGroup T) × Option Error
  unfolding append_each
  list s selector = let (ms, e) = s.indexer.list_all selector in (append_each ms [], e)

  -- `taskGroupLister.TaskGroups`
  unfoldable pub task_groups : TaskGroupLister T → String → TaskGroupNamespaceLister T
  task_groups s namespace = record { indexer = s.indexer; namespace = namespace }

  -- `taskGroupNamespaceLister.List`
  unfoldable pub namespace_list :
      TaskGroupNamespaceLister T → (GoMap String → Bool) → List (TaskGroup T) × Option Error
  unfolding append_each
  namespace_list s selector =
      let (ms, e) = s.indexer.list_all_by_namespace s.namespace selector in (append_each ms [], e)

  unfoldable pub found_or_not :
      Indexer T → String → Result (Option (TaskGroup T)) → Result (TaskGroup T)
  found_or_not indexer name (err e) = err e
  found_or_not indexer name (ok none) = err (indexer.not_found name)
  found_or_not indexer name (ok (some obj)) = ok obj

  -- `taskGroupNamespaceLister.Get`
  unfoldable pub namespace_get : TaskGroupNamespaceLister T → String → Result (TaskGroup T)
  unfolding found_or_not
  namespace_get s name =
      found_or_not s.indexer name (s.indexer.get_by_key (s.namespace <> ("/" <> name)))
