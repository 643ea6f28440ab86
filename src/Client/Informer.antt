-- ===== src/Client/Informer.antt =====
-- pkg/client/informers/externalversions: the informer of TaskGroups (taskgroup/v1alpha1/taskgroup.go)
-- and the access to it by its resource (generic.go).
pub mod Laws
use tekton_task_group.Base.{
  ℕ, String, ◌==◌, ◌&&◌, Bool, Option, none, some, if◌then◌else◌, Error, Result, ok, err,
}
use tekton_task_group.Upstream.{Types}
use tekton_task_group.Api.{group_name}
use tekton_task_group.Client.Options.{ClientTypes, ListOptions, Operation, list, watch}
use tekton_task_group.Client.Typed.{Request, request}
use tekton_task_group.Client.Lister.{Indexer, TaskGroupLister, new_task_group_lister}
use tekton_task_group.Client.Factory.{FactoryTypes, SharedInformerFactory, informer_for}

-- `cache.ListWatch`: the requests by which an informer lists and watches.
pub record ListWatch (T : Types) (C : ClientTypes) : Type 0 where
  pub list_func : ListOptions C → Request T C
  pub watch_func : ListOptions C → Request T C

-- The informers of client-go. An informer sends its requests through the client that it was made
-- with.
pub record InformerApi (T : Types) (C : ClientTypes) : Type 1 where
  pub Client : Type 0
  pub Informer : Type 0
  pub Indexers : Type 0
  -- `cache.Indexers{cache.NamespaceIndex: cache.MetaNamespaceIndexFunc}`
  pub namespace_index : Indexers
  pub new_shared_index_informer : Client → ListWatch T C → ℕ → Indexers → Informer
  pub get_indexer : Informer → Indexer T
  pub has_synced : Informer → Bool
  -- The error text with `%v` of a resource
  pub no_informer : String → String → String → Error

module _ {T : Types} {C : ClientTypes} (A : InformerApi T C) where
  abbrev pub factory_types : FactoryTypes
  factory_types = record {
    Client = A.Client;
    Informer = A.Informer;
    TweakListOptions = ListOptions C → ListOptions C;
    wait_for_cache_sync = A.has_synced;
  }

  -- `if tweakListOptions != nil { tweakListOptions(&options) }`
  unfoldable pub tweaked : Option (ListOptions C → ListOptions C) → ListOptions C → ListOptions C
  tweaked none options = options
  tweaked (some tweak) options = tweak options

  unfoldable pub new_filtered_task_group_informer :
      A.Client → String → ℕ → A.Indexers → Option (ListOptions C → ListOptions C) → A.Informer
  unfolding tweaked request
  new_filtered_task_group_informer client namespace resync_period indexers tweak =
      A.new_shared_index_informer client
        (record {
          list_func = λ options. request namespace (list (tweaked tweak options));
          watch_func = λ options. request namespace (watch (tweaked tweak options));
        })
        resync_period indexers

  unfoldable pub new_task_group_informer : A.Client → String → ℕ → A.Indexers → A.Informer
  unfolding new_filtered_task_group_informer
  new_task_group_informer client namespace resync_period indexers =
      new_filtered_task_group_informer client namespace resync_period indexers none

  -- What `group`, `version` and `taskGroupInformer` each hold.
  pub record Access : Type 0 where
    pub factory : SharedInformerFactory factory_types
    pub namespace : String
    pub tweak_list_options : Option (ListOptions C → ListOptions C)

  -- `New` of the group
  abbrev pub new_group :
      SharedInformerFactory factory_types → String → Option (ListOptions C → ListOptions C) → Access
  new_group f namespace tweak = record {
    factory = f;
    namespace = namespace;
    tweak_list_options = tweak;
  }

  -- `New` of the version
  abbrev pub new_version :
      SharedInformerFactory factory_types → String → Option (ListOptions C → ListOptions C) → Access
  new_version f namespace tweak = record {
    factory = f;
    namespace = namespace;
    tweak_list_options = tweak;
  }

  -- `Custom` of the factory
  abbrev pub custom : SharedInformerFactory factory_types → Access
  custom f = new_group f f.namespace f.tweak_list_options

  -- `V1alpha1` of the group
  abbrev pub v1alpha1 : Access → Access
  v1alpha1 g = new_version g.factory g.namespace g.tweak_list_options

  -- `TaskGroups` of the version
  abbrev pub task_groups : Access → Access
  task_groups v = record {
    factory = v.factory;
    namespace = v.namespace;
    tweak_list_options = v.tweak_list_options;
  }

  -- `defaultInformer`
  unfoldable pub default_informer : Access → A.Client → ℕ → A.Informer
  unfolding new_filtered_task_group_informer
  default_informer f client resync_period =
      new_filtered_task_group_informer client f.namespace resync_period A.namespace_index
        f.tweak_list_options

  -- `f.Custom().V1alpha1().TaskGroups().Informer()`, with the factory that it leaves.
  unfoldable pub informer :
      SharedInformerFactory factory_types → A.Informer × SharedInformerFactory factory_types
  unfolding informer_for default_informer
  informer f =
      let access = task_groups (v1alpha1 (custom f)) in
      informer_for factory_types "TaskGroup" (default_informer access) access.factory

  -- `Lister`
  unfoldable pub lister :
      SharedInformerFactory factory_types → TaskGroupLister T × SharedInformerFactory factory_types
  unfolding informer new_task_group_lister
  lister f = let (i, f') = informer f in (new_task_group_lister (A.get_indexer i), f')

  -- `genericInformer`: the group and the resource, and the informer.
  pub record GenericInformer : Type 0 where
    pub group : String
    pub resource : String
    pub informer : A.Informer

  abbrev generic :
      String
      → String
      → A.Informer × SharedInformerFactory factory_types
      → Result GenericInformer × SharedInformerFactory factory_types
  generic group resource (i, f) =
      (ok (record { group = group; resource = resource; informer = i }), f)

  -- `ForResource`: the informer of the resource, or an error for any other one.
  unfoldable pub for_resource :
      String
      → String
      → String
      → SharedInformerFactory factory_types
      → Result GenericInformer × SharedInformerFactory factory_types
  unfolding informer
  for_resource group version resource f =
      if group == group_name && (version == "v1alpha1" && resource == "taskgroups")
      then generic group resource (informer f)
      else (err (A.no_informer group version resource), f)
