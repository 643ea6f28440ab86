-- ===== src/Client/Factory.antt =====
-- pkg/client/informers/externalversions/factory.go: the factory that shares one informer for each
-- type of object. A `reflect.Type` is its name.
pub mod Laws
pub mod Waiting
use tekton_task_group.Base.{
  ℕ, String, Bool, true, false, List, [], ◌∷◌, Option, none, some, if◌then◌else◌,
}
use tekton_task_group.Base.GoMap.{GoMap, lookup, insert}

-- `versioned.Interface`, `cache.SharedIndexInformer`, and the functions that tweak list options.
pub record FactoryTypes : Type 1 where
  pub Client : Type 0
  pub Informer : Type 0
  pub TweakListOptions : Type 0
  -- `cache.WaitForCacheSync(stopCh, informer.HasSynced)`
  pub wait_for_cache_sync : Informer → Bool

module _ (T : FactoryTypes) where
  pub record SharedInformerFactory : Type 0 where
    pub client : T.Client
    pub namespace : String
    pub tweak_list_options : Option T.TweakListOptions
    pub default_resync : ℕ
    pub custom_resync : GoMap ℕ
    pub informers : GoMap T.Informer
    pub started_informers : GoMap Bool

  abbrev pub SharedInformerOption : Type 0
  SharedInformerOption = SharedInformerFactory → SharedInformerFactory

  -- The loop of `WithCustomResyncConfig`
  unfoldable pub set_resyncs : GoMap ℕ → GoMap ℕ → GoMap ℕ
  set_resyncs [] resyncs = resyncs
  set_resyncs ((k, v) ∷ config) resyncs = set_resyncs config (insert k v resyncs)

  unfoldable pub with_custom_resync_config : GoMap ℕ → SharedInformerOption
  unfolding set_resyncs
  with_custom_resync_config config factory = record factory {
    custom_resync = set_resyncs config factory.custom_resync;
  }

  unfoldable pub with_tweak_list_options : Option T.TweakListOptions → SharedInformerOption
  with_tweak_list_options tweak factory = record factory { tweak_list_options = tweak }

  unfoldable pub with_namespace : String → SharedInformerOption
  with_namespace namespace factory = record factory { namespace = namespace }

  unfoldable pub apply_options : List SharedInformerOption → SharedInformerOption
  apply_options [] factory = factory
  apply_options (opt ∷ options) factory = apply_options options (opt factory)

  -- `v1.NamespaceAll` is the empty text.
  unfoldable pub new_shared_informer_factory_with_options :
      T.Client → ℕ → List SharedInformerOption → SharedInformerFactory
  unfolding apply_options
  new_shared_informer_factory_with_options client default_resync options =
      apply_options options (record {
        client = client;
        namespace = "";
        tweak_list_options = none;
        default_resync = default_resync;
        custom_resync = [];
        informers = [];
        started_informers = [];
      })

  unfoldable pub new_shared_informer_factory : T.Client → ℕ → SharedInformerFactory
  unfolding new_shared_informer_factory_with_options
  new_shared_informer_factory client default_resync =
      new_shared_informer_factory_with_options client default_resync []

  unfoldable pub new_filtered_shared_informer_factory :
      T.Client → ℕ → String → Option T.TweakListOptions → SharedInformerFactory
  unfolding new_shared_informer_factory_with_options with_namespace with_tweak_list_options
  new_filtered_shared_informer_factory client default_resync namespace tweak =
      new_shared_informer_factory_with_options client default_resync
        (with_namespace namespace ∷ with_tweak_list_options tweak ∷ [])

  -- `m[k]` of a map of truth values.
  abbrev pub is_set : Option Bool → Bool
  is_set none = false
  is_set (some b) = b

  -- The loop of `Start`: the informers that are run, and the map of those that are started.
  unfoldable pub start_each : GoMap T.Informer → GoMap Bool → List T.Informer × GoMap Bool
  unfolding lookup
  start_each [] started = ([], started)
  start_each ((informer_type, informer) ∷ informers) started =
      let known = is_set (lookup informer_type started) in
      let rest =
        start_each informers (if known then started else insert informer_type true started) in
      if known then rest else (informer ∷ rest.0, rest.1)

  -- `Start`, with the informers that it runs.
  unfoldable pub start : SharedInformerFactory → List T.Informer × SharedInformerFactory
  unfolding start_each
  start f =
      let (run, started) = start_each f.informers f.started_informers in
      (run, record f { started_informers = started })

  -- The first loop of `WaitForCacheSync`: the informers that were started.
  unfoldable pub started_of : GoMap T.Informer → GoMap Bool → GoMap T.Informer → GoMap T.Informer
  unfolding lookup
  started_of [] started out = out
  started_of ((informer_type, informer) ∷ informers) started out =
      started_of informers started
        (if is_set (lookup informer_type started) then insert informer_type informer out else out)

  -- The second loop.
  unfoldable pub sync_each : GoMap T.Informer → GoMap Bool → GoMap Bool
  sync_each [] res = res
  sync_each ((inform_type, informer) ∷ informers) res =
      sync_each informers (insert inform_type (T.wait_for_cache_sync informer) res)

  unfoldable pub wait_for_cache_sync : SharedInformerFactory → GoMap Bool
  unfolding started_of sync_each
  wait_for_cache_sync f = sync_each (started_of f.informers f.started_informers []) []

  unfoldable pub resync_period : ℕ → Option ℕ → ℕ
  resync_period default_resync none = default_resync
  resync_period default_resync (some period) = period

  -- What `InformerFor` does with what the map of informers holds for the type.
  unfoldable pub informer_or_new :
      Option T.Informer
      → String
      → (T.Client → ℕ → T.Informer)
      → SharedInformerFactory
      → T.Informer × SharedInformerFactory
  unfolding lookup resync_period
  informer_or_new (some informer) informer_type new_func f = (informer, f)
  informer_or_new none informer_type new_func f =
      let informer =
        new_func f.client (resync_period f.default_resync (lookup informer_type f.custom_resync)) in
      (informer, record f { informers = insert informer_type informer f.informers })

  -- `InformerFor`
  unfoldable pub informer_for :
      String
      → (T.Client → ℕ → T.Informer)
      → SharedInformerFactory
      → T.Informer × SharedInformerFactory
  unfolding informer_or_new
  informer_for informer_type new_func f =
      informer_or_new (lookup informer_type f.informers) informer_type new_func f
