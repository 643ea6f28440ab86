-- ===== src/Client/Injection.antt =====
-- pkg/client/injection: what clients, factories and informers are put under in a context, and how
-- they are found again. This file has the contexts, and `Get` of client/client.go.
pub mod Factories
pub mod Informers
pub mod Filtered
pub mod Listing
pub mod Found
pub mod Fakes
use tekton_task_group.Base.{
  ℕ, String, ◌<>◌, ◌==◌, Bool, true, false, List, [], ◌∷◌, ◌++◌, Option, none, some, if◌then◌else◌,
  get_elem?,
}
use tekton_task_group.Base.Panics.{Panicking, done, panics, ◌>>=◌}
use tekton_task_group.Upstream.{Types}
use tekton_task_group.Client.Options.{ClientTypes, ListOptions}
use tekton_task_group.Client.Factory.{SharedInformerFactory}
use tekton_task_group.Client.Informer.{InformerApi, factory_types}

-- The keys: each package has a type of its own for them.
pub data Key : Type 0 where
  client_key factory_key label_key informer_key : Key
  filtered_factory_key : String → Key
  filtered_informer_key : String → Key

abbrev pub same_key : Key → Key → Bool
same_key client_key client_key = true
same_key factory_key factory_key = true
same_key label_key label_key = true
same_key informer_key informer_key = true
same_key (filtered_factory_key s) (filtered_factory_key t) = s == t
same_key (filtered_informer_key s) (filtered_informer_key t) = s == t
same_key _ _ = false

-- `untyped.(T)` of a value that has another type.
abbrev pub wrong_type : String
wrong_type = "interface conversion"

module _ {T : Types} {C : ClientTypes} (A : InformerApi T C) where
  -- `wrapper`, of which there are two: with a resource version, or with a selector.
  pub record Wrapper : Type 0 where
    pub client : A.Client
    pub namespace : String
    pub resource_version : String
    pub selector : String

  -- A `TaskGroupInformer`: that of a factory, by the factory's address, or a wrapper.
  pub data TaskGroupInformer : Type 0 where
    of_factory : ℕ → TaskGroupInformer
    wrapped : Wrapper → TaskGroupInformer

  pub data Value : Type 0 where
    a_client : A.Client → Value
    a_factory : ℕ → Value
    selectors : List String → Value
    an_informer : TaskGroupInformer → Value

  -- A context: its values, and what knative's packages find in it.
  pub record Context : Type 0 where
    pub values : List (Key × Value)
    pub has_config : Bool
    pub namespace_scope : Option String
    pub resync_period : ℕ
    pub resource_version : String

  -- The factories that were made, by their addresses.
  abbrev pub Heap : Type 0
  Heap = List (SharedInformerFactory (factory_types A))

  -- `context.WithValue`
  abbrev pub with_value : Key → Value → Context → Context
  with_value k v ctx = record ctx { values = (k, v) ∷ ctx.values }

  -- `ctx.Value(key)`: the last value that was put under the key.
  unfoldable pub find : Key → List (Key × Value) → Option Value
  find k [] = none
  find k ((j, v) ∷ values) = if same_key j k then some v else find k values

  -- `Get` of client/client.go
  unfoldable pub client_of : Bool → Option Value → Panicking A.Client
  client_of has_config (some (a_client c)) = done c
  client_of has_config (some (a_factory _)) = panics wrong_type
  client_of has_config (some (selectors _)) = panics wrong_type
  client_of has_config (some (an_informer _)) = panics wrong_type
  client_of true none =
      panics
        "Unable to fetch github.com/openshift-pipelines/tekton-task-group/pkg/client/clientset/versioned.Interface from context."
  client_of false none =
      panics
        "Unable to fetch github.com/openshift-pipelines/tekton-task-group/pkg/client/clientset/versioned.Interface from context. This context is not the application context (which is typically given to constructors via sharedmain)."

  unfoldable pub get_client : Context → Panicking A.Client
  unfolding client_of find
  get_client ctx = client_of ctx.has_config (find client_key ctx.values)

  -- `withClientFromConfig`, whose constructor panics on a bad config
  unfoldable pub with_client_from_config : Panicking A.Client → Context → Panicking Context
  with_client_from_config made ctx = made >>= λ c. done (with_value client_key (a_client c) ctx)

  -- `withClientFromDynamic`, of what `dynamicclient.Get` gives and the wrapper of it
  unfoldable pub with_client_from_dynamic :
      {D : Type 0} → (D → A.Client) → Panicking D → Context → Panicking Context
  with_client_from_dynamic wrap_client found ctx =
      found >>= λ dyn. done (with_value client_key (a_client (wrap_client dyn)) ctx)
