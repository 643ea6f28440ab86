-- ===== src/Client/Injection/Factories.antt =====
-- pkg/client/injection/informers/factory: factory.go, and filtered/filtered_factory.go with a
-- factory for each label selector.
use tekton_task_group.Base.{ℕ, String, ◌<>◌, List, [], ◌∷◌, ◌++◌, Option, none, some, length}
use tekton_task_group.Base.Panics.{Panicking, done, panics, ◌>>=◌}
use tekton_task_group.Upstream.{Types}
use tekton_task_group.Client.Options.{ClientTypes, ListOptions}
use tekton_task_group.Client.Factory.{
  SharedInformerFactory, SharedInformerOption, with_namespace, with_tweak_list_options,
  new_shared_informer_factory_with_options,
}
use tekton_task_group.Client.Informer.{InformerApi, factory_types}
use tekton_task_group.Client.Injection.{
  label_key, factory_key, filtered_factory_key, Value, a_factory, selectors, a_client, an_informer,
  Context, Heap, with_value, find, wrong_type, get_client,
}

-- `l.LabelSelector`
pub record LabelSelector (C : ClientTypes) : Type 0 where
  pub get : C.Selectors → String
  pub set : String → C.Selectors → C.Selectors

abbrev no_factory : String
no_factory =
    "Unable to fetch github.com/openshift-pipelines/tekton-task-group/pkg/client/informers/externalversions.SharedInformerFactory"

-- What the loop variable holds once the loop over the selectors has ended. Before go 1.22 a loop
-- has one variable for all of its rounds, and a function that is made in a round reads it when it
-- is called, which the functions here are after the loop.
unfoldable pub last_selector : List String → String
last_selector [] = ""
last_selector (selector ∷ []) = selector
last_selector (selector ∷ next ∷ rest) = last_selector (next ∷ rest)

module _ {T : Types} {C : ClientTypes} (A : InformerApi T C) where
  -- The options of both: the namespace that the injection is scoped to.
  unfoldable pub scope_options : Option String → List (SharedInformerOption (factory_types A))
  unfolding with_namespace
  scope_options none = []
  scope_options (some ns) = with_namespace (factory_types A) ns ∷ []

  -- `withInformerFactory` of factory.go
  unfoldable pub with_informer_factory : Context A → Heap A → Panicking (Context A × Heap A)
  unfolding get_client scope_options new_shared_informer_factory_with_options
  with_informer_factory ctx heap = get_client A ctx >>= λ c. done (
    with_value A factory_key (a_factory (length heap)) ctx,
    heap
        ++ new_shared_informer_factory_with_options (factory_types A) c ctx.resync_period
            (scope_options ctx.namespace_scope)
          ∷ [],
  )

  unfoldable pub factory_of : String → Option (Value A) → Panicking ℕ
  factory_of text (some (a_factory address)) = done address
  factory_of text (some (a_client _)) = panics wrong_type
  factory_of text (some (selectors _)) = panics wrong_type
  factory_of text (some (an_informer _)) = panics wrong_type
  factory_of text none = panics text

  -- `Get` of factory.go
  unfoldable pub get_factory : Context A → Panicking ℕ
  unfolding factory_of find
  get_factory ctx = factory_of (no_factory <> " from context.") (find A factory_key ctx.values)

  -- `WithSelectors`
  unfoldable pub with_selectors : List String → Context A → Context A
  with_selectors chosen ctx = with_value A label_key (selectors chosen) ctx

  unfoldable pub selectors_of : Option (Value A) → Panicking (List String)
  selectors_of (some (selectors chosen)) = done chosen
  selectors_of (some (a_client _)) = panics wrong_type
  selectors_of (some (a_factory _)) = panics wrong_type
  selectors_of (some (an_informer _)) = panics wrong_type
  selectors_of none = panics "Unable to fetch labelkey from context."

  unfoldable pub label_selectors : Context A → Panicking (List String)
  unfolding selectors_of find
  label_selectors ctx = selectors_of (find A label_key ctx.values)

  -- `Get` of filtered/filtered_factory.go
  unfoldable pub get_filtered_factory : Context A → String → Panicking ℕ
  unfolding factory_of find
  get_filtered_factory ctx selector =
      factory_of (no_factory <> (" with selector " <> (selector <> " from context.")))
        (find A (filtered_factory_key selector) ctx.values)

module _ {T : Types} {C : ClientTypes} (A : InformerApi T C) (L : LabelSelector C) where
  -- `l.LabelSelector = selector`
  abbrev pub tweak_to : String → ListOptions C → ListOptions C
  tweak_to selector l = record l { selectors = L.set selector l.selectors }

  -- The factory of one round, whose function reads that value of the loop variable.
  unfoldable pub filtered_factory :
      A.Client → Context A → String → SharedInformerFactory (factory_types A)
  unfolding scope_options new_shared_informer_factory_with_options with_tweak_list_options
  filtered_factory c ctx at_end =
      new_shared_informer_factory_with_options (factory_types A) c ctx.resync_period (
        scope_options A ctx.namespace_scope
        ++ with_tweak_list_options (factory_types A) (some (tweak_to at_end)) ∷ [])

  -- The loop of `withInformerFactory`, given what its variable holds at the end.
  unfoldable pub with_each_factory :
      A.Client → String → List String → Context A → Heap A → Context A × Heap A
  unfolding filtered_factory
  with_each_factory c at_end [] ctx heap = (ctx, heap)
  with_each_factory c at_end (selector ∷ rest) ctx heap =
      with_each_factory c at_end rest
        (with_value A (filtered_factory_key selector) (a_factory (length heap)) ctx)
        (heap ++ filtered_factory c ctx at_end ∷ [])

  -- `withInformerFactory` of filtered/filtered_factory.go
  unfoldable pub with_filtered_informer_factory :
      Context A → Heap A → Panicking (Context A × Heap A)
  unfolding get_client label_selectors with_each_factory last_selector
  with_filtered_informer_factory ctx heap = get_client A ctx >>= λ c.
      label_selectors A ctx >>= λ chosen.
      done (with_each_factory c (last_selector chosen) chosen ctx heap)
