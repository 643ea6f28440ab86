-- ===== src/Client/Injection/Informers.antt =====
-- pkg/client/injection/informers/taskgroup/v1alpha1/taskgroup: taskgroup.go without its wrapper.
use tekton_task_group.Base.{ℕ, suc, zero, String, ◌<>◌, [], ◌∷◌, Option, none, some, get_elem?}
use tekton_task_group.Base.Panics.{Panicking, done, panics, ◌>>=◌}
use tekton_task_group.Upstream.{Types}
use tekton_task_group.Client.Options.{ClientTypes}
use tekton_task_group.Client.Factory.{SharedInformerFactory}
use tekton_task_group.Client.Informer.{InformerApi, factory_types, informer}
use tekton_task_group.Client.Injection.{
  informer_key, Value, a_client, a_factory, selectors, an_informer, TaskGroupInformer, of_factory,
  wrapped, Context, Heap, with_value, find, wrong_type, get_client,
}
use tekton_task_group.Client.Injection.Factories.{get_factory}

abbrev pub no_informer_text : String
no_informer_text =
    "Unable to fetch github.com/openshift-pipelines/tekton-task-group/pkg/client/informers/externalversions/taskgroup/v1alpha1.TaskGroupInformer"

module _ {T : Types} {C : ClientTypes} (A : InformerApi T C) where
  -- The heap once the factory at an address is another one.
  unfoldable pub set_factory : ℕ → SharedInformerFactory (factory_types A) → Heap A → Heap A
  set_factory i f [] = []
  set_factory zero f (g ∷ heap) = f ∷ heap
  set_factory (suc i) f (g ∷ heap) = g ∷ set_factory i f heap

  unfoldable pub informed :
      ℕ
      → Option (SharedInformerFactory (factory_types A))
      → Heap A
      → Panicking (A.Informer × Heap A)
  unfolding informer set_factory
  informed address none heap = panics "nil pointer dereference"
  informed address (some f) heap =
      let (i, f') = informer A f in done (i, set_factory address f' heap)

  -- `inf.Informer()` of the informer of a factory, which the factory then has.
  unfoldable pub informer_at : ℕ → Heap A → Panicking (A.Informer × Heap A)
  unfolding informed
  informer_at address heap = informed address (get_elem? heap address) heap

  -- `withInformer`
  unfoldable pub with_informer : Context A → Heap A → Panicking (Context A × A.Informer × Heap A)
  unfolding get_factory informer_at
  with_informer ctx heap = get_factory A ctx >>= λ address. informer_at address heap >>= λ made.
      done (with_value A informer_key (an_informer (of_factory address)) ctx, made.0, made.1)

  -- `withDynamicInformer`
  unfoldable pub with_dynamic_informer : Context A → Panicking (Context A)
  unfolding get_client
  with_dynamic_informer ctx = get_client A ctx >>= λ c. done (
      with_value A informer_key
        (an_informer (
          wrapped (record {
            client = c;
            namespace = "";
            resource_version = ctx.resource_version;
            selector = "";
          })))
        ctx)

  unfoldable pub informer_of : String → Option (Value A) → Panicking (TaskGroupInformer A)
  informer_of text (some (an_informer inf)) = done inf
  informer_of text (some (a_client _)) = panics wrong_type
  informer_of text (some (a_factory _)) = panics wrong_type
  informer_of text (some (selectors _)) = panics wrong_type
  informer_of text none = panics text

  -- `Get`
  unfoldable pub get_informer : Context A → Panicking (TaskGroupInformer A)
  unfolding informer_of find
  get_informer ctx =
      informer_of (no_informer_text <> " from context.") (find A informer_key ctx.values)
