-- ===== src/Client/Injection/Filtered.antt =====
-- pkg/client/injection/informers/taskgroup/v1alpha1/taskgroup/filtered/taskgroup.go without its
-- wrapper: an informer for each label selector.
use tekton_task_group.Base.{String, ◌<>◌, List, [], ◌∷◌, ◌++◌}
use tekton_task_group.Base.Panics.{Panicking, done, ◌>>=◌}
use tekton_task_group.Upstream.{Types}
use tekton_task_group.Client.Options.{ClientTypes}
use tekton_task_group.Client.Informer.{InformerApi}
use tekton_task_group.Client.Injection.{
  filtered_informer_key, an_informer, TaskGroupInformer, of_factory, wrapped, Context, Heap,
  with_value, find, get_client,
}
use tekton_task_group.Client.Injection.Factories.{label_selectors, get_filtered_factory}
use tekton_task_group.Client.Injection.Informers.{informer_at, informer_of, no_informer_text}

module _ {T : Types} {C : ClientTypes} (A : InformerApi T C) where
  abbrev pub Loop : Type 0
  Loop = Context A × List A.Informer × Heap A

  -- One round of the loop of `withInformer`.
  unfoldable pub with_one_informer : String → Loop → Panicking Loop
  unfolding get_filtered_factory informer_at
  with_one_informer selector (ctx, infs, heap) = get_filtered_factory A ctx selector >>= λ address.
      informer_at A address heap >>= λ made. done (
        with_value A (filtered_informer_key selector) (an_informer (of_factory address)) ctx,
        infs ++ made.0 ∷ [],
        made.1,
      )

  unfoldable pub with_each_informer : List String → Loop → Panicking Loop
  unfolding with_one_informer
  with_each_informer [] s = done s
  with_each_informer (selector ∷ rest) s = with_one_informer selector s >>= with_each_informer rest

  -- `withInformer`
  unfoldable pub with_filtered_informers : Context A → Heap A → Panicking Loop
  unfolding label_selectors with_each_informer
  with_filtered_informers ctx heap =
      label_selectors A ctx >>= λ chosen. with_each_informer chosen (ctx, [], heap)

  -- The loop of `withDynamicInformer`.
  unfoldable pub with_each_dynamic_informer : List String → Context A → Panicking (Context A)
  unfolding get_client
  with_each_dynamic_informer [] ctx = done ctx
  with_each_dynamic_informer (selector ∷ rest) ctx = get_client A ctx >>= λ c.
      with_each_dynamic_informer rest (
        with_value A (filtered_informer_key selector)
          (an_informer (
            wrapped
              (record { client = c; namespace = ""; resource_version = ""; selector = selector })))
          ctx)

  unfoldable pub with_filtered_dynamic_informer : Context A → Panicking (Context A)
  unfolding label_selectors with_each_dynamic_informer
  with_filtered_dynamic_informer ctx =
      label_selectors A ctx >>= λ chosen. with_each_dynamic_informer chosen ctx

  -- `Get`
  unfoldable pub get_filtered_informer : Context A → String → Panicking (TaskGroupInformer A)
  unfolding informer_of find
  get_filtered_informer ctx selector =
      informer_of A (no_informer_text <> (" with selector " <> (selector <> " from context.")))
        (find A (filtered_informer_key selector) ctx.values)
