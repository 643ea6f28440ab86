-- ===== src/Client/Injection/Fakes.antt =====
-- pkg/client/injection/client/fake/fake.go, and the fakes of the factories beside them
-- (informers/factory/fake and informers/factory/filtered/fake): an injection of fake clientsets.
pub mod Laws
use tekton_task_group.Base.{String, List, [], ◌∷◌, ◌++◌, Option, none, some, length}
use tekton_task_group.Base.Panics.{Panicking, done, panics, ◌>>=◌}
use tekton_task_group.Upstream.{Types}
use tekton_task_group.Client.Options.{ClientTypes}
use tekton_task_group.Client.Factory.{new_shared_informer_factory_with_options}
use tekton_task_group.Client.Informer.{InformerApi, factory_types}
use tekton_task_group.Client.Fake.Clientset.{TestingApi, FakeClientset, new_simple_clientset}
use tekton_task_group.Client.Injection.{
  client_key, factory_key, Value, a_client, a_factory, selectors, an_informer, Context, Heap,
  with_value, find, wrong_type,
}
use tekton_task_group.Client.Injection.Factories.{
  LabelSelector, scope_options, label_selectors, with_each_factory, last_selector,
}

-- A fake clientset as a client, and the type assertion of a client.
pub record Assertion {T : Types} {C : ClientTypes} (A : InformerApi T C) (X : TestingApi T C)
    : Type 0 where
  pub as_client : FakeClientset X → A.Client
  pub as_fake : A.Client → Option (FakeClientset X)

module _ {T : Types} {C : ClientTypes} (A : InformerApi T C) (X : TestingApi T C)
    (S : Assertion A X) where
  -- The context with a clientset, and the clientset.
  abbrev pub with_clientset : Context A → FakeClientset X → Context A × FakeClientset X
  with_clientset ctx cs = (with_value A client_key (a_client (S.as_client cs)) ctx, cs)

  -- `With`
  unfoldable pub with_fake : List X.Object → Context A → Panicking (Context A × FakeClientset X)
  unfolding new_simple_clientset
  with_fake objects ctx = new_simple_clientset X objects >>= λ cs. done (with_clientset ctx cs)

  -- `withClient`
  unfoldable pub with_fake_client : Context A → Panicking (Context A)
  unfolding with_fake
  with_fake_client ctx = with_fake [] ctx >>= λ made. done made.0

  unfoldable pub asserted : Option (FakeClientset X) → Panicking (FakeClientset X)
  asserted (some cs) = done cs
  asserted none = panics wrong_type

  unfoldable pub fake_of : Option (Value A) → Panicking (FakeClientset X)
  unfolding asserted
  fake_of (some (a_client c)) = asserted (S.as_fake c)
  fake_of (some (a_factory _)) = panics wrong_type
  fake_of (some (selectors _)) = panics wrong_type
  fake_of (some (an_informer _)) = panics wrong_type
  fake_of none =
      panics
        "Unable to fetch github.com/openshift-pipelines/tekton-task-group/pkg/client/clientset/versioned/fake.Clientset from context."

  -- `Get`
  unfoldable pub get_fake : Context A → Panicking (FakeClientset X)
  unfolding fake_of find
  get_fake ctx = fake_of (find A client_key ctx.values)

  -- `withInformerFactory` of informers/factory/fake/fake.go
  unfoldable pub with_fake_informer_factory : Context A → Heap A → Panicking (Context A × Heap A)
  unfolding get_fake scope_options new_shared_informer_factory_with_options
  with_fake_informer_factory ctx heap = get_fake ctx >>= λ cs. done (
    with_value A factory_key (a_factory (length heap)) ctx,
    heap
        ++ new_shared_informer_factory_with_options (factory_types A) (S.as_client cs)
            ctx.resync_period (scope_options A ctx.namespace_scope)
          ∷ [],
  )

  -- `withInformerFactory` of informers/factory/filtered/fake/fake_filtered_factory.go, whose loop is
  -- that of filtered_factory.go.
  unfoldable pub with_fake_filtered_informer_factory :
      LabelSelector C → Context A → Heap A → Panicking (Context A × Heap A)
  unfolding get_fake label_selectors with_each_factory last_selector
  with_fake_filtered_informer_factory L ctx heap = get_fake ctx >>= λ cs.
      label_selectors A ctx >>= λ chosen.
      done (with_each_factory A L (S.as_client cs) (last_selector chosen) chosen ctx heap)
