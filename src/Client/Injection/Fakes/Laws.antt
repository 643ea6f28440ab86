-- ===== src/Client/Injection/Fakes/Laws.antt =====
-- What the injection of fake clientsets has in common with the other one.
use tekton_task_group.Base.{◌≡◌, refl, sym, ap, List, some}
use tekton_task_group.Base.Panics.{Panicking, done, panics, ◌>>=◌}
use tekton_task_group.Upstream.{Types}
use tekton_task_group.Client.Options.{ClientTypes}
use tekton_task_group.Client.Informer.{InformerApi}
use tekton_task_group.Client.Fake.Clientset.{TestingApi, FakeClientset, new_simple_clientset}
use tekton_task_group.Client.Injection.{client_key, a_client, Context, Heap, with_value, find}
use tekton_task_group.Client.Injection.Factories.{
  LabelSelector, with_informer_factory, with_filtered_informer_factory,
}
use tekton_task_group.Client.Injection.Fakes.{
  Assertion, with_clientset, with_fake, fake_of, asserted, get_fake, with_fake_informer_factory,
  with_fake_filtered_informer_factory,
}

module _ {T : Types} {C : ClientTypes} (A : InformerApi T C) (X : TestingApi T C)
    (S : Assertion A X) where
  made_with :
      (m : Panicking (FakeClientset X)) (ctx ctx' : Context A) (cs : FakeClientset X)
      → m >>= (λ cs. done (with_clientset A X S ctx cs)) ≡ done (ctx', cs)
      → with_value A client_key (a_client (S.as_client cs)) ctx ≡ ctx'
  made_with (done cs') ctx ctx' cs h = cc
  made_with (panics text) ctx ctx' cs h = cc

  get_fake-with_value :
      (ctx : Context A) (cs : FakeClientset X)
      → S.as_fake (S.as_client cs) ≡ some cs
      → get_fake A X S (with_value A client_key (a_client (S.as_client cs)) ctx) ≡ done cs
  unfolding get_fake fake_of find
  get_fake-with_value ctx cs asserts = ap (asserted A X S) asserts

  -- Where a type assertion finds a fake clientset that was made a client, the context that `With`
  -- gives has its clientset for `Get`, and in it the fake injections of a factory and of the
  -- factories of selectors do what the injections themselves do.
  pub with_fake-get_fake :
      (objects : List X.Object) (ctx ctx' : Context A) (cs : FakeClientset X) (heap : Heap A)
      → (L : LabelSelector C) → S.as_fake (S.as_client cs) ≡ some cs
      → with_fake A X S objects ctx ≡ done (ctx', cs)
      → (get_fake A X S ctx' ≡ done cs)
        × (with_fake_informer_factory A X S ctx' heap ≡ with_informer_factory A ctx' heap)
        × (with_fake_filtered_informer_factory A X S L ctx' heap
            ≡ with_filtered_informer_factory A L ctx' heap)
  unfolding with_fake with_fake_informer_factory with_fake_filtered_informer_factory
      with_informer_factory with_filtered_informer_factory
  with_fake-get_fake objects ctx ctx' cs heap L asserts made =
      let same = made_with (new_simple_clientset X objects) ctx ctx' cs made in
      let fake = get_fake-with_value ctx cs asserts in rw (sym same, fake) (refl, refl, refl)
