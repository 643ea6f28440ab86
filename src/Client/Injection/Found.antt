-- ===== src/Client/Injection/Found.antt =====
-- What `Get` finds of the factories that were made for label selectors.
use tekton_task_group.Base.{
  ℕ, zero, suc, String, ◌≡◌, refl, ap, ◌∙◌, ◌==◌, eq_iff, true, false, List, [], ◌∷◌, ◌++◌, Option,
  none, some, ◌⊎◌, inl, inr, Bool-cases, length, get_elem?,
}
use tekton_task_group.Base.Panics.{done}
use tekton_task_group.Upstream.{Types}
use tekton_task_group.Client.Options.{ClientTypes}
use tekton_task_group.Client.Factory.{
  SharedInformerFactory, new_shared_informer_factory_with_options, with_namespace,
  with_tweak_list_options, apply_options,
}
use tekton_task_group.Client.Informer.{InformerApi, factory_types}
use tekton_task_group.Client.Injection.{
  filtered_factory_key, a_factory, Context, Heap, with_value, find, get_client,
}
use tekton_task_group.Client.Injection.Factories.{
  LabelSelector, last_selector, tweak_to, scope_options, label_selectors, factory_of,
  get_filtered_factory, filtered_factory, with_each_factory, with_filtered_informer_factory,
}

abbrev pub Among : String → List String → Type 0
Among s [] = ⊥
Among s (t ∷ rest) = (t ≡ s) ⊎ Among s rest

get_elem?-length :
    {A : Type 0} (xs : List A) (x : A) → get_elem? (xs ++ x ∷ []) (length xs) ≡ some x
get_elem?-length [] x = refl
get_elem?-length (y ∷ xs) x = get_elem?-length xs x

get_elem?-append :
    {A : Type 0} (xs : List A) (x : A) (i : ℕ) (a : A)
    → get_elem? xs i ≡ some a
    → get_elem? (xs ++ x ∷ []) i ≡ some a
get_elem?-append [] x i a h = cc
get_elem?-append (y ∷ xs) x zero a h = h
get_elem?-append (y ∷ xs) x (suc i) a h = get_elem?-append xs x i a h

module _ {T : Types} {C : ClientTypes} (A : InformerApi T C) (L : LabelSelector C) (c : A.Client)
    (at_end : String) where
  -- The context has a factory for the selector, which stands in the heap.
  record IsFound (s : String) (ctx : Context A) (heap : Heap A) : Type 0 where
    address : ℕ
    found : find A (filtered_factory_key s) ctx.values ≡ some (a_factory address)
    made : get_elem? heap address ≡ some (filtered_factory A L c ctx at_end)

  added :
      (selector s : String) (ctx : Context A) (heap : Heap A)
      → (selector == s) ≡ true
      → IsFound s
          (with_value A (filtered_factory_key selector) (a_factory (length heap)) ctx)
          (heap ++ filtered_factory A L c ctx at_end ∷ [])
  unfolding find filtered_factory
  added selector s ctx heap same = record {
    address = length heap;
    found = rw same;
    made = get_elem?-length heap (filtered_factory A L c ctx at_end);
  }

  others :
      (selector s : String) (ctx : Context A) (heap : Heap A)
      → (selector == s) ≡ false
      → IsFound s ctx heap
      → IsFound s
          (with_value A (filtered_factory_key selector) (a_factory (length heap)) ctx)
          (heap ++ filtered_factory A L c ctx at_end ∷ [])
  unfolding find filtered_factory
  others selector s ctx heap other h = record {
    address = h.address;
    found = rw other h.found;
    made = get_elem?-append heap _ h.address _ h.made;
  }

  kept :
      (selector s : String) (ctx : Context A) (heap : Heap A)
      → IsFound s ctx heap
      → IsFound s
          (with_value A (filtered_factory_key selector) (a_factory (length heap)) ctx)
          (heap ++ filtered_factory A L c ctx at_end ∷ [])
  kept selector s ctx heap h = elim (Bool-cases (selector == s)) [
    | inl same ↦ added selector s ctx heap same
    | inr other ↦ others selector s ctx heap other h
  ]

  with_each_factory-IsFound :
      (s : String) (chosen : List String) (ctx : Context A) (heap : Heap A)
      → Among s chosen ⊎ IsFound s ctx heap
      → let (ctx', heap') = with_each_factory A L c at_end chosen ctx heap in IsFound s ctx' heap'
  unfolding with_each_factory
  with_each_factory-IsFound s [] ctx heap (inl m) = absurd m
  with_each_factory-IsFound s [] ctx heap (inr h) = h
  with_each_factory-IsFound s (t ∷ rest) ctx heap (inl (inl e)) =
      with_each_factory-IsFound s rest _ _ (inr (added t s ctx heap ((eq_iff t s).1 e)))
  with_each_factory-IsFound s (t ∷ rest) ctx heap (inl (inr m)) =
      with_each_factory-IsFound s rest _ _ (inl m)
  with_each_factory-IsFound s (t ∷ rest) ctx heap (inr h) =
      with_each_factory-IsFound s rest _ _ (inr (kept t s ctx heap h))

  -- The context has the same scope and the same period as before.
  with_each_factory_scope :
      (chosen : List String) (ctx : Context A) (heap : Heap A)
      → ((with_each_factory A L c at_end chosen ctx heap).0.namespace_scope ≡ ctx.namespace_scope)
        × ((with_each_factory A L c at_end chosen ctx heap).0.resync_period ≡ ctx.resync_period)
  unfolding with_each_factory
  with_each_factory_scope [] ctx heap = (refl, refl)
  with_each_factory_scope (t ∷ rest) ctx heap =
      with_each_factory_scope rest
        (with_value A (filtered_factory_key t) (a_factory (length heap)) ctx) _

  -- The namespace of a scope, and all namespaces without one.
  abbrev pub scope_of : Option String → String
  scope_of none = ""
  scope_of (some ns) = ns

  -- A factory over that client whose options are set to the one selector.
  pub record IsFor (ctx : Context A) (f : SharedInformerFactory (factory_types A)) : Type 0 where
    pub same_client : f.client ≡ c
    pub same_period : f.default_resync ≡ ctx.resync_period
    pub same_scope : f.namespace ≡ scope_of ctx.namespace_scope
    pub tweaks : f.tweak_list_options ≡ some (tweak_to A L at_end)

  filtered_factory-IsFor :
      (ctx : Context A) (scope : Option String)
      → ctx.namespace_scope ≡ scope
      → IsFor ctx (filtered_factory A L c ctx at_end)
  unfolding filtered_factory scope_options new_shared_informer_factory_with_options with_namespace
      with_tweak_list_options apply_options
  filtered_factory-IsFor ctx none e = record {
    same_client = rw e;
    same_period = rw e;
    same_scope = rw e;
    tweaks = rw e;
  }
  filtered_factory-IsFor ctx (some ns) e = record {
    same_client = rw e;
    same_period = rw e;
    same_scope = rw e;
    tweaks = rw e;
  }

  get_filtered-IsFound :
      (s : String) (ctx : Context A) (heap : Heap A) (h : IsFound s ctx heap)
      → get_filtered_factory A ctx s ≡ done h.address
  unfolding get_filtered_factory factory_of
  get_filtered-IsFound s ctx heap h = rw (h.found)

  -- The factory that `Get` finds for the selector in a context.
  pub record Finds (s : String) (before ctx : Context A) (heap : Heap A) : Type 0 where
    pub address : ℕ
    pub factory : SharedInformerFactory (factory_types A)
    pub found : get_filtered_factory A ctx s ≡ done address
    pub stands : get_elem? heap address ≡ some factory
    pub is_for : IsFor before factory

  IsFound-Finds :
      (s : String) (before ctx : Context A) (heap : Heap A)
      → ctx.namespace_scope ≡ before.namespace_scope
      → ctx.resync_period ≡ before.resync_period
      → IsFound s ctx heap
      → Finds s before ctx heap
  IsFound-Finds s before ctx heap scope period h =
      let f = filtered_factory-IsFor ctx ctx.namespace_scope refl in
      record {
        address = h.address;
        factory = filtered_factory A L c ctx at_end;
        found = get_filtered-IsFound s ctx heap h;
        stands = h.made;
        is_for = record {
          same_client = f.same_client;
          same_period = f.same_period ∙ period;
          same_scope = f.same_scope ∙ ap scope_of scope;
          tweaks = f.tweaks;
        };
      }

module _ {T : Types} {C : ClientTypes} (A : InformerApi T C) (L : LabelSelector C)
    (c : A.Client) where
  -- Where the context has a client and selectors, the filtered injection does not panic, and for
  -- each of the selectors `Get` then finds a factory over that client, with the context's period
  -- and namespace. Whichever selector it was made for, it sets the label selector of its options to
  -- the last one of them.
  pub with_filtered_informer_factory-Finds :
      (ctx : Context A) (heap : Heap A) (chosen : List String) (s : String)
      → get_client A ctx ≡ done c
      → label_selectors A ctx ≡ done chosen
      → Among s chosen
      → (after : Context A) × (factories : Heap A) × (with_filtered_informer_factory A L ctx heap
          ≡ done (after, factories))
        × Finds A L c (last_selector chosen) s ctx after factories
  unfolding with_filtered_informer_factory
  with_filtered_informer_factory-Finds ctx heap chosen s has chosen_are among =
      let r = with_each_factory A L c (last_selector chosen) chosen ctx heap in
      let (scope, period) = with_each_factory_scope A L c (last_selector chosen) chosen ctx heap in
      (
        r.0,
        r.1,
        rw (has, chosen_are),
        IsFound-Finds A L c (last_selector chosen) s ctx r.0 r.1 scope period
            (with_each_factory-IsFound A L c (last_selector chosen) s chosen ctx heap (inl among)),
      )
