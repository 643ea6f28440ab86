-- ===== src/Client/Factory/Laws.antt =====
-- An informer is made once and run once.
use tekton_task_group.Base.{
  ℕ, String, ◌≡◌, refl, sym, ap, ◌∙◌, ◌==◌, Bool, true, false, [], ◌∷◌, Option, none, some,
  if◌then◌else◌, eq_refl, subst, All, Bool-cases, inl, inr,
}
use tekton_task_group.Base.GoMap.{GoMap, lookup, insert, lookup-insert}
use tekton_task_group.Client.Factory.{
  FactoryTypes, SharedInformerFactory, is_set, start_each, start, informer_or_new, informer_for,
}

module _ (T : FactoryTypes) where
  informer_or_new-lookup :
      (o : Option T.Informer) (k : String) (make : T.Client → ℕ → T.Informer)
      (f : SharedInformerFactory T)
      → lookup k f.informers ≡ o
      → lookup k (informer_or_new T o k make f).1.informers ≡ some (informer_or_new T o k make f).0
  unfolding informer_or_new
  informer_or_new-lookup (some informer) k make f h = h
  informer_or_new-lookup none k make f h = lookup-insert k k _ f.informers ∙ rw (eq_refl k)

  informer_or_new-some :
      (o : Option T.Informer) (informer : T.Informer) (k : String)
      (make : T.Client → ℕ → T.Informer) (f : SharedInformerFactory T)
      → o ≡ some informer
      → informer_or_new T o k make f ≡ (informer, f)
  unfolding informer_or_new
  informer_or_new-some o informer k make f h = rw h

  -- Asking again for the informer of a type, whatever would make a new one, gives the same informer
  -- and leaves the factory as it is.
  pub informer_for-again :
      (k : String) (make other : T.Client → ℕ → T.Informer) (f : SharedInformerFactory T)
      → informer_for T k other (informer_for T k make f).1 ≡ informer_for T k make f
  unfolding informer_for
  informer_for-again k make other f =
      informer_or_new-some (lookup k (informer_for T k make f).1.informers)
        (informer_for T k make f).0 k other (informer_for T k make f).1
        (informer_or_new-lookup (lookup k f.informers) k make f refl)

  -- The type of the informer is started.
  abbrev pub Started : GoMap Bool → String × T.Informer → Type 0
  Started started e = is_set T (lookup e.0 started) ≡ true

  start_each-Started :
      (informers : GoMap T.Informer) (started : GoMap Bool)
      → All (Started started) informers
      → start_each T informers started ≡ ([], started)
  unfolding start_each
  start_each-Started [] started h = refl
  start_each-Started ((k, i) ∷ informers) started h =
      rw (h.0, start_each-Started informers started h.1)

  -- What a round of the loop makes of the map.
  abbrev after_round : String → GoMap Bool → GoMap Bool
  after_round k started = if is_set T (lookup k started) then started else insert k true started

  start_each-map :
      (k : String) (i : T.Informer) (informers : GoMap T.Informer) (started : GoMap Bool)
      → (start_each T ((k, i) ∷ informers) started).1
        ≡ (start_each T informers (after_round k started)).1
  unfolding start_each
  start_each-map k i informers started = elim (Bool-cases (is_set T (lookup k started))) [
    | inl h ↦ rw h
    | inr h ↦ rw h
  ]

  after_round-keeps :
      (k j : String) (started : GoMap Bool)
      → is_set T (lookup j started) ≡ true
      → is_set T (lookup j (after_round k started)) ≡ true
  after_round-keeps k j started h = elim (Bool-cases (is_set T (lookup k started))) [
    | inl known ↦ rw known h
    | inr new ↦ rw (new, lookup-insert) (either (k == j) h)
  ]
    where
      either :
          (b : Bool)
          → is_set T (lookup j started) ≡ true
          → is_set T (if b then some true else lookup j started) ≡ true
      either true g = refl
      either false g = g

  after_round-sets :
      (k : String) (started : GoMap Bool) → is_set T (lookup k (after_round k started)) ≡ true
  after_round-sets k started = elim (Bool-cases (is_set T (lookup k started))) [
    | inl known ↦ rw (known, known)
    | inr new ↦ rw (new, lookup-insert, eq_refl k)
  ]

  -- What is started stays started.
  pub start_each-keeps :
      (j : String) (informers : GoMap T.Informer) (started : GoMap Bool)
      → is_set T (lookup j started) ≡ true
      → is_set T (lookup j (start_each T informers started).1) ≡ true
  unfolding start_each
  start_each-keeps j [] started h = h
  start_each-keeps j ((k, i) ∷ informers) started h =
      ap (λ m. is_set T (lookup j m)) (start_each-map k i informers started)
      ∙ start_each-keeps j informers (after_round k started) (after_round-keeps k j started h)

  -- The loop leaves every informer started.
  pub Started-start_each :
      (informers : GoMap T.Informer) (started : GoMap Bool)
      → All (Started (start_each T informers started).1) informers
  Started-start_each [] started = tt
  Started-start_each ((k, i) ∷ informers) started =
      subst (λ m. All (Started m) ((k, i) ∷ informers)) (sym (start_each-map k i informers started))
        (
          start_each-keeps k informers (after_round k started) (after_round-sets k started),
          Started-start_each informers (after_round k started),
        )

  -- Starting a factory for the second time runs no informer and leaves the factory as it is.
  pub start-again : (f : SharedInformerFactory T) → start T (start T f).1 ≡ ([], (start T f).1)
  unfolding start
  start-again f =
      ap (λ r. (r.0, record f { started_informers = r.1 }))
        (start_each-Started f.informers (start_each T f.informers f.started_informers).1
          (Started-start_each f.informers f.started_informers))
