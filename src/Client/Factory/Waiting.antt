-- ===== src/Client/Factory/Waiting.antt =====
-- `WaitForCacheSync` waits for the informers that were started.
use mathlib.Core.Option
use tekton_task_group.Base.{
  String, ◌≡◌, refl, ap, ◌∙◌, ◌==◌, Bool, true, false, [], ◌∷◌, Option, none, some, if◌then◌else◌,
  eq_iff, All, arith,
}
use tekton_task_group.Base.Named.{or_else, or_else-none}
use tekton_task_group.Base.GoMap.{
  GoMap, lookup, insert, lookup-insert, lookup-nil, NodupKeys, insert-NodupKeys,
}
use tekton_task_group.Client.Factory.{
  FactoryTypes, SharedInformerFactory, is_set, start, started_of, sync_each, wait_for_cache_sync,
}
use tekton_task_group.Client.Factory.Laws.{Started, Started-start_each}

module _ (T : FactoryTypes) where
  -- The informer of a type, if the type is started.
  abbrev pub if_started : GoMap Bool → String → Option T.Informer → Option T.Informer
  if_started started k o = if is_set T (lookup k started) then o else none

  started_of-NodupKeys :
      (informers : GoMap T.Informer) (started : GoMap Bool) (out : GoMap T.Informer)
      → NodupKeys out
      → NodupKeys (started_of T informers started out)
  unfolding started_of
  started_of-NodupKeys [] started out h = h
  started_of-NodupKeys ((k, i) ∷ informers) started out h =
      started_of-NodupKeys informers started _ (either (is_set T (lookup k started)))
    where
      either : (b : Bool) → NodupKeys (if b then insert k i out else out)
      either true = insert-NodupKeys k i out h
      either false = h

  -- One round of the first loop.
  choose :
      (j k : String) (i : T.Informer) (informers : GoMap T.Informer) (started : GoMap Bool)
      (out : GoMap T.Informer)
      → lookup k informers ≡ none
      → or_else
          (if_started started j (lookup j informers))
          (lookup j (if is_set T (lookup k started) then insert k i out else out))
        ≡ or_else
            (if_started started j (if k == j then some i else lookup j informers))
            (lookup j out)
  choose j k i informers started out fresh =
      ground (arith, fresh, eq_iff k j, lookup-insert j k i out)

  lookup-started_of :
      (j : String) (informers : GoMap T.Informer) (started : GoMap Bool) (out : GoMap T.Informer)
      → NodupKeys informers
      → lookup j (started_of T informers started out)
        ≡ or_else (if_started started j (lookup j informers)) (lookup j out)
  unfolding started_of lookup
  lookup-started_of j [] started out h = ground arith
  lookup-started_of j ((k, i) ∷ informers) started out h =
      lookup-started_of j informers started _ h.1 ∙ choose j k i informers started out h.0

  lookup-sync_each :
      (j : String) (informers : GoMap T.Informer) (res : GoMap Bool)
      → NodupKeys informers
      → lookup j (sync_each T informers res)
        ≡ or_else (Option.map T.wait_for_cache_sync (lookup j informers)) (lookup j res)
  unfolding sync_each lookup
  lookup-sync_each j [] res h = refl
  lookup-sync_each j ((k, i) ∷ informers) res h =
      rw (lookup-sync_each j informers (insert k (T.wait_for_cache_sync i) res) h.1, lookup-insert)
        (ground (arith, h.0, eq_iff k j))

  lookup-wait_for_cache_sync :
      (j : String) (f : SharedInformerFactory T)
      → NodupKeys f.informers
      → lookup j (wait_for_cache_sync T f)
        ≡ Option.map T.wait_for_cache_sync (if_started f.started_informers j (lookup j f.informers))
  unfolding wait_for_cache_sync
  lookup-wait_for_cache_sync j f h =
      lookup-sync_each j (started_of T f.informers f.started_informers []) []
        (started_of-NodupKeys f.informers f.started_informers [] tt)
      ∙ rw (lookup-started_of j f.informers f.started_informers [] h)
          (simp (lookup-nil, or_else-none))

  if_started-All :
      (started : GoMap Bool) (j : String) (informers : GoMap T.Informer)
      → All (Started T started) informers
      → if_started started j (lookup j informers) ≡ lookup j informers
  unfolding lookup
  if_started-All started j [] h = ground arith
  if_started-All started j ((k, i) ∷ informers) h =
      ground (arith, h.0, eq_iff k j, if_started-All started j informers h.1)

  -- Once the factory was started, whose map of informers holds no type twice, the wait has an
  -- answer for each type that the factory has an informer for, and for no other: whether that
  -- informer's cache was synced.
  pub lookup-wait_for_cache_sync_start :
      (j : String) (f : SharedInformerFactory T)
      → NodupKeys f.informers
      → lookup j (wait_for_cache_sync T (start T f).1)
        ≡ Option.map T.wait_for_cache_sync (lookup j f.informers)
  unfolding start
  lookup-wait_for_cache_sync_start j f h =
      lookup-wait_for_cache_sync j (start T f).1 h
      ∙ ap (Option.map T.wait_for_cache_sync) (
          if_started-All (start T f).1.started_informers j f.informers
            (Started-start_each T f.informers f.started_informers))
