-- ===== src/Client/Informer/Laws.antt =====
-- The informer of TaskGroups is one, however it is asked for.
use tekton_task_group.Base.{◌≡◌, ap, ok}
use tekton_task_group.Upstream.{Types}
use tekton_task_group.Client.Options.{ClientTypes}
use tekton_task_group.Client.Lister.{new_task_group_lister}
use tekton_task_group.Client.Factory.{SharedInformerFactory}
use tekton_task_group.Client.Factory.Laws.{informer_for-again}
use tekton_task_group.Client.Informer.{
  InformerApi, factory_types, Access, custom, v1alpha1, task_groups, informer, default_informer,
  lister, for_resource,
}

module _ {T : Types} {C : ClientTypes} (A : InformerApi T C) where
  -- What the informer of a factory is made of.
  abbrev access : SharedInformerFactory (factory_types A) → Access A
  access f = task_groups A (v1alpha1 A (custom A f))

  informer-again :
      (f : SharedInformerFactory (factory_types A)) → informer A (informer A f).1 ≡ informer A f
  unfolding informer
  informer-again f =
      informer_for-again (factory_types A) "TaskGroup" (default_informer A (access f))
        (default_informer A (access (informer A f).1)) f

  -- After the informer of TaskGroups was asked for, the access by the resource gives that informer,
  -- the lister reads its indexer, and neither changes the factory.
  pub for_resource-informer :
      (f : SharedInformerFactory (factory_types A))
      → (for_resource A "custom.tekton.dev" "v1alpha1" "taskgroups" (informer A f).1 ≡ (
        ok (record {
          group = "custom.tekton.dev";
          resource = "taskgroups";
          informer = (informer A f).0;
        }),
        (informer A f).1,
      ))
        × (lister A (informer A f).1
            ≡ (new_task_group_lister (A.get_indexer (informer A f).0), (informer A f).1))
  unfolding for_resource lister
  for_resource-informer f = (
    ap
        (λ r. (
          ok (record { group = "custom.tekton.dev"; resource = "taskgroups"; informer = r.0 }),
          r.1,
        ))
        (informer-again f),
    ap (λ r. (new_task_group_lister (A.get_indexer r.0), r.1)) (informer-again f),
  )
