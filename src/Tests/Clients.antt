-- ===== src/Tests/Clients.antt =====
-- The clients, the lister and the factory on concrete data.
use mathlib.Core.Option
use tekton_task_group.Base.{
  String, ◌==◌, ◌≡◌, refl, Bool, true, false, ◌&&◌, [], ◌∷◌, none, some, keep, ok, plain,
}
use tekton_task_group.Base.GoMap.{lookup, insert}
use tekton_task_group.Api.{TaskGroup}
use tekton_task_group.Reconciler.Labels.{entries}
use tekton_task_group.Client.Options.{ClientTypes, ListOptions, TaskGroupList, Operation, list}
use tekton_task_group.Client.Typed.{request}
use tekton_task_group.Client.Fake.{Fake, action, filtered}
use tekton_task_group.Client.Fake.Laws.{asked_by_action, asked_by_request, action-request}
use tekton_task_group.Client.Lister.{Indexer, namespace_list}
use tekton_task_group.Client.Factory
use tekton_task_group.Client.Factory.{FactoryTypes, SharedInformerFactory, start, informer_for}
use tekton_task_group.Client.Factory.Waiting.{lookup-wait_for_cache_sync_start}
use tekton_task_group.Client.Clientset.{ClientApi, Config, Makers, Clientset, new_for_config}
use tekton_task_group.Tests.Sample.{sample}
use tekton_task_group.Tests.Resolution.{two_steps}
use tekton_task_group.Tests.Running.{meta_of, groups}

abbrev pub units : ClientTypes
units = record {
  GetOptions = Unit;
  CreateOptions = Unit;
  UpdateOptions = Unit;
  DeleteOptions = Unit;
  PatchOptions = Unit;
  PatchType = Unit;
  ListMeta = Unit;
  Watch = Unit;
  Selectors = Unit;
}

abbrev pub options : ListOptions units
options = record { selectors = tt; watch = false; timeout_seconds = some 5 }

abbrev listing : Operation sample units
listing = list options

action-request_example :
    asked_by_action (action "ns" listing) ≡ asked_by_request (request "ns" listing)
action-request_example = action-request "ns" listing refl

-- A server that answers with nothing, and whose selector asks for one label.
abbrev silent : Fake sample units
silent = record {
  World = Unit;
  invokes = λ _ w. ((none, none), w);
  invokes_list = λ _ w. ((none, none), w);
  invokes_watch = λ _ w. ((none, none), w);
  extract_label =
      λ _. some (λ labels. elim (lookup "app" labels) [ none ↦ false | some v ↦ v == "shop" ]);
}

abbrev pub shop : TaskGroup sample
shop = record {
  meta = record (meta_of "shop") { labels = some (("app", "shop") ∷ []) };
  spec = two_steps;
}

abbrev pub all_groups : TaskGroupList sample units
all_groups = record { list_meta = tt; items = shop ∷ groups }

-- Only the labelled one is left.
filtered_case :
    filtered silent options (some all_groups, none)
    ≡ (some (record all_groups { items = shop ∷ [] }), none)
unfolding filtered lookup
filtered_case = refl

abbrev pub index : Indexer sample
index = record {
  list_all = λ selector. (keep (λ o. selector (entries o.meta.labels)) (shop ∷ groups), none);
  list_all_by_namespace = λ ns selector. (
    keep (λ o. ns == o.meta.namespace && selector (entries o.meta.labels)) (shop ∷ groups),
    none,
  );
  get_by_key = λ _. ok none;
  not_found = λ name. plain name;
}

-- The lister of a namespace goes over its objects that the selector matches.
listed_case :
    namespace_list
      (record { indexer = index; namespace = "ns" })
      (λ labels. elim (lookup "app" labels) [ none ↦ false | some v ↦ v == "shop" ])
    ≡ (shop ∷ [], none)
unfolding namespace_list lookup
listed_case = refl

abbrev informer_types : FactoryTypes
informer_types = record {
  Client = String;
  Informer = String;
  TweakListOptions = Unit;
  wait_for_cache_sync = λ informer. informer == "synced";
}

abbrev factory : SharedInformerFactory informer_types
factory = record {
  client = "client";
  namespace = "";
  tweak_list_options = none;
  default_resync = 30;
  custom_resync = [];
  informers = ("TaskGroup", "synced") ∷ ("Run", "stale") ∷ [];
  started_informers = ("Run", true) ∷ [];
}

-- The first time, what was not started yet is run.
start_case : (start informer_types factory).0 ≡ "synced" ∷ []
unfolding start insert
start_case = refl

lookup-wait_for_cache_sync_start_example :
    lookup "TaskGroup" (Factory.wait_for_cache_sync informer_types (start informer_types factory).1)
    ≡ Option.map (λ informer. informer == "synced") (lookup "TaskGroup" factory.informers)
unfolding lookup
lookup-wait_for_cache_sync_start_example =
    lookup-wait_for_cache_sync_start informer_types "TaskGroup" factory (refl, (refl, tt))

abbrev plain_clients : ClientApi
plain_clients = record {
  Float = Bool;
  is_positive = λ qps. qps;
  RateLimiter = String;
  Int = Bool;
  is_positive_int = λ burst. burst;
  Rest = Unit;
  CustomClient = String;
  DiscoveryClient = String;
  new_token_bucket_rate_limiter = λ _ _. "bucket";
}

abbrev makers : Makers plain_clients
makers = record { new_custom = λ _. ok "custom"; new_discovery = λ _. ok "discovery" }

abbrev config : Config plain_clients
config = record { rate_limiter = none; qps = true; burst = true; rest = tt }

abbrev clientset : Clientset plain_clients
clientset = record { custom_v1alpha1 = "custom"; discovery_client = "discovery" }

made : new_for_config plain_clients makers config ≡ ok clientset
unfolding new_for_config
made = refl
