-- ===== src/Tests/Injecting.antt =====
-- What a context gives back, the filter of Runs, the names of steps, and the config of a clientset.
use tekton_task_group.Base.{
  not, ◌≢◌, arith, ℕ, String, ◌==◌, ◌≡◌, refl, Bool, true, false, ◌&&◌, List, [], ◌∷◌, Option, none,
  some, plain, ltb, ok, inl, arith,
}
use tekton_task_group.Base.Panics.{done}
use tekton_task_group.Upstream.Run.{Run, RunRef, EmbeddedRunSpec}
use tekton_task_group.Reconciler.Kind.{is_foreign}
use tekton_task_group.Reconciler.Controller.{
  ControllerApi, new_controller, refers, IsFiltering, filter_func-is_foreign,
}
use tekton_task_group.Resolve.Task.{step_name}
use tekton_task_group.Resolve.Task.Names.{step_name_inj}
use tekton_task_group.Client.Options.{ClientTypes}
use tekton_task_group.Client.Informer.{InformerApi}
use tekton_task_group.Client.Injection.{
  client_key, label_key, a_client, selectors, Context, Heap, find, get_client,
}
use tekton_task_group.Client.Injection.Factories.{
  LabelSelector, label_selectors, with_filtered_informer_factory,
}
use tekton_task_group.Client.Injection.Factories.{last_selector}
use tekton_task_group.Client.Injection.Found.{Finds, with_filtered_informer_factory-Finds}
use tekton_task_group.Client.Clientset.{ClientApi, Config, limited}
use tekton_task_group.Tests.Sample.{sample}
use tekton_task_group.Tests.World.{runs, env}
use tekton_task_group.Tests.Running.{run_of, to_group}
use tekton_task_group.Tests.Clients.{units, index}

-- The selectors of a list are their text.
abbrev types : ClientTypes
types = record units { Selectors = String }

abbrev informers : InformerApi sample types
informers = record {
  Client = String;
  Informer = ℕ;
  Indexers = Unit;
  namespace_index = tt;
  new_shared_index_informer = λ _ _ resync_period _. resync_period;
  get_indexer = λ _. index;
  has_synced = λ _. true;
  no_informer = λ _ _ resource. plain resource;
}

abbrev label_selector : LabelSelector types
label_selector = record { get = λ s. s; set = λ selector _. selector }

abbrev chosen : List String
chosen = "app=shop" ∷ "app=cart" ∷ []

abbrev scoped : Context informers
scoped = record {
  values = (label_key, selectors chosen) ∷ (client_key, a_client "client") ∷ [];
  has_config = true;
  namespace_scope = some "ns";
  resync_period = 30;
  resource_version = "";
}

has_client : get_client informers scoped ≡ done "client"
unfolding get_client find
has_client = refl

has_selectors : label_selectors informers scoped ≡ done chosen
unfolding label_selectors find
has_selectors = refl

with_filtered_informer_factory-Finds_example :
    (after : Context informers) × (factories : Heap informers) × (with_filtered_informer_factory
        informers label_selector scoped []
      ≡ done (after, factories))
    × Finds informers label_selector "client" "app=cart" "app=shop" scoped after factories
unfolding last_selector
with_filtered_informer_factory-Finds_example =
    with_filtered_informer_factory-Finds informers label_selector "client" scoped [] chosen
      "app=shop" has_client has_selectors (inl refl)

-- A queue of names, and the filter of Runs.
abbrev refers_to : String → String → Option RunRef → Option (EmbeddedRunSpec runs) → Bool
refers_to api_version kind (some ref) _ = ref.api_version == api_version && ref.kind == kind
refers_to api_version kind none (some embedded) =
    embedded.api_version == api_version && embedded.kind == kind
refers_to api_version kind none none = false

abbrev controller_api : ControllerApi sample runs
controller_api = record {
  Queue = List String;
  enqueue = λ run q. run.meta.name ∷ q;
  enqueue_controller_of = λ tr q. tr.meta.name ∷ q;
  RunLister = Unit;
  filter_run_ref = λ api_version kind run. refers_to api_version kind run.spec.ref run.spec.spec;
  filter_owner_run_ref = λ _ _ _ _. true;
}

refers_to-refers :
    (api_version kind : String) (ref : Option RunRef) (embedded : Option (EmbeddedRunSpec runs))
    → refers_to api_version kind ref embedded ≡ refers controller_api api_version kind ref embedded
refers_to-refers api_version kind (some ref) embedded = refl
refers_to-refers api_version kind none (some embedded) = refl
refers_to-refers api_version kind none none = refl

controller_api-IsFiltering : IsFiltering controller_api
controller_api-IsFiltering = record {
  run_ref = λ api_version kind run. refers_to-refers api_version kind run.spec.ref run.spec.spec;
}

abbrev a_run : Run runs
a_run = run_of (to_group "group")

filter_func-is_foreign_example :
    (new_controller controller_api tt).run_events.filter_func a_run ≡ not (is_foreign env a_run)
filter_func-is_foreign_example =
    filter_func-is_foreign env controller_api tt a_run controller_api-IsFiltering

first_twelfth : ◌≢◌ {A = ℕ} 1 12
first_twelfth e = omega (arith, e)

step_name_inj_example : step_name "" 1 ≢ step_name "" 12
step_name_inj_example = step_name_inj 1 12 first_twelfth

abbrev client_api : ClientApi
client_api = record {
  Float = ℕ;
  is_positive = λ n. ltb 0 n;
  RateLimiter = String;
  Int = ℕ;
  is_positive_int = λ n. ltb 0 n;
  Rest = Unit;
  CustomClient = String;
  DiscoveryClient = String;
  new_token_bucket_rate_limiter = λ _ _. "bucket";
}

abbrev slow : Config client_api
slow = record { rate_limiter = some "shared"; qps = 5; burst = 0; rest = tt }

slow-limited : limited client_api slow ≡ ok slow
unfolding limited
slow-limited = refl
