-- ===== src/Client/Clientset.antt =====
-- pkg/client/clientset/versioned/clientset.go: the clientset, whose clients share a rate limiter.
pub mod Laws
use tekton_task_group.Base.{
  ℕ, String, Bool, true, false, ◌&&◌, Option, none, some, if◌then◌else◌, Error, plain, Result, ok,
  err, ◌>>=◌,
}
use tekton_task_group.Base.Panics
use tekton_task_group.Base.Panics.{Panicking, done, or_die}

abbrev pub burst_text : String
burst_text =
    "burst is required to be greater than 0 when RateLimiter is not set and QPS is set to greater than 0"

-- The libraries: floating point numbers, rate limiters, and the clients that are made of a
-- `rest.Config`, whose other fields are only passed on.
pub record ClientApi : Type 1 where
  pub Float : Type 0
  pub is_positive : Float → Bool
  pub RateLimiter : Type 0
  -- An int that may be negative
  pub Int : Type 0
  pub is_positive_int : Int → Bool
  pub Rest : Type 0
  pub CustomClient : Type 0
  pub DiscoveryClient : Type 0
  pub new_token_bucket_rate_limiter : Float → Int → RateLimiter

module _ (A : ClientApi) where
  pub record Config : Type 0 where
    pub rate_limiter : Option A.RateLimiter
    pub qps : A.Float
    pub burst : A.Int
    pub rest : A.Rest

  -- `customv1alpha1.NewForConfig` and `discovery.NewDiscoveryClientForConfig`
  pub record Makers : Type 0 where
    pub new_custom : Config → Result A.CustomClient
    pub new_discovery : Config → Result A.DiscoveryClient

  pub record Clientset : Type 0 where
    pub custom_v1alpha1 : A.CustomClient
    pub discovery_client : A.DiscoveryClient

  -- `CustomV1alpha1`, which panics on a nil clientset, and `Discovery`, which does not
  unfoldable pub custom_v1alpha1_of : Option Clientset → Panicking A.CustomClient
  custom_v1alpha1_of none = Panics.panics "nil pointer dereference"
  custom_v1alpha1_of (some c) = done c.custom_v1alpha1

  unfoldable pub discovery_of : Option Clientset → Option A.DiscoveryClient
  discovery_of none = none
  discovery_of (some c) = some c.discovery_client

  abbrev is_nil : Option A.RateLimiter → Bool
  is_nil none = true
  is_nil (some _) = false

  -- The copy of the config, with a new rate limiter where it is to have one.
  unfoldable pub limited : Config → Result Config
  limited c =
      if is_nil c.rate_limiter && A.is_positive c.qps
      then if A.is_positive_int c.burst
        then ok (record c { rate_limiter = some (A.new_token_bucket_rate_limiter c.qps c.burst) })
        else err (plain burst_text)
      else ok c

  -- `NewForConfig`
  unfoldable pub new_for_config : Makers → Config → Result Clientset
  unfolding limited
  new_for_config make c = limited c >>= λ copy. make.new_custom copy >>= λ custom.
      make.new_discovery copy >>= λ discovery.
      ok (record { custom_v1alpha1 = custom; discovery_client = discovery })

  -- `NewForConfigOrDie`: the clients are made of the config as it is.
  unfoldable pub new_for_config_or_die : Makers → Config → Panicking Clientset
  unfolding or_die
  new_for_config_or_die make c = Panics.◌>>=◌ (or_die (make.new_custom c)) (λ custom.
      Panics.◌>>=◌ (or_die (make.new_discovery c))
        (λ discovery. done (record { custom_v1alpha1 = custom; discovery_client = discovery })))

  -- `New`, of the clients that `customv1alpha1.New` and `discovery.NewDiscoveryClient` make
  unfoldable pub new : A.CustomClient → A.DiscoveryClient → Clientset
  new custom discovery = record { custom_v1alpha1 = custom; discovery_client = discovery }
