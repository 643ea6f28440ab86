-- ===== src/Client/Group.antt =====
-- pkg/client/clientset/versioned/typed/taskgroup/v1alpha1/taskgroup_client.go: the client of the
-- group custom.tekton.dev.
use tekton_task_group.Base.{String, ◌==◌, Option, none, some, if◌then◌else◌, Result, ok, ◌>>=◌}
use tekton_task_group.Base.Panics.{Panicking, or_die}
use tekton_task_group.Api.{scheme_group_version}

-- client-go/rest, and the codecs of the scheme.
pub record RestApi : Type 1 where
  pub Serializer : Type 0
  pub codecs_without_conversion : Serializer
  pub default_kubernetes_user_agent : String
  -- The other fields of a `rest.Config`
  pub Others : Type 0
  pub Rest : Type 0

module _ (A : RestApi) where
  pub record RestConfig : Type 0 where
    pub group_version : Option String
    pub api_path : String
    pub negotiated_serializer : Option A.Serializer
    pub user_agent : String
    pub others : A.Others

  -- `CustomV1alpha1Client` and `taskGroups`
  pub record CustomV1alpha1Client : Type 0 where
    pub rest_client : A.Rest

  pub record TaskGroups : Type 0 where
    pub client : A.Rest
    pub ns : String

  -- `TaskGroups`, which is `newTaskGroups`
  unfoldable pub task_groups : CustomV1alpha1Client → String → TaskGroups
  task_groups c namespace = record { client = c.rest_client; ns = namespace }

  -- `setConfigDefaults`, of a copy of the config. It never fails.
  unfoldable pub set_config_defaults : RestConfig → Result RestConfig
  set_config_defaults config = ok (record config {
    group_version = some scheme_group_version;
    api_path = "/apis";
    negotiated_serializer = some A.codecs_without_conversion;
    user_agent =
        if config.user_agent == "" then A.default_kubernetes_user_agent else config.user_agent;
  })

  -- `NewForConfig`, by `rest.RESTClientFor`
  unfoldable pub new_for_config :
      (RestConfig → Result A.Rest) → RestConfig → Result CustomV1alpha1Client
  unfolding set_config_defaults
  new_for_config rest_client_for c = set_config_defaults c >>= λ config.
      rest_client_for config >>= λ client. ok (record { rest_client = client })

  unfoldable pub new_for_config_or_die :
      (RestConfig → Result A.Rest) → RestConfig → Panicking CustomV1alpha1Client
  unfolding new_for_config or_die
  new_for_config_or_die rest_client_for c = or_die (new_for_config rest_client_for c)

  -- `New`
  unfoldable pub new : A.Rest → CustomV1alpha1Client
  new c = record { rest_client = c }

  -- `RESTClient`, of a client that may be nil
  unfoldable pub rest_client : Option CustomV1alpha1Client → Option A.Rest
  rest_client none = none
  rest_client (some c) = some c.rest_client
