-- ===== src/Api/Register.antt =====
-- pkg/apis/taskgroup/v1alpha1/register.go and taskgroup_defaults.go, and the registration of
-- pkg/client/clientset/versioned/scheme/register.go: the names of the types, and a scheme that knows
-- them.
use tekton_task_group.Base.{String, List, [], ◌∷◌, Option, none, Error}
use tekton_task_group.Upstream.{Types}
use tekton_task_group.Api.{TaskGroup, TaskGroupSpec, group_name, task_group_controller_name}

-- `schema.GroupVersion`, `schema.GroupKind` and `schema.GroupResource`
pub record GroupVersion : Type 0 where
  pub group : String
  pub version : String

pub record GroupKind : Type 0 where
  pub group : String
  pub kind : String

pub record GroupResource : Type 0 where
  pub group : String
  pub resource : String

abbrev pub scheme_group : GroupVersion
scheme_group = record { group = group_name; version = "v1alpha1" }

unfoldable pub kind_of : String → GroupKind
kind_of kind = record { group = scheme_group.group; kind = kind }

unfoldable pub resource_of : String → GroupResource
resource_of resource = record { group = scheme_group.group; resource = resource }

-- `runtime.Scheme` with the types that are registered under a version, by the names of their Go
-- types, and `metav1.AddToGroupVersion`.
pub record SchemeApi : Type 1 where
  pub Scheme : Type 0
  pub add_known_types : GroupVersion → List String → Scheme → Scheme
  pub add_to_group_version : GroupVersion → Scheme → Scheme

-- What apimachinery documents of them: a registered type is recognized from then on.
pub record IsLawful (S : SchemeApi) (Recognizes : S.Scheme → GroupVersion → String → Type 0)
    : Type 0 where
  pub added_first :
      (gv : GroupVersion) (kind : String) (rest : List String) (s : S.Scheme)
      → Recognizes (S.add_known_types gv (kind ∷ rest) s) gv kind
  pub added_second :
      (gv : GroupVersion) (other kind : String) (rest : List String) (s : S.Scheme)
      → Recognizes (S.add_known_types gv (other ∷ kind ∷ rest) s) gv kind
  pub stays :
      (gv version : GroupVersion) (kind : String) (s : S.Scheme)
      → Recognizes s gv kind
      → Recognizes (S.add_to_group_version version s) gv kind

module _ (S : SchemeApi) where
  -- `addKnownTypes`, which returns nil always.
  unfoldable pub add_known_types : S.Scheme → S.Scheme × Option Error
  add_known_types scheme = (
    S.add_to_group_version scheme_group
        (S.add_known_types scheme_group ("TaskGroup" ∷ "TaskGroupList" ∷ []) scheme),
    none,
  )

  -- The `init` of the clientset's scheme: the version v1 of no group, and the types of this group.
  unfoldable pub init_scheme : S.Scheme → S.Scheme × Option Error
  unfolding add_known_types
  init_scheme scheme =
      add_known_types (S.add_to_group_version (record { group = ""; version = "v1" }) scheme)

  -- The scheme of the clientset recognizes the kind that the controller serves, and lists of it.
  pub init_scheme-task_group :
      (Recognizes : S.Scheme → GroupVersion → String → Type 0)
      → IsLawful S Recognizes
      → (scheme : S.Scheme)
      → Recognizes (init_scheme scheme).0 scheme_group task_group_controller_name
        × Recognizes (init_scheme scheme).0 scheme_group "TaskGroupList"
  unfolding init_scheme
  init_scheme-task_group Recognizes law scheme = (
    law.stays scheme_group scheme_group _ _ (law.added_first scheme_group _ _ _),
    law.stays scheme_group scheme_group _ _ (law.added_second scheme_group _ _ _ _),
  )

-- `SetDefaults` of a TaskGroup and of its spec: there are no defaults.
module _ {T : Types} where
  unfoldable pub set_spec_defaults : TaskGroupSpec T → TaskGroupSpec T
  set_spec_defaults tls = tls

  unfoldable pub set_defaults : TaskGroup T → TaskGroup T
  unfolding set_spec_defaults
  set_defaults tl = record tl { spec = set_spec_defaults tl.spec }
