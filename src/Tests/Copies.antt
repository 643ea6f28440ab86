-- ===== src/Tests/Copies.antt =====
-- Deep copies of a list with one TaskGroup.
use tekton_task_group.Base.{ℕ, suc, String, ◌≡◌, refl, [], ◌∷◌, Option, none, some, arith}
use tekton_task_group.Copy.{
  Library, LibraryType, TaskGroupSpec, TaskGroupList, lists, TaskGroupRunStatus, statuses,
}
use tekton_task_group.Copy.Methods.{deep_copy_list, deep_copy_status}
use tekton_task_group.Copy.Values.{Pointer, pointer_to}
use tekton_task_group.Copy.Laws.{Within}
use tekton_task_group.Copy.Structs
use tekton_task_group.Copy.Laws
use tekton_task_group.Copy.Apart.{Apart, deep_copy_list_lem, deep_copy_status_lem}

-- A library value is a text at an address.
abbrev boxed : LibraryType
boxed = record {
  Memory = Pointer String;
  Value = String;
  copyable = record {
    erase = λ p. p.target;
    cells = λ p. p.address ∷ [];
    deep_copy_into = λ p n. (record p { address = n }, suc n);
  };
}

abbrev library : Library
library = record {
  param_spec = boxed;
  step = boxed;
  volume = boxed;
  container = boxed;
  sidecar = boxed;
  task_ref = boxed;
  object_meta = boxed;
  list_meta = boxed;
  task_run_status = boxed;
}

boxed-IsDeep : Laws.IsDeep boxed.copyable
boxed-IsDeep p n = record {
  same = refl;
  grows = omega arith;
  fresh = ((omega arith, omega arith), tt);
}

library-IsLawful : Structs.IsLawful library
library-IsLawful = record {
  param_spec = boxed-IsDeep;
  step = boxed-IsDeep;
  volume = boxed-IsDeep;
  container = boxed-IsDeep;
  sidecar = boxed-IsDeep;
  task_ref = boxed-IsDeep;
  object_meta = boxed-IsDeep;
  list_meta = boxed-IsDeep;
  task_run_status = boxed-IsDeep;
}

abbrev box : ℕ → String → Pointer String
box address text = record { address = address; target = text }

abbrev spec : TaskGroupSpec library
spec = record {
  params = some (record { address = 1; elements = box 2 "p" ∷ [] });
  description = "";
  steps = some (record {
    address = 3;
    elements =
        record {
          step = box 4 "s";
          uses = some (record {
            address = 5;
            target = record {
              task_ref = box 6 "foo";
              param_bindings =
                  some (record { address = 7; elements = record { name = "a"; param = "b" } ∷ [] });
              workspace_bindings = none;
            };
          });
        }
        ∷ [];
  });
  volumes = none;
  step_template = none;
  sidecars = none;
  workspaces = some (record { address = 8; elements = [] });
  results = none;
}

abbrev original : Option (Pointer (TaskGroupList library))
original = some (record {
  address = 9;
  target = record {
    type_meta = record { kind = "TaskGroupList"; api_version = "v1alpha1" };
    list_meta = box 10 "";
    items = some (record {
      address = 11;
      elements =
          record {
            type_meta = record { kind = "TaskGroup"; api_version = "v1alpha1" };
            meta = box 12 "group";
            spec = spec;
          }
          ∷ [];
    });
  };
})

original-Within : Within 0 13 ((pointer_to (lists library)).cells original)
original-Within = ground arith

deep_copy_list_lem_example :
    ((pointer_to (lists library)).erase (deep_copy_list library original 13).0
      ≡ (pointer_to (lists library)).erase original)
    × Apart
        ((pointer_to (lists library)).cells (deep_copy_list library original 13).0)
        ((pointer_to (lists library)).cells original)
deep_copy_list_lem_example = deep_copy_list_lem library library-IsLawful original 13 original-Within

abbrev kept : Option (Pointer (TaskGroupRunStatus library))
kept = some (record {
  address = 0;
  target = record {
    task_group_spec = some (record { address = 9; target = spec });
    task_run = some (record { address = 10; target = box 11 "running" });
  };
})

kept-Within : Within 0 13 ((pointer_to (statuses library)).cells kept)
kept-Within = ground arith

deep_copy_status_lem_example :
    ((pointer_to (statuses library)).erase (deep_copy_status library kept 13).0
      ≡ (pointer_to (statuses library)).erase kept)
    × Apart
        ((pointer_to (statuses library)).cells (deep_copy_status library kept 13).0)
        ((pointer_to (statuses library)).cells kept)
deep_copy_status_lem_example = deep_copy_status_lem library library-IsLawful kept 13 kept-Within
