-- ===== src/Copy/Methods.antt =====
-- The methods `DeepCopy` and `DeepCopyObject` of zz_generated.deepcopy.go.
use tekton_task_group.Base.{ℕ, suc, Option, none, some}
use tekton_task_group.Api.{ParamBinding, WorkspaceBinding}
use tekton_task_group.Copy.Values.{Pointer, copy_pointer}
use tekton_task_group.Copy.{
  Library, Uses, copy_uses, uses, Step, copy_step, steps, TaskGroupSpec, copy_spec, specs,
  TaskGroup, copy_task_group, task_groups, TaskGroupList, copy_list, lists, TaskGroupRunStatus,
  copy_status, statuses,
}

module _ (L : Library) where
  -- The methods `DeepCopy` and `DeepCopyObject`: nil of nil, or else a new value that is copied into.
  unfoldable pub deep_copy_task_group :
      Option (Pointer (TaskGroup L)) → ℕ → Option (Pointer (TaskGroup L)) × ℕ
  unfolding copy_pointer copy_task_group
  deep_copy_task_group p n = copy_pointer (task_groups L) p n

  unfoldable pub deep_copy_list :
      Option (Pointer (TaskGroupList L)) → ℕ → Option (Pointer (TaskGroupList L)) × ℕ
  unfolding copy_pointer copy_list
  deep_copy_list p n = copy_pointer (lists L) p n

  unfoldable pub deep_copy_status :
      Option (Pointer (TaskGroupRunStatus L)) → ℕ → Option (Pointer (TaskGroupRunStatus L)) × ℕ
  unfolding copy_pointer copy_status
  deep_copy_status p n = copy_pointer (statuses L) p n

  unfoldable pub deep_copy_spec :
      Option (Pointer (TaskGroupSpec L)) → ℕ → Option (Pointer (TaskGroupSpec L)) × ℕ
  unfolding copy_pointer copy_spec
  deep_copy_spec p n = copy_pointer (specs L) p n

  unfoldable pub deep_copy_step : Option (Pointer (Step L)) → ℕ → Option (Pointer (Step L)) × ℕ
  unfolding copy_pointer copy_step
  deep_copy_step p n = copy_pointer (steps L) p n

  unfoldable pub deep_copy_uses : Option (Pointer (Uses L)) → ℕ → Option (Pointer (Uses L)) × ℕ
  unfolding copy_pointer copy_uses
  deep_copy_uses p n = copy_pointer (uses L) p n

-- The two bindings hold texts, which are copied by value.
unfoldable pub deep_copy_param_binding :
    Option (Pointer ParamBinding) → ℕ → Option (Pointer ParamBinding) × ℕ
deep_copy_param_binding none n = (none, n)
deep_copy_param_binding (some p) n = (some (record p { address = n }), suc n)

unfoldable pub deep_copy_workspace_binding :
    Option (Pointer WorkspaceBinding) → ℕ → Option (Pointer WorkspaceBinding) × ℕ
deep_copy_workspace_binding none n = (none, n)
deep_copy_workspace_binding (some p) n = (some (record p { address = n }), suc n)
