-- ===== src/Copy.antt =====
-- pkg/apis/taskgroup/v1alpha1/zz_generated.deepcopy.go: the deep copies of the TaskGroup types. A
-- value in memory is written with the addresses of the slices and pointers that it is made of; new
-- addresses are counted up. A copy is made by reading alone, so that the original is left as it was.
pub mod Values
pub mod Laws
pub mod Structs
pub mod Methods
pub mod Apart
use tekton_task_group.Base.{ℕ, suc, String, List, [], ◌∷◌, ◌++◌, Option, none, some}
use tekton_task_group.Upstream.{WorkspaceDeclaration, TaskResult}
use tekton_task_group.Api.{ParamBinding, WorkspaceBinding}
use tekton_task_group.Copy.Values.{
  Copyable, Slice, Pointer, copy_slice, copy_values, copy_pointer, slice_of, values_of, pointer_to,
}

-- A type of a library: its values in memory, what they are worth, and how they are copied.
pub record LibraryType : Type 1 where
  pub Memory : Type 0
  pub Value : Type 0
  pub copyable : Copyable Memory Value

pub record Library : Type 1 where
  pub param_spec : LibraryType
  pub step : LibraryType
  pub volume : LibraryType
  pub container : LibraryType
  pub sidecar : LibraryType
  pub task_ref : LibraryType
  pub object_meta : LibraryType
  pub list_meta : LibraryType
  pub task_run_status : LibraryType

-- `metav1.TypeMeta`
pub record TypeMeta : Type 0 where
  pub kind : String
  pub api_version : String

module _ (L : Library) where
  pub record Uses : Type 0 where
    pub task_ref : L.task_ref.Memory
    pub param_bindings : Option (Slice ParamBinding)
    pub workspace_bindings : Option (Slice WorkspaceBinding)

  -- `(*Uses).DeepCopyInto`
  unfoldable pub copy_uses : Uses → ℕ → Uses × ℕ
  unfolding copy_values
  copy_uses s n =
      let (task_ref, n) = L.task_ref.copyable.deep_copy_into s.task_ref n in
      let (params, n) = copy_values s.param_bindings n in
      let (workspaces, n) = copy_values s.workspace_bindings n in
      (
        record s { task_ref = task_ref; param_bindings = params; workspace_bindings = workspaces },
        n,
      )

  abbrev pub uses :
      Copyable Uses (L.task_ref.Value × Option (List ParamBinding) × Option (List WorkspaceBinding))
  uses = record {
    erase = λ s. (
      L.task_ref.copyable.erase s.task_ref,
      values_of.erase s.param_bindings,
      values_of.erase s.workspace_bindings,
    );
    cells = λ s.
        L.task_ref.copyable.cells s.task_ref
        ++ (values_of.cells s.param_bindings ++ values_of.cells s.workspace_bindings);
    deep_copy_into = copy_uses;
  }

  pub record Step : Type 0 where
    pub step : L.step.Memory
    pub uses : Option (Pointer Uses)

  -- `(*Step).DeepCopyInto`
  unfoldable pub copy_step : Step → ℕ → Step × ℕ
  unfolding copy_pointer copy_uses
  copy_step s n =
      let (step, n) = L.step.copyable.deep_copy_into s.step n in
      let (used, n) = copy_pointer uses s.uses n in (record s { step = step; uses = used }, n)

  abbrev pub UsesValue : Type 0
  UsesValue = L.task_ref.Value × Option (List ParamBinding) × Option (List WorkspaceBinding)

  abbrev pub StepValue : Type 0
  StepValue = L.step.Value × Option UsesValue

  abbrev pub steps : Copyable Step StepValue
  steps = record {
    erase = λ s. (L.step.copyable.erase s.step, (pointer_to uses).erase s.uses);
    cells = λ s. L.step.copyable.cells s.step ++ (pointer_to uses).cells s.uses;
    deep_copy_into = copy_step;
  }

  pub record TaskGroupSpec : Type 0 where
    pub params : Option (Slice L.param_spec.Memory)
    pub description : String
    pub steps : Option (Slice Step)
    pub volumes : Option (Slice L.volume.Memory)
    pub step_template : Option (Pointer L.container.Memory)
    pub sidecars : Option (Slice L.sidecar.Memory)
    pub workspaces : Option (Slice WorkspaceDeclaration)
    pub results : Option (Slice TaskResult)

  -- `(*TaskGroupSpec).DeepCopyInto`
  unfoldable pub copy_spec : TaskGroupSpec → ℕ → TaskGroupSpec × ℕ
  unfolding copy_slice copy_pointer copy_values copy_step
  copy_spec s n =
      let (params, n) = copy_slice L.param_spec.copyable s.params n in
      let (copied, n) = copy_slice steps s.steps n in
      let (volumes, n) = copy_slice L.volume.copyable s.volumes n in
      let (template, n) = copy_pointer L.container.copyable s.step_template n in
      let (sidecars, n) = copy_slice L.sidecar.copyable s.sidecars n in
      let (workspaces, n) = copy_values s.workspaces n in
      let (results, n) = copy_values s.results n in
      (
        record s {
          params = params;
          steps = copied;
          volumes = volumes;
          step_template = template;
          sidecars = sidecars;
          workspaces = workspaces;
          results = results;
        },
        n,
      )

  abbrev pub SpecValue : Type 0
  SpecValue =
      Option (List L.param_spec.Value)
      × String
      × Option (List StepValue)
      × Option (List L.volume.Value)
      × Option L.container.Value
      × Option (List L.sidecar.Value)
      × Option (List WorkspaceDeclaration)
      × Option (List TaskResult)

  abbrev pub specs : Copyable TaskGroupSpec SpecValue
  specs = record {
    erase = λ s. (
      (slice_of L.param_spec.copyable).erase s.params,
      s.description,
      (slice_of steps).erase s.steps,
      (slice_of L.volume.copyable).erase s.volumes,
      (pointer_to L.container.copyable).erase s.step_template,
      (slice_of L.sidecar.copyable).erase s.sidecars,
      values_of.erase s.workspaces,
      values_of.erase s.results,
    );
    cells = λ s.
        (slice_of L.param_spec.copyable).cells s.params
        ++ ((slice_of steps).cells s.steps
            ++ ((slice_of L.volume.copyable).cells s.volumes
                ++ ((pointer_to L.container.copyable).cells s.step_template
                    ++ ((slice_of L.sidecar.copyable).cells s.sidecars
                        ++ (values_of.cells s.workspaces ++ values_of.cells s.results)))));
    deep_copy_into = copy_spec;
  }

  pub record TaskGroup : Type 0 where
    pub type_meta : TypeMeta
    pub meta : L.object_meta.Memory
    pub spec : TaskGroupSpec

  -- `(*TaskGroup).DeepCopyInto`
  unfoldable pub copy_task_group : TaskGroup → ℕ → TaskGroup × ℕ
  unfolding copy_spec
  copy_task_group s n =
      let (meta, n) = L.object_meta.copyable.deep_copy_into s.meta n in
      let (spec, n) = copy_spec s.spec n in (record s { meta = meta; spec = spec }, n)

  abbrev pub TaskGroupValue : Type 0
  TaskGroupValue = TypeMeta × L.object_meta.Value × SpecValue

  abbrev pub task_groups : Copyable TaskGroup TaskGroupValue
  task_groups = record {
    erase = λ s. (s.type_meta, L.object_meta.copyable.erase s.meta, specs.erase s.spec);
    cells = λ s. L.object_meta.copyable.cells s.meta ++ specs.cells s.spec;
    deep_copy_into = copy_task_group;
  }

  pub record TaskGroupList : Type 0 where
    pub type_meta : TypeMeta
    pub list_meta : L.list_meta.Memory
    pub items : Option (Slice TaskGroup)

  -- `(*TaskGroupList).DeepCopyInto`
  unfoldable pub copy_list : TaskGroupList → ℕ → TaskGroupList × ℕ
  unfolding copy_slice copy_task_group
  copy_list s n =
      let (list_meta, n) = L.list_meta.copyable.deep_copy_into s.list_meta n in
      let (items, n) = copy_slice task_groups s.items n in
      (record s { list_meta = list_meta; items = items }, n)

  abbrev pub lists :
      Copyable TaskGroupList (TypeMeta × L.list_meta.Value × Option (List TaskGroupValue))
  lists = record {
    erase = λ s.
        (s.type_meta, L.list_meta.copyable.erase s.list_meta, (slice_of task_groups).erase s.items);
    cells = λ s. L.list_meta.copyable.cells s.list_meta ++ (slice_of task_groups).cells s.items;
    deep_copy_into = copy_list;
  }

  pub record TaskGroupRunStatus : Type 0 where
    pub task_group_spec : Option (Pointer TaskGroupSpec)
    pub task_run : Option (Pointer L.task_run_status.Memory)

  -- `(*TaskGroupRunStatus).DeepCopyInto`
  unfoldable pub copy_status : TaskGroupRunStatus → ℕ → TaskGroupRunStatus × ℕ
  unfolding copy_pointer copy_spec
  copy_status s n =
      let (spec, n) = copy_pointer specs s.task_group_spec n in
      let (task_run, n) = copy_pointer L.task_run_status.copyable s.task_run n in
      (record s { task_group_spec = spec; task_run = task_run }, n)

  abbrev pub statuses :
      Copyable TaskGroupRunStatus (Option SpecValue × Option L.task_run_status.Value)
  statuses = record {
    erase = λ s. (
      (pointer_to specs).erase s.task_group_spec,
      (pointer_to L.task_run_status.copyable).erase s.task_run,
    );
    cells = λ s.
        (pointer_to specs).cells s.task_group_spec
        ++ (pointer_to L.task_run_status.copyable).cells s.task_run;
    deep_copy_into = copy_status;
  }
