-- ===== src/Resolve/Task/Laws.antt =====
-- `TaskSpec` as a whole: the task that it returns, and when it returns an error.
use tekton_task_group.Base.{
  ◌≡◌, refl, sym, ap, ◌∙◌, List, ◌∷◌, ◌++◌, none, some, keep, All, Error, ok, err, Result-cases,
  inl, inr, false, none≢some, and_then-none, Returned,
}
use tekton_task_group.Base.Named.{declares, undeclared}
use tekton_task_group.Upstream.{
  Types, ParamSpec, WorkspaceDeclaration, Sidecar, Volume, TaskSpec, StepApi, IsLawful,
}
use tekton_task_group.Upstream
use tekton_task_group.Api.{TaskGroupSpec}
use tekton_task_group.Resolve.Merge.{
  TaskSpecTransformer, merge_params, merge_workspaces, merge_results, merge_sidecars, merge_volumes,
}
use tekton_task_group.Resolve.Merge.Laws.{
  param_name, SameType, workspace_name, SameMount, merge_params_agree, merge_workspaces_agree,
}
use tekton_task_group.Resolve.Merge.Others.{
  result_name, sidecar_name, volume_name, merge_results_lem, merge_sidecars_disjoint,
  merge_volumes_disjoint,
}
use tekton_task_group.Resolve.Merge.Needs.{
  SameType-of_merge_params, SameMount-of_merge_workspaces, undeclared_of_merge_sidecars,
  undeclared_of_merge_volumes,
}
use tekton_task_group.Resolve.Task.{
  UsedTasks, Collected, task_spec, started, transformers, run_transformers, finish, collect,
  nothing_collected,
}
use tekton_task_group.Resolve.Task.Expansion.{
  Use, uses_of, own_params, own_workspaces, all_of, gathered, expand, collect_ok, collect_err,
}

run_transformers-cons :
    {T : Types} (t : TaskSpecTransformer T) (ts : List (TaskSpecTransformer T)) {s s' : TaskSpec T}
    → t s ≡ (s', none)
    → run_transformers (t ∷ ts) s ≡ run_transformers ts s'
unfolding run_transformers
run_transformers-cons t ts h = rw h

module _ {T : Types} (spec : TaskGroupSpec T) (us : List (Use T)) where
  -- What the used tasks must be for their declarations to fit those of the task group.
  pub record Compatible : Type 0 where
    pub types : All (SameType spec.params) (all_of own_params us)
    pub mounts : All (SameMount spec.workspaces) (all_of own_workspaces us)
    pub sidecars :
        All
          (λ s. declares sidecar_name spec.sidecars s.name ≡ false)
          (all_of (λ u. u.task.sidecars) us)
    pub volumes :
        All
          (λ v. declares volume_name spec.volumes v.name ≡ false)
          (all_of (λ u. u.task.volumes) us)

  -- The task group's own declarations first, then those of the used tasks that are new.
  abbrev pub resolved : List (Upstream.Step T) → TaskSpec T
  resolved xs = record {
    params = spec.params ++ keep (undeclared param_name spec.params) (all_of own_params us);
    description = spec.description;
    steps = xs;
    volumes = spec.volumes ++ all_of (λ u. u.task.volumes) us;
    step_template = none;
    sidecars = spec.sidecars ++ all_of (λ u. u.task.sidecars) us;
    workspaces =
        spec.workspaces
        ++ keep (undeclared workspace_name spec.workspaces) (all_of own_workspaces us);
    results =
        spec.results
        ++ keep (undeclared result_name spec.results) (all_of (λ u. u.task.results) us);
  }

  -- The task after each of the first four merges.
  abbrev after_params : List (Upstream.Step T) → TaskSpec T
  after_params xs = record (started spec xs) { params = (resolved xs).params }

  abbrev after_workspaces : List (Upstream.Step T) → TaskSpec T
  after_workspaces xs = record (after_params xs) { workspaces = (resolved xs).workspaces }

  abbrev after_results : List (Upstream.Step T) → TaskSpec T
  after_results xs = record (after_workspaces xs) { results = (resolved xs).results }

  abbrev after_sidecars : List (Upstream.Step T) → TaskSpec T
  after_sidecars xs = record (after_results xs) { sidecars = (resolved xs).sidecars }

  run_transformers_lem :
      (xs : List (Upstream.Step T))
      → Compatible
      → run_transformers (transformers (gathered nothing_collected xs us)) (started spec xs)
        ≡ (resolved xs, none)
  unfolding run_transformers transformers
  run_transformers_lem xs h = rw (
    merge_params_agree (all_of own_params us) (started spec xs) h.types,
    merge_workspaces_agree (all_of own_workspaces us) (after_params xs) h.mounts,
    merge_results_lem (all_of (λ u. u.task.results) us) (after_workspaces xs),
    merge_sidecars_disjoint (all_of (λ u. u.task.sidecars) us) (after_results xs) h.sidecars,
    merge_volumes_disjoint (all_of (λ u. u.task.volumes) us) (after_sidecars xs) h.volumes,
  )

  -- The merges return no error only where the declarations fit.
  Compatible_of_run :
      (xs : List (Upstream.Step T))
      → (run_transformers (transformers (gathered nothing_collected xs us)) (started spec xs)).1
        ≡ none
      → Compatible
  unfolding run_transformers transformers
  Compatible_of_run xs h =
      let ps = all_of own_params us in
      let ws = all_of own_workspaces us in
      let rs = all_of (λ (u : Use T). u.task.results) us in
      let ss = all_of (λ (u : Use T). u.task.sidecars) us in
      let vs = all_of (λ (u : Use T). u.task.volumes) us in
      let a = and_then-none (merge_params ps (started spec xs)) _ h in
      let types = SameType-of_merge_params ps (started spec xs) a.0 in
      let b =
        and_then-none (merge_workspaces ws (after_params xs)) _
          (rw (merge_params_agree ps (started spec xs) types) at a.1) in
      let mounts = SameMount-of_merge_workspaces ws (after_params xs) b.0 in
      let c =
        and_then-none (merge_results rs (after_workspaces xs)) _
          (rw (merge_workspaces_agree ws (after_params xs) mounts) at b.1) in
      let d =
        and_then-none (merge_sidecars ss (after_results xs)) _
          (rw (merge_results_lem rs (after_workspaces xs)) at c.1) in
      let sidecars = undeclared_of_merge_sidecars ss (after_results xs) d.0 in
      let e =
        and_then-none (merge_volumes vs (after_sidecars xs)) _
          (rw (merge_sidecars_disjoint ss (after_results xs) sidecars) at d.1) in
      record {
        types = types;
        mounts = mounts;
        sidecars = sidecars;
        volumes = undeclared_of_merge_volumes vs (after_sidecars xs) e.0;
      }

finish_err :
    {T : Types} (spec : TaskGroupSpec T) (r : Returned (Collected T)) {e : Error}
    → r.1 ≡ some e
    → (finish spec r).1 ≡ some e
unfolding finish
finish_err spec (c, none) h = cc
finish_err spec (c, some e) h = h

module _ {T : Types} (P : StepApi T) (spec : TaskGroupSpec T) (used : UsedTasks T) where
  task_spec-finish :
      task_spec P spec used
      ≡ finish spec (collect P spec.step_template used 0 spec.steps nothing_collected)
  unfolding task_spec
  task_spec-finish = refl

  task_spec-run :
      (xs : List (Upstream.Step T))
      → expand P spec.step_template used 0 spec.steps ≡ ok xs
      → task_spec P spec used
        ≡ run_transformers
            (transformers (gathered nothing_collected xs (uses_of used 0 spec.steps)))
            (started spec xs)
  unfolding finish
  task_spec-run xs e =
      task_spec-finish
      ∙ ap (finish spec) (collect_ok P spec.step_template used 0 spec.steps nothing_collected xs e)

  -- Where every step has an expansion and the declarations of the used tasks fit those of the
  -- task group, the resolution returns the task whose steps are the expansions in order, and
  -- whose parameters, workspaces, results, sidecars and volumes are the task group's, followed by
  -- those of the used tasks that the task group does not declare. Parameters and workspaces that
  -- a binding names are left out.
  pub task_spec_ok :
      (xs : List (Upstream.Step T))
      → expand P spec.step_template used 0 spec.steps ≡ ok xs
      → Compatible spec (uses_of used 0 spec.steps)
      → task_spec P spec used ≡ (resolved spec (uses_of used 0 spec.steps) xs, none)
  task_spec_ok xs e h =
      task_spec-run xs e ∙ run_transformers_lem spec (uses_of used 0 spec.steps) xs h

  -- Where a step has no expansion, the resolution returns the first such step's error.
  pub task_spec_err :
      (e : Error)
      → expand P spec.step_template used 0 spec.steps ≡ err e
      → (task_spec P spec used).1 ≡ some e
  task_spec_err e h =
      ap (λ r. r.1) task_spec-finish
      ∙ finish_err spec _ (collect_err P spec.step_template used 0 spec.steps nothing_collected e h)

  -- The resolution returns no error only where every step has an expansion and the declarations of
  -- the used tasks fit those of the task group.
  pub task_spec-needs :
      (task_spec P spec used).1 ≡ none
      → (xs : List (Upstream.Step T)) × (expand P spec.step_template used 0 spec.steps ≡ ok xs)
        × Compatible spec (uses_of used 0 spec.steps)
  task_spec-needs h = elim (Result-cases (expand P spec.step_template used 0 spec.steps)) [
    | inl (xs, e) ↦ (
      xs,
      e,
      Compatible_of_run spec (uses_of used 0 spec.steps) xs
          (sym (ap (λ r. r.1) (task_spec-run xs e)) ∙ h),
    )
    | inr (problem, e) ↦ absurd (none≢some (sym h ∙ task_spec_err problem e))
  ]
