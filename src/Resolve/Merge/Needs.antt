-- ===== src/Resolve/Merge/Needs.antt =====
-- What must hold where the merging functions return no error.
use tekton_task_group.Base.{
  String, ◌≡◌, refl, sym, ◌∙◌, List, Option, none, some, All, All-map, Error, Result, ok, err,
  arith, eq_iff, Option-cases, inl, inr, false, none≢some,
}
use tekton_task_group.Base.Named.{find_last, declares, find_last-declares-none}
use tekton_task_group.Upstream.{Types, ParamSpec, WorkspaceDeclaration, Sidecar, Volume, TaskSpec}
use tekton_task_group.Resolve.Merge.{
  assign, param_clash, merge_params, workspace_clash, merge_workspaces, sidecar_clash,
  merge_sidecars, volume_clash, merge_volumes,
}
use tekton_task_group.Resolve.Merge.Loops.{Fits, Fits-of_merge}
use tekton_task_group.Resolve.Merge.Laws.{param_name, SameType, workspace_name, SameMount}
use tekton_task_group.Resolve.Merge.Others.{sidecar_name, volume_name}

assign-none :
    {T : Types} {A : Type 0} (set : A → TaskSpec T) (spec : TaskSpec T) (r : Result A)
    → (assign set spec r).1 ≡ none
    → (a : A) × (r ≡ ok a)
assign-none set spec (ok a) h = (a, refl)
assign-none set spec (err e) h = cc

declares_of_Fits :
    {A : Type 0} (name : A → String) (clash : A → A → Option Error) (error : A → Error)
    → ((s x : A) → clash s x ≡ some (error x))
    → (declared : List A) (x : A) → Fits name clash declared x
    → declares name declared (name x) ≡ false
declares_of_Fits name clash error always declared x h =
    elim (Option-cases (find_last name (name x) declared)) [
      | inl e ↦ find_last-declares-none name (name x) declared e
      | inr (s, e) ↦ absurd (none≢some (sym (h s e) ∙ always s x))
    ]

SameMount-of_Fits :
    (declared : List WorkspaceDeclaration) (w : WorkspaceDeclaration)
    → Fits workspace_name workspace_clash declared w
    → SameMount declared w
unfolding workspace_clash
SameMount-of_Fits declared w h s e = ground (arith, h s e, eq_iff s.mount_path w.mount_path)

module _ {T : Types} where
  SameType-of_Fits :
      (declared : List (ParamSpec T)) (p : ParamSpec T)
      → Fits param_name param_clash declared p
      → SameType declared p
  unfolding param_clash
  SameType-of_Fits declared p h s e = ground (arith, h s e, eq_iff s.param_type p.param_type)

  pub SameType-of_merge_params :
      (used : List (ParamSpec T)) (spec : TaskSpec T)
      → (merge_params used spec).1 ≡ none
      → All (SameType spec.params) used
  unfolding merge_params
  SameType-of_merge_params used spec h =
      let (out, e) = assign-none _ spec _ h in
      All-map (SameType-of_Fits spec.params) used
        (Fits-of_merge param_name param_clash spec.params used out e)

  pub SameMount-of_merge_workspaces :
      (used : List WorkspaceDeclaration) (spec : TaskSpec T)
      → (merge_workspaces used spec).1 ≡ none
      → All (SameMount spec.workspaces) used
  unfolding merge_workspaces
  SameMount-of_merge_workspaces used spec h =
      let (out, e) = assign-none _ spec _ h in
      All-map (SameMount-of_Fits spec.workspaces) used
        (Fits-of_merge workspace_name workspace_clash spec.workspaces used out e)

  pub undeclared_of_merge_sidecars :
      (used : List (Sidecar T)) (spec : TaskSpec T)
      → (merge_sidecars used spec).1 ≡ none
      → All (λ s. declares sidecar_name spec.sidecars s.name ≡ false) used
  unfolding merge_sidecars
  undeclared_of_merge_sidecars used spec h =
      let (out, e) = assign-none _ spec _ h in
      All-map
        (declares_of_Fits sidecar_name sidecar_clash _ (λ s x. unfold sidecar_clash in refl)
          spec.sidecars)
        used (Fits-of_merge sidecar_name sidecar_clash spec.sidecars used out e)

  pub undeclared_of_merge_volumes :
      (used : List (Volume T)) (spec : TaskSpec T)
      → (merge_volumes used spec).1 ≡ none
      → All (λ v. declares volume_name spec.volumes v.name ≡ false) used
  unfolding merge_volumes
  undeclared_of_merge_volumes used spec h =
      let (out, e) = assign-none _ spec _ h in
      All-map
        (declares_of_Fits volume_name volume_clash _ (λ s x. unfold volume_clash in refl)
          spec.volumes)
        used (Fits-of_merge volume_name volume_clash spec.volumes used out e)
