-- ===== src/Resolve/Merge.antt =====
-- pkg/resolve/taskgroup.go, the functions `mergeParams` to `mergeVolumes`: what the used tasks
-- declare is added to what the task group declares. The five share their two loops, here `seen_of`
-- and `add_unseen`; they differ in what they do where a name was seen.
pub mod Loops
pub mod Laws
pub mod Others
pub mod Needs
use tekton_task_group.Base.{
  String, ◌<>◌, ◌!=◌, differ, List, [], ◌∷◌, ◌++◌, Option, none, some, if◌then◌else◌, Error, plain,
  Result, ok, err, Returned,
}
use tekton_task_group.Base.GoMap.{GoMap, lookup, insert}
use tekton_task_group.Upstream.{
  Types, ParamSpec, WorkspaceDeclaration, TaskResult, Sidecar, Volume, TaskSpec,
}

-- `taskSpecTransformer`: the spec is changed in place, and handed back beside the error.
abbrev pub TaskSpecTransformer : Types → Type 0
TaskSpecTransformer T = TaskSpec T → Returned (TaskSpec T)

module _ {A : Type 0} (name : A → String) where
  -- The first loop: the copied slice and the map of the seen names, where a later one wins.
  unfoldable pub seen_of : List A → List A → GoMap A → List A × GoMap A
  seen_of [] out seen = (out, seen)
  seen_of (x ∷ xs) out seen = seen_of xs (out ++ x ∷ []) (insert (name x) x seen)

  -- The second loop. `clash s x` is the error to return where `x` has the name of `s`.
  unfoldable pub add_unseen : (A → A → Option Error) → GoMap A → List A → List A → Result (List A)
  add_unseen clash seen [] out = ok out
  add_unseen clash seen (x ∷ xs) out = elim (lookup (name x) seen) [
    | none ↦ add_unseen clash seen xs (out ++ x ∷ [])
    | some s ↦ elim (clash s x) [ none ↦ add_unseen clash seen xs out | some e ↦ err e ]
  ]

  -- Both loops, over the declared elements and those of the used tasks.
  unfoldable pub merge : (A → A → Option Error) → List A → List A → Result (List A)
  unfolding seen_of add_unseen
  merge clash declared used =
      let (out, seen) = seen_of declared [] [] in add_unseen clash seen used out

-- What ends each of the five: assign the slice, or return the spec as it was with the error.
abbrev pub assign :
    {T : Types} {A : Type 0} → (A → TaskSpec T) → TaskSpec T → Result A → Returned (TaskSpec T)
assign set spec (ok a) = (set a, none)
assign set spec (err e) = (spec, some e)

module _ {T : Types} where
  unfoldable pub param_clash : ParamSpec T → ParamSpec T → Option Error
  param_clash sp p =
      if sp.param_type != p.param_type
      then some (plain ("Duplicate param " <> (p.name <> " with different types")))
      else none

  unfoldable pub merge_params : List (ParamSpec T) → TaskSpecTransformer T
  unfolding merge param_clash
  merge_params used spec =
      assign (λ params. record spec { params = params }) spec
        (merge (λ p. p.name) param_clash spec.params used)

unfoldable pub workspace_clash : WorkspaceDeclaration → WorkspaceDeclaration → Option Error
workspace_clash sw w =
    if sw.mount_path != w.mount_path
    then some (plain ("Duplicate workspace " <> (w.name <> " with different mountPath")))
    else if differ sw.read_only w.read_only
    then some (plain ("Duplicate workspace " <> (w.name <> " with different readOnly option")))
    else if differ sw.optional w.optional
    then some (plain ("Duplicate workspace " <> (w.name <> " with different optional option")))
    else none

unfoldable pub result_clash : TaskResult → TaskResult → Option Error
result_clash _ _ = none

module _ {T : Types} where
  unfoldable pub merge_workspaces : List WorkspaceDeclaration → TaskSpecTransformer T
  unfolding merge workspace_clash
  merge_workspaces used spec =
      assign (λ workspaces. record spec { workspaces = workspaces }) spec
        (merge (λ w. w.name) workspace_clash spec.workspaces used)

  unfoldable pub merge_results : List TaskResult → TaskSpecTransformer T
  unfolding merge result_clash
  merge_results used spec =
      assign (λ results. record spec { results = results }) spec
        (merge (λ r. r.name) result_clash spec.results used)

  unfoldable pub sidecar_clash : Sidecar T → Sidecar T → Option Error
  sidecar_clash _ s = some (plain ("Duplicated sidecars: " <> s.name))

  unfoldable pub merge_sidecars : List (Sidecar T) → TaskSpecTransformer T
  unfolding merge sidecar_clash
  merge_sidecars used spec =
      assign (λ sidecars. record spec { sidecars = sidecars }) spec
        (merge (λ s. s.name) sidecar_clash spec.sidecars used)

  unfoldable pub volume_clash : Volume T → Volume T → Option Error
  volume_clash _ v = some (plain ("Duplicated volumes: " <> v.name))

  unfoldable pub merge_volumes : List (Volume T) → TaskSpecTransformer T
  unfolding merge volume_clash
  merge_volumes used spec =
      assign (λ volumes. record spec { volumes = volumes }) spec
        (merge (λ v. v.name) volume_clash spec.volumes used)
