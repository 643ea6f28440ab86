-- ===== src/Resolve/Merge/Others.antt =====
-- What the functions that merge results, sidecars and volumes return.
use tekton_task_group.Base.{
  String, ◌<>◌, ◌≡◌, refl, List, ◌∷◌, ◌++◌, none, some, keep, All, All-of, plain, false, true,
}
use tekton_task_group.Upstream.{Types, TaskResult, Sidecar, Volume, TaskSpec}
use tekton_task_group.Resolve.Merge.{
  result_clash, merge_results, sidecar_clash, merge_sidecars, volume_clash, merge_volumes,
}
use tekton_task_group.Base.Named.{declares, undeclared}
use tekton_task_group.Resolve.Merge.Loops.{merge-Fits, merge_disjoint, merge_shared}

abbrev pub result_name : TaskResult → String
result_name r = r.name

result_clash-none : (s r : TaskResult) → result_clash s r ≡ none
unfolding result_clash
result_clash-none s r = refl

sidecar_clash-some :
    {T : Types} (s x : Sidecar T)
    → sidecar_clash s x ≡ some (plain ("Duplicated sidecars: " <> x.name))
unfolding sidecar_clash
sidecar_clash-some s x = refl

volume_clash-some :
    {T : Types} (s x : Volume T)
    → volume_clash s x ≡ some (plain ("Duplicated volumes: " <> x.name))
unfolding volume_clash
volume_clash-some s x = refl

module _ {T : Types} where
  -- A used result is added unless the task group declares one of its name. There is no error.
  pub merge_results_lem :
      (used : List TaskResult) (spec : TaskSpec T)
      → merge_results used spec ≡ (
        record spec { results = spec.results ++ keep (undeclared result_name spec.results) used },
        none,
      )
  unfolding merge_results
  merge_results_lem used spec = rw (
      merge-Fits result_name result_clash spec.results used
        (All-of (λ r s _. result_clash-none s r) used))

  abbrev pub sidecar_name : Sidecar T → String
  sidecar_name s = s.name

  -- Where no used sidecar has the name of a declared one, all are added behind the declared ones.
  pub merge_sidecars_disjoint :
      (used : List (Sidecar T)) (spec : TaskSpec T)
      → All (λ s. declares sidecar_name spec.sidecars s.name ≡ false) used
      → merge_sidecars used spec ≡ (record spec { sidecars = spec.sidecars ++ used }, none)
  unfolding merge_sidecars
  merge_sidecars_disjoint used spec h =
      rw (merge_disjoint sidecar_name sidecar_clash spec.sidecars used h)

  -- The first used sidecar that has the name of a declared one ends the merge with an error that
  -- names it, and the task is left as it was.
  pub merge_sidecars_shared :
      (before : List (Sidecar T)) (s : Sidecar T) (after : List (Sidecar T)) (spec : TaskSpec T)
      → All (λ s. declares sidecar_name spec.sidecars s.name ≡ false) before
      → declares sidecar_name spec.sidecars s.name ≡ true
      → merge_sidecars (before ++ s ∷ after) spec
        ≡ (spec, some (plain ("Duplicated sidecars: " <> s.name)))
  unfolding merge_sidecars
  merge_sidecars_shared before s after spec h shared = rw (
      merge_shared sidecar_name sidecar_clash spec.sidecars _ sidecar_clash-some before s after h
        shared)

  abbrev pub volume_name : Volume T → String
  volume_name v = v.name

  -- Where no used volume has the name of a declared one, all are added behind the declared ones.
  pub merge_volumes_disjoint :
      (used : List (Volume T)) (spec : TaskSpec T)
      → All (λ v. declares volume_name spec.volumes v.name ≡ false) used
      → merge_volumes used spec ≡ (record spec { volumes = spec.volumes ++ used }, none)
  unfolding merge_volumes
  merge_volumes_disjoint used spec h =
      rw (merge_disjoint volume_name volume_clash spec.volumes used h)

  -- The first used volume that has the name of a declared one ends the merge with an error that
  -- names it, and the task is left as it was.
  pub merge_volumes_shared :
      (before : List (Volume T)) (v : Volume T) (after : List (Volume T)) (spec : TaskSpec T)
      → All (λ v. declares volume_name spec.volumes v.name ≡ false) before
      → declares volume_name spec.volumes v.name ≡ true
      → merge_volumes (before ++ v ∷ after) spec
        ≡ (spec, some (plain ("Duplicated volumes: " <> v.name)))
  unfolding merge_volumes
  merge_volumes_shared before v after spec h shared = rw (
      merge_shared volume_name volume_clash spec.volumes _ volume_clash-some before v after h
        shared)
