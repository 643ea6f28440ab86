-- ===== src/Resolve/Merge/Laws.antt =====
-- What each of the five merging functions returns.
use tekton_task_group.Base.{
  String, ◌<>◌, ◌≡◌, ◌≢◌, List, ◌∷◌, ◌++◌, none, some, keep, All, All-map, plain, arith, eq_iff,
}
use tekton_task_group.Upstream.{Types, ParamSpec, WorkspaceDeclaration, TaskSpec}
use tekton_task_group.Resolve.Merge.{param_clash, merge_params, workspace_clash, merge_workspaces}
use tekton_task_group.Base.Named.{find_last, undeclared}
use tekton_task_group.Resolve.Merge.Loops.{Fits, merge-Fits, merge-clash}

module _ {T : Types} where
  abbrev pub param_name : ParamSpec T → String
  param_name p = p.name

  -- `p` has the type of the task group's parameter of its name, if there is one.
  abbrev pub SameType : List (ParamSpec T) → ParamSpec T → Type 0
  SameType declared p =
      (s : ParamSpec T)
      → find_last param_name p.name declared ≡ some s
      → s.param_type ≡ p.param_type

  Fits-param :
      (declared : List (ParamSpec T)) (p : ParamSpec T)
      → SameType declared p
      → Fits param_name param_clash declared p
  unfolding param_clash
  Fits-param declared p h s e = ground (arith, h s e, eq_iff s.param_type p.param_type)

  clash-types :
      (s p : ParamSpec T)
      → s.param_type ≢ p.param_type
      → param_clash s p ≡ some (plain ("Duplicate param " <> (p.name <> " with different types")))
  unfolding param_clash
  clash-types s p differ = ground (arith, eq_iff s.param_type p.param_type)

  -- Where every used parameter has the type of its namesake in the task group, if it has one, the
  -- parameters without a namesake are added behind the declared ones in their order, and no error
  -- is returned.
  pub merge_params_agree :
      (used : List (ParamSpec T)) (spec : TaskSpec T)
      → All (SameType spec.params) used
      → merge_params used spec ≡ (
        record spec { params = spec.params ++ keep (undeclared param_name spec.params) used },
        none,
      )
  unfolding merge_params
  merge_params_agree used spec h =
      rw (
        merge-Fits param_name param_clash spec.params used
          (All-map (Fits-param spec.params) used h))

  -- The first used parameter whose type differs from its namesake's in the task group ends the
  -- merge with an error that names it, and the task is left as it was.
  pub merge_params_mismatch :
      (before : List (ParamSpec T)) (p : ParamSpec T) (after : List (ParamSpec T))
      (spec : TaskSpec T) (s : ParamSpec T)
      → All (SameType spec.params) before
      → find_last param_name p.name spec.params ≡ some s
      → s.param_type ≢ p.param_type
      → merge_params (before ++ p ∷ after) spec
        ≡ (spec, some (plain ("Duplicate param " <> (p.name <> " with different types"))))
  unfolding merge_params
  merge_params_mismatch before p after spec s h last differ = rw (
      merge-clash param_name param_clash spec.params before s p _ after
        (All-map (Fits-param spec.params) before h) last (clash-types s p differ))

abbrev pub workspace_name : WorkspaceDeclaration → String
workspace_name w = w.name

-- `w` is mounted as the task group's workspace of its name, if there is one.
abbrev pub SameMount : List WorkspaceDeclaration → WorkspaceDeclaration → Type 0
SameMount declared w =
    (s : WorkspaceDeclaration)
    → find_last workspace_name w.name declared ≡ some s
    → (s.mount_path ≡ w.mount_path) × (s.read_only ≡ w.read_only) × (s.optional ≡ w.optional)

Fits-workspace :
    (declared : List WorkspaceDeclaration) (w : WorkspaceDeclaration)
    → SameMount declared w
    → Fits workspace_name workspace_clash declared w
unfolding workspace_clash
Fits-workspace declared w h s e = ground (arith, h s e, eq_iff s.mount_path w.mount_path)

-- The first difference between two declarations of a workspace, and the words for it.
pub data MountDifference (s w : WorkspaceDeclaration) (what : String) : Type 0 where
  mount_path :
      what ≡ " with different mountPath" → s.mount_path ≢ w.mount_path → MountDifference s w what
  read_only :
      what ≡ " with different readOnly option"
      → s.mount_path ≡ w.mount_path
      → s.read_only ≢ w.read_only
      → MountDifference s w what
  optional :
      what ≡ " with different optional option"
      → s.mount_path ≡ w.mount_path
      → s.read_only ≡ w.read_only
      → s.optional ≢ w.optional
      → MountDifference s w what

clash-MountDifference :
    (s w : WorkspaceDeclaration) (what : String)
    → MountDifference s w what
    → workspace_clash s w ≡ some (plain ("Duplicate workspace " <> (w.name <> what)))
unfolding workspace_clash
clash-MountDifference s w what (mount_path e h) =
    rw e (ground (arith, eq_iff s.mount_path w.mount_path))
clash-MountDifference s w what (read_only e h k) =
    rw e (ground (arith, eq_iff s.mount_path w.mount_path))
clash-MountDifference s w what (optional e h k l) =
    rw e (ground (arith, eq_iff s.mount_path w.mount_path))

module _ {T : Types} where
  -- Where every used workspace is mounted as its namesake in the task group, if it has one, the
  -- workspaces without a namesake are added behind the declared ones in their order.
  pub merge_workspaces_agree :
      (used : List WorkspaceDeclaration) (spec : TaskSpec T)
      → All (SameMount spec.workspaces) used
      → merge_workspaces used spec ≡ (
        record spec {
          workspaces = spec.workspaces ++ keep (undeclared workspace_name spec.workspaces) used;
        },
        none,
      )
  unfolding merge_workspaces
  merge_workspaces_agree used spec h = rw (
      merge-Fits workspace_name workspace_clash spec.workspaces used
        (All-map (Fits-workspace spec.workspaces) used h))

  -- The first used workspace that is not mounted as its namesake ends the merge with an error for
  -- the first difference among mount path, read-only and optional, and the task is left as it was.
  pub merge_workspaces_mismatch :
      (before : List WorkspaceDeclaration) (w : WorkspaceDeclaration)
      (after : List WorkspaceDeclaration) (spec : TaskSpec T) (s : WorkspaceDeclaration)
      (what : String)
      → All (SameMount spec.workspaces) before
      → find_last workspace_name w.name spec.workspaces ≡ some s
      → MountDifference s w what
      → merge_workspaces (before ++ w ∷ after) spec
        ≡ (spec, some (plain ("Duplicate workspace " <> (w.name <> what))))
  unfolding merge_workspaces
  merge_workspaces_mismatch before w after spec s what h last d = rw (
      merge-clash workspace_name workspace_clash spec.workspaces before s w _ after
        (All-map (Fits-workspace spec.workspaces) before h) last (clash-MountDifference s w what d))
