-- ===== src/Resolve/Task/WorkspaceBindings.antt =====
-- The workspace bindings of a step that uses a task, as for the parameters.
use mathlib.Core.Option
use tekton_task_group.Base.{
  String, ◌==◌, ◌≡◌, refl, ap, ◌∙◌, List, [], ◌∷◌, ◌++◌, not, keep, keep-All, All-of, fun_ext,
}
use tekton_task_group.Base.Named.{or_else, or_else-none, find_last, declares, is_some-find_last}
use tekton_task_group.Base.GoMap.{
  GoMap, lookup, insert, has, lookup-insert, lookup-nil, has-lookup, NodupKeys, insert-NodupKeys,
}
use tekton_task_group.Upstream.{Types, WorkspaceDeclaration, TaskSpec}
use tekton_task_group.Api.{WorkspaceBinding}
use tekton_task_group.Resolve.Replace.{workspace_replacements}
use tekton_task_group.Resolve.Replace.Keys.{Field, workspace_key}
use tekton_task_group.Resolve.Replace.Reference.{reference}
use tekton_task_group.Resolve.Replace.Workspaces.{lookup-workspace_replacements}
use tekton_task_group.Resolve.Task.{bind_workspaces, collect_workspaces}
use tekton_task_group.Resolve.Task.Unbound.{last_binding, map-map, add_unbound_lem, is_some-map}

abbrev pub workspace_binding_name : WorkspaceBinding → String
workspace_binding_name b = b.name

bind_workspaces-NodupKeys :
    (bs : List WorkspaceBinding) (m : GoMap String) → NodupKeys m → NodupKeys (bind_workspaces bs m)
unfolding bind_workspaces
bind_workspaces-NodupKeys [] m h = h
bind_workspaces-NodupKeys (b ∷ bs) m h =
    bind_workspaces-NodupKeys bs (insert b.name b.workspace m)
      (insert-NodupKeys b.name b.workspace m h)

lookup-bind_workspaces :
    (k : String) (bs : List WorkspaceBinding) (m : GoMap String)
    → lookup k (bind_workspaces bs m)
      ≡ or_else (Option.map (λ b. b.workspace) (find_last workspace_binding_name k bs)) (lookup k m)
unfolding bind_workspaces find_last
lookup-bind_workspaces k [] m = refl
lookup-bind_workspaces k (b ∷ bs) m =
    rw (lookup-bind_workspaces k bs (insert b.name b.workspace m), lookup-insert)
      (last_binding (λ b. b.workspace) (find_last workspace_binding_name k bs) (b.name == k) b
        (lookup k m))

-- Of two bindings of one name the later one counts.
lookup-workspace_bindings :
    (k : String) (bs : List WorkspaceBinding)
    → lookup k (bind_workspaces bs [])
      ≡ Option.map (λ b. b.workspace) (find_last workspace_binding_name k bs)
lookup-workspace_bindings k bs = lookup-bind_workspaces k bs [] ∙ rw lookup-nil (or_else-none _)

-- A reference to one of the four variables of a workspace of the used task is replaced by the
-- reference to the same variable of the workspace that the last binding of its name gives, and it
-- is not replaced if no binding names the workspace.
pub replacements-bind_workspaces :
    (f : Field) (k : String) (bs : List WorkspaceBinding)
    → lookup (workspace_key f k) (workspace_replacements (bind_workspaces bs []) [])
      ≡ Option.map
          (λ b. reference (workspace_key f b.workspace))
          (find_last workspace_binding_name k bs)
replacements-bind_workspaces f k bs =
    lookup-workspace_replacements f k (bind_workspaces bs []) (bind_workspaces-NodupKeys bs [] tt)
    ∙ rw (lookup-workspace_bindings k bs) (
        map-map (λ new. reference (workspace_key f new)) (λ b. b.workspace)
          (find_last workspace_binding_name k bs))

has-workspace_bindings :
    (k : String) (bs : List WorkspaceBinding)
    → has k (bind_workspaces bs []) ≡ declares workspace_binding_name bs k
has-workspace_bindings k bs =
    rw (has-lookup, lookup-workspace_bindings k bs, is_some-map)
      (is_some-find_last workspace_binding_name k bs)

-- A step adds to the workspaces those of its task that no binding names, in their order. That the
-- code takes all of them at once where there are no bindings makes no difference.
pub collect_workspaces_lem :
    {T : Types} (bs : List WorkspaceBinding) (used : TaskSpec T) (out : List WorkspaceDeclaration)
    → collect_workspaces bs used out
      ≡ out ++ keep (λ w. not (declares workspace_binding_name bs w.name)) used.workspaces
unfolding collect_workspaces declares
collect_workspaces_lem [] used out =
    rw (keep-All _ used.workspaces (All-of (λ p. refl) used.workspaces))
collect_workspaces_lem (b ∷ bs) used out =
    add_unbound_lem (λ p. p.name) (bind_workspaces (b ∷ bs) []) used.workspaces out
    ∙ rw (fun_ext λ (p : WorkspaceDeclaration). ap not (has-workspace_bindings p.name (b ∷ bs)))
