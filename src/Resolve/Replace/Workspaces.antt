-- ===== src/Resolve/Replace/Workspaces.antt =====
-- What `replaceWorkspaces` asks to be replaced.
use mathlib.Core.Option
use tekton_task_group.Base.{String, ◌==◌, ◌≡◌, refl, ◌∙◌, [], ◌∷◌, some, if◌then◌else◌}
use tekton_task_group.Base.GoMap.{GoMap, lookup, insert, lookup-insert, lookup-nil, NodupKeys}
use tekton_task_group.Resolve.Replace.{workspace_replacements}
use tekton_task_group.Resolve.Replace.Keys.{
  Field, path, bound, claim, volume, workspace_key, workspace_key-==,
}
use tekton_task_group.Resolve.Replace.Reference.{reference, reference-framed, choose}
use tekton_task_group.Base.Named.{or_else, or_else-none}

-- One round of the loop.
workspace_round :
    (f : Field) (old new k : String) (r : GoMap String)
    → lookup (workspace_key f k) (
        insert (workspace_key volume old) (reference (workspace_key volume new)) (
          insert (workspace_key claim old) (reference (workspace_key claim new)) (
            insert
              (workspace_key bound old)
              (reference (workspace_key bound new))
              (insert (workspace_key path old) (reference (workspace_key path new)) r))))
      ≡ (if old == k then some (reference (workspace_key f new)) else lookup (workspace_key f k) r)
workspace_round path old new k r = simp (lookup-insert, workspace_key-==)
workspace_round bound old new k r = simp (lookup-insert, workspace_key-==)
workspace_round claim old new k r = simp (lookup-insert, workspace_key-==)
workspace_round volume old new k r = simp (lookup-insert, workspace_key-==)

workspace_replacements-cons :
    (old new : String) (m r : GoMap String)
    → workspace_replacements ((old, new) ∷ m) r
      ≡ workspace_replacements m (
          insert (workspace_key volume old) (reference (workspace_key volume new)) (
            insert (workspace_key claim old) (reference (workspace_key claim new)) (
              insert
                (workspace_key bound old)
                (reference (workspace_key bound new))
                (insert (workspace_key path old) (reference (workspace_key path new)) r))))
unfolding workspace_replacements
workspace_replacements-cons old new m r = rw (
  reference-framed "workspaces." new ".volume",
  reference-framed "workspaces." new ".claim",
  reference-framed "workspaces." new ".bound",
  reference-framed "workspaces." new ".path",
)

lookup-workspace_replacements_from :
    (f : Field) (k : String) (m r : GoMap String)
    → NodupKeys m
    → lookup (workspace_key f k) (workspace_replacements m r)
      ≡ or_else
          (Option.map (λ new. reference (workspace_key f new)) (lookup k m))
          (lookup (workspace_key f k) r)
unfolding workspace_replacements lookup
lookup-workspace_replacements_from f k [] r h = refl
lookup-workspace_replacements_from f k ((old, new) ∷ m) r h =
    rw
      (
        workspace_replacements-cons old new m r,
        lookup-workspace_replacements_from f k m _ h.1,
        workspace_round f old new k r,
      )
      (choose (λ new. reference (workspace_key f new)) old k new m (lookup (workspace_key f k) r)
        h.0)

-- Each of the four variables of a bound workspace is to be replaced by the reference to the same
-- variable of the workspace that it is bound to, and one of a workspace that is not bound is not
-- replaced.
pub lookup-workspace_replacements :
    (f : Field) (k : String) (m : GoMap String)
    → NodupKeys m
    → lookup (workspace_key f k) (workspace_replacements m [])
      ≡ Option.map (λ new. reference (workspace_key f new)) (lookup k m)
lookup-workspace_replacements f k m h =
    lookup-workspace_replacements_from f k m [] h ∙ rw lookup-nil (or_else-none _)
