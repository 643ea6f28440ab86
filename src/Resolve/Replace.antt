-- ===== src/Resolve/Replace.antt =====
-- pkg/resolve/taskgroup.go, the functions `resolveSteps`, `replaceParams` and `replaceWorkspaces`:
-- the steps of a used task, with the references to its bound parameters and workspaces rewritten.
pub mod Keys
pub mod Reference
pub mod Params
pub mod Workspaces
use tekton_task_group.Base.{String, ◌<>◌, List, [], ◌∷◌, Result, ok, ◌>>=◌}
use tekton_task_group.Base.GoMap.{GoMap, insert}
use tekton_task_group.Upstream.{Types, Step, TaskSpec, StepApi}

-- `stepTransformer`
abbrev pub StepTransformer : Types → Type 0
StepTransformer T = Step T → Result (Step T)

-- The loop of `replaceParams` over the bindings: what is to be replaced, without `$(` and `)`.
unfoldable pub param_replacements : GoMap String → GoMap String → GoMap String
param_replacements [] r = r
param_replacements ((old, new) ∷ bindings) r = param_replacements bindings (
    insert ("params[\"" <> (old <> "\"]")) ("$(params[\"" <> (new <> "\"])")) (
      insert ("params['" <> (old <> "']")) ("$(params['" <> (new <> "'])"))
        (insert ("params." <> old) ("$(params." <> (new <> ")")) r)))

-- The loop of `replaceWorkspaces`.
unfoldable pub workspace_replacements : GoMap String → GoMap String → GoMap String
workspace_replacements [] r = r
workspace_replacements ((old, new) ∷ bindings) r = workspace_replacements bindings (
    insert ("workspaces." <> (old <> ".volume")) ("$(workspaces." <> (new <> ".volume)")) (
      insert ("workspaces." <> (old <> ".claim")) ("$(workspaces." <> (new <> ".claim)")) (
        insert ("workspaces." <> (old <> ".bound")) ("$(workspaces." <> (new <> ".bound)"))
          (insert ("workspaces." <> (old <> ".path")) ("$(workspaces." <> (new <> ".path)")) r))))

module _ {T : Types} (P : StepApi T) where
  unfoldable pub replace_params : GoMap String → StepTransformer T
  unfolding param_replacements
  replace_params bindings s = ok (P.apply_step_replacements s (param_replacements bindings []) [])

  unfoldable pub replace_workspaces : GoMap String → StepTransformer T
  unfolding workspace_replacements
  replace_workspaces bindings s =
      ok (P.apply_step_replacements s (workspace_replacements bindings []) [])

module _ {T : Types} where
  -- The inner loop of `resolveSteps`.
  unfoldable pub transform : List (StepTransformer T) → Step T → Result (Step T)
  transform [] s = ok s
  transform (t ∷ ts) s = t s >>= transform ts

  -- The transformers change the loop's copy of the step in place, its name too, so the new name is
  -- built from the name that they leave. The slice beside an error is not used by the caller.
  unfoldable pub resolve_each :
      String → List (StepTransformer T) → List (Step T) → Result (List (Step T))
  unfolding transform
  resolve_each name ts [] = ok []
  resolve_each name ts (s ∷ steps) = transform ts s >>= λ s'. resolve_each name ts steps >>= λ rest.
      ok (record s' { name = name <> ("-" <> s'.name) } ∷ rest)

  unfoldable pub resolve_steps :
      String → TaskSpec T → List (StepTransformer T) → Result (List (Step T))
  unfolding resolve_each
  resolve_steps name task_spec ts = resolve_each name ts task_spec.steps
