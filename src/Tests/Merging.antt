-- ===== src/Tests/Merging.antt =====
-- What the merging functions return, at concrete declarations.
use tekton_task_group.Base.{
  ◌<>◌, ◌≡◌, ◌≢◌, refl, sym, ap, true, false≢true, [], ◌∷◌, ◌++◌, none, some, plain, keep, some_inj,
  eq_iff,
}
use tekton_task_group.Base.GoMap.{lookup, insert}
use tekton_task_group.Base.Named.{find_last, undeclared}
use tekton_task_group.Upstream.{TaskSpec, WorkspaceDeclaration}
use tekton_task_group.Resolve.Merge.{merge_params}
use tekton_task_group.Resolve.Merge.Laws.{
  param_name, SameType, merge_params_agree, merge_params_mismatch,
}
use tekton_task_group.Tests.Sample.{sample}
use tekton_task_group.Tests.Resolve.{param, workspace, task, foo}

-- A task with one declaration of each kind.
abbrev declared : TaskSpec sample
declared = record (task (param "a" "string" ∷ []) (workspace "w" ∷ []) (foo ∷ [])) {
  results = record { name = "r"; description = "" } ∷ [];
  sidecars = record { name = "s"; body = "redis" } ∷ [];
  volumes = record { name = "v"; source = "tmp" } ∷ [];
}

abbrev read_only_workspace : WorkspaceDeclaration
read_only_workspace = record (workspace "w") { read_only = true }

same_type : SameType declared.params (param "a" "string")
unfolding find_last
same_type s h = ap (λ p. p.param_type) (sym (some_inj h))

new_type : SameType declared.params (param "b" "array")
unfolding find_last
new_type s h = cc

merge_params_agree_example : merge_params (param "a" "string" ∷ param "b" "array" ∷ []) declared ≡ (
  record declared {
    params =
        declared.params
        ++ keep
            (undeclared param_name declared.params)
            (param "a" "string" ∷ param "b" "array" ∷ []);
  },
  none,
)
merge_params_agree_example =
    merge_params_agree (param "a" "string" ∷ param "b" "array" ∷ []) declared
      (same_type, (new_type, tt))

-- The filter of the statement keeps the new one.
merge_params_case :
    merge_params (param "a" "string" ∷ param "b" "array" ∷ []) declared
    ≡ (record declared { params = param "a" "string" ∷ param "b" "array" ∷ [] }, none)
unfolding merge_params lookup insert
merge_params_case = refl

string≢array : (param "a" "string").param_type ≢ (param "a" "array").param_type
string≢array h = absurd (false≢true ((eq_iff "string" "array").1 h))

merge_params_mismatch_example :
    merge_params (param "b" "array" ∷ param "a" "array" ∷ []) declared
    ≡ (declared, some (plain ("Duplicate param " <> ("a" <> " with different types"))))
unfolding find_last
merge_params_mismatch_example =
    merge_params_mismatch (param "b" "array" ∷ []) (param "a" "array") [] declared
      (param "a" "string") (new_type, tt) refl string≢array
