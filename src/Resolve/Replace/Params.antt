-- ===== src/Resolve/Replace/Params.antt =====
-- What `replaceParams` asks to be replaced.
use mathlib.Core.Option
use tekton_task_group.Base.{String, ◌==◌, ◌≡◌, refl, ◌∙◌, [], ◌∷◌, some, if◌then◌else◌}
use tekton_task_group.Base.GoMap.{GoMap, lookup, insert, lookup-insert, lookup-nil, NodupKeys}
use tekton_task_group.Resolve.Replace.{param_replacements}
use tekton_task_group.Resolve.Replace.Keys.{
  Form, dotted, quoted, double_quoted, param_key, param_key-==,
}
use tekton_task_group.Resolve.Replace.Reference.{
  reference, reference-prefix, reference-framed, choose,
}
use tekton_task_group.Base.Named.{or_else, or_else-none}

-- One round of the loop.
param_round :
    (f : Form) (old new k : String) (r : GoMap String)
    → lookup (param_key f k) (
        insert (param_key double_quoted old) (reference (param_key double_quoted new)) (
          insert
            (param_key quoted old)
            (reference (param_key quoted new))
            (insert (param_key dotted old) (reference (param_key dotted new)) r)))
      ≡ (if old == k then some (reference (param_key f new)) else lookup (param_key f k) r)
param_round dotted old new k r = simp (lookup-insert, param_key-==)
param_round quoted old new k r = simp (lookup-insert, param_key-==)
param_round double_quoted old new k r = simp (lookup-insert, param_key-==)

param_replacements-cons :
    (old new : String) (m r : GoMap String)
    → param_replacements ((old, new) ∷ m) r
      ≡ param_replacements m (
          insert (param_key double_quoted old) (reference (param_key double_quoted new)) (
            insert
              (param_key quoted old)
              (reference (param_key quoted new))
              (insert (param_key dotted old) (reference (param_key dotted new)) r)))
unfolding param_replacements
param_replacements-cons old new m r = rw (
  reference-framed "params[\"" new "\"]",
  reference-framed "params['" new "']",
  reference-prefix "params." new,
)

lookup-param_replacements_from :
    (f : Form) (k : String) (m r : GoMap String)
    → NodupKeys m
    → lookup (param_key f k) (param_replacements m r)
      ≡ or_else
          (Option.map (λ new. reference (param_key f new)) (lookup k m))
          (lookup (param_key f k) r)
unfolding param_replacements lookup
lookup-param_replacements_from f k [] r h = refl
lookup-param_replacements_from f k ((old, new) ∷ m) r h =
    rw
      (
        param_replacements-cons old new m r,
        lookup-param_replacements_from f k m _ h.1,
        param_round f old new k r,
      )
      (choose (λ new. reference (param_key f new)) old k new m (lookup (param_key f k) r) h.0)

-- In each of its three forms a reference to a bound parameter is to be replaced by the reference
-- of the same form to the parameter that it is bound to, and a reference to a parameter that is
-- not bound is not replaced.
pub lookup-param_replacements :
    (f : Form) (k : String) (m : GoMap String)
    → NodupKeys m
    → lookup (param_key f k) (param_replacements m [])
      ≡ Option.map (λ new. reference (param_key f new)) (lookup k m)
lookup-param_replacements f k m h =
    lookup-param_replacements_from f k m [] h ∙ rw lookup-nil (or_else-none _)
