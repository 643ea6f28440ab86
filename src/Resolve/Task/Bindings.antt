-- ===== src/Resolve/Task/Bindings.antt =====
-- The parameter bindings of a step that uses a task: which references they rewrite, and which
-- parameters of the task they leave to the task group.
use mathlib.Core.Option
use tekton_task_group.Base.{
  String, ◌==◌, ◌≡◌, refl, ap, ◌∙◌, List, [], ◌∷◌, ◌++◌, not, keep, keep-All, All-of, fun_ext,
}
use tekton_task_group.Base.Named.{or_else, or_else-none, find_last, declares, is_some-find_last}
use tekton_task_group.Base.GoMap.{
  GoMap, lookup, insert, has, lookup-insert, lookup-nil, has-lookup, NodupKeys, insert-NodupKeys,
}
use tekton_task_group.Upstream.{Types, ParamSpec, TaskSpec}
use tekton_task_group.Api.{ParamBinding}
use tekton_task_group.Resolve.Replace.{param_replacements}
use tekton_task_group.Resolve.Replace.Keys.{Form, param_key}
use tekton_task_group.Resolve.Replace.Reference.{reference}
use tekton_task_group.Resolve.Replace.Params.{lookup-param_replacements}
use tekton_task_group.Resolve.Task.{bind_params, collect_params}
use tekton_task_group.Resolve.Task.Unbound.{last_binding, map-map, add_unbound_lem, is_some-map}

abbrev pub binding_name : ParamBinding → String
binding_name b = b.name

bind_params-NodupKeys :
    (bs : List ParamBinding) (m : GoMap String) → NodupKeys m → NodupKeys (bind_params bs m)
unfolding bind_params
bind_params-NodupKeys [] m h = h
bind_params-NodupKeys (b ∷ bs) m h =
    bind_params-NodupKeys bs (insert b.name b.param m) (insert-NodupKeys b.name b.param m h)

lookup-bind_params :
    (k : String) (bs : List ParamBinding) (m : GoMap String)
    → lookup k (bind_params bs m)
      ≡ or_else (Option.map (λ b. b.param) (find_last binding_name k bs)) (lookup k m)
unfolding bind_params find_last
lookup-bind_params k [] m = refl
lookup-bind_params k (b ∷ bs) m =
    rw (lookup-bind_params k bs (insert b.name b.param m), lookup-insert)
      (last_binding (λ b. b.param) (find_last binding_name k bs) (b.name == k) b (lookup k m))

-- Of two bindings of one name the later one counts.
lookup-bindings :
    (k : String) (bs : List ParamBinding)
    → lookup k (bind_params bs []) ≡ Option.map (λ b. b.param) (find_last binding_name k bs)
lookup-bindings k bs = lookup-bind_params k bs [] ∙ rw lookup-nil (or_else-none _)

-- In each of its three forms a reference to a parameter of the used task is replaced by the
-- reference, in the same form, to the parameter that the last binding of its name gives, and it is
-- not replaced if no binding names it.
pub replacements-bind_params :
    (f : Form) (k : String) (bs : List ParamBinding)
    → lookup (param_key f k) (param_replacements (bind_params bs []) [])
      ≡ Option.map (λ b. reference (param_key f b.param)) (find_last binding_name k bs)
replacements-bind_params f k bs =
    lookup-param_replacements f k (bind_params bs []) (bind_params-NodupKeys bs [] tt)
    ∙ rw (lookup-bindings k bs)
        (map-map (λ new. reference (param_key f new)) (λ b. b.param) (find_last binding_name k bs))

has-bindings :
    (k : String) (bs : List ParamBinding) → has k (bind_params bs []) ≡ declares binding_name bs k
has-bindings k bs =
    rw (has-lookup, lookup-bindings k bs, is_some-map) (is_some-find_last binding_name k bs)

-- A step adds to the parameters those of its task that no binding names, in their order. That the
-- code takes all of them at once where there are no bindings makes no difference.
pub collect_params_lem :
    {T : Types} (bs : List ParamBinding) (used : TaskSpec T) (out : List (ParamSpec T))
    → collect_params bs used out
      ≡ out ++ keep (λ p. not (declares binding_name bs p.name)) used.params
unfolding collect_params declares
collect_params_lem {T} [] used out = rw (keep-All _ used.params (All-of (λ p. refl) used.params))
collect_params_lem {T} (b ∷ bs) used out =
    add_unbound_lem (λ p. p.name) (bind_params (b ∷ bs) []) used.params out
    ∙ rw (fun_ext λ (p : ParamSpec T). ap not (has-bindings p.name (b ∷ bs)))
