-- ===== src/Resolve/Task/Unbound.antt =====
-- What the bindings of parameters and of workspaces share.
use mathlib.Core.Option
use tekton_task_group.Base.{
  String, ◌≡◌, refl, ◌∙◌, List, [], ◌∷◌, ◌++◌, append-nil, append_assoc, Bool, true, false, not,
  Option, none, some, if◌then◌else◌, keep, Bool-cases, inl, inr,
}
use tekton_task_group.Base.Named.{or_else}
use tekton_task_group.Base.GoMap.{GoMap, has, is_some}
use tekton_task_group.Resolve.Task.{add_unbound}

pub last_binding :
    {A : Type 0} (value : A → String) (o : Option A) (test : Bool) (b : A) (rest : Option String)
    → or_else (Option.map value o) (if test then some (value b) else rest)
      ≡ or_else (Option.map value (or_else o (if test then some b else none))) rest
last_binding value (some a) test b rest = refl
last_binding value none true b rest = refl
last_binding value none false b rest = refl

pub map-map :
    {A : Type 0} (f : String → String) (g : A → String) (o : Option A)
    → Option.map f (Option.map g o) ≡ Option.map (λ a. f (g a)) o
map-map f g none = refl
map-map f g (some a) = refl

pub add_unbound_lem :
    {A : Type 0} (name : A → String) (bindings : GoMap String) (xs out : List A)
    → add_unbound name bindings xs out ≡ out ++ keep (λ x. not (has (name x) bindings)) xs
unfolding add_unbound
add_unbound_lem name bindings [] out = rw append-nil
add_unbound_lem name bindings (x ∷ xs) out = elim (Bool-cases (has (name x) bindings)) [
  | inl h ↦ rw h (add_unbound_lem name bindings xs out)
  | inr h ↦ rw h (add_unbound_lem name bindings xs (out ++ x ∷ []) ∙ append_assoc out (x ∷ []) _)
]

pub is_some-map :
    {A : Type 0} (f : A → String) (o : Option A) → is_some (Option.map f o) ≡ is_some o
is_some-map f none = refl
is_some-map f (some a) = refl
