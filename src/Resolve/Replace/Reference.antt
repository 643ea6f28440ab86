-- ===== src/Resolve/Replace/Reference.antt =====
-- References to variables, and the steps that the two replacement loops share.
use mathlib.Core.Option
use text.Mathlib.TextLemmas.{append_assoc}
use tekton_task_group.Base.{
  String, ◌<>◌, ◌==◌, ◌≡◌, sym, ap, ◌∙◌, Option, none, some, if◌then◌else◌, eq_iff, Bool-cases, inl,
  inr,
}
use tekton_task_group.Base.Named.{or_else}
use tekton_task_group.Base.GoMap.{GoMap, lookup}

-- The text that stands for a variable in a step.
abbrev pub reference : String → String
reference key = "$(" <> (key <> ")")

-- A binding is found before what the map held, and no other binding has its key.
pub choose :
    (value : String → String) (old k new : String) (m : GoMap String) (rest : Option String)
    → lookup old m ≡ none
    → or_else (Option.map value (lookup k m)) (if old == k then some (value new) else rest)
      ≡ or_else (Option.map value (if old == k then some new else lookup k m)) rest
choose value old k new m rest h = elim (Bool-cases (old == k)) [
  | inl e ↦ rw e (rw (ap (λ s. lookup s m) (sym ((eq_iff old k).0 e)) ∙ h))
  | inr e ↦ rw e
]

pub reference-prefix : (p s : String) → ("$(" <> p) <> (s <> ")") ≡ reference (p <> s)
reference-prefix p s =
    append_assoc "$(" p (s <> ")") ∙ ap (λ t. "$(" <> t) (sym (append_assoc p s ")"))

pub reference-framed :
    (p s c : String) → ("$(" <> p) <> (s <> (c <> ")")) ≡ reference (p <> (s <> c))
reference-framed p s c =
    ap (λ t. ("$(" <> p) <> t) (sym (append_assoc s c ")")) ∙ reference-prefix p (s <> c)
