-- ===== src/Base/Named.antt =====
-- Elements with a name: the last one of a name, and whether there is one.
use Prim.Native.String.{String}
use mathlib.Core.Path.{◌≡◌, refl, sym, ◌∙◌}
use mathlib.Core.Logic.{inl, inr}
use mathlib.Core.Bool.{Bool, true, false, not, ◌||◌, false≢true}
use mathlib.Core.Option.{Option, none, some}
use mathlib.Core.List.{List, [], ◌∷◌}
use native.Mathlib.Omega.{arith}
use text.Mathlib.Text.{◌==◌}
use tekton_task_group.Base.GoMap.{is_some}
use tekton_task_group.Base.Tests.{if◌then◌else◌, Option-cases}

abbrev pub or_else : {A : Type 0} → Option A → Option A → Option A
or_else (some a) o = some a
or_else none o = o

pub or_else-none : {A : Type 0} (o : Option A) → or_else o none ≡ o
or_else-none none = refl
or_else-none (some a) = refl

module _ {A : Type 0} (name : A → String) where
  -- The last element of that name.
  unfoldable pub find_last : String → List A → Option A
  find_last k [] = none
  find_last k (x ∷ xs) = or_else (find_last k xs) (if name x == k then some x else none)

  -- Whether an element has that name.
  unfoldable pub declares : List A → String → Bool
  declares [] k = false
  declares (x ∷ xs) k = name x == k || declares xs k

  abbrev pub undeclared : List A → A → Bool
  undeclared xs x = not (declares xs (name x))

  pub find_last-declares-none :
      (k : String) (xs : List A) → find_last k xs ≡ none → declares xs k ≡ false
  unfolding find_last declares
  find_last-declares-none k [] h = refl
  find_last-declares-none k (x ∷ xs) h = ground (arith, find_last-declares-none k xs)

  pub find_last-declares-some :
      (k : String) (xs : List A) (s : A) → find_last k xs ≡ some s → declares xs k ≡ true
  unfolding find_last declares
  find_last-declares-some k [] s h = ground arith
  find_last-declares-some k (x ∷ xs) s h = ground (arith, find_last-declares-some k xs s)

  pub declares-find_last :
      (k : String) (xs : List A) → declares xs k ≡ true → (s : A) × (find_last k xs ≡ some s)
  declares-find_last k xs h = elim (Option-cases (find_last k xs)) [
    | inl e ↦ absurd (false≢true (sym (find_last-declares-none k xs e) ∙ h))
    | inr (s, e) ↦ (s, e)
  ]

  pub is_some-find_last : (k : String) (xs : List A) → is_some (find_last k xs) ≡ declares xs k
  is_some-find_last k xs = elim (Option-cases (find_last k xs)) [
    | inl e ↦ rw e (sym (find_last-declares-none k xs e))
    | inr (s, e) ↦ rw e (sym (find_last-declares-some k xs s e))
  ]
