-- ===== src/Resolve/Replace/Keys.antt =====
-- The keys that `replaceParams` and `replaceWorkspaces` write: a key determines its form and the
-- name in it.
use tekton_task_group.Base.{
  ℕ, String, ◌<>◌, ◌≡◌, ◌≢◌, refl, sym, ◌∙◌, arith, ◌==◌, Bool, true, false, ◌&&◌,
}
use tekton_task_group.Base.Text.{==-ne, ==-frame, append-ne_of_head, append-ne_of_last, last_code}
use Prim.Native.Char.{Char, code}
use Prim.Native.String.{◌∷◌}
use text.Mathlib.TextLemmas.{append_assoc, append_cancel_left, append_cancel_right}

-- `params.x`, `params['x']` and `params["x"]`
pub data Form : Type 0 where
  dotted quoted double_quoted : Form

-- How a form refers to the parameter of a name.
abbrev pub param_key : Form → String → String
param_key dotted name = "params." <> name
param_key quoted name = "params['" <> (name <> "']")
param_key double_quoted name = "params[\"" <> (name <> "\"]")

abbrev pub same_form : Form → Form → Bool
same_form dotted dotted = true
same_form quoted quoted = true
same_form double_quoted double_quoted = true
same_form _ _ = false

framed_inj : (l r s t : String) → l <> (s <> r) ≡ l <> (t <> r) → s ≡ t
framed_inj l r s t e = append_cancel_right s t r (append_cancel_left l (s <> r) (t <> r) e)

param_key_inj : (f : Form) (s t : String) → param_key f s ≡ param_key f t → s ≡ t
param_key_inj dotted s t e = append_cancel_left "params." s t e
param_key_inj quoted s t e = framed_inj "params['" "']" s t e
param_key_inj double_quoted s t e = framed_inj "params[\"" "\"]" s t e

-- Two texts with a common beginning that is followed by different characters.
ne_after :
    (p : String) (c d : Char) (s t x y : String)
    → code c ≢ code d
    → (p <> (c ∷ s)) <> x ≢ (p <> (d ∷ t)) <> y
ne_after p c d s t x y h e = append-ne_of_head c d s t x y h (
    append_cancel_left p ((c ∷ s) <> x) ((d ∷ t) <> y)
      (sym (append_assoc p (c ∷ s) x) ∙ e ∙ append_assoc p (d ∷ t) y))

param_key-ne : (f g : Form) (s t : String) → same_form f g ≡ false → param_key f s ≢ param_key g t
param_key-ne dotted dotted s t h = absurd (cc)
param_key-ne dotted quoted s t h = ne_after "params" "." "[" "" "'" s (t <> "']") (omega arith)
param_key-ne dotted double_quoted s t h =
    ne_after "params" "." "[" "" "\"" s (t <> "\"]") (omega arith)
param_key-ne quoted dotted s t h = ne_after "params" "[" "." "'" "" (s <> "']") t (omega arith)
param_key-ne quoted quoted s t h = absurd (cc)
param_key-ne quoted double_quoted s t h =
    ne_after "params[" "'" "\"" "" "" (s <> "']") (t <> "\"]") (omega arith)
param_key-ne double_quoted dotted s t h =
    ne_after "params" "[" "." "\"" "" (s <> "\"]") t (omega arith)
param_key-ne double_quoted quoted s t h =
    ne_after "params[" "\"" "'" "" "" (s <> "\"]") (t <> "']") (omega arith)
param_key-ne double_quoted double_quoted s t h = absurd (cc)

pub param_key-== :
    (f g : Form) (s t : String) → (param_key f s == param_key g t) ≡ (same_form f g && s == t)
param_key-== dotted dotted s t = ==-frame (param_key dotted) (param_key_inj dotted) s t
param_key-== quoted quoted s t = ==-frame (param_key quoted) (param_key_inj quoted) s t
param_key-== double_quoted double_quoted s t =
    ==-frame (param_key double_quoted) (param_key_inj double_quoted) s t
param_key-== dotted quoted s t = ==-ne _ _ (param_key-ne dotted quoted s t refl)
param_key-== dotted double_quoted s t = ==-ne _ _ (param_key-ne dotted double_quoted s t refl)
param_key-== quoted dotted s t = ==-ne _ _ (param_key-ne quoted dotted s t refl)
param_key-== quoted double_quoted s t = ==-ne _ _ (param_key-ne quoted double_quoted s t refl)
param_key-== double_quoted dotted s t = ==-ne _ _ (param_key-ne double_quoted dotted s t refl)
param_key-== double_quoted quoted s t = ==-ne _ _ (param_key-ne double_quoted quoted s t refl)

-- The four variables of a workspace.
pub data Field : Type 0 where
  path bound claim volume : Field

abbrev pub field_text : Field → String
field_text path = ".path"
field_text bound = ".bound"
field_text claim = ".claim"
field_text volume = ".volume"

abbrev pub same_field : Field → Field → Bool
same_field path path = true
same_field bound bound = true
same_field claim claim = true
same_field volume volume = true
same_field _ _ = false

-- How a variable of a workspace is referred to.
abbrev pub workspace_key : Field → String → String
workspace_key f name = "workspaces." <> (name <> field_text f)

last_code-field :
    (f g : Field) (d e : ℕ)
    → same_field f g ≡ false
    → last_code d (field_text f) ≢ last_code e (field_text g)
unfolding last_code
last_code-field path path d e h = absurd (cc)
last_code-field bound bound d e h = absurd (cc)
last_code-field claim claim d e h = absurd (cc)
last_code-field volume volume d e h = absurd (cc)
last_code-field _ _ d e h = omega arith

workspace_key-ne :
    (f g : Field) (s t : String) → same_field f g ≡ false → workspace_key f s ≢ workspace_key g t
workspace_key-ne f g s t h e =
    append-ne_of_last s t (field_text f) (field_text g) (λ c d. last_code-field f g c d h)
      (append_cancel_left "workspaces." (s <> field_text f) (t <> field_text g) e)

workspace_key-==_self :
    (f : Field) (s t : String) → (workspace_key f s == workspace_key f t) ≡ (s == t)
workspace_key-==_self f =
    ==-frame (workspace_key f) (λ s t. framed_inj "workspaces." (field_text f) s t)

pub workspace_key-== :
    (f g : Field) (s t : String)
    → (workspace_key f s == workspace_key g t) ≡ (same_field f g && s == t)
workspace_key-== path path s t = workspace_key-==_self path s t
workspace_key-== bound bound s t = workspace_key-==_self bound s t
workspace_key-== claim claim s t = workspace_key-==_self claim s t
workspace_key-== volume volume s t = workspace_key-==_self volume s t
workspace_key-== path bound s t = ==-ne _ _ (workspace_key-ne path bound s t refl)
workspace_key-== path claim s t = ==-ne _ _ (workspace_key-ne path claim s t refl)
workspace_key-== path volume s t = ==-ne _ _ (workspace_key-ne path volume s t refl)
workspace_key-== bound path s t = ==-ne _ _ (workspace_key-ne bound path s t refl)
workspace_key-== bound claim s t = ==-ne _ _ (workspace_key-ne bound claim s t refl)
workspace_key-== bound volume s t = ==-ne _ _ (workspace_key-ne bound volume s t refl)
workspace_key-== claim path s t = ==-ne _ _ (workspace_key-ne claim path s t refl)
workspace_key-== claim bound s t = ==-ne _ _ (workspace_key-ne claim bound s t refl)
workspace_key-== claim volume s t = ==-ne _ _ (workspace_key-ne claim volume s t refl)
workspace_key-== volume path s t = ==-ne _ _ (workspace_key-ne volume path s t refl)
workspace_key-== volume bound s t = ==-ne _ _ (workspace_key-ne volume bound s t refl)
workspace_key-== volume claim s t = ==-ne _ _ (workspace_key-ne volume claim s t refl)
