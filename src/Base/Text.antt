-- ===== src/Base/Text.antt =====
-- Texts that are put together from fixed and variable parts: when two of them differ.
use Prim.Native.Nat.{ℕ}
use Prim.Native.Char.{Char, code}
use Prim.Native.String.{String, ◌++◌}
use mathlib.Core.Path.{◌≡◌, sym, ap, ◌∙◌}
use mathlib.Core.Logic.{◌≢◌}
use mathlib.Core.Bool.{false}
use native.Mathlib.Omega.{arith}
use text.Mathlib.Text.{◌==◌}
use text.Mathlib.TextEquality.{eq_iff}
use text.Mathlib.TextLemmas.{nil-append, cons-append, head-eq_of_cons-eq}

pub ==-ne : (s t : String) → s ≢ t → (s == t) ≡ false
==-ne s t h = ground (arith, eq_iff s t)

-- A test of two texts with an injective frame is the test of what they frame.
pub ==-frame :
    (f : String → String)
    → ((s t : String) → f s ≡ f t → s ≡ t)
    → (s t : String) → (f s == f t) ≡ (s == t)
==-frame f inj s t = ground (arith, eq_iff s t, eq_iff (f s) (f t), inj s t, λ (e : s ≡ t). ap f e)

pub append-ne_of_head :
    (c d : Char) (s t x y : String) → code c ≢ code d → String.◌∷◌ c s ++ x ≢ String.◌∷◌ d t ++ y
append-ne_of_head c d s t x y h e =
    h (ap code (head-eq_of_cons-eq (sym (cons-append c s x) ∙ e ∙ cons-append d t y)))

-- The code of the last character, or `d`.
unfoldable pub last_code : ℕ → String → ℕ
last_code d String.[] = d
last_code d (String.◌∷◌ c s) = last_code (code c) s

last_code-append : (d : ℕ) (s t : String) → last_code d (s ++ t) ≡ last_code (last_code d s) t
unfolding last_code
last_code-append d String.[] t = ap (last_code d) (nil-append t)
last_code-append d (String.◌∷◌ c s) t =
    ap (last_code d) (cons-append c s t) ∙ last_code-append (code c) s t

pub append-ne_of_last :
    (s t x y : String) → ((d e : ℕ) → last_code d x ≢ last_code e y) → s ++ x ≢ t ++ y
append-ne_of_last s t x y h e =
    h (last_code 0 s) (last_code 0 t)
      (sym (last_code-append 0 s x) ∙ ap (last_code 0) e ∙ last_code-append 0 t y)
