-- ===== src/Base/Panics.antt =====
-- Go's panics: a call returns, or it panics with a text.
use Prim.Native.String.{String}
use tekton_task_group.Base.Errors.{error_text, Result, ok, err}

-- A value, or the text of a panic.
pub data Panicking {ℓ} (A : Type ℓ) : Type ℓ where
  done : A → Panicking A
  panics : String → Panicking A

infixl 10 ◌>>=◌
abbrev pub ◌>>=◌ {ℓ κ} : {A : Type ℓ} {B : Type κ} → Panicking A → (A → Panicking B) → Panicking B
done a >>= f = f a
panics text >>= f = panics text

-- `if err != nil { panic(err) }`
unfoldable pub or_die {ℓ} : {A : Type ℓ} → Result A → Panicking A
or_die (ok a) = done a
or_die (err e) = panics (error_text e)
