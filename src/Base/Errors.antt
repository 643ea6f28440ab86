-- ===== src/Base/Errors.antt =====
-- Go's `error` values: what `errors.New` and `fmt.Errorf` make, with `%w` and `errors.Wrapf` as
-- `wrap` where a colon stands between, `prefixed` where none does, and the mark that `controller.NewPermanentError` sets.
use Prim.Native.String.{String, ◌++◌ as ◌<>◌}
use mathlib.Core.Path.{◌≡◌, refl}
use mathlib.Core.Option.{Option, none, some}
use mathlib.Core.Logic.{◌⊎◌, inl, inr}

pub data Error : Type 0 where
  plain : String → Error
  wrap : String → Error → Error
  prefixed : String → Error → Error
  permanent : Error → Error

-- `err.Error()`
unfoldable pub error_text : Error → String
error_text (plain text) = text
error_text (wrap text e) = text <> (": " <> error_text e)
error_text (prefixed text e) = text <> error_text e
error_text (permanent e) = error_text e

-- `(value, nil)` or `(_, err)`, where the value beside an error is not used.
pub data Result {ℓ} (A : Type ℓ) : Type ℓ where
  ok : A → Result A
  err : Error → Result A

infixl 10 ◌>>=◌
abbrev pub ◌>>=◌ {ℓ κ} : {A : Type ℓ} {B : Type κ} → Result A → (A → Result B) → Result B
ok a >>= f = f a
err e >>= f = err e

-- `(value, err)`, where the value counts beside an error too: what was written stays written.
abbrev pub Returned {ℓ} : Type ℓ → Type ℓ
Returned A = A × Option Error

-- Go on from the state, unless there is an error: `if err != nil { return state, err }`.
abbrev pub and_then {ℓ} : {A : Type ℓ} → Returned A → (A → Returned A) → Returned A
and_then (a, none) k = k a
and_then (a, some e) k = (a, some e)

pub Result-cases {ℓ} :
    {A : Type ℓ} (r : Result A) → ((a : A) × (r ≡ ok a)) ⊎ ((e : Error) × (r ≡ err e))
Result-cases (ok a) = inl (a, refl)
Result-cases (err e) = inr (e, refl)

-- A chain that returns `c` had both of its parts return.
pub >>=-eq-ok {ℓ κ} :
    {X : Type ℓ} {Y : Type κ} (first : Result X) (next : X → Result Y) {c : Y}
    → (first >>= next) ≡ ok c
    → (x : X) × (first ≡ ok x) × (next x ≡ ok c)
>>=-eq-ok (ok x) next returns = (x, refl, returns)
>>=-eq-ok (err problem) next returns = cc

-- An error of a chain is that of the first part, or the first part returned.
pub >>=-eq-err {ℓ κ} :
    {A : Type ℓ} {B : Type κ} (m : Result A) (f : A → Result B) {e : Error}
    → (m >>= f) ≡ err e
    → (m ≡ err e) ⊎ ((a : A) × (m ≡ ok a) × (f a ≡ err e))
>>=-eq-err (ok a) f h = inr (a, refl, h)
>>=-eq-err (err e) f h = inl (cc)

pub ok_inj {ℓ} : {A : Type ℓ} {a b : A} → ok a ≡ ok b → a ≡ b
ok_inj h = cc

pub and_then_stop {ℓ} :
    {A : Type ℓ} (r : Returned A) (k : A → Returned A) {e : Error}
    → r.1 ≡ some e
    → (and_then r k).1 ≡ some e
and_then_stop (a, none) k h = cc
and_then_stop (a, some e) k h = h

pub and_then-none {ℓ} :
    {A : Type ℓ} (r : Returned A) (k : A → Returned A)
    → (and_then r k).1 ≡ none
    → (r.1 ≡ none) × ((k r.0).1 ≡ none)
and_then-none (a, none) k h = (refl, h)
and_then-none (a, some e) k h = cc
