-- ===== src/Base/Decimal/Digits.antt =====
-- A written number reads as what it was, so that different numbers are written differently.
use Prim.Native.Nat.{ℕ, zero, suc, ◌+◌, ◌*◌, ◌-◌, ◌/◌, ◌%◌, ◌<◌, ◌≤◌}
use Prim.Native.Char.{code}
use Prim.Native.String.{String, ◌++◌ as ◌<>◌}
use mathlib.Core.Path.{◌≡◌, refl, sym, ap, ◌∙◌}
use mathlib.Core.Logic.{inl, inr}
use native.Mathlib.Omega.{arith}
use text.Mathlib.TextLemmas.{nil-append, cons-append}
use tekton_task_group.Base.Tests.{ltb, Bool-cases}
use tekton_task_group.Base.Decimal.{digit, decimal_on, decimal}

-- The number that digits stand for, behind those that were read.
reading : ℕ → String → ℕ
reading n String.[] = n
reading n (String.◌∷◌ c s) = reading (n * 10 + (code c - 48)) s

reading-append : (n : ℕ) (s t : String) → reading n (s <> t) ≡ reading (reading n s) t
unfolding reading
reading-append n String.[] t = ap (reading n) (nil-append t)
reading-append n (String.◌∷◌ c s) t =
    ap (reading n) (cons-append c s t) ∙ reading-append (n * 10 + (code c - 48)) s t

reading-digit : (n d : ℕ) → d < 10 → reading n (digit d) ≡ n * 10 + d
unfolding reading digit
reading-digit n zero h = refl
reading-digit n (suc zero) h = refl
reading-digit n (suc (suc zero)) h = refl
reading-digit n (suc (suc (suc zero))) h = refl
reading-digit n (suc (suc (suc (suc zero)))) h = refl
reading-digit n (suc (suc (suc (suc (suc zero))))) h = refl
reading-digit n (suc (suc (suc (suc (suc (suc zero)))))) h = refl
reading-digit n (suc (suc (suc (suc (suc (suc (suc zero))))))) h = refl
reading-digit n (suc (suc (suc (suc (suc (suc (suc (suc zero)))))))) h = refl
reading-digit n (suc (suc (suc (suc (suc (suc (suc (suc (suc zero))))))))) h = refl
reading-digit n (suc (suc (suc (suc (suc (suc (suc (suc (suc (suc d)))))))))) h =
    absurd (omega arith)

decimal_on_small : (fuel n : ℕ) → n < 10 → decimal_on (suc fuel) n ≡ digit n
unfolding decimal_on
decimal_on_small fuel n h = ground (arith, h)

decimal_on_large :
    (fuel n : ℕ) → 10 ≤ n → decimal_on (suc fuel) n ≡ decimal_on fuel (n / 10) <> digit (n % 10)
unfolding decimal_on
decimal_on_large fuel n h = ground (arith, h)

tenth : {fuel : ℕ} (n : ℕ) → 10 ≤ n → n < suc fuel → n / 10 < fuel
tenth n h k = omega arith

reading-decimal_on : (fuel n : ℕ) → n < fuel → reading 0 (decimal_on fuel n) ≡ n
reading-decimal_on zero n h = absurd (omega arith)
reading-decimal_on (suc fuel) n h = elim (Bool-cases (ltb n 10)) [
  | inl small ↦ omega (
    arith,
    ap (reading 0) (decimal_on_small fuel n (ground arith)),
    reading-digit 0 n (ground arith),
  )
  | inr large ↦ omega (
    arith,
    ap (reading 0) (decimal_on_large fuel n (ground arith)),
    reading-append 0 (decimal_on fuel (n / 10)) (digit (n % 10)),
    reading-digit (reading 0 (decimal_on fuel (n / 10))) (n % 10) (omega arith),
    reading-decimal_on fuel (n / 10) (tenth n (ground arith) h),
  )
]

same_digits : (fuel gas n : ℕ) → n < fuel → n < gas → decimal_on fuel n ≡ decimal_on gas n
same_digits zero gas n h k = absurd (omega arith)
same_digits (suc fuel) zero n h k = absurd (omega arith)
same_digits (suc fuel) (suc gas) n h k = elim (Bool-cases (ltb n 10)) [
  | inl small ↦ decimal_on_small fuel n (ground arith) ∙ sym (decimal_on_small gas n (ground arith))
  | inr large ↦
      decimal_on_large fuel n (ground arith)
      ∙ ap (λ s. s <> digit (n % 10))
          (same_digits fuel gas (n / 10) (tenth n (ground arith) h) (tenth n (ground arith) k))
      ∙ sym (decimal_on_large gas n (ground arith))
]

-- Any fuel above the number writes the same digits.
decimal_on-decimal : (fuel n : ℕ) → n < fuel → decimal_on fuel n ≡ decimal n
unfolding decimal
decimal_on-decimal fuel n h = same_digits fuel (suc n) n h (omega arith)

-- The digits of a number read as the number.
reading-decimal : (n : ℕ) → reading 0 (decimal n) ≡ n
unfolding decimal
reading-decimal n = reading-decimal_on (suc n) n (omega arith)

-- Two numbers are written in the same way only if they are the same.
pub decimal_inj : (n m : ℕ) → decimal n ≡ decimal m → n ≡ m
decimal_inj n m e = sym (reading-decimal n) ∙ ap (reading 0) e ∙ reading-decimal m
