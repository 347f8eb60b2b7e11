-- ===== src/Prelude/Bits/Step.antt =====
-- The native `|` and `&` one binary digit at a time.
use Prim.Native.Nat.{
  ℕ, zero, suc, ◌+◌, ◌*◌, ◌/◌, ◌%◌, ◌≤◌, min, max, bit_and, bit_or, digits, bitwise,
  bit_and-bitwise, bit_or-bitwise,
}
use mathlib.Core.Path.{◌≡◌, refl, ap, ◌∙◌, sym}
use native.Mathlib.Omega.{arith}

-- The operation `op` on the digits of two numbers, with `top` for what is left of the second one
-- when the first has no more digits.
module _ (top : ℕ → ℕ) (op : ℕ → ℕ → ℕ) where
  -- Any bound of the first number is fuel enough.
  digits-bitwise :
      (bound fuel x y : ℕ) → fuel ≤ bound → x ≤ fuel → digits top op fuel x y ≡ bitwise top op x y
  digits-bitwise bound zero zero y p q = refl
  digits-bitwise bound (suc fuel) zero y p q = refl
  digits-bitwise bound zero (suc x) y p q = absurd (omega arith)
  digits-bitwise zero (suc fuel) (suc x) y p q = absurd (omega arith)
  digits-bitwise (suc bound) (suc fuel) (suc x) y p q =
      let half = suc x / 2 in
      let rest = y / 2 in
      let ample = digits-bitwise bound fuel half rest (omega arith) (omega arith) in
      let tight = digits-bitwise bound x half rest (omega arith) (omega arith) in
      ap (λ (t : ℕ). t * 2 + op (suc x % 2) (y % 2)) (ample ∙ sym tight)

  lowest_digit :
      (x y : ℕ)
      → bitwise top op (suc x) y ≡ bitwise top op (suc x / 2) (y / 2) * 2 + op (suc x % 2) (y % 2)
  lowest_digit x y =
      ap (λ (t : ℕ). t * 2 + op (suc x % 2) (y % 2))
        (digits-bitwise x x (suc x / 2) (y / 2) (omega arith) (omega arith))

pub bit_or_step : (x y : ℕ) → bit_or x y ≡ bit_or (x / 2) (y / 2) * 2 + max (x % 2) (y % 2)
bit_or_step zero y = omega (arith, bit_or-bitwise 0 y, bit_or-bitwise 0 (y / 2))
bit_or_step (suc x) y = omega (
  arith,
  bit_or-bitwise (suc x) y,
  bit_or-bitwise (suc x / 2) (y / 2),
  lowest_digit (λ r. r) max x y,
)

pub bit_and_step : (x y : ℕ) → bit_and x y ≡ bit_and (x / 2) (y / 2) * 2 + min (x % 2) (y % 2)
bit_and_step zero y = omega (arith, bit_and-bitwise 0 y, bit_and-bitwise 0 (y / 2))
bit_and_step (suc x) y = omega (
  arith,
  bit_and-bitwise (suc x) y,
  bit_and-bitwise (suc x / 2) (y / 2),
  lowest_digit (λ r. 0) min x y,
)
