-- ===== src/Prelude/Bits/Single.antt =====
-- `|` and `&` bit by bit.
use Prim.Native.Nat.{ℕ, zero, suc, ◌*◌, ◌/◌, ◌%◌, ◌^◌, min, max, bit_and, bit_or}
use mathlib.Core.Path.{◌≡◌, ap, ◌∙◌, sym}
use native.Mathlib.Omega.{arith}
use native.Mathlib.Nat.{pow-suc, div-div-eq-div-mul}
use potat_os.Prelude.Bits.Step.{bit_or_step, bit_and_step}

abbrev pub bit : ℕ → ℕ → ℕ
bit k x = x / 2 ^ k % 2

bit-suc : (k x : ℕ) → bit (suc k) x ≡ bit k (x / 2)
bit-suc k x =
    let p : 2 * 2 ^ k ≡ 2 ^ suc k = omega (arith, pow-suc 2 k) in
    sym (ap (λ (y : ℕ). y % 2) (div-div-eq-div-mul x 2 (2 ^ k) ∙ ap (λ (y : ℕ). x / y) p))

pub bit-bit_or : (k x y : ℕ) → bit k (bit_or x y) ≡ max (bit k x) (bit k y)
bit-bit_or zero x y = omega (arith, bit_or_step x y)
bit-bit_or (suc k) x y =
    let half : bit_or x y / 2 ≡ bit_or (x / 2) (y / 2) = omega (arith, bit_or_step x y) in
    omega (
      arith,
      bit-suc k (bit_or x y),
      bit-suc k x,
      bit-suc k y,
      bit-bit_or k (x / 2) (y / 2),
      ap (bit k) half,
    )

pub bit-bit_and : (k x y : ℕ) → bit k (bit_and x y) ≡ min (bit k x) (bit k y)
bit-bit_and zero x y = omega (arith, bit_and_step x y)
bit-bit_and (suc k) x y =
    let half : bit_and x y / 2 ≡ bit_and (x / 2) (y / 2) = omega (arith, bit_and_step x y) in
    omega (
      arith,
      bit-suc k (bit_and x y),
      bit-suc k x,
      bit-suc k y,
      bit-bit_and k (x / 2) (y / 2),
      ap (bit k) half,
    )
