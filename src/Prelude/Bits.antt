-- ===== src/Prelude/Bits.antt =====
-- `|` of disjoint fields and `&` with a low mask as arithmetic, at every width.
mod Step
pub mod Single
use Step.{bit_or_step, bit_and_step}
use Prim.Native.Nat.{ℕ, zero, suc, ◌+◌, ◌-◌, ◌*◌, ◌/◌, ◌%◌, ◌^◌, ◌≤◌, ◌<◌, bit_and, bit_or}
use mathlib.Core.Path.{◌≡◌, refl, ap, ap₂, ◌∙◌}
use native.Mathlib.Omega.{arith}
use native.Mathlib.Nat.{pow-suc, one-le-pow}

infixl 75 ◌<<<◌ ◌>>>◌
abbrev pub ◌<<<◌ : ℕ → ℕ → ℕ
x <<< k = x * 2 ^ k

abbrev pub ◌>>>◌ : ℕ → ℕ → ℕ
x >>> k = x / 2 ^ k

-- Recursion on a bound of the value: each step halves it.
or_zero_below : (n a : ℕ) → a ≤ n → bit_or a 0 ≡ a
or_zero_below n zero h = refl
or_zero_below zero (suc a) h = absurd (omega arith)
or_zero_below (suc n) (suc a) h =
    omega (arith, bit_or_step (suc a) 0, or_zero_below n (suc a / 2) (omega arith))

and_zero_below : (n a : ℕ) → a ≤ n → bit_and a 0 ≡ 0
and_zero_below n zero h = refl
and_zero_below zero (suc a) h = absurd (omega arith)
and_zero_below (suc n) (suc a) h =
    omega (arith, bit_and_step (suc a) 0, and_zero_below n (suc a / 2) (omega arith))

pub bit_or-zero : (a : ℕ) → bit_or a 0 ≡ a
bit_or-zero a = or_zero_below a a (omega arith)

pub zero-bit_or : (b : ℕ) → bit_or 0 b ≡ b
zero-bit_or b = go b b (omega arith)
  where
    go : (n a : ℕ) → a ≤ n → bit_or 0 a ≡ a
    go n zero h = refl
    go zero (suc a) h = absurd (omega arith)
    go (suc n) (suc a) h = omega (arith, bit_or_step 0 (suc a), go n (suc a / 2) (omega arith))

pub bit_and-zero : (a : ℕ) → bit_and a 0 ≡ 0
bit_and-zero a = and_zero_below a a (omega arith)

shift_suc : (q k : ℕ) → q * 2 ^ suc k ≡ 2 * (q * 2 ^ k)
shift_suc q k = omega (arith, ap (λ (t : ℕ). q * t) (pow-suc 2 k))

-- A high field above `k` bits or a low field of `k` bits is their sum, in either order.
pub bit_or_fields : (k high low : ℕ) → low < 2 ^ k → bit_or (high * 2 ^ k) low ≡ high * 2 ^ k + low
bit_or_fields zero high low fits = ground (arith, bit_or-zero high)
bit_or_fields (suc k) high low fits =
    let first = bit_or_step (high * 2 ^ suc k) low in
    let others = bit_or_fields k high (low / 2) (omega (arith, pow-suc 2 k)) in
    ground (arith, first, others, shift_suc high k)

pub bit_or_fields_low :
    (k high low : ℕ) → low < 2 ^ k → bit_or low (high * 2 ^ k) ≡ low + high * 2 ^ k
bit_or_fields_low zero high low fits = ground (arith, zero-bit_or high)
bit_or_fields_low (suc k) high low fits =
    let first = bit_or_step low (high * 2 ^ suc k) in
    let others = bit_or_fields_low k high (low / 2) (omega (arith, pow-suc 2 k)) in
    ground (arith, first, others, shift_suc high k)

-- `|` works on the bits above `k` and below `k` apart.
pub bit_or_split :
    (k h l h' l' : ℕ)
    → l < 2 ^ k
    → l' < 2 ^ k
    → bit_or (h * 2 ^ k + l) (h' * 2 ^ k + l') ≡ bit_or h h' * 2 ^ k + bit_or l l'
bit_or_split zero h l h' l' a b =
    ground (arith, bit_or-zero 0, ap₂ bit_or (the_zero l a) (the_zero l' b))
  where
    the_zero : (n : ℕ) → n < 2 ^ 0 → n ≡ 0
    the_zero n lt = omega arith
bit_or_split (suc k) h l h' l' a b =
    let first = bit_or_step (h * 2 ^ suc k + l) (h' * 2 ^ suc k + l') in
    let low = bit_or_step l l' in
    let p = pow-suc 2 k in
    let others = bit_or_split k h (l / 2) h' (l' / 2) (omega arith) (omega arith) in
    let e : (h * 2 ^ suc k + l) / 2 ≡ h * 2 ^ k + l / 2 = omega (arith, shift_suc h k) in
    let e' : (h' * 2 ^ suc k + l') / 2 ≡ h' * 2 ^ k + l' / 2 = omega (arith, shift_suc h' k) in
    let halves = ap₂ bit_or e e' ∙ others in
    ground (arith, first, low, halves, shift_suc h k, shift_suc h' k, shift_suc (bit_or h h') k)

-- A field of `w` bits is put into `w` clear bits from bit `k` on.
pub bit_or_field :
    (k w h f l a b : ℕ)
    → f < 2 ^ w
    → l < 2 ^ k
    → a ≡ (h * 2 ^ w) * 2 ^ k + l
    → b ≡ f * 2 ^ k
    → bit_or a b ≡ a + b
bit_or_field k w h f l a b hf hl ea eb =
    let zero_low : 0 < 2 ^ k = omega (arith, one-le-pow k 2) in
    let parts = bit_or_split k (h * 2 ^ w) l f 0 hl zero_low in
    let high = ap (λ (x : ℕ). x * 2 ^ k) (bit_or_fields w h f hf) in
    let e' : b ≡ f * 2 ^ k + 0 = omega (arith, eb) in
    let both = ap₂ bit_or ea e' in omega (arith, both, parts, high, bit_or-zero l, ea, eb)

-- `|` stays within the width of its operands, and keeps the bits of the second one.
pub bit_or-lt : (k x y : ℕ) → x < 2 ^ k → y < 2 ^ k → bit_or x y < 2 ^ k
bit_or-lt zero x y a b = ground (arith, bit_or-zero 0, ap₂ bit_or (the_zero x a) (the_zero y b))
  where
    the_zero : (n : ℕ) → n < 2 ^ 0 → n ≡ 0
    the_zero n lt = omega arith
bit_or-lt (suc k) x y a b =
    let p = pow-suc 2 k in
    omega (arith, bit_or_step x y, bit_or-lt k (x / 2) (y / 2) (omega arith) (omega arith))

le_below : (n x y : ℕ) → y ≤ n → y ≤ bit_or x y
le_below n x zero h = omega arith
le_below zero x (suc y) h = absurd (omega arith)
le_below (suc n) x (suc y) h =
    omega (arith, bit_or_step x (suc y), le_below n (x / 2) (suc y / 2) (omega arith))

pub bit_or-le_right : (x y : ℕ) → y ≤ bit_or x y
bit_or-le_right x y = le_below y x y (omega arith)

low_field : (k low high : ℕ) → low < 2 ^ k → bit_and (high * 2 ^ k + low) (2 ^ k - 1) ≡ low
low_field zero low high fits = rw bit_and-zero (omega arith)
low_field (suc k) low high fits =
    let p : 2 ^ suc k ≡ 2 * 2 ^ k = omega (arith, pow-suc 2 k) in
    let first = bit_and_step (high * 2 ^ suc k + low) (2 ^ suc k - 1) in
    let others = low_field k (low / 2) high (omega arith) in
    ground (arith, first, others, p, shift_suc high k)

-- A mask of the `k` low bits is the remainder by `2 ^ k`.
pub bit_and_mask : (k a : ℕ) → bit_and a (2 ^ k - 1) ≡ a % 2 ^ k
bit_and_mask k a =
    let field = low_field k (a % 2 ^ k) (a / 2 ^ k) in ground (arith, field, one-le-pow k 2)
