-- ===== src/Prelude/Objects.antt =====
-- Objects of one kind at their addresses.
use Prim.Native.Nat.{ℕ}
use mathlib.Core.Path.{◌≡◌, refl, ap}
use mathlib.Core.Logic.{◌≢◌, ◌⊎◌}
use mathlib.Core.Bool.{false}
use mathlib.Core.Option.{Option, none, some}
use native.Mathlib.Omega.{arith}
use potat_os.Prelude.Tests.{◌==◌, if◌then◌else◌}
use potat_os.Prelude.Outcome.{Run, ok, fault, checked}

-- `*p = x`.
abbrev pub put_at {ℓ} : {A : Type ℓ} → (ℕ → Option A) → ℕ → A → ℕ → Option A
put_at m a x b = if b == a then some x else m b

-- `*p`.
unfoldable pub deref {ℓ} : {A : Type ℓ} → (ℕ → Option A) → ℕ → Run A
deref m p = if p == 0 then fault else checked (m p)

pub same_or_not : (a b : ℕ) → (a ≡ b) ⊎ (a ≢ b)
same_or_not a b = ground arith

module _ {ℓ} {A : Type ℓ} where
  pub put_at_self : (m : ℕ → Option A) (a : ℕ) (x : A) → put_at m a x a ≡ some x
  put_at_self m a x = ground arith

  pub put_at-ne : (m : ℕ → Option A) (a b : ℕ) (x : A) → b ≢ a → put_at m a x b ≡ m b
  put_at-ne m a b x h = ground (arith, h)

  pub deref-ok : (m : ℕ → Option A) (p : ℕ) {x : A} → p ≢ 0 → m p ≡ some x → deref m p ≡ ok x
  unfolding deref
  deref-ok m p ne e = let there : (p == 0) ≡ false = ground (arith, ne) in rw (there, e) refl

  pub held_ne : (m : ℕ → Option A) (a b : ℕ) {x : A} → m a ≡ some x → m b ≡ none → a ≢ b
  held_ne m a b ea eb same = ground (arith, ap m same, ea, eb)
