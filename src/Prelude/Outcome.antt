-- ===== src/Prelude/Outcome.antt =====
-- The outcome of a piece of C code.
use mathlib.Core.Path.{◌≡◌, refl, ap}
use Prim.Native.Nat.{ℕ, zero, suc, ◌≤◌, ◌<◌}
use mathlib.Core.List.{List, [], ◌∷◌, ◌++◌}
use mathlib.Core.Option.{Option, none, some}
use native.Mathlib.Omega.{arith}
use potat_os.Prelude.Lists.{length, get_elem?, set, get_elem?-append_at, set-append_at}

-- `fault` is an access outside an object or through a null pointer, which C leaves undefined;
-- `halted` is a call of `halt`; `out_of_fuel` is a loop that used up the rounds it was given.
pub data Run {ℓ} (A : Type ℓ) : Type ℓ where
  ok : A → Run A
  fault halted out_of_fuel : Run A

pub ok-injective {ℓ} : {A : Type ℓ} {a b : A} → ok a ≡ ok b → a ≡ b
ok-injective {A} {a} e = ap (λ (r : Run A). elim r [ ok x ↦ x | _ ↦ a ]) e

infixl 5 ◌>>=◌ ◌>>◌
abbrev pub ◌>>=◌ {ℓ κ} : {A : Type ℓ} {B : Type κ} → Run A → (A → Run B) → Run B
ok a >>= f = f a
fault >>= f = fault
halted >>= f = halted
out_of_fuel >>= f = out_of_fuel

abbrev pub ◌>>◌ {ℓ} : {B : Type ℓ} → Run (Unit {0}) → Run B → Run B
m >> k = m >>= λ _. k

-- A read that may lie outside the object.
abbrev pub checked {ℓ} : {A : Type ℓ} → Option A → Run A
checked none = fault
checked (some a) = ok a

-- `array[i] = v`.
module _ {ℓ} {A : Type ℓ} where
  unfoldable pub store : List A → ℕ → A → Run (List A)
  store array i v = checked (get_elem? array i) >>= λ _. ok (set array i v)

  pub store-append :
      (xs ys : List A) (x v : A) (i : ℕ)
      → i ≡ length xs
      → store (xs ++ (x ∷ ys)) i v ≡ ok (xs ++ (v ∷ ys))
  unfolding store
  store-append xs ys x v i e = rw (e, get_elem?-append_at xs ys x, set-append_at xs ys x v)

  pub get_elem?-beyond : (xs : List A) (i : ℕ) → length xs ≤ i → get_elem? xs i ≡ none
  get_elem?-beyond [] i h = refl
  get_elem?-beyond (x ∷ xs) zero h = absurd (omega arith)
  get_elem?-beyond (x ∷ xs) (suc i) h = get_elem?-beyond xs i (omega arith)

  pub store_beyond : (xs : List A) (i : ℕ) (v : A) → length xs ≤ i → store xs i v ≡ fault
  unfolding store
  store_beyond xs i v h = rw (get_elem?-beyond xs i h)

  get_elem?-within : (xs : List A) (i : ℕ) → i < length xs → (a : A) × (get_elem? xs i ≡ some a)
  get_elem?-within [] i h = absurd (omega arith)
  get_elem?-within (x ∷ xs) zero h = (x, refl)
  get_elem?-within (x ∷ xs) (suc i) h = get_elem?-within xs i (omega arith)

  pub store-set : (xs : List A) (i : ℕ) (v : A) → i < length xs → store xs i v ≡ ok (set xs i v)
  unfolding store
  store-set xs i v h = let (a, e) = get_elem?-within xs i h in rw e refl
