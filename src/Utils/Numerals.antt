-- ===== src/Utils/Numerals.antt =====
-- Numerals in a base, the specification of the number printers of src/utils/string.c.
use mathlib.Core.List.{reverse-cons}
use native.Mathlib.Nat.{pow-suc, div-add-mod}
use Prim.Native.Nat.pow
use potat_os.Prelude.{
  ℕ, zero, suc, ◌+◌, ◌*◌, ◌/◌, ◌%◌, ◌^◌, ◌≤◌, ◌<◌, ◌≡◌, refl, ◌≢◌, ap, ◌⊎◌, inl, inr, List, [], ◌∷◌,
  ◌++◌, map, reverse, arith, length, ◌==◌, if◌then◌else◌, Bool-cases, false,
}

-- The number that digits stand for, the highest first.
abbrev pub horner : ℕ → ℕ → List ℕ → ℕ
horner b acc [] = acc
horner b acc (d ∷ ds) = horner b (acc * b + d) ds

abbrev pub AllBelow : ℕ → List ℕ → Type 0
AllBelow b [] = Unit
AllBelow b (d ∷ ds) = (d < b) × AllBelow b ds

abbrev pub IsPositiveHead : List ℕ → Type 0
IsPositiveHead [] = ⊥
IsPositiveHead (d ∷ ds) = 0 < d

-- `out` is the numeral of `n` in base `b`, with no leading zero: digits below the base that stand
-- for `n`, each written by `char`; zero is the one digit 0.
pub record IsNumeral (b : ℕ) (char : ℕ → ℕ) (n : ℕ) (out : List ℕ) : Type 0 where
  pub digits : List ℕ
  pub spelled : out ≡ map char digits
  pub below : AllBelow b digits
  pub reads : horner b 0 digits ≡ n
  pub canonical : (digits ≡ 0 ∷ []) ⊎ IsPositiveHead digits

-- The digits of a number below `b ^ k`, the lowest first; none for zero.
unfoldable pub little : ℕ → ℕ → ℕ → List ℕ
little b zero n = []
little b (suc k) n = let rest = little b k (n / b) in if n == 0 then [] else n % b ∷ rest

horner_snoc : (b acc d : ℕ) (ds : List ℕ) → horner b acc (ds ++ (d ∷ [])) ≡ horner b acc ds * b + d
horner_snoc b acc d [] = refl
horner_snoc b acc d (e ∷ ds) = horner_snoc b (acc * b + e) d ds

AllBelow-snoc : (b d : ℕ) (ds : List ℕ) → AllBelow b ds → d < b → AllBelow b (ds ++ (d ∷ []))
AllBelow-snoc b d [] h p = (p, tt)
AllBelow-snoc b d (e ∷ ds) h p = (h.0, AllBelow-snoc b d ds h.1 p)

IsPositiveHead-snoc : (d : ℕ) (ds : List ℕ) → IsPositiveHead ds → IsPositiveHead (ds ++ (d ∷ []))
IsPositiveHead-snoc d [] h = absurd h
IsPositiveHead-snoc d (e ∷ ds) h = h

==_false : (n : ℕ) → n ≢ 0 → (n == 0) ≡ false
==_false n h = ground arith

module _ (b : ℕ) (h : 1 < b) where
  pub div_small : (n p : ℕ) → n < b * p → n / b < p
  div_small n p q = grind arith

  pub length-little : (k n : ℕ) → length (little b k n) ≤ k
  unfolding little
  length-little zero n = omega arith
  length-little (suc k) n = ground (arith, length-little k (n / b))

  pub horner-little : (k n : ℕ) → n < b ^ k → horner b 0 (reverse (little b k n)) ≡ n
  unfolding little
  horner-little zero n p = omega (arith, pow.zero b)
  horner-little (suc k) n p = elim (Bool-cases (n == 0)) [
    | inl none ↦ rw none (ground arith)
    | inr some ↦
        rw
          (
            some,
            reverse-cons (n % b) (little b k (n / b)),
            horner_snoc,
            horner-little k (n / b) (div_small n (b ^ k) (omega (arith, pow-suc b k))),
          )
          (omega (arith, div-add-mod n b))
  ]

  pub AllBelow-little : (k n : ℕ) → AllBelow b (reverse (little b k n))
  unfolding little
  AllBelow-little zero n = tt
  AllBelow-little (suc k) n = elim (Bool-cases (n == 0)) [
    | inl none ↦ rw none tt
    | inr some ↦
        rw (some, reverse-cons (n % b) (little b k (n / b)))
          (AllBelow-snoc b (n % b) _ (AllBelow-little k (n / b)) (omega arith))
  ]

  pub little_zero : (k : ℕ) → little b k 0 ≡ []
  unfolding little
  little_zero zero = refl
  little_zero (suc k) = refl

  pub IsPositiveHead-little :
      (k n : ℕ) → n < b ^ k → n ≢ 0 → IsPositiveHead (reverse (little b k n))
  unfolding little
  IsPositiveHead-little zero n p q = absurd (omega (arith, pow.zero b))
  IsPositiveHead-little (suc k) n p q =
      rw (==_false n q, reverse-cons (n % b) (little b k (n / b)))
        (elim (Bool-cases (n / b == 0)) [
          | inl none ↦
              let e : n / b ≡ 0 = ground arith in
              rw (e, little_zero k) (omega (arith, div-add-mod n b, ap (λ (t : ℕ). b * t) e))
          | inr some ↦ IsPositiveHead-snoc (n % b) _ (
              IsPositiveHead-little k (n / b) (div_small n (b ^ k) (omega (arith, pow-suc b k)))
                (ground arith))
        ])

  -- The digits of a number below `b ^ k`, turned round; a single 0 for zero.
  unfoldable pub numeral : ℕ → ℕ → List ℕ
  numeral k n = if n == 0 then 0 ∷ [] else reverse (little b k n)

  pub numeral-IsNumeral :
      (char : ℕ → ℕ) (k n : ℕ) → n < b ^ k → IsNumeral b char n (map char (numeral k n))
  unfolding numeral
  numeral-IsNumeral char k n p = elim (Bool-cases (n == 0)) [
    | inl none ↦ rw none (record {
      digits = 0 ∷ [];
      spelled = refl;
      below = (omega arith, tt);
      reads = ground arith;
      canonical = inl refl;
    })
    | inr some ↦ rw some (record {
      digits = reverse (little b k n);
      spelled = refl;
      below = AllBelow-little k n;
      reads = horner-little k n p;
      canonical = inr (IsPositiveHead-little k n p (ground arith));
    })
  ]
