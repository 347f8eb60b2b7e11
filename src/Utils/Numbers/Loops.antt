-- ===== src/Utils/Numbers/Loops.antt =====
-- The digit loop and the shared tail of the printers that reverse a local buffer.

use mathlib.Core.List.{reverse_aux}
use native.Mathlib.Nat.{pow-suc}
use Prim.Native.Nat.pow
use potat_os.Prelude.{
  ℕ, zero, suc, ◌+◌, ◌/◌, ◌%◌, ◌^◌, ◌≤◌, ◌<◌, ◌≡◌, refl, ap, ap₂, sym, ◌∙◌, true, List, [], ◌∷◌,
  ◌++◌, map, reverse, append_assoc, arith, ok, ◌==◌, if◌then◌else◌, Bool-cases, inl, inr, store,
  store-append, length, length-append, take, drop, take-length_append,
}
use potat_os.Utils.Strings.{memcpy}
use potat_os.Utils.Strings.Edit.{memcpy_lem}
use potat_os.Utils.Reverse.{ku_reverse, ku_reverse-reverse}
use potat_os.Utils.Numerals.{little, numeral, div_small}
use potat_os.Utils.Numbers.{digits_loop, write_digits, print_reversed}

pub length-map : (f : ℕ → ℕ) (xs : List ℕ) → length (map f xs) ≡ length xs
length-map f [] = refl
length-map f (x ∷ xs) = ap suc (length-map f xs)

length-reverse_aux : (xs ys : List ℕ) → length (reverse_aux xs ys) ≡ length xs + length ys
length-reverse_aux [] ys = omega arith
length-reverse_aux (x ∷ xs) ys = omega (arith, length-reverse_aux xs (x ∷ ys))

pub length-reverse : (xs : List ℕ) → length (reverse xs) ≡ length xs
length-reverse xs = omega (arith, length-reverse_aux xs [])

-- A buffer with room has a next byte.
pub split_at : (xs : List ℕ) (i : ℕ) → i < length xs → (x : ℕ) × (drop i xs ≡ x ∷ drop (suc i) xs)
split_at [] i h = absurd (omega arith)
split_at (x ∷ xs) zero h = (x, refl)
split_at (x ∷ xs) (suc i) h = split_at xs i (omega arith)

map-reverse_aux :
    (f : ℕ → ℕ) (xs ys : List ℕ) → map f (reverse_aux xs ys) ≡ reverse_aux (map f xs) (map f ys)
map-reverse_aux f [] ys = refl
map-reverse_aux f (x ∷ xs) ys = map-reverse_aux f xs (x ∷ ys)

pub map-reverse : (f : ℕ → ℕ) (xs : List ℕ) → map f (reverse xs) ≡ reverse (map f xs)
map-reverse f xs = map-reverse_aux f xs []

pub reverse_terminated :
    (out rest : List ℕ) (i : ℕ)
    → i ≡ length out
    → ku_reverse (out ++ (0 ∷ rest)) i ≡ ok (reverse out ++ (0 ∷ rest))
reverse_terminated out rest i e = rw e (ku_reverse-reverse out (0 ∷ rest))

pub copy_terminated :
    (out rest str : List ℕ) (i : ℕ)
    → i ≡ length out
    → i < length str
    → memcpy str (out ++ (0 ∷ rest)) (i + 1) ≡ ok (out ++ (0 ∷ drop (suc i) str))
copy_terminated out rest str i e r =
    let source = out ++ (0 ∷ rest) in
    let n : length source ≡ length out + suc (length rest) = length-append out (0 ∷ rest) in
    let next : i + 1 ≡ suc i = omega arith in
    rw next (
      memcpy_lem str source (suc i) (omega arith) (omega arith)
      ∙ ap ok (
          ap (λ l. l ++ drop (suc i) str)
            (ap (λ l. take (suc i) l) (sym (append_assoc out (0 ∷ []) rest))
              ∙ ap (λ m. take m ((out ++ (0 ∷ [])) ++ rest)) {x = suc i}
                  (omega (arith, length-append out (0 ∷ [])))
              ∙ take-length_append (out ++ (0 ∷ [])) rest)
          ∙ append_assoc out (0 ∷ []) (drop (suc i) str)))

store_first : (xs : List ℕ) (v : ℕ) → 0 < length xs → store xs 0 v ≡ ok (v ∷ drop 1 xs)
store_first [] v h = absurd (omega arith)
store_first (x ∷ xs) v h = unfold store in refl

module _ (b : ℕ) (h : 1 < b) (ch : ℕ → ℕ) where
  -- The loop writes the digits, the lowest first, behind what is there.
  pub digits_loop_lem :
      (fuel k n i : ℕ) (pre junk : List ℕ)
      → k < fuel
      → n < b ^ k
      → i ≡ length pre
      → length (little b k n) ≤ length junk
      → digits_loop (λ m. ch (m % b)) (λ m. m / b) fuel n i (pre ++ junk)
        ≡ ok (
          i + length (little b k n),
          pre ++ (map ch (little b k n) ++ drop (length (little b k n)) junk),
        )
  unfolding digits_loop little
  digits_loop_lem zero k n i pre junk f p e r = absurd (omega arith)
  digits_loop_lem (suc fuel) zero n i pre junk f p e r =
      let none : (n == 0) ≡ true = ground (arith, pow.zero b) in
      rw none (ap (λ a. ok (a, pre ++ junk)) (omega arith))
  digits_loop_lem (suc fuel) (suc k) n i pre [] f p e r = elim (Bool-cases (n == 0)) [
    | inl none ↦ rw none (ap (λ a. ok (a, pre ++ [])) (omega arith))
    | inr some ↦ absurd (ground (arith, some, r))
  ]
  digits_loop_lem (suc fuel) (suc k) n i pre (x ∷ junk) f p e r = elim (Bool-cases (n == 0)) [
    | inl none ↦ rw none (ap (λ a. ok (a, pre ++ (x ∷ junk))) (omega arith))
    | inr some ↦
        let c = ch (n % b) in
        let rest = little b k (n / b) in
        let ih =
          digits_loop_lem fuel k (n / b) (i + 1) (pre ++ (c ∷ [])) junk (omega arith)
            (div_small b h n (b ^ k) (omega (arith, pow-suc b k)))
            (omega (arith, length-append pre (c ∷ []))) (ground (arith, some, r)) in
        rw (some, store-append pre junk x c i e, ← append_assoc pre (c ∷ []) junk, ih)
          (ap₂ (λ a l. ok (a, l)) (omega arith)
            (append_assoc pre (c ∷ []) (map ch rest ++ drop (length rest) junk)))
  ]

  -- The digits that a buffer holds before it is reversed: one 0 for zero.
  abbrev pub stored : ℕ → ℕ → List ℕ
  stored k n = if n == 0 then 0 ∷ [] else little b k n

  pub reverse-stored : (k n : ℕ) → reverse (stored k n) ≡ numeral b h k n
  unfolding numeral
  reverse-stored k n = elim (Bool-cases (n == 0)) [
    | inl none ↦ rw none refl
    | inr some ↦ rw some refl
  ]

  pub write_digits_lem :
      (k n : ℕ) (buffer : List ℕ)
      → ch 0 ≡ b'0'
      → k < 65
      → n < b ^ k
      → length (stored k n) ≤ length buffer
      → write_digits (λ m. ch (m % b)) (λ m. m / b) n buffer
        ≡ ok (length (stored k n), map ch (stored k n) ++ drop (length (stored k n)) buffer)
  unfolding write_digits
  write_digits_lem k n buffer z f p r = elim (Bool-cases (n == 0)) [
    | inl none ↦
        let room : 0 < length buffer = ground (arith, none, r) in
        rw (none, store_first buffer b'0' room, z)
    | inr some ↦
        let ds = little b k n in
        let loop = digits_loop_lem 65 k n 0 [] buffer f p refl (ground (arith, some, r)) in
        let e : 0 + length ds ≡ length ds = omega arith in
        rw some (loop ∙ ap (λ a. ok (a, map ch ds ++ drop (length ds) buffer)) e)
  ]

  -- What the printers leave: the numeral and its terminator, and the rest of the destination.
  pub print_reversed_lem :
      (k n : ℕ) (stack str : List ℕ)
      → ch 0 ≡ b'0'
      → k < 65
      → n < b ^ k
      → length (stored k n) < length stack
      → length (stored k n) < length str
      → print_reversed (λ m. ch (m % b)) (λ m. m / b) stack n str
        ≡ ok (map ch (numeral b h k n) ++ (0 ∷ drop (suc (length (stored k n))) str))
  unfolding print_reversed
  print_reversed_lem k n stack str z f p r s =
      let ds = stored k n in
      let out = map ch ds in
      let e : length ds ≡ length out = sym (length-map ch ds) in
      let (x, more) = split_at stack (length ds) r in
      rw (
        write_digits_lem k n stack z f p (omega arith),
        more,
        store-append out (drop (suc (length ds)) stack) x 0 (length ds) e,
        reverse_terminated out (drop (suc (length ds)) stack) (length ds) e,
        copy_terminated (reverse out) (drop (suc (length ds)) stack) str (length ds)
            (e ∙ sym (length-reverse out)) s,
        ← reverse-stored k n,
        map-reverse ch ds,
      )
