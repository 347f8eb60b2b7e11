-- ===== src/Utils/Numbers/Filled.antt =====
-- `get_num_length`, and the printers that write the digits from the last place to the first.
use mathlib.Core.List.{reverse-cons, map-append}
use native.Mathlib.Nat.{pow-suc, one-le-pow}
use Prim.Native.Nat.pow
use potat_os.Prelude.{
  ℕ, zero, suc, ◌+◌, ◌/◌, ◌%◌, ◌^◌, ◌≤◌, ◌<◌, ◌≡◌, refl, ap, sym, ◌∙◌, false, List, [], ◌∷◌, ◌++◌,
  map, reverse, append_assoc, arith, Run, ok, fault, ◌==◌, ltb, lt→ltb, if◌then◌else◌, Bool-cases,
  inl, inr, store, store-append, store_beyond, length, take, drop, length-take, take-append-drop,
}
use potat_os.Utils.Numerals.{IsNumeral, little, little_zero, numeral-IsNumeral}
use potat_os.Utils.Numbers.{dec_char, num_length_loop, get_num_length, fill_loop, uint64_to_string}
use potat_os.Utils.Numbers.Loops.{stored, length-map, length-reverse, reverse-stored, split_at}
use potat_os.Utils.Numbers.Reversed.{dec_digit}

-- The decimal digits of a `do … while` loop: at least one.
places : ℕ → ℕ → List ℕ
places zero n = []
places (suc k) n = let rest = places k (n / 10) in n % 10 ∷ (if ltb 0 (n / 10) then rest else [])

num_length_loop-places :
    (k n len : ℕ) → n < 10 ^ k → 0 < k → num_length_loop k n len ≡ ok (len + length (places k n))
unfolding num_length_loop places
num_length_loop-places zero n len p q = absurd (omega arith)
num_length_loop-places (suc k) n len p q = elim (Bool-cases (ltb 0 (n / 10))) [
  | inl more ↦ rw more (
      num_length_loop-places k (n / 10) (len + 1) (omega (arith, pow-suc 10 k))
        (ground (arith, pow.zero 10, pow-suc 10 k))
      ∙ ap ok (omega arith))
  | inr last ↦ rw last refl
]

snoc_split :
    (xs : List ℕ) (n : ℕ)
    → length xs ≡ suc n
    → (ys : List ℕ) × (y : ℕ) × (xs ≡ ys ++ (y ∷ [])) × (length ys ≡ n)
snoc_split [] n e = absurd (omega arith)
snoc_split (x ∷ []) n e = ([], x, refl, omega arith)
snoc_split (x ∷ z ∷ zs) zero e = absurd (omega arith)
snoc_split (x ∷ z ∷ zs) (suc n) e =
    let (ys, y, f, l) = snoc_split (z ∷ zs) n (omega arith) in
    (x ∷ ys, y, ap (λ t. x ∷ t) f, omega arith)

reverse_places :
    (n : ℕ) (ds rest : List ℕ)
    → map dec_digit (reverse (n ∷ ds)) ++ rest ≡ map dec_digit (reverse ds) ++ (dec_digit n ∷ rest)
reverse_places n ds rest =
    ap (λ l. map dec_digit l ++ rest) (reverse-cons n ds)
    ∙ ap (λ l. l ++ rest) (map-append dec_digit (reverse ds) (n ∷ []))
    ∙ append_assoc (map dec_digit (reverse ds)) (dec_digit n ∷ []) rest

eq-nil : (xs : List ℕ) → length xs ≡ 0 → xs ≡ []
eq-nil [] e = refl
eq-nil (x ∷ xs) e = absurd (omega arith)

fill_loop-places :
    (k n i : ℕ) (junk rest : List ℕ)
    → n < 10 ^ k
    → 0 < k
    → i ≡ length (places k n)
    → length junk ≡ i
    → fill_loop k n i (junk ++ rest) ≡ ok (map dec_digit (reverse (places k n)) ++ rest)
unfolding fill_loop places
fill_loop-places zero n i junk rest p q e l = absurd (omega arith)
fill_loop-places (suc k) n zero junk rest p q e l = absurd (omega arith)
fill_loop-places (suc k) n (suc i) junk rest p q e l =
    let (ys, y, f, l') = snoc_split junk i l in
    let c = dec_char n in
    let junk_eq : junk ++ rest ≡ ys ++ (y ∷ rest) =
      ap (λ t. t ++ rest) f ∙ append_assoc ys (y ∷ []) rest in
    rw (junk_eq, store-append ys rest y c i (sym l'))
      (elim (Bool-cases (ltb 0 (n / 10))) [
        | inl more ↦ rw more (
            fill_loop-places k (n / 10) i ys (c ∷ rest) (omega (arith, pow-suc 10 k))
              (ground (arith, pow.zero 10, pow-suc 10 k)) (ground (arith, more, e)) l'
            ∙ ap ok (sym (reverse_places (n % 10) (places k (n / 10)) rest)))
        | inr last ↦
            let none : i ≡ 0 = ground (arith, last, e) in
            rw last (ap (λ t. ok (t ++ (c ∷ rest))) (eq-nil ys (l' ∙ none)))
      ])

ten : 1 < 10
ten = omega arith

places-stored : (k n : ℕ) → n < 10 ^ k → 0 < k → places k n ≡ stored 10 ten dec_digit k n
unfolding places little
places-stored zero n p q = absurd (omega arith)
places-stored (suc k) n p q = elim (Bool-cases (ltb 0 (n / 10))) [
  | inl more ↦
      let some : (n == 0) ≡ false = ground arith in
      let some' : (n / 10 == 0) ≡ false = ground arith in
      rw (more, some)
        (ap (λ l. n % 10 ∷ l)
          (places-stored k (n / 10) (omega (arith, pow-suc 10 k))
              (ground (arith, pow.zero 10, pow-suc 10 k))
            ∙ ap (λ t. if t then 0 ∷ [] else little 10 k (n / 10)) some'))
  | inr last ↦
      let none : n / 10 ≡ 0 = ground arith in
      rw (last, none, little_zero 10 ten k)
        (elim (Bool-cases (n == 0)) [
          | inl zero_n ↦ rw zero_n (ap (λ t. t ∷ []) (ground arith))
          | inr other ↦ rw other refl
        ])
]

-- The decimal numeral of `n` as the printers spell it.
decimal : ℕ → List ℕ
decimal n = map dec_digit (reverse (places 20 n))

decimal-IsNumeral : (n : ℕ) → n < 2 ^ 64 → IsNumeral 10 dec_digit n (decimal n)
unfolding decimal
decimal-IsNumeral n p =
    let fits : n < 10 ^ 20 = omega arith in
    rw (places-stored 20 n fits (omega arith), reverse-stored 10 ten dec_digit 20 n)
      (numeral-IsNumeral 10 ten dec_digit 20 n fits)

length-decimal : (n : ℕ) → length (decimal n) ≡ length (places 20 n)
unfolding decimal
length-decimal n = length-map dec_digit (reverse (places 20 n)) ∙ length-reverse (places 20 n)

length-places : (k n : ℕ) → length (places k n) ≤ k
unfolding places
length-places zero n = omega arith
length-places (suc k) n = ground (arith, length-places k (n / 10))

-- At least as many digits as a power of ten below the number says.
lt-length-places : (j k n : ℕ) → 10 ^ j ≤ n → n < 10 ^ k → j < length (places k n)
unfolding places
lt-length-places j zero n p q = absurd (omega (arith, one-le-pow j 10, pow.zero 10))
lt-length-places zero (suc k) n p q = omega arith
lt-length-places (suc j) (suc k) n p q =
    let ih =
      lt-length-places j k (n / 10) (omega (arith, pow-suc 10 j)) (omega (arith, pow-suc 10 k)) in
    let positive : 0 < n / 10 = omega (arith, one-le-pow j 10, pow-suc 10 j) in
    rw (lt→ltb 0 (n / 10) positive) (omega arith)

get_num_length-decimal : (n : ℕ) → n < 2 ^ 64 → get_num_length n ≡ ok (length (decimal n))
unfolding get_num_length
get_num_length-decimal n p =
    num_length_loop-places 20 n 0 (omega arith) (omega arith)
    ∙ ap ok (omega (arith, length-decimal n))

-- What a printer leaves in a destination that has room for the numeral and its terminator; one
-- that has no room is written out of bounds.
pub record PrintsOrFaults (n : ℕ) (str : List ℕ) (run : Run (List ℕ)) : Type 0 where
  pub out : List ℕ
  pub numeral : IsNumeral 10 dec_digit n out
  pub short : length out ≤ 20
  pub returns : length out < length str → run ≡ ok (out ++ (0 ∷ drop (suc (length out)) str))
  pub faults : length str ≤ length out → run ≡ fault

store_terminator :
    (str : List ℕ) (i : ℕ)
    → i < length str
    → store str i 0 ≡ ok (take i str ++ (0 ∷ drop (suc i) str))
store_terminator str i h =
    let (x, next) = split_at str i h in
    ap (λ l. store l i 0) (sym (take-append-drop i str) ∙ ap (λ l. take i str ++ l) next)
    ∙ store-append (take i str) (drop (suc i) str) x 0 i (sym (length-take i str (omega arith)))

-- `ku_uint64_to_string`: for every `uint64_t` the destination is left with the decimal numeral
-- without leading zeros, at most 20 characters, and its terminator in front when it has room for
-- them, and is written out of bounds when it has not.
pub uint64_to_string-PrintsOrFaults :
    (n : ℕ) (str : List ℕ) → n < 2 ^ 64 → PrintsOrFaults n str (uint64_to_string n str)
unfolding uint64_to_string
uint64_to_string-PrintsOrFaults n str p = record {
  out = decimal n;
  numeral = decimal-IsNumeral n p;
  short = omega (arith, length-decimal n, length-places 20 n);
  returns = λ room.
      let i = length (decimal n) in
      rw (get_num_length-decimal n p, store_terminator str i room)
        (unfold decimal in
          fill_loop-places 20 n i (take i str) (0 ∷ drop (suc i) str) (omega arith) (omega arith)
            (length-decimal n) (length-take i str (omega arith)));
  faults = λ full. rw (get_num_length-decimal n p, store_beyond str (length (decimal n)) 0 full);
}

-- `printf_template` hands `ku_uint64_to_string` a local buffer of 10 bytes for `%d` and `%i`:
-- every number from 10^9 on is written out of its bounds.
pub uint64_to_string_overflow :
    (n : ℕ) (buffer : List ℕ)
    → 10 ^ 9 ≤ n
    → n < 2 ^ 64
    → length buffer ≡ 10
    → uint64_to_string n buffer ≡ fault
unfolding uint64_to_string
uint64_to_string_overflow n buffer big p e =
    let long = lt-length-places 9 20 n big (omega arith) in
    rw (
      get_num_length-decimal n p,
      store_beyond buffer (length (decimal n)) 0 (omega (arith, length-decimal n, long)),
    )
