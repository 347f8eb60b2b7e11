-- ===== src/Utils/Strings/Octal.antt =====
-- `oct2bin`, which reads the octal size field of an archive header.
use native.Mathlib.Nat.{pow-suc}
use potat_os.Prelude.{
  ℕ, zero, suc, ◌+◌, ◌*◌, ◌/◌, ◌%◌, ◌<◌, ◌^◌, ◌≡◌, refl, ap, List, [], ◌∷◌, ◌++◌, append_assoc,
  length, length-append, arith, ok, ◌>>=◌,
}
use potat_os.Utils.Strings.{digit_value, oct2bin_loop, oct2bin}

-- The last `k` octal digits of `n` as characters, the highest first.
abbrev pub octal : ℕ → ℕ → List ℕ
octal zero n = []
octal (suc k) n = octal k (n / 8) ++ (b'0' + n % 8) ∷ []

length-octal : (k n : ℕ) → length (octal k n) ≡ k
length-octal zero n = refl
length-octal (suc k) n =
    omega (arith, length-append (octal k (n / 8)) ((b'0' + n % 8) ∷ []), length-octal k (n / 8))

-- The last character of a run is worked in last.
oct2bin_loop_snoc :
    (k : ℕ) (xs r : List ℕ) (d n : ℕ)
    → length xs ≡ k
    → oct2bin_loop (suc k) (xs ++ d ∷ r) n
      ≡ (oct2bin_loop k (xs ++ d ∷ r) n >>= λ m. ok ((m * 8 % 2 ^ 32 + digit_value d) % 2 ^ 32))
unfolding oct2bin_loop
oct2bin_loop_snoc zero [] r d n e = refl
oct2bin_loop_snoc zero (x ∷ xs) r d n e = absurd (omega arith)
oct2bin_loop_snoc (suc k) [] r d n e = absurd (omega arith)
oct2bin_loop_snoc (suc k) (x ∷ xs) r d n e =
    oct2bin_loop_snoc k xs r d ((n * 8 % 2 ^ 32 + digit_value x) % 2 ^ 32) (omega arith)

digit_value_octal : (n : ℕ) → digit_value (b'0' + n % 8) ≡ n % 8
digit_value_octal n = ground arith

oct2bin_loop-octal :
    (k n : ℕ) (r : List ℕ) → n < 8 ^ k → n < 2 ^ 31 → oct2bin_loop k (octal k n ++ r) 0 ≡ ok n
oct2bin_loop-octal zero n r h fits = unfold oct2bin_loop in ap ok (omega arith)
oct2bin_loop-octal (suc k) n r h fits =
    let d = b'0' + n % 8 in
    let ih : oct2bin_loop k (octal k (n / 8) ++ d ∷ r) 0 ≡ ok (n / 8) =
      oct2bin_loop-octal k (n / 8) (d ∷ r) (omega (arith, pow-suc 8 k)) (omega arith) in
    rw
      (
        append_assoc (octal k (n / 8)) (d ∷ []) r,
        oct2bin_loop_snoc k (octal k (n / 8)) r d 0 (length-octal k (n / 8)),
        ih,
      )
      (ap ok (omega (arith, digit_value_octal n)))

-- Printing `n` with `size` octal digits and reading them back gives `n`, when `n` has that many
-- digits and fits an `int`, whatever follows the field.
pub oct2bin-octal :
    (size n : ℕ) (r : List ℕ) → n < 8 ^ size → n < 2 ^ 31 → oct2bin (octal size n ++ r) size ≡ ok n
unfolding oct2bin
oct2bin-octal = oct2bin_loop-octal
