-- ===== src/Utils/Numbers/Reversed.antt =====
-- The printers that fill a local buffer with digits, the lowest first, and reverse it.
use mathlib.Core.Path.{fun_ext}
use potat_os.Prelude.{
  ℕ, suc, ◌+◌, ◌-◌, ◌/◌, ◌%◌, ◌^◌, ◌≤◌, ◌<◌, ◌≡◌, refl, ap, sym, ◌∙◌, List, ◌∷◌, ◌++◌, map, arith,
  Run, ok, if◌then◌else◌, ltb, length, drop, subst,
}
use potat_os.Prelude.Bits.{bit_and_mask}
use potat_os.Utils.Numerals.{IsNumeral, numeral, numeral-IsNumeral, length-little}
use potat_os.Utils.Numbers.{
  hex_char, hex_next, bin_char, bin_next, print_reversed, uint64_to_binary_string, uint16_to_string,
  uint32_to_hex_string,
}
use potat_os.Utils.Numbers.Loops.{
  stored, print_reversed_lem, length-map, length-reverse, reverse-stored,
}

-- The characters of the digits.
abbrev pub dec_digit : ℕ → ℕ
dec_digit d = b'0' + d

abbrev pub hex_digit : ℕ → ℕ
hex_digit d = if ltb d 10 then b'0' + d else b'A' + (d - 10)

-- `str` is left with the numeral of `n` and its terminator in front; the rest is as it was.
pub record Prints (b : ℕ) (digit : ℕ → ℕ) (width n : ℕ) (str : List ℕ) (run : Run (List ℕ))
    : Type 0 where
  pub out : List ℕ
  pub returns : run ≡ ok (out ++ (0 ∷ drop (suc (length out)) str))
  pub numeral : IsNumeral b digit n out
  pub short : length out ≤ width

module _ (b : ℕ) (h : 1 < b) (ch : ℕ → ℕ) (k : ℕ) (positive : 0 < k) where
  length-stored : (n : ℕ) → length (stored b h ch k n) ≤ k
  length-stored n = ground (arith, length-little b h k n)

  length-numeral : (n : ℕ) → length (map ch (numeral b h k n)) ≡ length (stored b h ch k n)
  length-numeral n =
      length-map ch (numeral b h k n)
      ∙ ap length (sym (reverse-stored b h ch k n))
      ∙ length-reverse (stored b h ch k n)

  print_reversed-Prints :
      (n : ℕ) (stack str : List ℕ)
      → ch 0 ≡ b'0'
      → k < 65
      → n < b ^ k
      → k < length stack
      → k < length str
      → Prints b ch k n str (print_reversed (λ m. ch (m % b)) (λ m. m / b) stack n str)
  print_reversed-Prints n stack str z f p r s = record {
    out = map ch (numeral b h k n);
    returns =
        print_reversed_lem b h ch k n stack str z f p (omega (arith, length-stored n))
          (omega (arith, length-stored n))
        ∙ ap (λ m. ok (map ch (numeral b h k n) ++ (0 ∷ drop (suc m) str)))
            (sym (length-numeral n));
    numeral = numeral-IsNumeral b h ch k n p;
    short = omega (arith, length-numeral n, length-stored n);
  }

hex_char-digit : hex_char ≡ (λ m. hex_digit (m % 16))
hex_char-digit = fun_ext λ m. rw (bit_and_mask 4 m)

bin_char-digit : bin_char ≡ (λ m. dec_digit (m % 2))
bin_char-digit = fun_ext λ m. rw (bit_and_mask 1 m) (ground arith)

-- `ku_uint16_to_string`: for every `uint16_t`, whatever the local buffer of 6 bytes held, and a
-- destination of at least 6 bytes, the destination is left with the decimal numeral without
-- leading zeros, at most 5 characters, and its terminator; nothing is accessed out of bounds.
pub uint16_to_string-Prints :
    (n : ℕ) (stack str : List ℕ)
    → n < 2 ^ 16
    → length stack ≡ 6
    → 6 ≤ length str
    → Prints 10 dec_digit 5 n str (uint16_to_string stack n str)
unfolding uint16_to_string
uint16_to_string-Prints n stack str p r s =
    print_reversed-Prints 10 (omega arith) dec_digit 5 (omega arith) n stack str refl (omega arith)
      (omega arith) (omega arith) (omega arith)

-- `ku_uint32_to_hex_string`: for every `uint32_t`, with a local buffer of 9 bytes and a destination
-- of at least 9, the destination is left with the upper-case hexadecimal numeral without leading
-- zeros, at most 8 characters, and its terminator.
pub uint32_to_hex_string-Prints :
    (n : ℕ) (stack str : List ℕ)
    → n < 2 ^ 32
    → length stack ≡ 9
    → 9 ≤ length str
    → Prints 16 hex_digit 8 n str (uint32_to_hex_string stack n str)
unfolding uint32_to_hex_string
uint32_to_hex_string-Prints n stack str p r s =
    subst (λ c. Prints 16 hex_digit 8 n str (print_reversed c hex_next stack n str))
      (sym hex_char-digit)
      (print_reversed-Prints 16 (omega arith) hex_digit 8 (omega arith) n stack str refl
        (omega arith) (omega arith) (omega arith) (omega arith))

-- `ku_uint64_to_binary_string`: for every `uint64_t`, with a local buffer of 65 bytes and a
-- destination of at least 65, the destination is left with the binary numeral without leading
-- zeros, at most 64 characters, and its terminator.
pub uint64_to_binary_string-Prints :
    (n : ℕ) (stack buf : List ℕ)
    → n < 2 ^ 64
    → length stack ≡ 65
    → 65 ≤ length buf
    → Prints 2 dec_digit 64 n buf (uint64_to_binary_string stack n buf)
unfolding uint64_to_binary_string
uint64_to_binary_string-Prints n stack buf p r s =
    subst (λ c. Prints 2 dec_digit 64 n buf (print_reversed c bin_next stack n buf))
      (sym bin_char-digit)
      (print_reversed-Prints 2 (omega arith) dec_digit 64 (omega arith) n stack buf refl
        (omega arith) (omega arith) (omega arith) (omega arith))
