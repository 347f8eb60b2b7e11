-- ===== src/Utils/Printf/Tests.antt =====
-- A line with a number: the witness of the theorem.
use potat_os.Prelude.{
  ℕ, ◌<◌, ◌≤◌, ◌≡◌, refl, arith, inl, List, [], ◌∷◌, ◌++◌, map, length, replicate, length-replicate,
  ok, fault, ◌>>=◌,
}
use potat_os.Utils.Numerals.{IsNumeral}
use potat_os.Utils.Numbers.Reversed.{dec_digit}
use potat_os.Utils.Printf.{number, written, character, printf_template}
use potat_os.Utils.Printf.Decimal.{printf_template-uint64_to_string}

abbrev locals : ℕ → List ℕ
locals n = replicate n 7

abbrev plain : List ℕ
plain = b'n' ∷ b'=' ∷ []

printf_template-uint64_to_string_example :
    (out : List ℕ) × IsNumeral 10 dec_digit 12345678901 out
    × (length out < 10
        → (r : List ℕ) × (printf_template locals
              (plain ++ (b'%' ∷ b'd' ∷ b'!' ∷ []))
              (number 12345678901 ∷ [])
            ≡ (printf_template locals (b'!' ∷ []) [] >>= λ outs.
                ok (map character plain ++ (written (out ++ (0 ∷ r)) ∷ outs)))))
    × (10 ≤ length out
        → printf_template locals (plain ++ (b'%' ∷ b'd' ∷ b'!' ∷ [])) (number 12345678901 ∷ [])
          ≡ fault)
printf_template-uint64_to_string_example =
    printf_template-uint64_to_string locals plain b'd' (b'!' ∷ []) 12345678901 []
      (λ n. length-replicate {A = ℕ} n 7) (ground arith, (ground arith, tt)) (inl refl)
      (omega arith)
