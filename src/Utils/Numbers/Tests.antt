-- ===== src/Utils/Numbers/Tests.antt =====
-- Runs of the number printers, and their theorems at concrete numbers.
use potat_os.Prelude.{ℕ, List, ◌∷◌, [], ◌≡◌, refl, ok, fault, arith, replicate, store}
use potat_os.Utils.Strings.{memcpy}
use potat_os.Utils.Reverse.{ku_reverse}
use potat_os.Utils.Numbers.{
  digits_loop, write_digits, print_reversed, pad_loop, num_length_loop, fill_loop, uint16_to_string,
  uint32_to_hex_string, uint64_to_hex_string, get_num_length, uint64_to_string, uint32_to_string,
  uint8_to_str,
}
use potat_os.Utils.Numbers.Reversed.{Prints, dec_digit, uint16_to_string-Prints}

-- A destination or a local buffer of `n` bytes.
abbrev bytes : ℕ → List ℕ
bytes n = replicate n 7

runs :
    (uint16_to_string (bytes 6) 305 (bytes 6) ≡ ok (b'3' ∷ b'0' ∷ b'5' ∷ 0 ∷ 7 ∷ 7 ∷ []))
    × (uint32_to_hex_string (bytes 9) 0x2B (bytes 9)
        ≡ ok (b'2' ∷ b'B' ∷ 0 ∷ 7 ∷ 7 ∷ 7 ∷ 7 ∷ 7 ∷ 7 ∷ []))
    × (uint64_to_string 0 (bytes 2) ≡ ok (b'0' ∷ 0 ∷ []))
    × (uint32_to_string 17 (bytes 2) ≡ fault)
    × (uint8_to_str 255 (bytes 5) ≡ ok (b'2' ∷ b'5' ∷ b'5' ∷ 0 ∷ 7 ∷ []))
    × (uint8_to_str 0 (bytes 3) ≡ ok (b'0' ∷ 0 ∷ 7 ∷ []))
unfolding digits_loop write_digits print_reversed num_length_loop fill_loop uint16_to_string
    uint32_to_hex_string get_num_length uint64_to_string uint32_to_string uint8_to_str ku_reverse
    memcpy store
runs = (refl, refl, refl, refl, refl, refl)

hex_run :
    uint64_to_hex_string (bytes 17) 0xAB (bytes 17)
    ≡ ok (
        b'0' ∷ b'0' ∷ b'0' ∷ b'0' ∷ b'0' ∷ b'0' ∷ b'0' ∷ b'0' ∷ b'0' ∷ b'0' ∷ b'0' ∷ b'0' ∷ b'0'
        ∷ b'0' ∷ b'A' ∷ b'B' ∷ 0 ∷ [])
unfolding digits_loop write_digits pad_loop uint64_to_hex_string ku_reverse memcpy store
hex_run = refl

uint16_to_string-Prints_example :
    Prints 10 dec_digit 5 305 (bytes 8) (uint16_to_string (bytes 6) 305 (bytes 8))
uint16_to_string-Prints_example =
    uint16_to_string-Prints 305 (bytes 6) (bytes 8) (omega arith) refl (omega arith)
