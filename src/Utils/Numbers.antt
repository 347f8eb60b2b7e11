-- ===== src/Utils/Numbers.antt =====
-- The number printers of src/utils/string.c. `stack` is what a local buffer holds before it is
-- written; its length is the buffer's. A store or a copy outside an object is a `fault`.
pub mod Loops
pub mod Reversed
pub mod Filled
pub mod Tests
use potat_os.Prelude.{
  ℕ, zero, suc, ◌+◌, ◌-◌, ◌/◌, ◌%◌, List, Run, ok, fault, out_of_fuel, ◌>>=◌, ◌==◌, ltb,
  if◌then◌else◌, store, bit_and,
}
use potat_os.Prelude.Bits.{◌>>>◌}
use potat_os.Utils.Strings.{memcpy}
use potat_os.Utils.Reverse.{ku_reverse}

-- The lowest digit as a character, and the number without it, in the bases 10, 16 and 2.
abbrev pub dec_char : ℕ → ℕ
dec_char num = b'0' + num % 10

abbrev pub dec_next : ℕ → ℕ
dec_next num = num / 10

abbrev pub hex_char : ℕ → ℕ
hex_char num =
    let digit = bit_and num 0xF in if ltb digit 10 then b'0' + digit else b'A' + (digit - 10)

abbrev pub hex_next : ℕ → ℕ
hex_next num = num >>> 4

abbrev pub bin_char : ℕ → ℕ
bin_char num = if bit_and num 1 == 0 then b'0' else b'1'

abbrev pub bin_next : ℕ → ℕ
bin_next num = num >>> 1

-- `while (num > 0) { buffer[index++] = char(num); num = next(num); }`: the index and the buffer.
pub digits_loop : (char next : ℕ → ℕ) → ℕ → ℕ → ℕ → List ℕ → Run (ℕ × List ℕ)
digits_loop char next zero num index buffer = out_of_fuel
digits_loop char next (suc k) num index buffer =
    let rest = do
      written ← store buffer index (char num)
      digits_loop char next k (next num) (index + 1) written
    in if num == 0 then ok (index, buffer) else rest

-- The digits with the special case for zero. 65 rounds are enough for a `uint64_t`.
pub write_digits : (char next : ℕ → ℕ) → ℕ → List ℕ → Run (ℕ × List ℕ)
write_digits char next num buffer =
    if num == 0
    then (do written ← store buffer 0 b'0'; ok (1, written))
    else digits_loop char next 65 num 0 buffer

-- Terminate the buffer, reverse it, and copy it with its terminator: the `for` loops that copy
-- byte by byte do what `ku_memcpy` does.
pub print_reversed : (char next : ℕ → ℕ) → List ℕ → ℕ → List ℕ → Run (List ℕ)
print_reversed char next stack num str = do
  (index, written) ← write_digits char next num stack
  terminated ← store written index 0
  reversed ← ku_reverse terminated index
  memcpy str reversed (index + 1)

unfoldable pub uint64_to_binary_string : List ℕ → ℕ → List ℕ → Run (List ℕ)
uint64_to_binary_string stack num buf = print_reversed bin_char bin_next stack num buf

unfoldable pub uint16_to_string : List ℕ → ℕ → List ℕ → Run (List ℕ)
uint16_to_string stack num str = print_reversed dec_char dec_next stack num str

unfoldable pub uint32_to_hex_string : List ℕ → ℕ → List ℕ → Run (List ℕ)
uint32_to_hex_string stack num str = print_reversed hex_char hex_next stack num str

-- `while (index < 16) buffer[index++] = '0';`, with 16 - index rounds.
pub pad_loop : ℕ → ℕ → List ℕ → Run (ℕ × List ℕ)
pad_loop zero index buffer = ok (index, buffer)
pad_loop (suc k) index buffer = do written ← store buffer index b'0'; pad_loop k (index + 1) written

unfoldable pub uint64_to_hex_string : List ℕ → ℕ → List ℕ → Run (List ℕ)
uint64_to_hex_string stack num str = do
  (index, written) ← write_digits hex_char hex_next num stack
  (index', padded) ← pad_loop (16 - index) index written
  terminated ← store padded index' 0
  reversed ← ku_reverse terminated index'
  memcpy str reversed 17

pub num_length_loop : ℕ → ℕ → ℕ → Run ℕ
num_length_loop zero num length = out_of_fuel
num_length_loop (suc k) num length =
    let rest = num_length_loop k (num / 10) (length + 1) in
    if ltb 0 (num / 10) then rest else ok (length + 1)

unfoldable pub get_num_length : ℕ → Run ℕ
get_num_length num = num_length_loop 20 num 0

-- `do { str[index--] = '0' + num % 10; num /= 10; } while (num > 0);` where `place` is
-- `index + 1`: `index` ends at -1.
pub fill_loop : ℕ → ℕ → ℕ → List ℕ → Run (List ℕ)
fill_loop zero num place str = out_of_fuel
fill_loop (suc k) num zero str = fault
fill_loop (suc k) num (suc index) str = do
  written ← store str index (b'0' + num % 10)
  let rest = fill_loop k (num / 10) index written
  if ltb 0 (num / 10) then rest else ok written

unfoldable pub uint64_to_string : ℕ → List ℕ → Run (List ℕ)
uint64_to_string num str = do
  length ← get_num_length num
  terminated ← store str length 0
  fill_loop 20 num length terminated

-- The same code at the narrower type.
unfoldable pub uint32_to_string : ℕ → List ℕ → Run (List ℕ)
uint32_to_string num str = do
  length ← get_num_length num
  terminated ← store str length 0
  fill_loop 20 num length terminated

unfoldable pub uint8_to_str : ℕ → List ℕ → Run (List ℕ)
uint8_to_str num buffer =
    if num == 0 then (do written ← store buffer 0 b'0'; store written 1 0) else (do
      (index, written) ← digits_loop dec_char dec_next 65 num 0 buffer
      terminated ← store written index 0
      ku_reverse terminated index)
