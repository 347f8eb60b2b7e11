-- ===== src/Cpu/Descriptors.antt =====
-- The segment descriptors of src/cpu/gdt.c and the gates of src/cpu/idt.c. Shifts of a uint64_t
-- wrap around; the tables are lists of their entries.
pub mod Fields
pub mod Tests
use potat_os.Prelude.{ℕ, ◌+◌, ◌*◌, ◌/◌, ◌%◌, ◌^◌, List, Run, ok, ◌>>=◌, store, bit_and, bit_or}
use potat_os.Prelude.Bits.{◌>>>◌}

abbrev pub shl : ℕ → ℕ → ℕ
shl x k = x * 2 ^ k % 2 ^ 64

unfoldable pub create_gdt_entry : ℕ → ℕ → ℕ → ℕ → ℕ
create_gdt_entry base limit access flags =
    let base1 = bit_and base 65535 in
    let base2 = bit_and (base >>> 16) 255 in
    let base3 = bit_and (base >>> 24) 255 in
    let limit1 = bit_and limit 65535 in
    let limit2 = limit >>> 16 in
    let e1 = bit_or 0 limit1 in
    let e2 = bit_or e1 (shl limit2 48) in
    let e3 = bit_or e2 (shl base1 16) in
    let e4 = bit_or e3 (shl base2 32) in
    let e5 = bit_or e4 (shl base3 56) in
    let e6 = bit_or e5 (shl access 40) in bit_or e6 (shl flags 52)

-- `GDT[idx]` as the assignments to it leave it.
unfoldable pub system_segment_word : ℕ → ℕ → ℕ → ℕ → ℕ
system_segment_word base limit access flags =
    let limit1 = bit_and limit 65535 in
    let limit2 = bit_and (limit >>> 16) 15 in
    let base1 = bit_and base 65535 in
    let base2 = bit_and (base >>> 16) 255 in
    let base3 = bit_and (base >>> 24) 255 in
    let e1 = bit_or 0 limit1 in
    let e2 = bit_or e1 (shl base1 16) in
    let e3 = bit_or e2 (shl base2 32) in
    let e4 = bit_or e3 (shl access 40) in
    let e5 = bit_or e4 (shl (bit_and limit2 15) 48) in
    let e6 = bit_or e5 (shl (bit_and flags 15) 52) in bit_or e6 (shl base3 56)

unfoldable pub create_system_segment_descriptor : List ℕ → ℕ → ℕ → ℕ → ℕ → ℕ → Run (List ℕ)
create_system_segment_descriptor gdt idx base limit access flags = do
  gdt' ← store gdt idx (system_segment_word base limit access flags)
  store gdt' (idx + 1) (bit_and (base >>> 32) 4294967295)
