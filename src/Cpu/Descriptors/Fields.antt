-- ===== src/Cpu/Descriptors/Fields.antt =====
-- The descriptors as the processor reads them.
use potat_os.Prelude.{ℕ, ◌+◌, ◌*◌, ◌/◌, ◌%◌, ◌^◌, ◌<◌, ◌≡◌, ◌∙◌, arith, bit_or}
use potat_os.Prelude.Bits.{bit_and_mask, bit_or_field, zero-bit_or}
use potat_os.Cpu.Descriptors.{shl, create_gdt_entry, system_segment_word}

-- The layout of a segment descriptor in the processor's manual: its bits, from the lowest on.
abbrev pub descriptor : ℕ → ℕ → ℕ → ℕ → ℕ
descriptor base limit access flags =
    limit % 2 ^ 16
    + base % 2 ^ 24 * 2 ^ 16
    + access * 2 ^ 40
    + limit / 2 ^ 16 * 2 ^ 48
    + flags * 2 ^ 52
    + base / 2 ^ 24 * 2 ^ 56

-- The fields from the lowest on, each within its width.
abbrev AreFields : ℕ → ℕ → ℕ → ℕ → ℕ → ℕ → ℕ → Type 0
AreFields l1 b1 b2 ac l2 fl b3 =
    (l1 < 2 ^ 16)
    × (b1 < 2 ^ 16)
    × (b2 < 2 ^ 8)
    × (ac < 2 ^ 8)
    × (l2 < 2 ^ 4)
    × (fl < 2 ^ 4)
    × (b3 < 2 ^ 8)

entry_order :
    (l1 b1 b2 ac l2 fl b3 : ℕ)
    → AreFields l1 b1 b2 ac l2 fl b3
    → bit_or
        (bit_or
          (bit_or
            (bit_or (bit_or (bit_or (bit_or 0 l1) (shl l2 48)) (shl b1 16)) (shl b2 32))
            (shl b3 56))
          (shl ac 40))
        (shl fl 52)
      ≡ l1 + b1 * 2 ^ 16 + b2 * 2 ^ 32 + ac * 2 ^ 40 + l2 * 2 ^ 48 + fl * 2 ^ 52 + b3 * 2 ^ 56
entry_order l1 b1 b2 ac l2 fl b3 (x1, x2, x3, x4, x5, x6, x7) =
    let e0 = bit_or 0 l1 in
    let s0 : e0 ≡ l1 = zero-bit_or l1 in
    let t1 : shl l2 48 ≡ l2 * 2 ^ 48 = omega arith in
    let e1 = bit_or e0 (shl l2 48) in
    let s1 : e1 ≡ e0 + shl l2 48 =
      bit_or_field 48 4 (0) l2 (l1) e0 (shl l2 48) (omega arith) (omega arith) (omega arith) t1 in
    let t2 : shl b1 16 ≡ b1 * 2 ^ 16 = omega arith in
    let e2 = bit_or e1 (shl b1 16) in
    let s2 : e2 ≡ e1 + shl b1 16 =
      bit_or_field 16 16 (l2 * 2 ^ 16) b1 (l1) e1 (shl b1 16) (omega arith) (omega arith)
        (omega arith) t2 in
    let t3 : shl b2 32 ≡ b2 * 2 ^ 32 = omega arith in
    let e3 = bit_or e2 (shl b2 32) in
    let s3 : e3 ≡ e2 + shl b2 32 =
      bit_or_field 32 8 (l2 * 2 ^ 8) b2 (l1 + b1 * 2 ^ 16) e2 (shl b2 32) (omega arith)
        (omega arith) (omega arith) t3 in
    let t4 : shl b3 56 ≡ b3 * 2 ^ 56 = omega arith in
    let e4 = bit_or e3 (shl b3 56) in
    let s4 : e4 ≡ e3 + shl b3 56 =
      bit_or_field 56 8 (0) b3 (l1 + l2 * 2 ^ 48 + b1 * 2 ^ 16 + b2 * 2 ^ 32) e3 (shl b3 56)
        (omega arith) (omega arith) (omega arith) t4 in
    let t5 : shl ac 40 ≡ ac * 2 ^ 40 = omega arith in
    let e5 = bit_or e4 (shl ac 40) in
    let s5 : e5 ≡ e4 + shl ac 40 =
      bit_or_field 40 8 (l2 * 2 ^ 0 + b3 * 2 ^ 8) ac (l1 + b1 * 2 ^ 16 + b2 * 2 ^ 32) e4 (shl ac 40)
        (omega arith) (omega arith) (omega arith) t5 in
    let t6 : shl fl 52 ≡ fl * 2 ^ 52 = omega arith in
    let e6 = bit_or e5 (shl fl 52) in
    let s6 : e6 ≡ e5 + shl fl 52 =
      bit_or_field 52 4 (b3 * 2 ^ 0) fl (l1 + l2 * 2 ^ 48 + b1 * 2 ^ 16 + b2 * 2 ^ 32 + ac * 2 ^ 40)
        e5 (shl fl 52) (omega arith) (omega arith) (omega arith) t6 in
    omega arith

word_order :
    (l1 b1 b2 ac l2 fl b3 : ℕ)
    → AreFields l1 b1 b2 ac l2 fl b3
    → bit_or
        (bit_or
          (bit_or
            (bit_or (bit_or (bit_or (bit_or 0 l1) (shl b1 16)) (shl b2 32)) (shl ac 40))
            (shl l2 48))
          (shl fl 52))
        (shl b3 56)
      ≡ l1 + b1 * 2 ^ 16 + b2 * 2 ^ 32 + ac * 2 ^ 40 + l2 * 2 ^ 48 + fl * 2 ^ 52 + b3 * 2 ^ 56
word_order l1 b1 b2 ac l2 fl b3 (x1, x2, x3, x4, x5, x6, x7) =
    let e0 = bit_or 0 l1 in
    let s0 : e0 ≡ l1 = zero-bit_or l1 in
    let t1 : shl b1 16 ≡ b1 * 2 ^ 16 = omega arith in
    let e1 = bit_or e0 (shl b1 16) in
    let s1 : e1 ≡ e0 + shl b1 16 =
      bit_or_field 16 16 (0) b1 (l1) e0 (shl b1 16) (omega arith) (omega arith) (omega arith) t1 in
    let t2 : shl b2 32 ≡ b2 * 2 ^ 32 = omega arith in
    let e2 = bit_or e1 (shl b2 32) in
    let s2 : e2 ≡ e1 + shl b2 32 =
      bit_or_field 32 8 (0) b2 (l1 + b1 * 2 ^ 16) e1 (shl b2 32) (omega arith) (omega arith)
        (omega arith) t2 in
    let t3 : shl ac 40 ≡ ac * 2 ^ 40 = omega arith in
    let e3 = bit_or e2 (shl ac 40) in
    let s3 : e3 ≡ e2 + shl ac 40 =
      bit_or_field 40 8 (0) ac (l1 + b1 * 2 ^ 16 + b2 * 2 ^ 32) e2 (shl ac 40) (omega arith)
        (omega arith) (omega arith) t3 in
    let t4 : shl l2 48 ≡ l2 * 2 ^ 48 = omega arith in
    let e4 = bit_or e3 (shl l2 48) in
    let s4 : e4 ≡ e3 + shl l2 48 =
      bit_or_field 48 4 (0) l2 (l1 + b1 * 2 ^ 16 + b2 * 2 ^ 32 + ac * 2 ^ 40) e3 (shl l2 48)
        (omega arith) (omega arith) (omega arith) t4 in
    let t5 : shl fl 52 ≡ fl * 2 ^ 52 = omega arith in
    let e5 = bit_or e4 (shl fl 52) in
    let s5 : e5 ≡ e4 + shl fl 52 =
      bit_or_field 52 4 (0) fl (l1 + b1 * 2 ^ 16 + b2 * 2 ^ 32 + ac * 2 ^ 40 + l2 * 2 ^ 48) e4
        (shl fl 52) (omega arith) (omega arith) (omega arith) t5 in
    let t6 : shl b3 56 ≡ b3 * 2 ^ 56 = omega arith in
    let e6 = bit_or e5 (shl b3 56) in
    let s6 : e6 ≡ e5 + shl b3 56 =
      bit_or_field 56 8 (0) b3
        (l1 + b1 * 2 ^ 16 + b2 * 2 ^ 32 + ac * 2 ^ 40 + l2 * 2 ^ 48 + fl * 2 ^ 52) e5 (shl b3 56)
        (omega arith) (omega arith) (omega arith) t6 in
    omega arith

-- `create_gdt_entry` of a 32-bit base, a 20-bit limit, an access byte and four flags is the
-- descriptor of the processor's manual, every field in its place.
pub create_gdt_entry-descriptor :
    (base limit access flags : ℕ)
    → base < 2 ^ 32
    → limit < 2 ^ 20
    → access < 2 ^ 8
    → flags < 2 ^ 4
    → create_gdt_entry base limit access flags ≡ descriptor base limit access flags
unfolding create_gdt_entry
create_gdt_entry-descriptor base limit access flags hb hl ha hf =
    let ml = bit_and_mask 16 limit in
    let m1 = bit_and_mask 16 base in
    let m2 = bit_and_mask 8 (base / 2 ^ 16) in
    let m3 = bit_and_mask 8 (base / 2 ^ 24) in
    let whole =
      entry_order (limit % 2 ^ 16) (base % 2 ^ 16) (base / 2 ^ 16 % 2 ^ 8) access (limit / 2 ^ 16)
        flags (base / 2 ^ 24 % 2 ^ 8)
        (omega arith, omega arith, omega arith, ha, omega arith, hf, omega arith) in
    rw (ml, m1, m2, m3) (whole ∙ omega arith)

-- The first word that `create_system_segment_descriptor` writes, with a limit of 20 bits and an
-- access byte, is the same descriptor, of the low 32 bits of the base and the low four flags.
pub system_segment_word-descriptor :
    (base limit access flags : ℕ)
    → limit < 2 ^ 20
    → access < 2 ^ 8
    → system_segment_word base limit access flags
      ≡ descriptor (base % 2 ^ 32) limit access (flags % 2 ^ 4)
unfolding system_segment_word
system_segment_word-descriptor base limit access flags hl ha =
    let ml = bit_and_mask 16 limit in
    let ml2 = bit_and_mask 4 (limit / 2 ^ 16) in
    let again = bit_and_mask 4 (limit / 2 ^ 16 % 2 ^ 4) in
    let mf = bit_and_mask 4 flags in
    let m1 = bit_and_mask 16 base in
    let m2 = bit_and_mask 8 (base / 2 ^ 16) in
    let m3 = bit_and_mask 8 (base / 2 ^ 24) in
    let whole =
      word_order (limit % 2 ^ 16) (base % 2 ^ 16) (base / 2 ^ 16 % 2 ^ 8) access
        (limit / 2 ^ 16 % 2 ^ 4 % 2 ^ 4) (flags % 2 ^ 4) (base / 2 ^ 24 % 2 ^ 8)
        (omega arith, omega arith, omega arith, ha, omega arith, omega arith, omega arith) in
    rw (ml, ml2, again, mf, m1, m2, m3) (whole ∙ omega arith)
