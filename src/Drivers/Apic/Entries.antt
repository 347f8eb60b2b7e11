-- ===== src/Drivers/Apic/Entries.antt =====
-- The bits of a redirection entry.
use potat_os.Prelude.{
  ℕ, ◌+◌, ◌*◌, ◌%◌, ◌^◌, ◌<◌, ◌≤◌, ◌≡◌, refl, ◌≢◌, ap, sym, ◌∙◌, arith, Bool, true, false, ◌&&◌,
  ◌||◌, leb, ltb, ◌==◌, if◌then◌else◌, bit_and, bit_or, every, every_at, ==_iff, inl, inr,
  Bool-cases,
}
use native.Mathlib.Nat.{div-eq_of_lt}
use potat_os.Prelude.Bits.{bit_and_mask}
use potat_os.Prelude.Bits.Single.{bit, bit-bit_or, bit-bit_and}
use potat_os.Drivers.Apic.{
  Registers, reg_num, read_ioapic, write_ioapic, redirection_low, map_ioapic, mask_ioapic,
  unmask_ioapic,
}

-- The bits of a constant, by computation.
constant_bits :
    (c : ℕ) (p : ℕ → ℕ) → every 32 (λ k. bit k c == p k) ≡ true → (k : ℕ) → k < 32 → bit k c ≡ p k
constant_bits c p e k lt = (==_iff (bit k c) (p k)).0 (every_at (λ i. bit i c == p i) 32 k lt e)

-- A mask clears the bits where it has 0, and a constant sets those where it has 1.
bit-cleared :
    (x c : ℕ) (p : ℕ → Bool)
    → every 32 (λ k. bit k c == (if p k then 0 else 1)) ≡ true
    → (k : ℕ) → k < 32
    → bit k (bit_and x c) ≡ (if p k then 0 else bit k x)
bit-cleared x c p e k lt =
    let at = constant_bits c (λ i. if p i then 0 else 1) e k lt in
    let both = bit-bit_and k x c in
    let b = bit k x in
    elim (Bool-cases (p k)) [
      | inl yes_it ↦
          let zero_at : bit k c ≡ 0 = at ∙ ap (λ (t : Bool). if t then 0 else 1) yes_it in
          both ∙ omega (arith, zero_at) ∙ sym (ap (λ (t : Bool). if t then 0 else b) yes_it)
      | inr no_it ↦
          let one_at : bit k c ≡ 1 = at ∙ ap (λ (t : Bool). if t then 0 else 1) no_it in
          both ∙ omega (arith, one_at) ∙ sym (ap (λ (t : Bool). if t then 0 else b) no_it)
    ]

bit-set_ones :
    (x c : ℕ) (p : ℕ → Bool)
    → every 32 (λ k. bit k c == (if p k then 1 else 0)) ≡ true
    → (k : ℕ) → k < 32
    → bit k (bit_or x c) ≡ (if p k then 1 else bit k x)
bit-set_ones x c p e k lt =
    let at = constant_bits c (λ i. if p i then 1 else 0) e k lt in
    let both = bit-bit_or k x c in
    let b = bit k x in
    elim (Bool-cases (p k)) [
      | inl yes_it ↦
          let one_at : bit k c ≡ 1 = at ∙ ap (λ (t : Bool). if t then 1 else 0) yes_it in
          both ∙ omega (arith, one_at) ∙ sym (ap (λ (t : Bool). if t then 1 else b) yes_it)
      | inr no_it ↦
          let zero_at : bit k c ≡ 0 = at ∙ ap (λ (t : Bool). if t then 1 else 0) no_it in
          both ∙ omega (arith, zero_at) ∙ sym (ap (λ (t : Bool). if t then 1 else b) no_it)
    ]

-- The vector of an interrupt has eight bits.
bit_of_byte : (k v : ℕ) → 8 ≤ k → k < 32 → v < 256 → bit k v ≡ 0
bit_of_byte k v le lt fits =
    let large = every_at (λ i. ltb i 8 || leb 256 (2 ^ i)) 32 k lt refl in
    let above : 256 ≤ 2 ^ k = ground (arith, large, le) in
    ap (λ (x : ℕ). x % 2) (div-eq_of_lt {n = v} {m = 2 ^ k} (omega arith))

abbrev as_bit : Bool → ℕ
as_bit b = if b then 1 else 0

-- The entry in the I/O APIC's manual, bit by bit: the vector, the delivery and destination modes, the
-- polarity, the trigger mode and the mask; the others are as before.
abbrev pub field : ℕ → ℕ → Bool → Bool → ℕ → ℕ
field old vec polarity trigger k =
    if ltb k 8
    then bit k vec
    else if ltb k 12
    then 0
    else if k == 13
    then as_bit polarity
    else if k == 15
    then as_bit trigger
    else if k == 16
    then 0
    else bit k old

with_vector :
    (old vec k : ℕ)
    → vec < 256
    → k < 32
    → bit k (bit_or (bit_and old 4294967040) vec) ≡ (if ltb k 8 then bit k vec else bit k old)
with_vector old vec k fits lt =
    let rest = bit-cleared old 4294967040 (λ i. ltb i 8) refl k lt in
    let both = bit-bit_or k (bit_and old 4294967040) vec in
    elim (Bool-cases (ltb k 8)) [
      | inl low ↦
          let gone : bit k (bit_and old 4294967040) ≡ 0 =
            rest ∙ ap (λ (t : Bool). if t then 0 else bit k old) low in
          both
          ∙ omega (arith, gone)
          ∙ sym (ap (λ (t : Bool). if t then bit k vec else bit k old) low)
      | inr high ↦
          let kept : bit k (bit_and old 4294967040) ≡ bit k old =
            rest ∙ ap (λ (t : Bool). if t then 0 else bit k old) high in
          let none = bit_of_byte k vec (ground (arith, high)) lt fits in
          both
          ∙ omega (arith, kept, none)
          ∙ sym (ap (λ (t : Bool). if t then bit k vec else bit k old) high)
    ]

field_cases :
    (k t p v o b4 b3 b2 b1 b0 : ℕ)
    → b4 ≡ (if k == 15 then t else b3)
    → b3 ≡ (if k == 13 then p else b2)
    → b2 ≡ (if k == 11 then 0 else b1)
    → b1 ≡ (if leb 8 k && ltb k 11 then 0 else b0)
    → b0 ≡ (if ltb k 8 then v else o)
    → (if k == 16 then 0 else b4) ≡ (
        if ltb k 8
        then v
        else if ltb k 12
        then 0
        else if k == 13
        then p
        else if k == 15
        then t
        else if k == 16
        then 0
        else o)
field_cases k t p v o b4 b3 b2 b1 b0 e4 e3 e2 e1 e0 = ground arith

redirection_low-field :
    (old vec k : ℕ) (polarity trigger : Bool)
    → vec < 256
    → k < 32
    → bit k (redirection_low old vec polarity trigger) ≡ field old vec polarity trigger k
unfolding redirection_low
redirection_low-field old vec k polarity trigger fits lt =
    let x0 = bit_or (bit_and old 4294967040) vec in
    let s0 = with_vector old vec k fits lt in
    let x1 = bit_and x0 4294965503 in
    let s1 = bit-cleared x0 4294965503 (λ i. leb 8 i && ltb i 11) refl k lt in
    let x2 = bit_and x1 4294965247 in
    let s2 = bit-cleared x1 4294965247 (λ i. i == 11) refl k lt in
    let x3 : ℕ = if polarity then bit_or x2 8192 else bit_and x2 4294959103 in
    let s3 : bit k x3 ≡ (if k == 13 then as_bit polarity else bit k x2) =
      elim polarity
        as (λ b.
          bit k (if b then bit_or x2 8192 else bit_and x2 4294959103)
          ≡ (if k == 13 then as_bit b else bit k x2)) [
            | true ↦ bit-set_ones x2 8192 (λ i. i == 13) refl k lt
            | false ↦ bit-cleared x2 4294959103 (λ i. i == 13) refl k lt
          ] in
    let x4 : ℕ = if trigger then bit_or x3 32768 else bit_and x3 4294934527 in
    let s4 : bit k x4 ≡ (if k == 15 then as_bit trigger else bit k x3) =
      elim trigger
        as (λ b.
          bit k (if b then bit_or x3 32768 else bit_and x3 4294934527)
          ≡ (if k == 15 then as_bit b else bit k x3)) [
            | true ↦ bit-set_ones x3 32768 (λ i. i == 15) refl k lt
            | false ↦ bit-cleared x3 4294934527 (λ i. i == 15) refl k lt
          ] in
    let s5 = bit-cleared x4 4294901759 (λ i. i == 16) refl k lt in
    s5
    ∙ field_cases k (as_bit trigger) (as_bit polarity) (bit k vec) (bit k old) (bit k x4) (bit k x3)
        (bit k x2) (bit k x1) (bit k x0) s4 s3 s2 s1 s0

-- The mask bit.
abbrev pub MaskIs : ℕ → ℕ → ℕ → Type 0
MaskIs old new m = (k : ℕ) → k < 32 → bit k new ≡ (if k == 16 then m else bit k old)

module _ (gsi_base irq : ℕ) (inside : 17 + gsi_base + irq * 2 < 256) where
  -- The interrupt's first register.
  low : ℕ
  low = 16 + gsi_base + irq * 2

  at_first : bit_and (reg_num 16 gsi_base irq) 255 ≡ low
  unfolding low
  at_first = omega (arith, bit_and_mask 8 (reg_num 16 gsi_base irq))

  at_second : bit_and (reg_num 17 gsi_base irq) 255 ≡ low + 1
  unfolding low
  at_second = omega (arith, bit_and_mask 8 (reg_num 17 gsi_base irq))

  self_test : (low == low) ≡ true
  self_test = ground arith

  next_test : (low == (low + 1)) ≡ false
  next_test = ground arith

  mask_ioapic-low : (regs : Registers) → mask_ioapic gsi_base irq regs low ≡ bit_or (regs low) 65536
  unfolding mask_ioapic read_ioapic write_ioapic
  mask_ioapic-low regs = rw (at_first, self_test) refl

  unmask_ioapic-low :
      (regs : Registers) → unmask_ioapic gsi_base irq regs low ≡ bit_and (regs low) 4294901759
  unfolding unmask_ioapic read_ioapic write_ioapic
  unmask_ioapic-low regs = rw (at_first, self_test) refl

  other_test : (r : ℕ) → r ≢ low → (r == low) ≡ false
  other_test r ne = ground (arith, ne)

  mask_ioapic_other :
      (regs : Registers) (r : ℕ) → r ≢ low → mask_ioapic gsi_base irq regs r ≡ regs r
  unfolding mask_ioapic write_ioapic
  mask_ioapic_other regs r ne = rw (at_first, other_test r ne) refl

  unmask_ioapic_other :
      (regs : Registers) (r : ℕ) → r ≢ low → unmask_ioapic gsi_base irq regs r ≡ regs r
  unfolding unmask_ioapic write_ioapic
  unmask_ioapic_other regs r ne = rw (at_first, other_test r ne) refl

  module _ (vec lapic_id : ℕ) (polarity trigger : Bool) (regs : Registers) where
    mapped : Registers
    mapped = map_ioapic gsi_base vec irq lapic_id polarity trigger regs

    mapped_low : mapped low ≡ redirection_low (regs low) vec polarity trigger
    unfolding mapped map_ioapic read_ioapic write_ioapic
    mapped_low = rw (at_first, at_second, next_test, self_test) refl

    mapped_high : mapped (low + 1) ≡ lapic_id % 16 * 2 ^ 28
    unfolding mapped map_ioapic read_ioapic write_ioapic
    mapped_high =
        let test : ((low + 1) == (low + 1)) ≡ true = ground arith in
        rw (at_first, at_second, test) (omega (arith, bit_and_mask 4 lapic_id))

    mapped_other : (r : ℕ) → r ≢ low → r ≢ low + 1 → mapped r ≡ regs r
    unfolding mapped map_ioapic read_ioapic write_ioapic
    mapped_other r ne ne' =
        let test : (r == low) ≡ false = ground (arith, ne) in
        let test' : (r == (low + 1)) ≡ false = ground (arith, ne') in
        rw (at_first, at_second, test', test) refl

-- map_ioapic of an interrupt that the device has, with a vector below 256, puts the vector, the
-- polarity and the trigger mode into the interrupt's entry, in fixed delivery mode, physical
-- destination mode and unmasked, keeps the other bits of the entry's first register, puts the low four
-- bits of the local APIC's number into the top of its second one, with zeros below, and changes no other
-- register. On every state of the device, mask_ioapic sets and unmask_ioapic clears the mask bit of the
-- entry's first register, and neither changes another bit of it or another register.
pub map_ioapic-field :
    (gsi_base vec irq lapic_id : ℕ) (polarity trigger : Bool) (regs : Registers)
    → vec < 256
    → 17 + gsi_base + irq * 2 < 256
    → let low = 16 + gsi_base + irq * 2 in
      let mapped = map_ioapic gsi_base vec irq lapic_id polarity trigger regs in
      ((k : ℕ) → k < 32 → bit k (mapped low) ≡ field (regs low) vec polarity trigger k)
      × (mapped (low + 1) ≡ lapic_id % 16 * 2 ^ 28)
      × ((r : ℕ) → r ≢ low → r ≢ low + 1 → mapped r ≡ regs r)
      × ((g : Registers)
          → MaskIs (g low) (mask_ioapic gsi_base irq g low) 1
            × ((r : ℕ) → r ≢ low → mask_ioapic gsi_base irq g r ≡ g r)
            × MaskIs (g low) (unmask_ioapic gsi_base irq g low) 0
            × ((r : ℕ) → r ≢ low → unmask_ioapic gsi_base irq g r ≡ g r))
unfolding low mapped
map_ioapic-field gsi_base vec irq lapic_id polarity trigger regs fits inside =
    let first = low gsi_base irq inside in
    (
      (λ k lt.
          ap (bit k) (mapped_low gsi_base irq inside vec lapic_id polarity trigger regs)
          ∙ redirection_low-field (regs first) vec k polarity trigger fits lt),
      mapped_high gsi_base irq inside vec lapic_id polarity trigger regs,
      mapped_other gsi_base irq inside vec lapic_id polarity trigger regs,
      λ g. (
        (λ k lt.
            ap (bit k) (mask_ioapic-low gsi_base irq inside g)
            ∙ bit-set_ones (g first) 65536 (λ i. i == 16) refl k lt),
        mask_ioapic_other gsi_base irq inside g,
        (λ k lt.
            ap (bit k) (unmask_ioapic-low gsi_base irq inside g)
            ∙ bit-cleared (g first) 4294901759 (λ i. i == 16) refl k lt),
        unmask_ioapic_other gsi_base irq inside g,
      ),
    )
