-- ===== src/Drivers/Apic.antt =====
-- The redirection entries of the I/O APIC, src/drivers/apic.c. The device is the array of the registers
-- that its index selects and its window shows. `gsi_base` is the device's first interrupt.
pub mod Entries
pub mod Tests
use potat_os.Prelude.{
  ℕ, ◌+◌, ◌*◌, ◌%◌, ◌^◌, Bool, true, false, ◌==◌, if◌then◌else◌, bit_and, bit_or,
}
use potat_os.Prelude.Bits.{◌<<<◌}

abbrev pub Registers : Type 0
Registers = ℕ → ℕ

unfoldable pub read_ioapic : Registers → ℕ → ℕ
read_ioapic regs reg = regs (bit_and reg 255)

unfoldable pub write_ioapic : Registers → ℕ → ℕ → Registers
write_ioapic regs reg value r = if r == bit_and reg 255 then value else regs r

-- `gsi_base + (irq * 2)` and the register numbers, each a uint32_t.
abbrev pub reg_num : ℕ → ℕ → ℕ → ℕ
reg_num first gsi_base irq = (first + (gsi_base + irq * 2) % 2 ^ 32) % 2 ^ 32

-- The masks `~0xFF`, `~0x700`, `~0x800`, `~0x2000`, `~0x8000` and `~0x10000` of a uint32_t.
unfoldable pub redirection_low : ℕ → ℕ → Bool → Bool → ℕ
redirection_low old vec polarity trigger =
    let vector = bit_or (bit_and old 4294967040) vec in
    let mode = bit_and (bit_and vector 4294965503) 4294965247 in
    let level = if polarity then bit_or mode 8192 else bit_and mode 4294959103 in
    let edge = if trigger then bit_or level 32768 else bit_and level 4294934527 in
    bit_and edge 4294901759

unfoldable pub map_ioapic : ℕ → ℕ → ℕ → ℕ → Bool → Bool → Registers → Registers
map_ioapic gsi_base vec irq lapic_id polarity trigger regs =
    let low = reg_num 16 gsi_base irq in
    let high = reg_num 17 gsi_base irq in
    let entry = redirection_low (read_ioapic regs low) vec polarity trigger in
    write_ioapic (write_ioapic regs low entry) high ((bit_and lapic_id 15 <<< 28) % 2 ^ 32)

unfoldable pub mask_ioapic : ℕ → ℕ → Registers → Registers
mask_ioapic gsi_base irq regs =
    let reg = reg_num 16 gsi_base irq in write_ioapic regs reg (bit_or (read_ioapic regs reg) 65536)

unfoldable pub unmask_ioapic : ℕ → ℕ → Registers → Registers
unmask_ioapic gsi_base irq regs =
    let reg = reg_num 16 gsi_base irq in
    write_ioapic regs reg (bit_and (read_ioapic regs reg) 4294901759)
