-- ===== src/Drivers/Apic/Tests.antt =====
-- The keyboard's interrupt on an empty device: the witness of the theorem.
use potat_os.Prelude.{ℕ, ◌*◌, ◌^◌, ◌<◌, ◌≡◌, ◌≢◌, arith, false}
use potat_os.Prelude.Bits.Single.{bit}
use potat_os.Drivers.Apic.{Registers, map_ioapic, mask_ioapic, unmask_ioapic}
use potat_os.Drivers.Apic.Entries.{field, MaskIs, map_ioapic-field}

abbrev no_entries : Registers
no_entries r = 65536

map_ioapic-field_example :
    ((k : ℕ)
      → k < 32
      → bit k (map_ioapic 0 33 1 2 false false no_entries 18) ≡ field 65536 33 false false k)
    × (map_ioapic 0 33 1 2 false false no_entries 19 ≡ 2 * 2 ^ 28)
    × ((r : ℕ) → r ≢ 18 → r ≢ 19 → map_ioapic 0 33 1 2 false false no_entries r ≡ 65536)
    × ((g : Registers)
        → MaskIs (g 18) (mask_ioapic 0 1 g 18) 1
          × ((r : ℕ) → r ≢ 18 → mask_ioapic 0 1 g r ≡ g r)
          × MaskIs (g 18) (unmask_ioapic 0 1 g 18) 0
          × ((r : ℕ) → r ≢ 18 → unmask_ioapic 0 1 g r ≡ g r))
map_ioapic-field_example =
    map_ioapic-field 0 33 1 2 false false no_entries (omega arith) (omega arith)
