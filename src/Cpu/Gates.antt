-- ===== src/Cpu/Gates.antt =====
-- The interrupt gates of src/cpu/idt.c. The table is the list of its entries.
pub mod Handlers
pub mod Tests
use potat_os.Prelude.{ℕ, ◌/◌, ◌%◌, ◌^◌, List, Run, ok, checked, ◌>>=◌, get_elem?, store}
use potat_os.Prelude.Bits.{◌>>>◌}

pub record IdtEntry : Type 0 where
  pub offset1 : ℕ
  pub segment_selector : ℕ
  pub rsvd : ℕ
  pub flags : ℕ
  pub offset2 : ℕ
  pub offset3 : ℕ
  pub reserved : ℕ

-- The entry with the fields that `set_IDT_entry` assigns.
abbrev pub with_handler : ℕ → ℕ → IdtEntry → IdtEntry
with_handler isr flags e = record e {
  offset1 = isr % 2 ^ 16;
  offset2 = (isr >>> 16) % 2 ^ 16;
  offset3 = (isr >>> 32) % 2 ^ 32;
  flags = flags;
  segment_selector = 8;
}

unfoldable pub set_idt_entry : ℕ → ℕ → ℕ → List IdtEntry → Run (List IdtEntry)
set_idt_entry vector isr flags idt = do
  e ← checked (get_elem? idt vector)
  store idt vector (with_handler isr flags e)
