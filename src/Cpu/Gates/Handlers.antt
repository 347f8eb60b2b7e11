-- ===== src/Cpu/Gates/Handlers.antt =====
-- The handler that the processor finds in a gate.
use potat_os.Prelude.{
  ℕ, ◌+◌, ◌*◌, ◌^◌, ◌<◌, ◌≡◌, ◌≢◌, refl, arith, List, some, ok, get_elem?, set, store, length,
  get_elem?-set_self, get_elem?-set_ne,
}
use potat_os.Cpu.Gates.{IdtEntry, with_handler, set_idt_entry}

-- The address in the three parts of a gate.
abbrev pub handler : IdtEntry → ℕ
handler e = e.offset1 + e.offset2 * 2 ^ 16 + e.offset3 * 2 ^ 32

-- `set_IDT_entry` of an entry inside the table returns; the processor then finds the 64-bit address
-- of the handler, the flags and the kernel's code segment in that entry, whose field `reserved` stays,
-- and the same entry as before at every other vector.
pub set_idt_entry-handler :
    (idt : List IdtEntry) (vector isr flags : ℕ) (e : IdtEntry)
    → get_elem? idt vector ≡ some e
    → vector < length idt
    → isr < 2 ^ 64
    → (idt' : List IdtEntry) × (e' : IdtEntry) × (set_idt_entry vector isr flags idt ≡ ok idt')
      × (get_elem? idt' vector ≡ some e')
      × (handler e' ≡ isr)
      × (e'.flags ≡ flags)
      × (e'.segment_selector ≡ 8)
      × (e'.reserved ≡ e.reserved)
      × ((other : ℕ) → vector ≢ other → get_elem? idt' other ≡ get_elem? idt other)
unfolding set_idt_entry store
set_idt_entry-handler idt vector isr flags e at inside fits = (
  set idt vector (with_handler isr flags e),
  with_handler isr flags e,
  rw at refl,
  get_elem?-set_self idt vector (with_handler isr flags e) inside,
  omega arith,
  refl,
  refl,
  refl,
  λ other ne. get_elem?-set_ne idt vector other (with_handler isr flags e) ne,
)
