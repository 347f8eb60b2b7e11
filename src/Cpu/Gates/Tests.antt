-- ===== src/Cpu/Gates/Tests.antt =====
-- The theorem on gates at a table of two.
use potat_os.Prelude.{ℕ, ◌≡◌, ◌≢◌, refl, arith, List, [], ◌∷◌, some, ok, get_elem?}
use potat_os.Cpu.Gates.{IdtEntry, set_idt_entry}
use potat_os.Cpu.Gates.Handlers.{handler, set_idt_entry-handler}

abbrev empty : IdtEntry
empty = record {
  offset1 = 0;
  segment_selector = 0;
  rsvd = 0;
  flags = 0;
  offset2 = 0;
  offset3 = 0;
  reserved = 0;
}

abbrev gates : List IdtEntry
gates = empty ∷ empty ∷ []

set_idt_entry-handler_example :
    (idt' : List IdtEntry) × (e' : IdtEntry) × (set_idt_entry 1 18446744071562067968 142 gates
      ≡ ok idt')
    × (get_elem? idt' 1 ≡ some e')
    × (handler e' ≡ 18446744071562067968)
    × (e'.flags ≡ 142)
    × (e'.segment_selector ≡ 8)
    × (e'.reserved ≡ 0)
    × ((other : ℕ) → 1 ≢ other → get_elem? idt' other ≡ get_elem? gates other)
set_idt_entry-handler_example =
    set_idt_entry-handler gates 1 18446744071562067968 142 empty refl (omega arith) (omega arith)
