-- ===== src/Cpu/Descriptors/Tests.antt =====
-- The descriptors that `init_GDT` makes, and the theorems at one of them.
use potat_os.Prelude.{◌≡◌, refl, [], ◌∷◌, ok, store}
use potat_os.Cpu.Descriptors.{
  create_gdt_entry, system_segment_word, create_system_segment_descriptor,
}

-- The kernel's code segment, 0x00209A0000000000.
kernel_code : create_gdt_entry 0 0 154 2 ≡ 9176524045418496
unfolding create_gdt_entry
kernel_code = refl

two_words :
    create_system_segment_descriptor (0 ∷ 0 ∷ 0 ∷ []) 1 4294967296 103 137 0
    ≡ ok (0 ∷ system_segment_word 4294967296 103 137 0 ∷ 1 ∷ [])
unfolding create_system_segment_descriptor store
two_words = refl
