-- ===== src/Mem/Paging/Tests.antt =====
-- An empty page tree, with kmalloc giving one page after the other: witnesses of the theorems.
use potat_os.Prelude.{
  ℕ, ◌+◌, ◌-◌, ◌*◌, ◌%◌, ◌^◌, ◌<◌, ◌≡◌, refl, arith, inl, inr, ok, halted, [], ◌∷◌, ◌⊎◌, ◌≢◌,
}
use potat_os.Prelude.Bits.{bit_and_mask}
use potat_os.Mem.Paging.{Tables, Mapping, map_pages, virt_to_phys}
use potat_os.Mem.Paging.Trees.{Apart}
use potat_os.Mem.Paging.Growth.{Fresh}
use potat_os.Mem.Paging.Trees.{entry}
use potat_os.Mem.Paging.Translate.{page_number, Mapped, map_pages-virt_to_phys, map_pages_halted}
use potat_os.Mem.Paging.Vmem.{write_vmem, Found, Copied, write_vmem-Found, write_vmem-Copied}
use potat_os.Mem.Paging.Kernel.{map_sections}
use potat_os.Mem.Paging.Direct.{Direct, Within, map_sections-Direct, map_sections_halted}
use potat_os.Mem.Pmm.{MemmapEntry, Memory}

abbrev pub hhdm : ℕ
hhdm = 2 ^ 47

abbrev pub page : ℕ → ℕ
page k = 4096 * (k + 1)

abbrev pub no_tables : Tables
no_tables a j = 0

pub pages_different : (j k : ℕ) → page j ≡ page k → j ≡ k
pages_different j k e = omega arith

pub pages_aligned : (k : ℕ) → page k % 4096 ≡ 0
pages_aligned k = omega arith

pub no_tables-Apart : Apart hhdm 3 no_tables hhdm
no_tables-Apart i lt ne = absurd (ne refl)

pub no_tables-Fresh : Fresh hhdm page pages_different 3 no_tables hhdm 0
no_tables-Fresh k le (inl e) = absurd (omega arith)
no_tables-Fresh k le (inr (i, lt, ne, o)) = absurd (ne refl)

map_pages-virt_to_phys_example :
    (s' : Mapping) × (map_pages hhdm page 3 hhdm 20480 32768 3 no_tables 0 ≡ ok s')
    × Mapped hhdm page pages_different pages_aligned 3
        (omega arith)
        hhdm
        20480
        32768
        3
        no_tables
        0
        no_tables-Apart
        no_tables-Fresh
        (omega arith)
        (omega arith)
        s'
map_pages-virt_to_phys_example =
    map_pages-virt_to_phys hhdm page pages_different pages_aligned 3 (omega arith) hhdm 20480 32768
      3 no_tables 0 no_tables-Apart no_tables-Fresh (omega arith) (omega arith) (omega arith)
      (omega arith) (omega arith)

map_pages_halted_example : map_pages hhdm page 3 hhdm (2 ^ 48 - 4096) 32768 2 no_tables 0 ≡ halted
map_pages_halted_example =
    map_pages_halted hhdm page pages_different pages_aligned 3 (omega arith) hhdm (2 ^ 48 - 4096)
      32768 2 no_tables 0 no_tables-Apart no_tables-Fresh (omega arith) (omega arith) (omega arith)

-- A usable section of three pages and a half.
abbrev section : MemmapEntry
section = record { base = 65536; length = 14336; type = 0 }

map_sections-Direct_example :
    (w' : Tables) × (calls' : ℕ) × (map_sections hhdm page (section ∷ []) hhdm no_tables 0
      ≡ ok (w', calls'))
    × ((x : ℕ)
        → x + hhdm % 2 ^ 48 < 2 ^ 48
        → Direct hhdm page pages_different pages_aligned (refl) hhdm no_tables x
          ⊎ Within hhdm page pages_different pages_aligned (refl) hhdm x (section ∷ [])
        → Direct hhdm page pages_different pages_aligned (refl) hhdm w' x)
map_sections-Direct_example =
    map_sections-Direct hhdm page pages_different pages_aligned refl hhdm (section ∷ []) no_tables 0
      no_tables-Apart no_tables-Fresh ((λ e. (omega arith, omega arith, omega arith)), tt)

-- A section of one kilobyte, as the end of low memory often is.
abbrev short_section : MemmapEntry
short_section = record { base = 654336; length = 1024; type = 0 }

map_sections_halted_example : map_sections hhdm page (short_section ∷ []) hhdm no_tables 0 ≡ halted
map_sections_halted_example =
    map_sections_halted hhdm page pages_different pages_aligned refl hhdm short_section [] no_tables
      0 no_tables-Apart no_tables-Fresh refl (omega arith)

-- Every page is mapped to the frame at 0.
abbrev one_frame : Tables
one_frame a j = 1

virt_to_phys-one_frame : (k : ℕ) → k < 4096 → virt_to_phys hhdm one_frame hhdm k ≡ k
unfolding virt_to_phys
virt_to_phys-one_frame k lt = omega (arith, bit_and_mask 48 k)

always_there : (p : ℕ) → entry hhdm 3 one_frame hhdm p ≢ 0
unfolding entry
always_there p e = absurd (omega arith)

write_vmem-Found_example :
    (m' : Memory) × (write_vmem 3 hhdm one_frame hhdm 0 (7 ∷ 8 ∷ []) 2 (λ a. 0) ≡ ok m')
    × Found hhdm one_frame hhdm 0 (7 ∷ 8 ∷ []) 2 (λ a. 0) m'
write_vmem-Found_example =
    write_vmem-Found hhdm one_frame hhdm 3 0 2 (7 ∷ 8 ∷ []) (λ a. 0) refl (omega arith)
      (omega arith) (λ k lt. always_there (page_number (0 + k))) both
  where
    both :
        (j k : ℕ)
        → j < 2
        → k < 2
        → virt_to_phys hhdm one_frame hhdm (0 + j) ≡ virt_to_phys hhdm one_frame hhdm (0 + k)
        → j ≡ k
    both j k a b e = omega (
      arith,
      e,
      virt_to_phys-one_frame (0 + j) (omega arith),
      virt_to_phys-one_frame (0 + k) (omega arith),
    )

write_vmem-Copied_example :
    (m' : Memory) × (write_vmem 2 hhdm one_frame hhdm 4095 (7 ∷ 8 ∷ []) 2 (λ a. 0) ≡ ok m')
    × Copied (λ a. 0) (virt_to_phys hhdm one_frame hhdm 4095 + hhdm) (7 ∷ 8 ∷ []) 2 m'
write_vmem-Copied_example =
    write_vmem-Copied hhdm one_frame hhdm 2 4095 2 (7 ∷ 8 ∷ []) (λ a. 0) (omega arith) (omega arith)
      (omega arith) (omega arith)
      (λ e. absurd (omega (arith, e, virt_to_phys-one_frame 4095 (omega arith))))
