-- ===== src/Mem/Paging/Kernel.antt =====
-- The kernel's mappings of src/mem/map.c, and the page trees that src/mem/paging.c starts with.
use potat_os.Prelude.{
  ℕ, ◌+◌, ◌-◌, ◌*◌, ◌/◌, ◌^◌, Bool, ◌||◌, ◌==◌, if◌then◌else◌, List, [], ◌∷◌, Run, ok, ◌>>=◌,
}
use potat_os.Mem.Pmm.{MemmapEntry}
use potat_os.Mem.Kheap.{page_align_up}
use potat_os.Mem.Paging.{Tables, page_align_down, clear, map_pages, alloc_pages}

-- What the linker and the bootloader give.
pub record Image : Type 0 where
  pub kernel_start : ℕ
  pub writeallowed_start : ℕ
  pub kernel_end : ℕ
  pub physical_base : ℕ
  pub virtual_base : ℕ
  pub entries : List MemmapEntry

-- KERNEL_STACK_ADDR and KERNEL_STACK_PAGES.
abbrev kernel_stack_addr : ℕ
kernel_stack_addr = 2 ^ 64 - 4096 - 2 * 4096

abbrev kernel_stack_pages : ℕ
kernel_stack_pages = 2

-- The types of sections that are mapped: usable, reclaimable from the bootloader, framebuffer, kernel
-- and modules, and the two of ACPI.
abbrev pub is_mapped : ℕ → Bool
is_mapped type =
    (type == 0) || ((type == 5) || ((type == 7) || ((type == 6) || ((type == 3) || (type == 2)))))

module _ (hhdm : ℕ) (page : ℕ → ℕ) where
  unfoldable pub map_sections : List MemmapEntry → ℕ → Tables → ℕ → Run (Tables × ℕ)
  map_sections [] pml4 w calls = ok (w, calls)
  map_sections (entry ∷ entries) pml4 w calls =
      if is_mapped entry.type
      then (do
        s ← map_pages hhdm page 3 pml4 (entry.base + hhdm) entry.base (entry.length / 4096) w calls
        map_sections entries pml4 s.tables s.calls)
      else map_sections entries pml4 w calls

  unfoldable pub map_kernel : Image → ℕ → Tables → ℕ → Run (Tables × ℕ)
  map_kernel k pml4 w calls = do
    code ←
        map_pages hhdm page 1 pml4 (page_align_down k.kernel_start)
          (k.physical_base + (k.kernel_start - k.virtual_base))
          (page_align_up (k.writeallowed_start - k.kernel_start) / 4096) w calls
    rest ←
        map_pages hhdm page 3 pml4 (page_align_down k.writeallowed_start)
          (k.physical_base + (k.writeallowed_start - k.virtual_base))
          (page_align_up (k.kernel_end - k.writeallowed_start) / 4096) code.tables code.calls
    stack ← alloc_pages hhdm page 3 pml4 kernel_stack_addr kernel_stack_pages rest.tables rest.calls
    ok (stack.tables, stack.calls)

  unfoldable pub map_all : Image → ℕ → Tables → ℕ → Run (Tables × ℕ)
  map_all k pml4 w calls = do
    (w', calls') ← map_kernel k pml4 w calls
    map_sections k.entries pml4 w' calls'

  -- The new tree's address comes first.
  unfoldable pub init_paging_task : Image → Tables → ℕ → Run (ℕ × Tables × ℕ)
  init_paging_task k w calls =
      let pml4_virt = page calls + hhdm in
      (do
        (w', calls') ← map_all k pml4_virt (clear w pml4_virt) (calls + 1)
        ok (pml4_virt, w', calls'))

  -- `kernel.cr3` comes first.
  unfoldable pub init_paging : Image → Tables → ℕ → Run (ℕ × Tables × ℕ)
  init_paging k w calls =
      let pml4_virt = page calls + hhdm in
      (do
        (w', calls') ← map_all k pml4_virt (clear w pml4_virt) (calls + 1)
        ok (pml4_virt - hhdm, w', calls'))
