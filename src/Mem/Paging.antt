-- ===== src/Mem/Paging.antt =====
-- The page tables of src/mem/paging.c and the kernel's mappings of src/mem/map.c. A page of the kernel's
-- memory is the function from its indices to its words, and `page` gives the physical page that each
-- call of kmalloc returns. All sums of addresses are plain sums.
pub mod Trees
pub mod Growth
pub mod Next
pub mod Parts
pub mod Levels
pub mod Translate
pub mod Zero
pub mod Vmem
pub mod Kernel
pub mod Direct
pub mod Tests
use potat_os.Prelude.{
  ℕ, zero, suc, ◌+◌, ◌-◌, ◌*◌, ◌/◌, ◌%◌, ◌^◌, Bool, true, false, ◌||◌, List, [], ◌∷◌, Run, ok,
  fault, halted, ◌>>=◌, ◌==◌, ltb, if◌then◌else◌, bit_and, bit_or, drop,
}
use potat_os.Prelude.Bits.{◌>>>◌}
use potat_os.Mem.Pmm.{MemmapEntry}

abbrev pub Tables : Type 0
Tables = ℕ → ℕ → ℕ

-- The page tables, how often kmalloc was called, and the two parameters that the loops of map_pages and
-- alloc_pages count.
pub record Mapping : Type 0 where
  pub tables : Tables
  pub calls : ℕ
  pub phys_addr : ℕ
  pub num_pages : ℕ

abbrev pub put_page : Tables → ℕ → (ℕ → ℕ) → Tables
put_page w table f a = if a == table then f else w a

-- `table[i] = v`.
abbrev pub set_word : (ℕ → ℕ) → ℕ → ℕ → ℕ → ℕ
set_word f i v j = if j == i then v else f j

abbrev pub write : Tables → ℕ → ℕ → ℕ → Tables
write w table i v = put_page w table (set_word (w table) i v)

-- `ku_memset(table, 0, 4096)`.
abbrev pub clear : Tables → ℕ → Tables
clear w table = put_page w table (λ j. 0)

abbrev pub page_align_down : ℕ → ℕ
page_align_down addr = addr / 4096 * 4096

-- `num_pages--` of a uint64_t.
abbrev pub one_less : ℕ → ℕ
one_less n = (n + (2 ^ 64 - 1)) % 2 ^ 64

-- The pages that one entry of a table maps, at the depth above pml1.
unfoldable pub span : ℕ → ℕ
span zero = 1
span (suc depth) = 512 * span depth

-- `(virt_addr >> shift) & 511` of `virt_addr & ~TOPBITS`.
unfoldable pub pml_index : ℕ → ℕ → ℕ
pml_index virt_addr shift = bit_and (bit_and virt_addr (2 ^ 48 - 1) >>> shift) 511

-- The four counters with which the loops start, as one number.
unfoldable pub first_page : ℕ → ℕ
first_page virt_addr =
    ((pml_index virt_addr 39 * 512 + pml_index virt_addr 30) * 512 + pml_index virt_addr 21) * 512
    + pml_index virt_addr 12

module _ (hhdm : ℕ) (page : ℕ → ℕ) (flags : ℕ) where
  -- The table below an entry, a new one when the entry is 0.
  unfoldable pub next_table : ℕ → ℕ → Mapping → ℕ × Mapping
  next_table table i s =
      if s.tables table i == 0
      then (let frame = page s.calls in
          let next = frame + hhdm in
          let cleared = clear (write s.tables table i frame) next in
          (
            next,
            record s {
              tables =
                  write cleared table i
                    (bit_or (cleared table i) (bit_or (bit_or (bit_or flags 1) 2) 4));
              calls = s.calls + 1;
            },
          ))
      else (page_align_down (s.tables table i) + hhdm, s)

  -- The body of the loop of map_pages over a pml1.
  unfoldable pub map_entry : ℕ → ℕ → Mapping → Mapping
  map_entry table i s = record s {
    tables = write s.tables table i (bit_or s.phys_addr flags);
    num_pages = one_less s.num_pages;
    phys_addr = s.phys_addr + 4096;
  }

  -- That of alloc_pages.
  unfoldable pub alloc_entry : ℕ → ℕ → Mapping → Mapping
  alloc_entry table i s =
      let phys = page s.calls in
      record s {
        tables = write (clear s.tables (phys + hhdm)) table i (bit_or phys flags);
        calls = s.calls + 1;
        num_pages = one_less s.num_pages;
      }

  -- The loop over a pml1 from an index on; `true` when it returned.
  pub each_entry : (ℕ → ℕ → Mapping → Mapping) → ℕ → ℕ → ℕ → Mapping → Bool × Mapping
  each_entry entry zero i table s = (false, s)
  each_entry entry (suc rounds) i table s =
      let s1 = entry table i s in
      let rest = each_entry entry rounds (i + 1) table s1 in
      if s1.num_pages == 0 then (true, s1) else rest

  -- A loop over a table of tables: the loops inside start with `low` in the first round, and with 0 in
  -- the others.
  pub each_table : (ℕ → ℕ → Mapping → Bool × Mapping) → ℕ → ℕ → ℕ → ℕ → Mapping → Bool × Mapping
  each_table inner zero i low table s = (false, s)
  each_table inner (suc rounds) i low table s =
      let below = next_table table i s in
      let result = inner below.0 low below.1 in
      let rest = each_table inner rounds (i + 1) 0 table result.1 in
      if result.0 then (true, result.1) else rest

  -- The loops nested up to a depth, from the counters `start` on.
  pub level : (ℕ → ℕ → Mapping → Mapping) → ℕ → ℕ → ℕ → Mapping → Bool × Mapping
  level entry zero table start s = each_entry entry (512 - start) start table s
  level entry (suc depth) table start s =
      each_table (level entry depth) (512 - start / span (suc depth)) (start / span (suc depth))
        (start % span (suc depth)) table s

  unfoldable pub map_with : (ℕ → ℕ → Mapping → Mapping) → ℕ → ℕ → Mapping → Run Mapping
  map_with entry pml4_addr virt_addr s =
      let result = level entry 3 pml4_addr (first_page virt_addr) s in
      if result.0 then ok result.1 else halted

  unfoldable pub map_pages : ℕ → ℕ → ℕ → ℕ → Tables → ℕ → Run Mapping
  map_pages pml4_addr virt_addr phys_addr num_pages w calls =
      map_with map_entry pml4_addr virt_addr
        (record { tables = w; calls = calls; phys_addr = phys_addr; num_pages = num_pages })

  unfoldable pub alloc_pages : ℕ → ℕ → ℕ → Tables → ℕ → Run Mapping
  alloc_pages pml4_addr virt_addr num_pages w calls =
      map_with alloc_entry pml4_addr virt_addr
        (record { tables = w; calls = calls; phys_addr = 0; num_pages = num_pages })

-- 0xDEAD.
abbrev pub unmapped : ℕ
unmapped = 57005

abbrev pub entry_table : ℕ → ℕ → ℕ
entry_table hhdm entry = page_align_down entry + hhdm

-- Each of the three loops returns in its first round.
unfoldable pub virt_to_phys : ℕ → Tables → ℕ → ℕ → ℕ
virt_to_phys hhdm w pml4_addr virt_addr =
    let offset = bit_and virt_addr (2 ^ 48 - 1) in
    let e4 = w pml4_addr (pml_index virt_addr 39) in
    let e3 = w (entry_table hhdm e4) (pml_index virt_addr 30) in
    let e2 = w (entry_table hhdm e3) (pml_index virt_addr 21) in
    let e1 = w (entry_table hhdm e2) (pml_index virt_addr 12) in
    if e4 == 0
    then unmapped
    else if e3 == 0
    then unmapped
    else if e2 == 0
    then unmapped
    else if e1 == 0
    then unmapped
    else page_align_down e1 + (offset - page_align_down offset)
