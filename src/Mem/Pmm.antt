-- ===== src/Mem/Pmm.antt =====
-- The physical page allocator of src/mem/pmm.c: one bitmap of used pages at the start of each usable
-- section of the memory map. Memory is a function from virtual addresses to bytes, and the whole of
-- physical memory appears in it from `hhdm` on. Sums of addresses stay below 2^64 on the machine,
-- and are plain sums here. `none` stands for -1 in the two `long` fields.
pub mod Bitmap
pub mod Reserved
pub mod Search
pub mod Taken
pub mod Kmalloc
pub mod Apart
pub mod Tests
use potat_os.Prelude.{
  ℕ, zero, suc, ◌+◌, ◌-◌, ◌*◌, ◌/◌, ◌%◌, ◌^◌, Bool, true, false, ◌&&◌, Option, none, some, List,
  Run, ok, fault, halted, out_of_fuel, checked, ◌>>=◌, ◌==◌, ltb, leb, if◌then◌else◌, get_elem?,
  bit_and, bit_or, not, [], ◌∷◌,
}
use potat_os.Prelude.Bits.{◌<<<◌, ◌>>>◌}

pub record MemmapEntry : Type 0 where
  pub base : ℕ
  pub length : ℕ
  pub type : ℕ

-- LIMINE_MEMMAP_USABLE.
abbrev pub usable : ℕ
usable = 0

abbrev pub Memory : Type 0
Memory = ℕ → ℕ

pub record Pmm : Type 0 where
  pub entries : List MemmapEntry
  pub hhdm : ℕ
  pub memory : Memory
  pub last_freed_page : Option ℕ
  pub last_freed_section : Option ℕ
  pub last_freed_num_pages : ℕ
  pub total_memory_allocated : ℕ

-- `ku_memset` on a range of memory.
abbrev pub fill : Memory → ℕ → ℕ → ℕ → Memory
fill m array value size a = if leb array a && ltb a (array + size) then value % 256 else m a

-- `while (true)` with its body; `n` is a `uint32_t` and keeps its value.
pub reserved_loop : ℕ → ℕ → MemmapEntry → Run ℕ
reserved_loop zero n entry = out_of_fuel
reserved_loop (suc fuel) n entry =
    let rest = reserved_loop fuel n entry in
    if ltb ((entry.length / 4096 + 2 ^ 64 - n) % 2 ^ 64) (n * 4096 * 8 % 2 ^ 32)
    then ok (n * 4096 % 2 ^ 32)
    else rest

unfoldable pub get_bitmap_reserved : ℕ → MemmapEntry → Run ℕ
get_bitmap_reserved fuel entry = reserved_loop fuel 1 entry

unfoldable pub init_single_bitmap : ℕ → MemmapEntry → Memory → Memory
init_single_bitmap hhdm entry m =
    if entry.type == usable then fill m (entry.base + hhdm) 0 entry.length else m

pub init_bitmaps : ℕ → List MemmapEntry → Memory → Memory
init_bitmaps hhdm [] m = m
init_bitmaps hhdm (e ∷ es) m = init_bitmaps hhdm es (init_single_bitmap hhdm e m)

unfoldable pub init_pmm : Pmm → Pmm
init_pmm k = record k {
  memory = init_bitmaps k.hhdm k.entries k.memory;
  last_freed_section = none;
  last_freed_page = none;
}

-- The value that is or-ed into a byte of the bitmap.
abbrev pub or_value : ℕ → ℕ
or_value bit = if bit == 0 then 1 else 1 <<< bit

-- On the bitmap that starts at the address `bitmap_start`.
unfoldable pub allocate_page : ℕ → ℕ → Memory → Memory
allocate_page bitmap_start page_frame_number m a =
    let byte = page_frame_number / 8 in
    let bit = page_frame_number % 8 in
    if a == bitmap_start + byte then bit_or (m a) (or_value bit) else m a

-- Recursion on the pages that are left.
unfoldable pub allocate_pages : ℕ → ℕ → ℕ → Memory → Memory
allocate_pages bitmap_start page_frame_number zero m = m
allocate_pages bitmap_start page_frame_number (suc num_pages) m =
    allocate_pages bitmap_start (page_frame_number + 1) num_pages
      (allocate_page bitmap_start page_frame_number m)

-- `(bitmap_start[byte] >> bit) & 1` of a page.
abbrev pub page_bit : Memory → ℕ → ℕ → ℕ
page_bit m bitmap_start page = bit_and (m (bitmap_start + page / 8) >>> (page % 8)) 1

pub check_loop : Memory → ℕ → ℕ → ℕ → Bool
check_loop m bitmap_start page zero = true
check_loop m bitmap_start page (suc rounds) =
    let rest = check_loop m bitmap_start (page + 1) rounds in
    if page_bit m bitmap_start page == 0 then rest else false

abbrev pub max_bitmap_bytes : MemmapEntry → ℕ → ℕ
max_bitmap_bytes entry bitmap_reserved =
    (entry.length + 2 ^ 64 - bitmap_reserved) % 2 ^ 64 / 4096 / 8

unfoldable pub check_pages_avaliable : Memory → ℕ → MemmapEntry → ℕ → ℕ → ℕ → Bool
check_pages_avaliable m hhdm entry page_frame_number num_pages bitmap_reserved =
    let pages_in_section = max_bitmap_bytes entry bitmap_reserved * 8 in
    let top_page = (page_frame_number + num_pages) % 2 ^ 64 in
    if ltb pages_in_section top_page
    then false
    else if not (entry.type == usable)
    then false
    else if ltb pages_in_section num_pages
    then false
    else check_loop m (entry.base + hhdm) page_frame_number (top_page - page_frame_number)

-- The two inner loops of `kmalloc`: the first page at which the pages are free, and that of one
-- byte of the bitmap. Each recursion is on the rounds that are left.
pub find_bit : Memory → ℕ → MemmapEntry → ℕ → ℕ → ℕ → ℕ → ℕ → Option ℕ
find_bit m hhdm entry num_pages bitmap_reserved bitmap_byte bitmap_bit zero = none
find_bit m hhdm entry num_pages bitmap_reserved bitmap_byte bitmap_bit (suc rounds) =
    let page = bitmap_bit + bitmap_byte * 8 in
    let rest =
      find_bit m hhdm entry num_pages bitmap_reserved bitmap_byte (bitmap_bit + 1) rounds in
    if check_pages_avaliable m hhdm entry page num_pages bitmap_reserved then some page else rest

abbrev pub or_else : Option ℕ → Option ℕ → Option ℕ
or_else none b = b
or_else (some a) b = some a

pub find_byte : Memory → ℕ → MemmapEntry → ℕ → ℕ → ℕ → ℕ → Option ℕ
find_byte m hhdm entry num_pages bitmap_reserved bitmap_byte zero = none
find_byte m hhdm entry num_pages bitmap_reserved bitmap_byte (suc rounds) =
    let rest = find_byte m hhdm entry num_pages bitmap_reserved (bitmap_byte + 1) rounds in
    or_else (find_bit m hhdm entry num_pages bitmap_reserved bitmap_byte 0 8) rest

-- Take the pages at `page` of the section: mark them, clear them, and return their address.
abbrev pub take_pages : Pmm → MemmapEntry → ℕ → ℕ → ℕ → ℕ × Pmm
take_pages k entry num_pages bitmap_reserved page =
    let marked = allocate_pages (entry.base + k.hhdm) page num_pages k.memory in
    let addr = entry.base + page * 4096 + bitmap_reserved in
    (
      addr,
      record k {
        memory = fill marked (addr + k.hhdm) 0 (num_pages * 4096);
        total_memory_allocated = (k.total_memory_allocated + num_pages * 4096) % 2 ^ 64;
      },
    )

-- The `return` out of the loops when a page was found, else what comes behind them.
abbrev pub take_or {ℓ} : {A : Type ℓ} → Run A → (ℕ → A) → Option ℕ → Run A
take_or rest take none = rest
take_or rest take (some page) = ok (take page)

-- The loop over the sections. One round of fuel is enough for `get_bitmap_reserved` if any is.
pub find_section : Pmm → ℕ → List MemmapEntry → Run (ℕ × Pmm)
find_section k num_pages [] = halted
find_section k num_pages (entry ∷ entries) =
    let rest = find_section k num_pages entries in
    if not (entry.type == usable) then rest else (do
      bitmap_reserved ← get_bitmap_reserved 1 entry
      let rounds = max_bitmap_bytes entry bitmap_reserved
      take_or rest (take_pages k entry num_pages bitmap_reserved)
          (find_byte k.memory k.hhdm entry num_pages bitmap_reserved 0 rounds))

-- The pages that were freed last, which are marked again and not cleared.
pub reuse_freed : Pmm → ℕ → ℕ → Run (ℕ × Pmm)
reuse_freed k page num_pages = do
  section ← checked k.last_freed_section
  entry ← checked (get_elem? k.entries section)
  let m = allocate_pages (entry.base + k.hhdm) page num_pages k.memory
  bitmap_reserved ← get_bitmap_reserved 1 entry
  ok (entry.base + page * 4096 + bitmap_reserved, record k { memory = m })

unfoldable pub kmalloc : ℕ → Pmm → Run (ℕ × Pmm)
kmalloc num_pages k = if ltb num_pages 1 then halted else elim k.last_freed_page [
  | none ↦ find_section k num_pages k.entries
  | some page ↦
      if ltb num_pages k.last_freed_num_pages
      then reuse_freed k page num_pages
      else find_section k num_pages k.entries
]
