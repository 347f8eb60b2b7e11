-- ===== src/Tasks/Loader.antt =====
-- The loader of src/tasks/spawn.c: the checks on an ELF file's header, and its segments. The program
-- headers are the list of the entries that the file header counts, as the file has them. Console
-- messages are left out.
pub mod Segments
pub mod Layout
pub mod Image
pub mod Arguments
pub mod Tests
use potat_os.Prelude.{
  ℕ, zero, suc, ◌+◌, ◌-◌, ◌*◌, ◌/◌, ◌%◌, ◌^◌, Bool, true, false, not, ◌||◌, ◌==◌, ltb,
  if◌then◌else◌, List, [], ◌∷◌, get_elem?, drop, Run, ok, checked, ◌>>=◌,
}
use potat_os.Utils.Strings.{memcmp}
use potat_os.Fs.Vfs.Paths.{memcpy_at}
use potat_os.Mem.Kheap.{page_align_up}

-- The fields that the loader uses.
pub record ElfFileHeader : Type 0 where
  pub id : List ℕ
  pub machine_type : ℕ

pub record ElfProgramHeader : Type 0 where
  pub type : ℕ
  pub offset : ℕ
  pub virtual_address : ℕ
  pub size_in_file : ℕ
  pub size_in_memory : ℕ

abbrev pub loadable : ElfProgramHeader → Bool
loadable h = h.type == 1

abbrev pub elf_magic : List ℕ
elf_magic = 127 ∷ b'E' ∷ b'L' ∷ b'F' ∷ 0 ∷ []

unfoldable pub validate_elf : ElfFileHeader → Run Bool
validate_elf header = do
  magic ← memcmp header.id elf_magic 4
  if not magic then ok false else (do
    endianness ← checked (get_elem? header.id 5)
    if not (endianness == 1) then ok false else (do
      width ← checked (get_elem? header.id 4)
      ok (if not (width == 2) then false else header.machine_type == 62)))

-- The variables of the loop of `first_loadable_segment`.
pub record Smallest : Type 0 where
  pub index : ℕ
  pub addr : ℕ
  pub is_first_loadable : Bool

abbrev pub smaller : ℕ → ElfProgramHeader → Smallest → Smallest
smaller i h s =
    if loadable h
    then (if ltb h.virtual_address s.addr || s.is_first_loadable
        then record { index = i; addr = h.virtual_address; is_first_loadable = false }
        else s)
    else s

pub first_loop : List ElfProgramHeader → ℕ → Smallest → Smallest
first_loop [] i s = s
first_loop (h ∷ hs) i s = first_loop hs (i + 1) (smaller i h s)

unfoldable pub first_loadable_segment : List ElfProgramHeader → ℕ
first_loadable_segment hs =
    (first_loop hs 0 (record { index = 0; addr = 0; is_first_loadable = true })).index

-- The variables of the loop of `last_loadable_segment`.
pub record Largest : Type 0 where
  pub index : ℕ
  pub addr : ℕ

abbrev pub larger : ℕ → ElfProgramHeader → Largest → Largest
larger i h s =
    if loadable h
    then (if ltb s.addr h.virtual_address
        then record { index = i; addr = h.virtual_address }
        else s)
    else s

pub last_loop : List ElfProgramHeader → ℕ → Largest → Largest
last_loop [] i s = s
last_loop (h ∷ hs) i s = last_loop hs (i + 1) (larger i h s)

unfoldable pub last_loadable_segment : List ElfProgramHeader → ℕ
last_loadable_segment hs = (last_loop hs 0 (record { index = 0; addr = 0 })).index

-- The loop that copies the segments to the pages, the first one of which stands for `first`.
pub copy_segments : List ℕ → ℕ → List ElfProgramHeader → List ℕ → Run (List ℕ)
copy_segments buffer first [] pages = ok pages
copy_segments buffer first (h ∷ hs) pages = do
  copied ←
      (if loadable h
        then memcpy_at pages ((h.virtual_address + 2 ^ 64 - first) % 2 ^ 64) (drop h.offset buffer)
            h.size_in_file
        else ok pages)
  copy_segments buffer first hs copied

-- The part of `spawn` that makes the program's pages: what `kmalloc` gives is `alloc`.
unfoldable pub load_image : (ℕ → List ℕ) → List ℕ → List ElfProgramHeader → Run (List ℕ)
load_image alloc buffer hs = do
  first_segment ← checked (get_elem? hs (first_loadable_segment hs))
  last_segment ← checked (get_elem? hs (last_loadable_segment hs))
  let pages_to_map =
      page_align_up (
        (last_segment.virtual_address
          + last_segment.size_in_memory
          + 2 ^ 64
          - first_segment.virtual_address)
        % 2 ^ 64)
      / 4096
  copy_segments buffer first_segment.virtual_address hs (alloc pages_to_map)
