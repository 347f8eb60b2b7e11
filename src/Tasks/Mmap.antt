-- ===== src/Tasks/Mmap.antt =====
-- syscall_mmap of src/tasks/mmap.c, over the page tree of the current task and the virtual file system.
-- `frames` is the physical address that kmalloc gives for the pages, and `contents` the bytes that stand
-- there, which the call of read gets as its buffer.
pub mod Pages
pub mod Tests
use potat_os.Prelude.{
  ℕ, ◌+◌, ◌-◌, ◌/◌, not, List, [], get_elem?, Option, none, some, Run, ok, checked, ◌>>=◌, ◌==◌,
  if◌then◌else◌, bit_and, bit_or,
}
use potat_os.Mem.Kheap.{page_align_up}
use potat_os.Fs.Vfs.{File, Vfs, read}
use potat_os.Mem.Paging.{Tables, Mapping, map_pages}

-- What the call uses of the task, `*errno` included, with the file system and its calls of kmalloc. A null
-- pointer in `resources` is none.
pub record Space (D S : Type 0) : Type 0 where
  pub resources : List (Option File)
  pub vfs : Vfs D S
  pub errno : ℕ
  pub mmap_upto : ℕ
  pub pml4_addr : ℕ
  pub tables : Tables
  pub calls : ℕ

-- PROT_WRITE and MAP_ANONYMOUS.
abbrev prot_write : ℕ
prot_write = 2

abbrev pub map_anonymous : ℕ
map_anonymous = 32

-- KERNEL_PFLAG_PRESENT | KERNEL_PFLAG_USER, and KERNEL_PFLAG_WRITE with it.
abbrev pub map_flags : ℕ → ℕ
map_flags flags = if bit_and flags prot_write == 0 then bit_or 1 4 else bit_or (bit_or 1 4) 2

module _ {D S : Type 0} where
  -- The address, and the space with `mmap_upto` behind the pages when no address was given.
  abbrev pub choose_addr : ℕ → ℕ → Space D S → ℕ × Space D S
  choose_addr addr length s =
      if addr == 0
      then (s.mmap_upto, record s { mmap_upto = page_align_up (s.mmap_upto + length) })
      else (addr, s)

  -- What stands in the pages and the file system, once the file of the descriptor is read.
  unfoldable pub read_in : ℕ → ℕ → List ℕ → Space D S → Run (List ℕ × Vfs D S)
  read_in fd length buf s = do
    src ← checked (get_elem? s.resources fd)
    file ← checked src
    (status, filled, vfs) ← read file buf length s.vfs
    ok (filled, vfs)

  -- The address, the bytes of the pages, and the space.
  unfoldable pub syscall_mmap :
      ℕ
      → (ℕ → ℕ)
      → (ℕ → ℕ)
      → (ℕ → List ℕ)
      → ℕ
      → ℕ
      → ℕ
      → ℕ
      → Space D S
      → Run (ℕ × List ℕ × Space D S)
  syscall_mmap hhdm page frames contents addr length flags fd s =
      if length == 0 then ok (0, [], record s { errno = 3 }) else (do
        let chosen = choose_addr addr length s
        let pages = page_align_up length / 4096
        let buf = frames pages + hhdm
        mapped ←
            map_pages hhdm page (map_flags flags) (s.pml4_addr + hhdm) chosen.0 (buf - hhdm) length
              s.tables s.calls
        let done = record chosen.1 { tables = mapped.tables; calls = mapped.calls }
        if not (bit_and flags map_anonymous == 0) then ok (chosen.0, contents pages, done) else (do
          (filled, vfs) ← read_in fd length (contents pages) done
          ok (chosen.0, filled, record done { vfs = vfs })))
