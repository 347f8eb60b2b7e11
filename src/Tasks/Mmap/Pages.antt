-- ===== src/Tasks/Mmap/Pages.antt =====
-- The pages that syscall_mmap maps, and what is read into them.
use potat_os.Prelude.{
  ℕ, ◌+◌, ◌-◌, ◌*◌, ◌/◌, ◌%◌, ◌^◌, ◌<◌, ◌≤◌, ◌≡◌, refl, ap, ◌∙◌, arith, Bool, true, false, ◌&&◌,
  leb, ltb, ◌==◌, if◌then◌else◌, inl, inr, Bool-cases, Option, none, some, Run, ok, fault, checked,
  ◌>>=◌, bit_and, ◌≢◌, List, [], get_elem?,
}
use potat_os.Mem.Kheap.{page_align_up}
use potat_os.Mem.Paging.{virt_to_phys}
use potat_os.Mem.Paging.Trees.{Apart}
use potat_os.Mem.Paging.Growth.{Fresh}
use potat_os.Mem.Paging.Translate.{page_number, map_pages-virt_to_phys}
use potat_os.Fs.Vfs.{File, Vfs, read}
use potat_os.Tasks.Mmap.{Space, map_anonymous, map_flags, choose_addr, read_in, syscall_mmap}

map_flags_lt : (flags : ℕ) → (0 < map_flags flags) × (map_flags flags < 4096)
map_flags_lt flags = elim (Bool-cases (bit_and flags 2 == 0)) [
  | inl e ↦ rw e (omega arith, omega arith)
  | inr e ↦ rw e (omega arith, omega arith)
]

choose_addr_kept :
    {D S : Type 0} (addr length : ℕ) (s : Space D S)
    → ((choose_addr addr length s).1.resources ≡ s.resources)
      × ((choose_addr addr length s).1.vfs ≡ s.vfs)
choose_addr_kept addr length s = elim (Bool-cases (addr == 0)) [
  | inl e ↦ rw e (refl, refl)
  | inr e ↦ rw e (refl, refl)
]

no_file :
    {X : Type 0} (entry : Option (Option File)) (k : File → Run X)
    → ((file : File) → entry ≢ some (some file))
    → (do src ← checked entry; file ← checked src; k file) ≡ fault
no_file none k missing = refl
no_file (some none) k missing = refl
no_file (some (some file)) k missing = absurd (missing file refl)

-- A descriptor with no file cannot be dereferenced; from one with a file, what the read gives.
read_in_fault :
    {D S : Type 0} (fd length : ℕ) (buf : List ℕ) (resources : List (Option File)) (s : Space D S)
    → s.resources ≡ resources
    → ((file : File) → get_elem? resources fd ≢ some (some file))
    → read_in fd length buf s ≡ fault
unfolding read_in
read_in_fault {D = D} {S = S} fd length buf resources s same missing = rw same (
    no_file (get_elem? resources fd)
      (λ file. ◌>>=◌ {B = List ℕ × Vfs D S} (read file buf length s.vfs) (λ x. ok (x.1, x.2)))
      missing)

read_in_lem :
    {D S : Type 0} (fd length status : ℕ) (buf filled : List ℕ) (file : File) (vfs : Vfs D S)
    (s s' : Space D S)
    → s'.resources ≡ s.resources
    → s'.vfs ≡ s.vfs
    → get_elem? s.resources fd ≡ some (some file)
    → read file buf length s.vfs ≡ ok (status, filled, vfs)
    → read_in fd length buf s' ≡ ok (filled, vfs)
unfolding read_in
read_in_lem fd length status buf filled file vfs s s' same same' there reads =
    rw (same, same', there, reads) refl

-- When kmalloc gives different pages, and all at multiples of 4096, in a page tree whose pages are apart
-- and from no later call of it, and as many pages as bytes fit below 2^48: syscall_mmap of no byte fails
-- with the error 3; else it maps as many pages as it was given bytes, found behind one another from the
-- frames on, of which kmalloc was asked for one for each 4096 bytes only. With MAP_ANONYMOUS it then
-- returns the address, whatever the descriptor, and the bytes of the frames are as they were. Without it,
-- when the descriptor has a file and the read of it returns, it returns the address, whatever the read's
-- status, with the bytes and the file system that the read leaves; and a descriptor that is out of range or
-- has no file is a fault.
pub syscall_mmap-virt_to_phys :
    {D S : Type 0} (hhdm : ℕ) (page : ℕ → ℕ) (frames : ℕ → ℕ) (contents : ℕ → List ℕ)
    (different : (j k : ℕ) → page j ≡ page k → j ≡ k) (addr length flags fd : ℕ) (s : Space D S)
    → ((k : ℕ) → page k % 4096 ≡ 0)
    → ((n : ℕ) → frames n % 4096 ≡ 0)
    → Apart hhdm 3 s.tables (s.pml4_addr + hhdm)
    → Fresh hhdm page different 3 s.tables (s.pml4_addr + hhdm) s.calls
    → page_number (choose_addr addr length s).0 + length ≤ 2 ^ 36
    → (length ≡ 0
        → syscall_mmap hhdm page frames contents addr length flags fd s
          ≡ ok (0, [], record s { errno = 3 }))
      × (0 < length
          → (s' : Space D S) × ((a : ℕ)
              → page_number (choose_addr addr length s).0 ≤ page_number a
              → page_number a < page_number (choose_addr addr length s).0 + length
              → virt_to_phys hhdm s'.tables (s.pml4_addr + hhdm) a
                ≡ frames (page_align_up length / 4096)
                  + 4096 * (page_number a - page_number (choose_addr addr length s).0)
                  + a % 4096)
            × (bit_and flags map_anonymous ≢ 0
                → syscall_mmap hhdm page frames contents addr length flags fd s
                  ≡ ok ((choose_addr addr length s).0, contents (page_align_up length / 4096), s'))
            × ((file : File) (status : ℕ) (filled : List ℕ) (vfs : Vfs D S)
                → bit_and flags map_anonymous ≡ 0
                → get_elem? s.resources fd ≡ some (some file)
                → read file (contents (page_align_up length / 4096)) length s.vfs
                  ≡ ok (status, filled, vfs)
                → syscall_mmap hhdm page frames contents addr length flags fd s
                  ≡ ok ((choose_addr addr length s).0, filled, record s' { vfs = vfs }))
            × (bit_and flags map_anonymous ≡ 0
                → ((file : File) → get_elem? s.resources fd ≢ some (some file))
                → syscall_mmap hhdm page frames contents addr length flags fd s ≡ fault))
unfolding syscall_mmap
syscall_mmap-virt_to_phys hhdm page frames contents different addr length flags fd s aligned
      frames_aligned apart fresh fits =
    (
      λ none_left. let test : (length == 0) ≡ true = ground (arith, none_left) in rw test refl,
      λ pos.
          let test : (length == 0) ≡ false = ground (arith, pos) in
          let pages = page_align_up length / 4096 in
          let base = frames pages in
          let back : base + hhdm - hhdm ≡ base = omega arith in
          let (some_flags, small) = map_flags_lt flags in
          let chosen = choose_addr addr length s in
          let (mapped, runs, m) =
            map_pages-virt_to_phys hhdm page different aligned (map_flags flags) small
              (s.pml4_addr + hhdm) chosen.0 base length s.tables s.calls apart fresh pos
              (omega arith) some_flags (frames_aligned pages) fits in
          let done = record chosen.1 { tables = mapped.tables; calls = mapped.calls } in
          let (same, same') = choose_addr_kept addr length s in
          (
            done,
            (λ a from to.
                let inside : (leb (page_number chosen.0) (page_number a)
                      && ltb (page_number a) (page_number chosen.0 + length))
                    ≡ true =
                  ground (arith, from, to) in
                m.found a
                ∙ ap
                    (λ (b : Bool).
                      if b
                      then base + 4096 * (page_number a - page_number chosen.0) + a % 4096
                      else virt_to_phys hhdm s.tables (s.pml4_addr + hhdm) a)
                    inside),
            (λ anonymous.
                let flag : (bit_and flags map_anonymous == 0) ≡ false = ground (arith, anonymous) in
                rw (test, back, runs, flag) refl),
            (λ file status filled vfs from_file there reads.
                let flag : (bit_and flags map_anonymous == 0) ≡ true = ground (arith, from_file) in
                let filling =
                  read_in_lem fd length status (contents pages) filled file vfs s done same same'
                    there reads in
                rw (test, back, runs, flag, filling) refl),
            λ from_file missing.
                let flag : (bit_and flags map_anonymous == 0) ≡ true = ground (arith, from_file) in
                let failing =
                  read_in_fault fd length (contents pages) s.resources done same missing in
                rw (test, back, runs, flag, failing) refl,
          ),
    )
