-- ===== src/Tasks/Mmap/Tests.antt =====
-- A mapping of two bytes, which is one of two pages, and whose file is read: runs, and the witness of the
-- theorem.
use potat_os.Prelude.{
  ℕ, ◌+◌, ◌-◌, ◌*◌, ◌%◌, ◌<◌, ◌≤◌, ◌≡◌, ◌≢◌, refl, arith, true, List, [], ◌∷◌, get_elem?, none,
  some, ok, fault, bit_and,
}
use potat_os.Fs.Vfs.{FileSystem, File, Vfs, read}
use potat_os.Mem.Paging.{virt_to_phys}
use potat_os.Mem.Paging.Translate.{page_number}
use potat_os.Mem.Paging.Tests.{
  hhdm, page, no_tables, pages_different, pages_aligned, no_tables-Apart, no_tables-Fresh,
}
use potat_os.Tasks.Mmap.{Space, map_anonymous, read_in, syscall_mmap}
use potat_os.Tasks.Mmap.Pages.{syscall_mmap-virt_to_phys}

abbrev frames : ℕ → ℕ
frames n = 1048576

abbrev contents : ℕ → List ℕ
contents n = 0 ∷ 0 ∷ 0 ∷ []

-- Every file reads as 5, 6.
abbrev fives : FileSystem Unit Unit
fives = record {
  fs_id = 0;
  find_function = λ obj name s. ok 0;
  find_root_function = λ offset s. ok 1;
  open_dir_function = λ dir s. ok dir;
  open_file_function = λ obj mode s. ok (obj, s);
  mkdir_function = λ obj name s. ok s;
  mkfile_function = λ obj name s. ok s;
  close_function = λ obj s. ok s;
  write_function = λ obj bytes n s. ok (0, s);
  read_function = λ obj bytes n s. ok (0, 5 ∷ 6 ∷ 0 ∷ [], s);
  length_function = λ obj s. ok 2;
  tempfs_create_device = λ obj name operations s. ok s;
}

abbrev on_a : File
on_a = record { present = true; ftype = 1; drive_char = 65; mode = 1; private = 3 }

abbrev space : Space Unit Unit
space = record {
  resources = none ∷ some on_a ∷ [];
  vfs = record {
    filesystems = [];
    drives =
        (record {
          present = true;
          fs = some fives;
          in_memory = true;
          mem_offset = 0;
          partition = 0;
        })
        ∷ [];
    current_dir = [];
    disk = tt;
    console = [];
  };
  errno = 0;
  mmap_upto = 8192;
  pml4_addr = 0;
  tables = no_tables;
  calls = 0;
}

reads_file : read_in 1 2 (contents 1) space ≡ ok (5 ∷ 6 ∷ 0 ∷ [], space.vfs)
unfolding read_in read
reads_file = refl

no_such_file : read_in 0 2 (contents 1) space ≡ fault
unfolding read_in
no_such_file = refl

syscall_mmap-virt_to_phys_example :
    (◌≡◌ {A = ℕ} 2 0
      → syscall_mmap hhdm page frames contents 20480 2 0 1 space
        ≡ ok (0, [], record space { errno = 3 }))
    × (0 < 2
        → (s' : Space Unit Unit) × ((a : ℕ)
            → page_number 20480 ≤ page_number a
            → page_number a < page_number 20480 + 2
            → virt_to_phys hhdm s'.tables hhdm a
              ≡ 1048576 + 4096 * (page_number a - page_number 20480) + a % 4096)
          × (bit_and 0 map_anonymous ≢ 0
              → syscall_mmap hhdm page frames contents 20480 2 0 1 space
                ≡ ok (20480, contents 1, s'))
          × ((file : File) (status : ℕ) (filled : List ℕ) (vfs : Vfs Unit Unit)
              → bit_and 0 map_anonymous ≡ 0
              → get_elem? space.resources 1 ≡ some (some file)
              → read file (contents 1) 2 space.vfs ≡ ok (status, filled, vfs)
              → syscall_mmap hhdm page frames contents 20480 2 0 1 space
                ≡ ok (20480, filled, record s' { vfs = vfs }))
          × (bit_and 0 map_anonymous ≡ 0
              → ((file : File) → get_elem? space.resources 1 ≢ some (some file))
              → syscall_mmap hhdm page frames contents 20480 2 0 1 space ≡ fault))
syscall_mmap-virt_to_phys_example =
    syscall_mmap-virt_to_phys hhdm page frames contents pages_different 20480 2 0 1 space
      pages_aligned (λ n. refl) no_tables-Apart no_tables-Fresh (omega arith)
