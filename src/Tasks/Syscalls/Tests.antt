-- ===== src/Tasks/Syscalls/Tests.antt =====
-- File descriptors on a concrete table: the witness of the theorem.
use potat_os.Prelude.{
  ℕ, ◌+◌, ◌≡◌, refl, arith, true, List, [], ◌∷◌, Option, none, some, replicate, take, ok, fault,
  store, ◌==◌, if◌then◌else◌,
}
use potat_os.Fs.Vfs.{FileSystem, File, Vfs, no_drive, write, close, check_file_type}
use potat_os.Fs.Vfs.Drives.{mounted}
use potat_os.Fs.Vfs.Open.{open_path, open_loop, comp_len, cut_component, enter_file, opened_file}
use potat_os.Fs.Vfs.Paths.{extend_path, has_drive}
use potat_os.Utils.Strings.{strlen, memcpy, strcmp}
use potat_os.Tasks.Syscalls.{
  Caller, num_resources, first_free, syscall_open, syscall_write, syscall_close,
}
use potat_os.Mem.Vectors.{vector_node, Vector, write as put_node}
use potat_os.Mem.Vectors.Chains.{cell, nil, cons}
use potat_os.Tasks.Events.{Memory, new_event}
use potat_os.Tasks.Syscalls.Queues.{syscall_poll, syscall_peek, syscall_peek-cleanup_event}
use potat_os.Tasks.Syscalls.Descriptors.{AllOpen, syscall_open-syscall_write}

-- A file system with one file, which everything is.
abbrev single : FileSystem (Unit {0}) ℕ
single = record {
  fs_id = 0;
  find_function = λ obj name s. ok 2;
  find_root_function = λ fs s. ok 1;
  open_dir_function = λ obj s. ok obj;
  open_file_function = λ obj mode s. ok (obj, s);
  mkdir_function = λ obj name s. ok s;
  mkfile_function = λ obj name s. ok s;
  close_function = λ obj s. ok s;
  write_function = λ obj buffer size s. ok (0, s + size);
  read_function = λ obj buffer size s. ok (0, buffer, s);
  length_function = λ obj s. ok s;
  tempfs_create_device = λ obj name ops s. ok s;
}

abbrev drives_of_single : Vfs (Unit {0}) ℕ
drives_of_single = record {
  filesystems = single ∷ [];
  drives = mounted single true 0 0 0 ∷ replicate 25 no_drive;
  current_dir = b'A' ∷ b':' ∷ b'/' ∷ 0 ∷ [];
  disk = 0;
  console = [];
}

abbrev alloc : ℕ → List ℕ
alloc n = replicate (n + 1) 7

abbrev path : List ℕ
path = b'A' ∷ b':' ∷ b'/' ∷ b'f' ∷ 0 ∷ []

abbrev the_file : File
the_file = record { present = true; ftype = 1; drive_char = 65; mode = 3; private = 2 }

opened : open_path alloc path 0 3 drives_of_single ≡ ok (some the_file, drives_of_single)
unfolding open_path open_loop extend_path has_drive strlen memcpy store cut_component comp_len
    enter_file opened_file check_file_type strcmp
opened = refl

abbrev caller : List (Option File) → Caller (Unit {0}) ℕ
caller rs = record { resources = rs; vfs = drives_of_single }

syscall_open-syscall_write_example :
    (syscall_open alloc path 0 3 (caller (some the_file ∷ none ∷ none ∷ []))
      ≡ ok (some 1, caller (some the_file ∷ some the_file ∷ none ∷ [])))
    × ((full : List (Option File)) (w : Vfs (Unit {0}) ℕ)
        → AllOpen (take num_resources full)
        → syscall_open alloc path 0 3 (record { resources = full; vfs = w })
          ≡ ok (none, record { resources = full; vfs = w }))
    × ((file : File) (buffer : List ℕ) (size status : ℕ) (w : Vfs (Unit {0}) ℕ)
        → some the_file ≡ some file
        → file.present ≡ true
        → write file buffer size drives_of_single ≡ ok (status, w)
        → syscall_write 1 buffer size (caller (some the_file ∷ some the_file ∷ none ∷ []))
          ≡ ok (status, record { resources = some the_file ∷ some the_file ∷ none ∷ []; vfs = w }))
    × ((buffer : List ℕ) (size : ℕ)
        → some the_file ≡ none
        → syscall_write 1 buffer size (caller (some the_file ∷ some the_file ∷ none ∷ [])) ≡ fault)
    × ((file : File) (w : Vfs (Unit {0}) ℕ)
        → some the_file ≡ some file
        → close file drives_of_single ≡ ok w
        → syscall_close 1 (caller (some the_file ∷ some the_file ∷ none ∷ []))
          ≡ ok (record { resources = some the_file ∷ none ∷ none ∷ []; vfs = w }))
syscall_open-syscall_write_example =
    syscall_open-syscall_write alloc path 0 3 drives_of_single drives_of_single (some the_file ∷ [])
      (none ∷ []) (some the_file) opened tt (omega arith)

-- A queue of one event.
abbrev queue_memory : Memory
queue_memory = record {
  nodes = put_node (λ a. none) 1 (vector_node 0 0 64);
  events = λ a. if a == 64 then some (new_event 7 10 20) else none;
}

abbrev queue : Vector
queue = record { data_size = 32; length = 1; first_node = 1 }

syscall_peek-cleanup_event_example :
    (m' : Memory) × (syscall_peek 128 queue queue_memory ≡ ok (new_event 7 10 20, m'))
    × ((fresh' : ℕ)
        → (syscall_peek fresh' queue m' ≡ fault) × (syscall_poll fresh' queue m' ≡ fault))
syscall_peek-cleanup_event_example =
    syscall_peek-cleanup_event 128 queue queue_memory (cell 1 64 ∷ []) 64 (new_event 7 10 20)
      (record { chain = cons {n = vector_node 0 0 64} (omega arith) refl tt nil; count = refl })
      (omega arith) refl (omega arith) refl

-- The whole table of 20 in use.
full_table :
    syscall_open alloc path 0 3 (caller (replicate 20 (some the_file)))
    ≡ ok (none, caller (replicate 20 (some the_file)))
unfolding syscall_open first_free
full_table = refl
