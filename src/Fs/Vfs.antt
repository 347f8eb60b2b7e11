-- ===== src/Fs/Vfs.antt =====
-- The virtual file system of src/fs/vfs.c. A file system is the record of its functions, over a
-- state `S` on which they work; `D` is the type of the operations of a device, which are only passed
-- on. Pointers to directories and files are numbers, 0 for NULL. Console messages are left out.
pub mod Paths
pub mod Open
pub mod Files
pub mod Drives
pub mod Tests
use potat_os.Prelude.{
  ℕ, zero, suc, ◌+◌, ◌-◌, ◌%◌, Bool, true, false, not, ◌&&◌, ◌||◌, ◌==◌, leb, ltb, if◌then◌else◌,
  List, [], ◌∷◌, Option, none, some, get_elem?, replicate, Run, ok, fault, checked, ◌>>=◌, store,
}
use potat_os.Utils.Strings.{strcmp}

pub record FileSystem (D S : Type 0) : Type 0 where
  pub fs_id : ℕ
  pub find_function : ℕ → List ℕ → S → Run ℕ
  pub find_root_function : ℕ → S → Run ℕ
  pub open_dir_function : ℕ → S → Run ℕ
  pub open_file_function : ℕ → ℕ → S → Run (ℕ × S)
  pub mkdir_function : ℕ → List ℕ → S → Run S
  pub mkfile_function : ℕ → List ℕ → S → Run S
  pub close_function : ℕ → S → Run S
  pub write_function : ℕ → List ℕ → ℕ → S → Run (ℕ × S)
  pub read_function : ℕ → List ℕ → ℕ → S → Run (ℕ × List ℕ × S)
  pub length_function : ℕ → S → Run ℕ
  pub tempfs_create_device : ℕ → List ℕ → D → S → Run S

-- `mem_offset` is the first word of the union, `disk` too. A drive that was set to zero has no
-- functions, and `fs_id` 0.
pub record Drive (D S : Type 0) : Type 0 where
  pub present : Bool
  pub fs : Option (FileSystem D S)
  pub in_memory : Bool
  pub mem_offset : ℕ
  pub partition : ℕ

-- Without `length`, which no code sets or reads.
pub record File : Type 0 where
  pub present : Bool
  pub ftype : ℕ
  pub drive_char : ℕ
  pub mode : ℕ
  pub private : ℕ

-- The tables of the kernel, the directory of the current task, what the file systems work on, and
-- the text on the console.
pub record Vfs (D S : Type 0) : Type 0 where
  pub filesystems : List (FileSystem D S)
  pub drives : List (Drive D S)
  pub current_dir : List ℕ
  pub disk : S
  pub console : List (List ℕ)

abbrev pub mode_readonly : ℕ
mode_readonly = 1

abbrev pub mode_writeonly : ℕ
mode_writeonly = 2

abbrev pub ftype_stdout : ℕ
ftype_stdout = 2

abbrev pub upper : ℕ → ℕ
upper c = if leb 97 c && leb c 122 then c - 32 else c

abbrev pub not_letter : ℕ → Bool
not_letter c = ltb c 65 || ltb 90 c

module _ {D S : Type 0} where
  abbrev pub no_drive : Drive D S
  no_drive = record { present = false; fs = none; in_memory = false; mem_offset = 0; partition = 0 }

  -- `filesystems[0] = TempFS` and the drives set to zero.
  unfoldable pub init_vfs : FileSystem D S → Vfs D S → Vfs D S
  init_vfs tempfs v = record v { filesystems = tempfs ∷ []; drives = replicate 26 no_drive }

  -- `disk` takes the place of `mem_offset` when the drive is not in memory.
  unfoldable pub mount : ℕ → ℕ → Bool → ℕ → ℕ → ℕ → Vfs D S → Run (ℕ × Vfs D S)
  mount drive filesystem memory_based mem_offset disk partition v =
      let letter = upper drive in
      if not_letter letter then ok (1, v) else (do
        fs ← checked (get_elem? v.filesystems filesystem)
        drives ← store v.drives (letter - 65) (record {
          present = true;
          fs = some fs;
          in_memory = memory_based;
          mem_offset = if memory_based then mem_offset else disk;
          partition = if memory_based then 0 else partition;
        })
        ok (0, record v { drives = drives }))

  unfoldable pub unmount : ℕ → Vfs D S → Run (ℕ × Vfs D S)
  unmount drive v =
      let letter = upper drive in
      if not_letter letter
      then ok (1, v)
      else (do drives ← store v.drives (letter - 65) no_drive; ok (0, record v { drives = drives }))

  -- `kernel.drives[drive_char - 'A']` with a `uint8_t` index.
  abbrev pub drive_of : Vfs D S → ℕ → Run (Drive D S)
  drive_of v drive_char = checked (get_elem? v.drives ((drive_char + 256 - 65) % 256))

  abbrev pub fs_of : Vfs D S → ℕ → Run (FileSystem D S)
  fs_of v drive_char = do drive ← drive_of v drive_char; checked drive.fs

  unfoldable pub close : File → Vfs D S → Run (Vfs D S)
  close f v = do
    fs ← fs_of v f.drive_char
    disk ← fs.close_function f.private v.disk
    ok (record v { disk = disk })

  unfoldable pub file_length : File → Vfs D S → Run ℕ
  file_length f v = do fs ← fs_of v f.drive_char; fs.length_function f.private v.disk

  -- `printf(buffer)` for a standard output.
  unfoldable pub write : File → List ℕ → ℕ → Vfs D S → Run (ℕ × Vfs D S)
  write f buffer size v = if f.mode == mode_readonly then ok (1, v) else (do
    let console = if f.ftype == ftype_stdout then buffer ∷ v.console else v.console
    fs ← fs_of v f.drive_char
    (status, disk) ← fs.write_function f.private buffer size v.disk
    ok (status, record v { disk = disk; console = console }))

  -- The status, the buffer and the state.
  unfoldable pub read : File → List ℕ → ℕ → Vfs D S → Run (ℕ × List ℕ × Vfs D S)
  read f buffer max_len v = if f.mode == mode_writeonly then ok (1, buffer, v) else (do
    fs ← fs_of v f.drive_char
    (status, filled, disk) ← fs.read_function f.private buffer max_len v.disk
    ok (status, filled, record v { disk = disk }))

abbrev stdout_name : List ℕ
stdout_name = 115 ∷ 116 ∷ 100 ∷ 111 ∷ 117 ∷ 116 ∷ 0 ∷ []

abbrev stdin_name : List ℕ
stdin_name = 115 ∷ 116 ∷ 100 ∷ 105 ∷ 110 ∷ 0 ∷ []

abbrev stderr_name : List ℕ
stderr_name = 115 ∷ 116 ∷ 100 ∷ 101 ∷ 114 ∷ 114 ∷ 0 ∷ []

unfoldable pub check_file_type : List ℕ → Run ℕ
check_file_type fname = do
  out ← strcmp fname stdout_name
  if out then ok ftype_stdout else (do
    inp ← strcmp fname stdin_name
    if inp then ok 3 else (do err ← strcmp fname stderr_name; if err then ok 4 else ok 1))
