-- ===== src/Fs/Tempfs/Files.antt =====
-- Files of the temporary file system, src/fs/tempfs.c: chains of blocks of `data_size` bytes.
-- A file that is a device is left to its operations.
pub mod Chains
pub mod Contents
pub mod ReadBack
pub mod Tests
use potat_os.Prelude.{
  ℕ, zero, suc, ◌+◌, ◌-◌, ◌%◌, ◌^◌, Bool, true, false, not, ◌&&◌, ◌==◌, ltb, if◌then◌else◌, List,
  [], drop, take, ◌++◌, Option, none, some, Run, ok, out_of_fuel, checked, ◌>>=◌, put_at, deref,
}
use potat_os.Utils.Strings.{memcpy}
use potat_os.Fs.Vfs.{FileSystem}
use potat_os.Fs.Vfs.Paths.{memcpy_at}
use potat_os.Fs.Tempfs.{
  Inode, DirEntryNode, FileNode, Store, find, mkdir, mkfile, create_device, data_size,
  filetype_device, set_inode,
}

-- What the operations of a device do on the state, given the inode of its file.
pub record Devices (D : Type 0) : Type 0 where
  pub open_device : D → ℕ → ℕ → Store D → Run (Store D)
  pub close_device : D → ℕ → Store D → Run (Store D)
  pub read_device : D → ℕ → List ℕ → ℕ → Store D → Run (ℕ × List ℕ × Store D)
  pub write_device : D → ℕ → List ℕ → ℕ → Store D → Run (ℕ × Store D)

abbrev pub amount_to_copy : ℕ → ℕ
amount_to_copy len_left = if ltb data_size len_left then data_size else len_left

-- `len_left -= FILENODE_DATA_SIZE` of a `uint64_t`.
abbrev pub left_after : ℕ → ℕ
left_after len_left = (len_left + 2 ^ 64 - data_size) % 2 ^ 64

-- The loop of `tempfs_read`.
pub read_loop : (ℕ → Option FileNode) → ℕ → ℕ → ℕ → ℕ → ℕ → List ℕ → Run (List ℕ)
read_loop nodes max_len zero i p len_left buffer = out_of_fuel
read_loop nodes max_len (suc fuel) i p len_left buffer =
    if not (ltb i max_len && not (p == 0)) then ok buffer else (do
      node ← deref nodes p
      copied ← memcpy_at buffer i node.bytes (amount_to_copy len_left)
      read_loop nodes max_len fuel (i + data_size) node.next_node (left_after len_left) copied)

module _ {D : Type 0} where
  unfoldable pub file_length : ℕ → Store D → Run ℕ
  file_length file s = do i ← deref s.inodes file; ok i.length

  -- Only a directory opens as one, and only what is no directory as a file.
  unfoldable pub open_dir : ℕ → Store D → Run ℕ
  open_dir dir s = do i ← deref s.inodes dir; ok (if i.is_dir then dir else 0)

  module _ (dev : Devices D) where
    unfoldable pub open_file : ℕ → ℕ → Store D → Run (ℕ × Store D)
    open_file file mode s = do
      i ← deref s.inodes file
      if i.type == filetype_device
          then (do
            operations ← checked i.operations
            s' ← dev.open_device operations file mode s
            ok (file, s'))
          else ok (if i.is_dir then 0 else file, s)

    unfoldable pub close_file : ℕ → Store D → Run (Store D)
    close_file file s = do
      i ← deref s.inodes file
      if i.type == filetype_device
          then (do operations ← checked i.operations; dev.close_device operations file s)
          else ok s

  -- The node behind one of the file: a new one, if there is none.
  abbrev pub next_of : (ℕ → ℕ) → FileNode → FileNode → Store D → ℕ × Store D
  next_of addr raw node s =
      if node.next_node == 0
      then (
        addr s.calls,
        record s {
          nodes = put_at s.nodes (addr s.calls) (record raw { next_node = 0 });
          calls = s.calls + 1;
        },
      )
      else (node.next_node, s)

  -- The loop of `tempfs_write`, from the index `i`.
  pub write_loop : (ℕ → ℕ) → FileNode → List ℕ → ℕ → ℕ → ℕ → ℕ → ℕ → Store D → Run (Store D)
  write_loop addr raw buffer len zero i p len_left s = out_of_fuel
  write_loop addr raw buffer len (suc fuel) i p len_left s = if not (ltb i len) then ok s else (do
    node ← deref s.nodes p
    let q = (next_of addr raw node s).0
    let s' = (next_of addr raw node s).1
    bytes ← memcpy node.bytes (drop i buffer) (amount_to_copy len_left)
    let written = put_at s'.nodes p (record { bytes = bytes; next_node = q })
    write_loop addr raw buffer len fuel (i + data_size) q (left_after len_left)
        (record s' { nodes = written }))

  -- The file's first node: a new one, which contains `raw`, if it has none.
  abbrev pub first_of : (ℕ → ℕ) → FileNode → ℕ → Inode D → Store D → ℕ × Store D
  first_of addr raw file i s =
      if i.first_node == 0
      then (
        addr s.calls,
        record s {
          inodes = put_at s.inodes file (record i { first_node = addr s.calls });
          nodes = put_at s.nodes (addr s.calls) raw;
          calls = s.calls + 1;
        },
      )
      else (i.first_node, s)

  -- The loops have fuel for one round more than there are bytes to copy.
  module _ (dev : Devices D) where
    unfoldable pub write : (ℕ → ℕ) → FileNode → ℕ → List ℕ → ℕ → Store D → Run (ℕ × Store D)
    write addr raw file buffer len s = do
      i ← deref s.inodes file
      if i.type == filetype_device
          then (do operations ← checked i.operations; dev.write_device operations file buffer len s)
          else (do
            let sized = record i { length = len }
            let (first, s') = first_of addr raw file sized (set_inode s file sized)
            s'' ← write_loop addr raw buffer len (suc len) 0 first len s'
            ok (0, s''))

    unfoldable pub read : ℕ → List ℕ → ℕ → Store D → Run (ℕ × List ℕ × Store D)
    read file buffer max_len s = do
      i ← deref s.inodes file
      if i.type == filetype_device
          then (do
            operations ← checked i.operations
            dev.read_device operations file buffer max_len s)
          else (do
            filled ← read_loop s.nodes max_len (suc max_len) 0 i.first_node max_len buffer
            ok (0, filled, s))

-- `TempFS`: `raw_entry` and `raw_node` are what a new entry and a new node contain.
unfoldable pub temp_fs :
    {D : Type 0} → Devices D → (ℕ → ℕ) → DirEntryNode → FileNode → FileSystem D (Store D)
temp_fs dev addr raw_entry raw_node = record {
  fs_id = 0;
  find_function = λ current_dir dirname s. find current_dir dirname s;
  find_root_function = λ fs s. ok fs;
  open_dir_function = open_dir;
  open_file_function = open_file dev;
  mkdir_function = mkdir addr raw_entry;
  mkfile_function = mkfile addr;
  close_function = close_file dev;
  write_function = write dev addr raw_node;
  read_function = read dev;
  length_function = file_length;
  tempfs_create_device = create_device addr;
}
