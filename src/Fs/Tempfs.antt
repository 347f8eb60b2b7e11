-- ===== src/Fs/Tempfs.antt =====
-- The temporary file system of src/fs/tempfs.c: inodes, directory entries and blocks of files, each
-- kind at addresses of its own. `addr n` is what the `n`-th call of `malloc` returns; what a new
-- object contains is `raw_inode`, `raw_entry` and `raw_node` until it is set. Operations of devices
-- are functions on the same state.
pub mod Entries
pub mod Directories
pub mod Lookup
pub mod Files
pub mod Tests
use potat_os.Prelude.{
  ℕ, zero, suc, ◌+◌, ◌-◌, ◌%◌, ◌^◌, Bool, true, false, ◌==◌, leb, ltb, if◌then◌else◌, List, [], ◌∷◌,
  ◌++◌, Option, none, some, replicate, take, drop, set, Run, ok, fault, out_of_fuel, ◌>>=◌, put_at,
  deref,
}
use potat_os.Utils.Strings.{strlen, strcmp, memcpy}

-- `first_node` is the union of `file_first_node` and `dir_first_node`. `size_pages`, which no code
-- uses, and `private`, which only the devices use, are left out.
pub record Inode (D : Type 0) : Type 0 where
  pub filename : List ℕ
  pub length : ℕ
  pub is_dir : Bool
  pub type : ℕ
  pub operations : Option D
  pub first_node : ℕ
  pub num_entries : ℕ

pub record DirEntryNode : Type 0 where
  pub is_dir : Bool
  pub inode : ℕ
  pub next_node : ℕ

pub record FileNode : Type 0 where
  pub bytes : List ℕ
  pub next_node : ℕ

pub record Store (D : Type 0) : Type 0 where
  pub inodes : ℕ → Option (Inode D)
  pub entries : ℕ → Option DirEntryNode
  pub nodes : ℕ → Option FileNode
  pub calls : ℕ

-- `FILENODE_DATA_SIZE` and `FILETYPE_DEVICE`.
abbrev pub data_size : ℕ
data_size = 4088

abbrev pub filetype_device : ℕ
filetype_device = 1

-- An inode and an entry set to zero.
abbrev pub zero_inode : {D : Type 0} → Inode D
zero_inode = record {
  filename = replicate 20 0;
  length = 0;
  is_dir = false;
  type = 0;
  operations = none;
  first_node = 0;
  num_entries = 0;
}

abbrev pub zero_entry : DirEntryNode
zero_entry = record { is_dir = false; inode = 0; next_node = 0 }

-- `for (size_t e = 0; e < num_entries; e++) this_entry = this_entry->next_node;`
pub walk_entries : ℕ → (ℕ → Option DirEntryNode) → ℕ → Run ℕ
walk_entries zero entries p = ok p
walk_entries (suc n) entries p = do e ← deref entries p; walk_entries n entries e.next_node

abbrev pub dot : List ℕ
dot = b'.' ∷ replicate 19 0

abbrev pub dot_dot : List ℕ
dot_dot = b'.' ∷ b'.' ∷ 0 ∷ []

module _ {D : Type 0} where
  abbrev pub set_inode : Store D → ℕ → Inode D → Store D
  set_inode s p i = record s { inodes = put_at s.inodes p i }

  abbrev pub set_entry : Store D → ℕ → DirEntryNode → Store D
  set_entry s p e = record s { entries = put_at s.entries p e }

  -- The new entry becomes the first one, or the next of the last one.
  unfoldable pub link_entry : ℕ → ℕ → Store D → Run (Store D)
  link_entry current_dir new_entry s = do
    dir ← deref s.inodes current_dir
    if dir.first_node == 0
        then ok (set_inode s current_dir (record dir { first_node = new_entry }))
        else (do
          p ← walk_entries dir.num_entries s.entries dir.first_node
          last ← deref s.entries p
          ok (set_entry s p (record last { next_node = new_entry })))

  module _ (addr : ℕ → ℕ) where
    unfoldable pub addentry : ℕ → List ℕ → Bool → Store D → Run (ℕ × Store D)
    addentry current_dir dirname is_dir s = do
      let inode_new = addr s.calls
      let new_entry = addr (s.calls + 1)
      let made = record s {
        inodes = put_at s.inodes inode_new zero_inode;
        entries = put_at s.entries new_entry zero_entry;
        calls = s.calls + 2;
      }
      linked ← link_entry current_dir new_entry made
      len ← strlen dirname
      filename ← memcpy (replicate 20 0) dirname len
      let named =
          set_inode linked inode_new (record zero_inode { filename = filename; is_dir = is_dir })
      let entered = set_entry named new_entry (record zero_entry { inode = inode_new })
      dir ← deref entered.inodes current_dir
      ok (
        inode_new,
        set_inode entered current_dir (record dir { num_entries = (dir.num_entries + 1) % 2 ^ 64 }),
      )

    unfoldable pub mkdir_nonlinear : ℕ → List ℕ → ℕ → Store D → Run (Store D)
    mkdir_nonlinear current_dir dirname first_dir_entry s = do
      (new_inode, s') ← addentry current_dir dirname true s
      i ← deref s'.inodes new_inode
      ok (set_inode s' new_inode (record i { first_node = first_dir_entry }))

    unfoldable pub mkfile : ℕ → List ℕ → Store D → Run (Store D)
    mkfile current_dir filename s = do
      (new_inode, s') ← addentry current_dir filename false s
      ok s'

    unfoldable pub create_device : ℕ → List ℕ → D → Store D → Run (Store D)
    create_device current_dir devname operations s = do
      (new_device, s') ← addentry current_dir devname false s
      i ← deref s'.inodes new_device
      ok (
          set_inode s' new_device
            (record i { type = filetype_device; operations = some operations }))

    -- The entry `.` of the directory `dir`, with its inode, and then `..`. `raw` is what the new
    -- entry contained: only its `next_node` stays, until `..` is linked.
    abbrev pub dot_entries : ℕ → ℕ → DirEntryNode → Store D → Run (Store D)
    dot_entries dir parent_first raw s = do
      i ← deref s.inodes dir
      let entry = addr s.calls
      let inode = addr (s.calls + 1)
      let dotted = record s {
        entries = put_at s.entries entry (record raw { is_dir = true; inode = inode });
        inodes =
            put_at (put_at s.inodes dir (record i { first_node = entry })) inode
              (record zero_inode {
                filename = dot;
                is_dir = true;
                first_node = entry;
                num_entries = 2;
              });
        calls = s.calls + 2;
      }
      mkdir_nonlinear dir dot_dot parent_first dotted

    unfoldable pub mkdir : DirEntryNode → ℕ → List ℕ → Store D → Run (Store D)
    mkdir raw current_dir dirname s = do
      (new_inode, s') ← addentry current_dir dirname true s
      parent ← deref s'.inodes current_dir
      dot_entries new_inode parent.first_node raw s'

    -- The root: the inode, an entry and the inode of `.` contain `raw_root`, `raw` and `raw_dot` at
    -- first, and keep what is not set.
    unfoldable pub tempfs_new : Inode D → DirEntryNode → Inode D → Store D → Run (ℕ × Store D)
    tempfs_new raw_root raw raw_dot s = do
      let root = addr s.calls
      let entry = addr (s.calls + 1)
      let inode = addr (s.calls + 2)
      let dotted = record s {
        inodes =
            put_at (put_at s.inodes root (record raw_root { first_node = entry })) inode
              (record raw_dot {
                filename = set (set raw_dot.filename 0 b'.') 1 0;
                is_dir = true;
                first_node = entry;
                num_entries = 2;
              });
        entries = put_at s.entries entry (record raw { is_dir = true; inode = inode });
        calls = s.calls + 3;
      }
      s' ← mkdir_nonlinear root dot_dot entry dotted
      i ← deref s'.inodes root
      ok (root, set_inode s' root (record i { is_dir = true }))

-- The loop of `tempfs_find`, on an entry that is not null.
pub find_loop : {D : Type 0} → ℕ → List ℕ → Store D → ℕ → Run ℕ
find_loop zero dirname s p = out_of_fuel
find_loop (suc fuel) dirname s p =
    let rest = (do
      e ← deref s.entries p
      if e.next_node == 0 then ok 0 else find_loop fuel dirname s e.next_node) in
    do
      e ← deref s.entries p
      i ← deref s.inodes e.inode
      same ← strcmp i.filename dirname
      if same then ok e.inode else rest

-- Fuel for one round more than there were calls of `malloc`, and so entries.
unfoldable pub find : {D : Type 0} → ℕ → List ℕ → Store D → Run ℕ
find current_dir dirname s = do
  dir ← deref s.inodes current_dir
  find_loop (s.calls + 1) dirname s dir.first_node
