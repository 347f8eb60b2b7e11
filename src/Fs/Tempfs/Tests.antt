-- ===== src/Fs/Tempfs/Tests.antt =====
-- The temporary file system on concrete directories: runs of the operations, and witnesses of the
-- theorems.
use potat_os.Prelude.{
  ℕ, ◌+◌, ◌^◌, ◌<◌, ◌≡◌, refl, length, arith, true, false, List, [], ◌∷◌, ◌++◌, none, replicate, ok,
  ◌>>=◌, put_at, deref,
}
use potat_os.Fs.Tempfs.{
  Inode, DirEntryNode, Store, zero_inode, zero_entry, dot, dot_dot, mkfile, mkdir, mkdir_nonlinear,
  link_entry, addentry, walk_entries, find_loop, tempfs_new, find,
}
use potat_os.Utils.Strings.{strlen, memcpy, strcmp}
use potat_os.Utils.Strings.Compare.{NoNul}
use potat_os.Fs.Tempfs.Entries.{cell}
use potat_os.Fs.Tempfs.Directories.{Fresh, Directory}
use potat_os.Fs.Tempfs.Lookup.{AreNamed, FirstNamed, mkfile-find}

abbrev addr : ℕ → ℕ
addr n = n + 10

abbrev dir_inode : Inode ℕ
dir_inode = record zero_inode { is_dir = true; first_node = 2; num_entries = 1 }

abbrev dot_inode : Inode ℕ
dot_inode = record zero_inode { filename = dot; is_dir = true; first_node = 2; num_entries = 2 }

abbrev dot_dot_inode : Inode ℕ
dot_dot_inode = record zero_inode {
  filename = dot_dot ++ replicate 17 0;
  is_dir = true;
  first_node = 2;
}

abbrev dot_entry : DirEntryNode
dot_entry = record { is_dir = true; inode = 3; next_node = 4 }

abbrev dot_dot_entry : DirEntryNode
dot_dot_entry = record { is_dir = false; inode = 5; next_node = 0 }

-- A directory at 1 with the entries `.` at 2 and `..` at 4.
abbrev store_0 : Store ℕ
store_0 = record {
  inodes = put_at (put_at (put_at (λ a. none) 1 dir_inode) 3 dot_inode) 5 dot_dot_inode;
  entries = put_at (put_at (λ a. none) 2 dot_entry) 4 dot_dot_entry;
  nodes = λ a. none;
  calls = 2;
}

store_0-Fresh : Fresh addr store_0
store_0-Fresh = record {
  nonnull = λ n. ground arith;
  distinct = λ n m ne. ground (arith, ne);
  no_inode = λ n le. ground arith;
  no_entry = λ n le. ground arith;
}

store_0-Directory : Directory store_0 1 (cell 2 3 ∷ []) (cell 4 5)
store_0-Directory = record {
  inode = dir_inode;
  nonnull = ground arith;
  holds = refl;
  leads = (dot_entry, refl, ground arith, refl, refl, refl);
  entry = dot_dot_entry;
  last_nonnull = ground arith;
  last_holds = refl;
  last_names = refl;
  ends = refl;
  count = refl;
  apart = ((ground arith, tt), (tt, tt));
}

abbrev names_0 : List (List ℕ)
names_0 = (b'.' ∷ []) ∷ (b'.' ∷ b'.' ∷ []) ∷ []

store_0-AreNamed : AreNamed store_0 (cell 2 3 ∷ cell 4 5 ∷ []) names_0
store_0-AreNamed = (
  record {
    inode = dot_inode;
    nonnull = ground arith;
    holds = refl;
    pad = replicate 18 0;
    filename = refl;
    nonul = (ground arith, tt);
    short = omega arith;
  },
  (
    record {
      inode = dot_dot_inode;
      nonnull = ground arith;
      holds = refl;
      pad = replicate 17 0;
      filename = refl;
      nonul = (ground arith, (ground arith, tt));
      short = omega arith;
    },
    tt,
  ),
)

mkfile-find_example :
    (s' : Store ℕ) × (mkfile addr 1 (b'f' ∷ 0 ∷ []) store_0 ≡ ok s')
    × Directory s' 1 (cell 2 3 ∷ cell 4 5 ∷ []) (cell 13 12)
    × ((wanted q : List ℕ)
        → NoNul wanted
        → length wanted < 2 ^ 31
        → (i : ℕ) × (find 1 (wanted ++ (0 ∷ q)) s' ≡ ok i)
          × FirstNamed wanted
              (cell 2 3 ∷ cell 4 5 ∷ cell 13 12 ∷ [])
              ((b'.' ∷ []) ∷ (b'.' ∷ b'.' ∷ []) ∷ (b'f' ∷ []) ∷ [])
              i)
mkfile-find_example =
    mkfile-find addr store_0 store_0-Fresh 1 (cell 2 3 ∷ []) (cell 4 5) store_0-Directory names_0
      store_0-AreNamed (b'f' ∷ []) [] (ground arith, tt) (omega arith) (omega arith) (omega arith)

-- A file made in a directory of a new file system is found there.
abbrev empty_store : Store ℕ
empty_store = record { inodes = λ a. none; entries = λ a. none; nodes = λ a. none; calls = 0 }

found_in_root :
    (do
      (root, s) ← tempfs_new addr zero_inode zero_entry zero_inode empty_store
      s' ← mkdir addr zero_entry root (b'd' ∷ 0 ∷ []) s
      d ← find root (b'd' ∷ 0 ∷ []) s'
      s'' ← mkfile addr d (b'f' ∷ 0 ∷ []) s'
      find d (b'f' ∷ 0 ∷ []) s'')
    ≡ ok 21
unfolding tempfs_new mkdir mkfile find mkdir_nonlinear addentry link_entry deref walk_entries strlen
    memcpy find_loop strcmp
found_in_root = refl
