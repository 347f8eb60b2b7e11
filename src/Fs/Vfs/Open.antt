-- ===== src/Fs/Vfs/Open.antt =====
-- `open` (`open_path` here), `mkdir`, `mkfile` and `create_device`: the walk along a path, one component at a time. The
-- copy of the path is cut at each component, and what is left of it is passed to the file system as
-- the name. `free` is left out, so the last component can be read after it, as the code does.
pub mod Components
pub mod Walk
pub mod Whole
pub mod Mkdir
pub mod Overrun
use potat_os.Prelude.{
  ℕ, zero, suc, ◌+◌, ◌-◌, Bool, true, false, not, ◌&&◌, ◌||◌, ◌==◌, leb, ltb, if◌then◌else◌, List,
  [], ◌∷◌, Option, none, some, get_elem?, set, drop, Run, ok, fault, out_of_fuel, checked, ◌>>=◌,
  store, bit_and,
}
use potat_os.Utils.Strings.{strlen, memcpy}
use potat_os.Fs.Vfs.{
  FileSystem, Drive, File, Vfs, upper, not_letter, drive_of, check_file_type, close, mode_writeonly,
}
use potat_os.Fs.Vfs.Paths.{extend_path, has_drive}

-- The length of the first component.
unfoldable pub comp_len : List ℕ → Run ℕ
comp_len [] = fault
comp_len (c ∷ cs) =
    let rest = comp_len cs in if c == 47 || c == 0 then ok 0 else (do n ← rest; ok (n + 1))

-- Its length, whether a slash ends it, and the copy cut there.
unfoldable pub cut_component : List ℕ → Run (ℕ × Bool × List ℕ)
cut_component new_path = do
  this_len ← comp_len new_path
  end ← checked (get_elem? new_path this_len)
  ok (this_len, end == 47, set new_path this_len 0)

abbrev pub o_creat : ℕ → Bool
o_creat flags = not (bit_and flags 1 == 0)

abbrev pub o_creatall : ℕ → Bool
o_creatall flags = not (bit_and flags 2 == 0)

-- `return NULL`, or go on.
abbrev pub or_null : {X S : Type 0} → Option ℕ → S → (ℕ → Run (Option X × S)) → Run (Option X × S)
or_null none s k = ok (none, s)
or_null (some obj) s k = k obj

module _ {D S : Type 0} (fs : FileSystem D S) where
  unfoldable pub make_dir : ℕ → List ℕ → S → Run (ℕ × S)
  make_dir obj name s = do
    made ← fs.mkdir_function obj name s
    this_dir ← fs.find_function obj name made
    ok (this_dir, made)

  unfoldable pub enter_dir : ℕ → ℕ → List ℕ → S → Run (Option ℕ × S)
  enter_dir flags obj name s = do
    this_dir ← fs.find_function obj name s
    if this_dir == 0
        then (if o_creatall flags
            then (do
              (created, s') ← make_dir obj name s
              inner ← fs.open_dir_function created s'
              ok (some inner, s'))
            else ok (none, s))
        else (do inner ← fs.open_dir_function this_dir s; ok (some inner, s))

  unfoldable pub enter_file : ℕ → ℕ → ℕ → List ℕ → S → Run (Option ℕ × S)
  enter_file flags mode obj name s = do
    this_file ← fs.find_function obj name s
    if this_file == 0
        then (if o_creat flags || o_creatall flags
            then (do
              made ← fs.mkfile_function obj name s
              created ← fs.find_function obj name made
              (opened, s') ← fs.open_file_function created mode made
              ok (some opened, s'))
            else ok (none, s))
        else (do (opened, s') ← fs.open_file_function this_file mode s; ok (some opened, s'))

  -- `while (path[i])`: the object that is open in the end, with what is left of the copy.
  unfoldable pub open_loop : ℕ → List ℕ → ℕ → ℕ → ℕ → List ℕ → ℕ → S → Run (Option (ℕ × List ℕ) × S)
  open_loop zero path flags mode i new_path obj s = out_of_fuel
  open_loop (suc fuel) path flags mode i new_path obj s = do
    c ← checked (get_elem? path i)
    if c == 0 then ok (some (obj, new_path), s) else (do
      (this_len, is_dir, name) ← cut_component new_path
      if is_dir
          then (do
            (inner, s') ← enter_dir flags obj name s
            or_null inner s' (λ o.
                open_loop fuel path flags mode (i + (this_len + 1)) (drop (this_len + 1) name) o
                  s'))
          else (do
            (opened, s') ← enter_file flags mode obj name s
            or_null opened s' (λ o. ok (some (o, name), s'))))

  pub mkdir_loop : ℕ → List ℕ → ℕ → List ℕ → ℕ → S → Run S
  mkdir_loop zero path i new_path obj s = out_of_fuel
  mkdir_loop (suc fuel) path i new_path obj s = do
    c ← checked (get_elem? path i)
    if c == 0 then ok s else (do
      (this_len, is_dir, name) ← cut_component new_path
      first ← checked (get_elem? name 0)
      if first == 0 then ok s else (do
        found ← fs.find_function obj name s
        (this_dir, s') ← (if found == 0 then make_dir obj name s else ok (found, s))
        inner ← fs.open_dir_function this_dir s'
        mkdir_loop fuel path (i + (this_len + 1)) (drop (this_len + 1) name) inner s'))

  -- The status.
  pub create_device_loop : ℕ → List ℕ → D → ℕ → List ℕ → ℕ → S → Run (ℕ × S)
  create_device_loop zero path operations i new_path obj s = out_of_fuel
  create_device_loop (suc fuel) path operations i new_path obj s = do
    c ← checked (get_elem? path i)
    if c == 0 then ok (0, s) else (do
      (this_len, is_dir, name) ← cut_component new_path
      found ← fs.find_function obj name s
      if is_dir
          then (if found == 0 then ok (2, s) else (do
            inner ← fs.open_dir_function found s
            create_device_loop fuel path operations (i + (this_len + 1)) (drop (this_len + 1) name)
                inner s))
          else (if found == 0
              then (do
                s' ← fs.tempfs_create_device obj name operations s
                this_file ← fs.find_function obj name s'
                ok (0, s'))
              else ok (1, s)))

-- A copy of the path without its terminator.
abbrev pub copy_path : (ℕ → List ℕ) → List ℕ → Run (ℕ × List ℕ)
copy_path alloc path = do len ← strlen path; copied ← memcpy (alloc len) path len; ok (len, copied)

module _ {D S : Type 0} where
  -- What `open` returns for the object that the walk found, or the null pointer.
  unfoldable pub opened_file :
      ℕ → ℕ → Vfs D S → Option (ℕ × List ℕ) × S → Run (Option File × Vfs D S)
  opened_file drive mode v (none, disk) = ok (none, record v { disk = disk })
  opened_file drive mode v (some (obj, name), disk) = do
    ftype ← check_file_type name
    ok (
      some (record {
        present = true;
        ftype = ftype;
        drive_char = drive;
        mode = mode;
        private = obj;
      }),
      record v { disk = disk },
    )

module _ {D S : Type 0} (alloc : ℕ → List ℕ) where
  unfoldable pub open_path : List ℕ → ℕ → ℕ → Vfs D S → Run (Option File × Vfs D S)
  open_path path flags mode v = do
    full ← extend_path alloc v.current_dir path
    drive ← checked (get_elem? full 0)
    if not_letter drive then ok (none, v) else (do
      (len, copied) ← copy_path alloc full
      new_path ← store copied len 0
      d ← drive_of v drive
      if not d.present then ok (none, v) else (do
        fs ← checked d.fs
        root ← fs.find_root_function d.mem_offset v.disk
        obj ← fs.open_dir_function root v.disk
        walked ← open_loop fs (len + 1) full flags mode 3 (drop 3 new_path) obj v.disk
        opened_file drive mode v walked))

  unfoldable pub mkdir : List ℕ → Vfs D S → Run (ℕ × Vfs D S)
  mkdir path v = do
    full ← extend_path alloc v.current_dir path
    drive ← checked (get_elem? full 0)
    if not_letter (upper drive) then ok (1, v) else (do
      rooted ← has_drive full
      if not rooted then ok (2, v) else (do
        (len, new_path) ← copy_path alloc full
        d ← drive_of v (upper drive)
        fs ← checked d.fs
        root ← fs.find_root_function d.mem_offset v.disk
        obj ← fs.open_dir_function root v.disk
        disk ← mkdir_loop fs (len + 1) full 3 (drop 3 new_path) obj v.disk
        ok (0, record v { disk = disk })))

  -- `O_CREATALL` is 2.
  unfoldable pub mkfile : List ℕ → Vfs D S → Run (ℕ × Vfs D S)
  mkfile path v = do
    (f, v') ← open_path path 2 mode_writeonly v
    file ← checked f
    v'' ← close file v'
    ok (0, v'')

  -- A drive without functions has `fs_id` 0.
  abbrev fs_id_of : Option (FileSystem D S) → ℕ
  fs_id_of none = 0
  fs_id_of (some fs) = fs.fs_id

  unfoldable pub create_device : List ℕ → D → Vfs D S → Run (ℕ × Vfs D S)
  create_device path operations v = do
    full ← extend_path alloc v.current_dir path
    drive ← checked (get_elem? full 0)
    if not_letter drive then ok (4, v) else (do
      (len, copied) ← copy_path alloc full
      new_path ← store copied len 0
      d ← drive_of v drive
      if not (fs_id_of d.fs == 0) then ok (5, v) else if not d.present then ok (3, v) else (do
        fs ← checked d.fs
        root ← fs.find_root_function d.mem_offset v.disk
        obj ← fs.open_dir_function root v.disk
        (status, disk) ←
            create_device_loop fs (len + 1) full operations 3 (drop 3 new_path) obj v.disk
        ok (status, record v { disk = disk })))
