-- ===== src/Fs/Vfs/Paths.antt =====
-- How a path is completed: the first lines of `open`, `mkdir` and `create_device`, and `change_cd`.
-- `alloc n` is the object that `malloc(n)` gives, with whatever it contains.
pub mod Laws
use potat_os.Prelude.{
  ℕ, ◌+◌, Bool, true, false, ◌&&◌, ◌++◌, ◌==◌, if◌then◌else◌, List, [], ◌∷◌, get_elem?, take, drop,
  Run, ok, checked, ◌>>=◌, store,
}
use potat_os.Utils.Strings.{strlen, memcpy}

-- `memcpy(object + offset, from, n)`.
abbrev pub memcpy_at : List ℕ → ℕ → List ℕ → ℕ → Run (List ℕ)
memcpy_at object offset from n = do
  rest ← memcpy (drop offset object) from n
  ok (take offset object ++ rest)

-- `path[1] == ':' && path[2] == '/'`, which reads the second only after the first.
unfoldable pub has_drive : List ℕ → Run Bool
has_drive path = do
  colon ← checked (get_elem? path 1)
  if colon == 58 then (do slash ← checked (get_elem? path 2); ok (slash == 47)) else ok false

unfoldable pub extend_path : (ℕ → List ℕ) → List ℕ → List ℕ → Run (List ℕ)
extend_path alloc cd path = do
  full ← has_drive path
  if full then ok path else (do
    first ← checked (get_elem? path 0)
    path_len ← strlen path
    if first == 47
        then (do
          copied ← memcpy_at (alloc (path_len + 3)) 2 path (path_len + 1)
          drive ← checked (get_elem? cd 0)
          lettered ← store copied 0 drive
          store lettered 1 58)
        else (do
          cd_len ← strlen cd
          copied ← memcpy (alloc (cd_len + path_len + 1)) cd cd_len
          memcpy_at copied cd_len path (path_len + 1)))

-- The new current directory.
unfoldable pub change_cd : (ℕ → List ℕ) → List ℕ → List ℕ → Run (List ℕ)
change_cd alloc cd path = do
  path_len ← strlen path
  full ← has_drive path
  first ← checked (get_elem? path 0)
  extended ←
      (if full
        then ok path
        else if first == 47
        then (do
          copied ← memcpy_at (alloc (path_len + 4)) 2 path (path_len + 1)
          drive ← checked (get_elem? cd 0)
          lettered ← store copied 0 drive
          coloned ← store lettered 1 58
          slashed ← store coloned (path_len + 2) 47
          store slashed (path_len + 3) 0)
        else (do
          cd_len ← strlen cd
          copied ← memcpy (alloc (cd_len + path_len + 1)) cd cd_len
          joined ← memcpy_at copied cd_len path (path_len + 1)
          slashed ← store joined (path_len + cd_len) 47
          store slashed (path_len + cd_len + 1) 0))
  len ← strlen extended
  memcpy (alloc (len + 1)) extended (len + 1)
