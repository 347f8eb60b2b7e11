-- ===== src/Fs/Ustar.antt =====
-- unpack_ustar of src/fs/ustar.c: the files of an archive, written through Fs/Vfs. The archive is the
-- list of the bytes from the current header on, behind the end of which a read is a fault; `alloc` gives
-- the objects of malloc.
pub mod Names
pub mod Tests
use potat_os.Prelude.{
  ℕ, zero, suc, ◌+◌, ◌-◌, ◌*◌, ◌/◌, ◌%◌, ◌^◌, ltb, Bool, true, false, not, ◌==◌, if◌then◌else◌,
  List, [], ◌∷◌, drop, get_elem?, Option, none, some, Run, ok, fault, halted, out_of_fuel, checked,
  ◌>>=◌, store,
}
use potat_os.Utils.Strings.{strlen, memset, memcmp, oct2bin}
use potat_os.Fs.Vfs.{Vfs, File, write, close, mode_writeonly}
use potat_os.Fs.Vfs.Paths.{memcpy_at}
use potat_os.Fs.Vfs.Open.{open_path}

-- O_CREATALL.
abbrev pub creatall_flag : ℕ
creatall_flag = 2

-- The path of the header's file on the drive.
unfoldable pub new_name : (ℕ → List ℕ) → ℕ → List ℕ → Run (List ℕ)
new_name alloc drive_char archive = do
  name_len ← strlen archive
  cleared ← memset (alloc (name_len + 4)) 0 (name_len + 4)
  drive ← store cleared 0 drive_char
  colon ← store drive 1 b':'
  slash ← store colon 2 b'/'
  copied ← memcpy_at slash 3 archive name_len
  store copied (name_len + 4) 0

-- The int that oct2bin returns, as a uint64_t: its sign is extended.
abbrev pub to_uint64 : ℕ → ℕ
to_uint64 n = if ltb n (2 ^ 31) then n else n + 2 ^ 64 - 2 ^ 32

-- From a header to the next one, behind the file's blocks of 512 bytes.
abbrev pub header_step : ℕ → ℕ
header_step filesize = ((filesize + 511) % 2 ^ 64 / 512 + 1) * 512

module _ {D S : Type 0} (alloc : ℕ → List ℕ) (drive_char : ℕ) where
  -- The body of the loop for a header that is no directory's.
  unfoldable pub unpack_file : List ℕ → ℕ → Vfs D S → Run (Vfs D S)
  unpack_file archive filesize v = do
    name ← new_name alloc drive_char archive
    (f, opened) ← open_path alloc name creatall_flag mode_writeonly v
    elim f [
      | none ↦ halted
      | some file ↦ do
        (write_status, written) ← write file (drop 512 archive) filesize opened
        if write_status == 0 then close file written else halted
    ]

  pub unpack_ustar : ℕ → List ℕ → Vfs D S → Run (Vfs D S)
  unpack_ustar zero archive v = out_of_fuel
  unpack_ustar (suc fuel) archive v = do
    more ← memcmp (drop 257 archive) (b'u' ∷ b's' ∷ b't' ∷ b'a' ∷ b'r' ∷ 0 ∷ []) 5
    if not more then ok v else (do
      size ← oct2bin (drop 124 archive) 11
      let filesize = to_uint64 size
      type ← checked (get_elem? archive 156)
      v' ← (if type == b'5' then ok v else unpack_file archive filesize v)
      unpack_ustar fuel (drop (header_step filesize) archive) v')
