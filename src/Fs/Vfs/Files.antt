-- ===== src/Fs/Vfs/Files.antt =====
-- Open files: their modes and types, and `write`, `read` and `close` as calls of the file system.
use potat_os.Prelude.{
  ℕ, ◌^◌, ◌<◌, ◌≤◌, ◌≡◌, refl, ◌≢◌, arith, true, false, Bool-cases, inl, inr, ◌==◌, ◌↔◌, List, [],
  ◌∷◌, ◌++◌, length, take, drop, if◌then◌else◌, ok,
}
use potat_os.Utils.Strings.Compare.{NoNul, strcmp_decides}
use potat_os.Fs.Vfs.{
  FileSystem, File, Vfs, fs_of, write, read, mode_readonly, mode_writeonly, ftype_stdout,
  check_file_type,
}

-- What a caller of a file system may rely on for the file `obj`: what is written, of at most `limit`
-- bytes, is read back.
pub record ReadsBack {D S : Type 0} (fs : FileSystem D S) (obj : ℕ) (s : S) (limit : ℕ)
    : Type 0 where
  pub write_read :
      (buffer : List ℕ) (size : ℕ)
      → size ≤ limit
      → size ≤ length buffer
      → (s' : S) × (fs.write_function obj buffer size s ≡ ok (0, s'))
        × ((out : List ℕ) (n : ℕ)
            → n ≤ size
            → n ≤ length out
            → fs.read_function obj out n s' ≡ ok (0, take n buffer ++ drop n out, s'))

module _ {D S : Type 0} (v : Vfs D S) (f : File) {fs : FileSystem D S} where
  -- A file that is open for reading and writing on a file system that reads back what was written:
  -- `write` returns 0, and a `read` of no more than that then returns 0 and puts the first bytes
  -- into the buffer. Through a file opened read-only `write` returns 1 and changes nothing, and
  -- through one opened write-only `read` does.
  pub write-read :
      (size : ℕ) (buffer : List ℕ)
      → fs_of v f.drive_char ≡ ok fs
      → ReadsBack fs f.private v.disk size
      → size ≤ length buffer
      → (f.mode ≢ mode_readonly
          → f.mode ≢ mode_writeonly
          → (v' : Vfs D S) × (write f buffer size v ≡ ok (0, v'))
            × ((out : List ℕ) (n : ℕ)
                → n ≤ size
                → n ≤ length out
                → read f out n v' ≡ ok (0, take n buffer ++ drop n out, v')))
        × (f.mode ≡ mode_readonly → write f buffer size v ≡ ok (1, v))
        × (f.mode ≡ mode_writeonly → read f buffer size v ≡ ok (1, buffer, v))
  unfolding write read
  write-read size buffer at law fits =
      let (s', wrote, reads) = law.write_read buffer size (omega arith) fits in
      let console = if f.ftype == ftype_stdout then buffer ∷ v.console else v.console in
      (
        λ nr nw.
            let r : (f.mode == mode_readonly) ≡ false = ground (arith, nr) in
            let w : (f.mode == mode_writeonly) ≡ false = ground (arith, nw) in
            (
              record v { disk = s'; console = console },
              rw (r, at, wrote) refl,
              λ out n le le'. rw (w, at, reads out n le le') refl,
            ),
        λ ro. let r : (f.mode == mode_readonly) ≡ true = ground (arith, ro) in rw r refl,
        λ wo. let w : (f.mode == mode_writeonly) ≡ true = ground (arith, wo) in rw w refl,
      )

abbrev pub stdout : List ℕ
stdout = 115 ∷ 116 ∷ 100 ∷ 111 ∷ 117 ∷ 116 ∷ []

abbrev pub stdin : List ℕ
stdin = 115 ∷ 116 ∷ 100 ∷ 105 ∷ 110 ∷ []

abbrev pub stderr : List ℕ
stderr = 115 ∷ 116 ∷ 100 ∷ 101 ∷ 114 ∷ 114 ∷ []

-- The type of a file goes by its name alone, of less than 2^31 characters: it is 2 exactly for
-- "stdout", 3 exactly for "stdin" and 4 exactly for "stderr".
pub check_file_type_lem :
    (name r : List ℕ)
    → NoNul name
    → length name < 2 ^ 31
    → (t : ℕ) × (check_file_type (name ++ (0 ∷ r)) ≡ ok t)
      × ((t ≡ 2) ↔ (name ≡ stdout))
      × ((t ≡ 3) ↔ (name ≡ stdin))
      × ((t ≡ 4) ↔ (name ≡ stderr))
unfolding check_file_type
check_file_type_lem name r nonul fits =
    let (o, out, out_iff) =
      strcmp_decides name stdout r [] nonul (omega arith) fits (omega arith) in
    let (i, inp, in_iff) = strcmp_decides name stdin r [] nonul (omega arith) fits (omega arith) in
    let (e, err, err_iff) =
      strcmp_decides name stderr r [] nonul (omega arith) fits (omega arith) in
    elim (Bool-cases o) [
      | inl yes_out ↦
          let named = out_iff.0 yes_out in
          (
            2,
            rw (out, yes_out) refl,
            ground (arith, named),
            ground (arith, named),
            ground (arith, named),
          )
      | inr no_out ↦ elim (Bool-cases i) [
        | inl yes_in ↦
            let named = in_iff.0 yes_in in
            (
              3,
              rw (out, no_out, inp, yes_in) refl,
              ground (arith, named),
              ground (arith, named),
              ground (arith, named),
            )
        | inr no_in ↦ elim (Bool-cases e) [
          | inl yes_err ↦
              let named = err_iff.0 yes_err in
              (
                4,
                rw (out, no_out, inp, no_in, err, yes_err) refl,
                ground (arith, named),
                ground (arith, named),
                ground (arith, named),
              )
          | inr no_err ↦ (
            1,
            rw (out, no_out, inp, no_in, err, no_err) refl,
            ground (arith, out_iff, no_out),
            ground (arith, in_iff, no_in),
            ground (arith, err_iff, no_err),
          )
        ]
      ]
    ]
