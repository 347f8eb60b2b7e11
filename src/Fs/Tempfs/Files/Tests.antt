-- ===== src/Fs/Tempfs/Files/Tests.antt =====
-- Files of the temporary file system on a concrete store: a run, and the witness of the theorem.
use potat_os.Prelude.{
  ℕ, ◌+◌, ◌≡◌, refl, arith, [], ◌∷◌, length-replicate, inl, none, replicate, ok, fault, ◌>>=◌,
  put_at, deref,
}
use potat_os.Utils.Strings.{memcpy}
use potat_os.Fs.Vfs.Files.{ReadsBack}
use potat_os.Fs.Tempfs.{FileNode, Store, zero_inode, zero_entry}
use potat_os.Fs.Tempfs.Files.{Devices, temp_fs, write, read, write_loop, read_loop}
use potat_os.Fs.Tempfs.Files.ReadBack.{temp_fs-ReadsBack}

-- No device answers.
abbrev no_devices : Devices ℕ
no_devices = record {
  open_device = λ d file mode s. fault;
  close_device = λ d file s. fault;
  read_device = λ d file buffer len s. fault;
  write_device = λ d file buffer len s. fault;
}

abbrev addr : ℕ → ℕ
addr n = n + 10

abbrev raw : FileNode
raw = record { bytes = replicate 4088 0; next_node = 0 }

-- An empty file at 1.
abbrev store_1 : Store ℕ
store_1 = record {
  inodes = put_at (λ a. none) 1 zero_inode;
  entries = λ a. none;
  nodes = λ a. none;
  calls = 0;
}

temp_fs-ReadsBack_example : ReadsBack (temp_fs no_devices addr zero_entry raw) 1 store_1 10000
temp_fs-ReadsBack_example =
    temp_fs-ReadsBack no_devices addr raw 1 store_1 (length-replicate {A = ℕ} 4088 0)
      (record {
        nonnull = λ n. ground arith;
        distinct = λ n m ne. ground (arith, ne);
        unused = λ n le. refl;
      })
      (record {
        inode = zero_inode;
        nonnull = ground arith;
        holds = refl;
        regular = ground arith;
        contents = inl (refl, refl);
      })
      zero_entry 10000 (omega arith)

-- Three bytes written, two read.
written_and_read :
    (do
      (status, s) ← write no_devices addr raw 1 (5 ∷ 6 ∷ 7 ∷ []) 3 store_1
      (status', out, s') ← read no_devices 1 (0 ∷ 0 ∷ 9 ∷ []) 2 s
      ok out)
    ≡ ok (5 ∷ 6 ∷ 9 ∷ [])
unfolding write read write_loop read_loop memcpy deref
written_and_read = refl
