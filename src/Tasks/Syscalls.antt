-- ===== src/Tasks/Syscalls.antt =====
-- The system calls on files of src/tasks/syscalls.c: the table of open files of the current task, over
-- the virtual file system. A null pointer in the table is `none`.
pub mod Descriptors
pub mod Queues
pub mod Tests
use potat_os.Prelude.{
  ℕ, zero, suc, ◌+◌, ◌%◌, ◌^◌, Bool, true, false, not, ltb, if◌then◌else◌, List, [], ◌∷◌, get_elem?,
  set, take, drop, Option, none, some, Run, ok, out_of_fuel, checked, ◌>>=◌, store,
}
use potat_os.Utils.Strings.{strlen, memcpy}
use potat_os.Fs.Vfs.{File, Vfs, write, read, close}
use potat_os.Fs.Vfs.Open.{open_path}

abbrev pub num_resources : ℕ
num_resources = 20

-- The current task's table, and the file systems.
pub record Caller (D S : Type 0) : Type 0 where
  pub resources : List (Option File)
  pub vfs : Vfs D S

-- The index of the first entry from `i` on that is null.
pub first_free : List (Option File) → ℕ → Option ℕ
first_free [] i = none
first_free (none ∷ rs) i = some i
first_free (some f ∷ rs) i = first_free rs (i + 1)

module _ {D S : Type 0} where
  -- `resources[rdi]`, and what it points at.
  abbrev pub resource : Caller D S → ℕ → Run File
  resource c rdi = do entry ← checked (get_elem? c.resources rdi); checked entry

  unfoldable pub syscall_write : ℕ → List ℕ → ℕ → Caller D S → Run (ℕ × Caller D S)
  syscall_write rdi rsi rdx c = do
    f ← resource c rdi
    if not f.present then ok (1, c) else (do
      (write_status, vfs) ← write f rsi rdx c.vfs
      ok (write_status, record c { vfs = vfs }))

  unfoldable pub syscall_read : ℕ → List ℕ → ℕ → Caller D S → Run (ℕ × List ℕ × Caller D S)
  syscall_read rdi rsi rdx c = do
    f ← resource c rdi
    if not f.present then ok (1, rsi, c) else (do
      (read_status, filled, vfs) ← read f rsi rdx c.vfs
      ok (read_status, filled, record c { vfs = vfs }))

  -- `none` is the result -1: no entry of the table is free.
  unfoldable pub syscall_open :
      (ℕ → List ℕ) → List ℕ → ℕ → ℕ → Caller D S → Run (Option ℕ × Caller D S)
  syscall_open alloc rdi rsi rdx c = elim (first_free (take num_resources c.resources) 0) [
    | none ↦ ok (none, c)
    | some file_descriptor ↦ do
      (f, vfs) ← open_path alloc rdi (rsi % 2 ^ 32) (rdx % 256) c.vfs
      resources ← store c.resources file_descriptor f
      ok (some file_descriptor, record { resources = resources; vfs = vfs })
  ]

  unfoldable pub syscall_close : ℕ → Caller D S → Run (Caller D S)
  syscall_close rdi c = do
    f ← resource c rdi
    vfs ← close f c.vfs
    resources ← store c.resources rdi none
    ok (record { resources = resources; vfs = vfs })

  -- The buffer is filled without a terminator.
  unfoldable pub syscall_get_cwd : List ℕ → ℕ → Caller D S → Run (List ℕ)
  syscall_get_cwd rdi rsi c = do
    cd_len ← strlen c.vfs.current_dir
    memcpy rdi c.vfs.current_dir (if ltb cd_len rsi then cd_len else rsi)
