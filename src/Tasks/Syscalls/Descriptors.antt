-- ===== src/Tasks/Syscalls/Descriptors.antt =====
-- File descriptors: what `syscall_open` gives, and what a descriptor is good for.
use potat_os.Prelude.{
  ℕ, zero, suc, ◌+◌, ◌%◌, ◌^◌, ◌<◌, ◌≡◌, refl, ◌∙◌, ap, arith, true, List, [], ◌∷◌, ◌++◌, take,
  length, get_elem?-append_at, Option, none, some, ok, fault, store-append,
}
use potat_os.Fs.Vfs.{File, Vfs, write, close}
use potat_os.Fs.Vfs.Open.{open_path}
use potat_os.Tasks.Syscalls.{num_resources, first_free, syscall_open, syscall_write, syscall_close}

-- No entry is null.
abbrev pub AllOpen : List (Option File) → Type 0
AllOpen [] = Unit
AllOpen (none ∷ rs) = ⊥
AllOpen (some f ∷ rs) = AllOpen rs

first_free-take :
    (n i : ℕ) (before after : List (Option File))
    → AllOpen before
    → length before < n
    → first_free (take n (before ++ (none ∷ after))) i ≡ some (i + length before)
unfolding first_free
first_free-take zero i before after all lt = absurd (omega arith)
first_free-take (suc n) i [] after all lt = ap some (omega arith)
first_free-take (suc n) i (none ∷ before) after all lt = elim all [ ]
first_free-take (suc n) i (some f ∷ before) after all lt =
    first_free-take n (i + 1) before after all (omega arith) ∙ ap some (omega arith)

first_free-AllOpen : (i : ℕ) (rs : List (Option File)) → AllOpen rs → first_free rs i ≡ none
unfolding first_free
first_free-AllOpen i [] all = refl
first_free-AllOpen i (none ∷ rs) all = elim all [ ]
first_free-AllOpen i (some f ∷ rs) all = first_free-AllOpen (i + 1) rs all

module _ {D S : Type 0} (alloc : ℕ → List ℕ) (path : List ℕ) (flags mode : ℕ) (v v' : Vfs D S)
    (before after : List (Option File)) (f : Option File)
    (opens : open_path alloc path (flags % 2 ^ 32) (mode % 256) v ≡ ok (f, v')) where
  -- When `open` returns, `syscall_open` gives the lowest free descriptor below 20 and puts what `open`
  -- returned there, changing no other. On every table in which none of the first 20 descriptors is free,
  -- as the full one of 20, it gives -1 and opens nothing. Writing to the descriptor is writing to the
  -- file, when `open` returned one that is present, and closing it makes it free again; when `open`
  -- returned a null pointer, a descriptor is given all the same, and writing goes through that pointer.
  pub syscall_open-syscall_write :
      AllOpen before
      → length before < num_resources
      → (syscall_open alloc path flags mode
            (record { resources = before ++ (none ∷ after); vfs = v })
          ≡ ok (some (length before), record { resources = before ++ (f ∷ after); vfs = v' }))
        × ((full : List (Option File)) (w : Vfs D S)
            → AllOpen (take num_resources full)
            → syscall_open alloc path flags mode (record { resources = full; vfs = w })
              ≡ ok (none, record { resources = full; vfs = w }))
        × ((file : File) (buffer : List ℕ) (size status : ℕ) (w : Vfs D S)
            → f ≡ some file
            → file.present ≡ true
            → write file buffer size v' ≡ ok (status, w)
            → syscall_write
                (length before)
                buffer
                size
                (record { resources = before ++ (f ∷ after); vfs = v' })
              ≡ ok (status, record { resources = before ++ (f ∷ after); vfs = w }))
        × ((buffer : List ℕ) (size : ℕ)
            → f ≡ none
            → syscall_write
                (length before)
                buffer
                size
                (record { resources = before ++ (f ∷ after); vfs = v' })
              ≡ fault)
        × ((file : File) (w : Vfs D S)
            → f ≡ some file
            → close file v' ≡ ok w
            → syscall_close (length before) (record { resources = before ++ (f ∷ after); vfs = v' })
              ≡ ok (record { resources = before ++ (none ∷ after); vfs = w }))
  unfolding syscall_open syscall_write syscall_close
  syscall_open-syscall_write all few =
      let zero_add : 0 + length before ≡ length before = omega arith in
      let here = get_elem?-append_at before after f in
      (
        (let free : first_free (take num_resources (before ++ (none ∷ after))) 0
                ≡ some (length before) =
              first_free-take num_resources 0 before after all few ∙ ap some zero_add in
            rw (syscall_open, free, opens, store-append before after none f (length before) refl)
              refl),
        (λ full w taken.
            rw (syscall_open, first_free-AllOpen 0 (take num_resources full) taken) refl),
        (λ file buffer size status w is present writes. rw (here, is, writes, present) refl),
        (λ buffer size is. rw (here, is) refl),
        (λ file w is closes.
            rw (here, is, closes, store-append before after (some file) none (length before) refl)
              refl),
      )
