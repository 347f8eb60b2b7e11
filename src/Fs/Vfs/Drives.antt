-- ===== src/Fs/Vfs/Drives.antt =====
-- `mount` and `unmount`.
use potat_os.Prelude.{
  ℕ, ◌+◌, ◌-◌, ◌%◌, ◌<◌, ◌≤◌, ◌≡◌, refl, ◌≢◌, arith, true, false, Bool, length, some, get_elem?,
  set, get_elem?-set_self, get_elem?-set_ne, if◌then◌else◌, ok, store-set,
}
use potat_os.Fs.Vfs.{FileSystem, Drive, Vfs, no_drive, upper, not_letter, mount, unmount, drive_of}

-- The drive that `mount` puts into the table.
abbrev pub mounted : {D S : Type 0} → FileSystem D S → Bool → ℕ → ℕ → ℕ → Drive D S
mounted fs memory_based mem_offset disk partition = record {
  present = true;
  fs = some fs;
  in_memory = memory_based;
  mem_offset = if memory_based then mem_offset else disk;
  partition = if memory_based then 0 else partition;
}

-- The table with one entry changed.
abbrev pub with_drive : {D S : Type 0} → ℕ → Drive D S → Vfs D S → Vfs D S
with_drive letter d v = record v { drives = set v.drives (letter - 65) d }

module _ {D S : Type 0} (v : Vfs D S) (full : length v.drives ≡ 26) where
  drive_of-with_drive :
      (letter : ℕ) (d : Drive D S)
      → not_letter letter ≡ false
      → drive_of (with_drive letter d v) letter ≡ ok d
  drive_of-with_drive letter d up =
      let low : 65 ≤ letter = ground (arith, up) in
      let high : letter ≤ 90 = ground (arith, up) in
      let i : (letter + 256 - 65) % 256 ≡ letter - 65 = omega arith in
      rw (i, get_elem?-set_self v.drives (letter - 65) d (omega (arith, full))) refl

  drive_of-with_drive_ne :
      (letter other : ℕ) (d : Drive D S)
      → not_letter letter ≡ false
      → not_letter other ≡ false
      → other ≢ letter
      → drive_of (with_drive letter d v) other ≡ drive_of v other
  drive_of-with_drive_ne letter other d up up' ne =
      let low : 65 ≤ letter = ground (arith, up) in
      let high : letter ≤ 90 = ground (arith, up) in
      let low' : 65 ≤ other = ground (arith, up') in
      let high' : other ≤ 90 = ground (arith, up') in
      let i : (other + 256 - 65) % 256 ≡ other - 65 = omega arith in
      rw (i, get_elem?-set_ne v.drives (letter - 65) (other - 65) d (λ e. ne (omega arith))) refl

  -- `mount` at a letter in either case fills the drive of the capital letter with the file system
  -- asked for, and no other drive changes; `unmount` empties it. At a character that is
  -- no letter both return 1 and change nothing.
  pub mount-unmount :
      (c n : ℕ) (fs : FileSystem D S) (memory_based : Bool) (mem_offset disk partition : ℕ)
      → get_elem? v.filesystems n ≡ some fs
      → let d = mounted fs memory_based mem_offset disk partition in
        let v' = with_drive (upper c) d v in
        (not_letter (upper c) ≡ false
          → (mount c n memory_based mem_offset disk partition v ≡ ok (0, v'))
            × (drive_of v' (upper c) ≡ ok d)
            × ((other : ℕ)
                → not_letter other ≡ false
                → other ≢ upper c
                → drive_of v' other ≡ drive_of v other)
            × (unmount c v ≡ ok (0, with_drive (upper c) no_drive v))
            × (drive_of (with_drive (upper c) no_drive v) (upper c) ≡ ok no_drive))
        × (not_letter (upper c) ≡ true
            → (mount c n memory_based mem_offset disk partition v ≡ ok (1, v))
              × (unmount c v ≡ ok (1, v)))
  unfolding mount unmount
  mount-unmount c n fs memory_based mem_offset disk partition found =
      let d = mounted fs memory_based mem_offset disk partition in
      (
        λ up.
            let low : 65 ≤ upper c = ground (arith, up) in
            let high : upper c ≤ 90 = ground (arith, up) in
            let inside : upper c - 65 < length v.drives = omega (arith, full, high) in
            (
              rw (up, found, store-set v.drives (upper c - 65) d inside) refl,
              drive_of-with_drive (upper c) d up,
              λ other up' ne. drive_of-with_drive_ne (upper c) other d up up' ne,
              rw (up, store-set v.drives (upper c - 65) no_drive inside) refl,
              drive_of-with_drive (upper c) no_drive up,
            ),
        λ bad. (rw bad refl, rw bad refl),
      )
