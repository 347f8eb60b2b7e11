-- ===== src/Fs/Tempfs/Files/ReadBack.antt =====
-- `tempfs_write` and then `tempfs_read`, as the functions of a file system.
use potat_os.Prelude.{
  ℕ, suc, ◌+◌, ◌^◌, ◌<◌, ◌≤◌, ◌≡◌, refl, ◌≢◌, ap, sym, ◌∙◌, subst, arith, true, false, List, [],
  ◌∷◌, ◌++◌, length, length-take, take, drop, take-append-drop, some, ◌⊎◌, inl, inr, ok, ◌==◌,
  put_at, put_at-ne, put_at_self, deref-ok,
}
use potat_os.Fs.Vfs.Files.{ReadsBack}
use potat_os.Fs.Tempfs.{Inode, DirEntryNode, FileNode, Store, data_size, filetype_device, set_inode}
use potat_os.Fs.Tempfs.Files.{Devices, read_loop, write, read, temp_fs}
use potat_os.Fs.Tempfs.Files.Chains.{Blocks, Distinct, Stored, read_loop-Stored}
use potat_os.Fs.Tempfs.Files.Contents.{FreshNodes, write_loop-Wrote}

-- The file at `file` is no device, and has no block or a chain of them. A first block that is still
-- to be allocated must come with a null `next_node`, which the code does not set.
pub record RegularFile {D : Type 0} (raw : FileNode) (file : ℕ) (s : Store D) : Type 0 where
  pub inode : Inode D
  pub nonnull : file ≢ 0
  pub holds : s.inodes file ≡ some inode
  pub regular : inode.type ≢ filetype_device
  pub contents :
      ((inode.first_node ≡ 0) × (raw.next_node ≡ 0))
      ⊎ ((c : ℕ) × (cs : List ℕ) × Blocks s.nodes inode.first_node (c ∷ cs) × Distinct (c ∷ cs))

module _ {D : Type 0} (dev : Devices D) (addr : ℕ → ℕ) (raw : FileNode) (file : ℕ) (s : Store D)
    (sized : length raw.bytes ≡ data_size) (fresh : FreshNodes addr s)
    (r : RegularFile raw file s) where
  -- `tempfs_write` leaves the file's blocks with what was written.
  write-Stored :
      (buffer : List ℕ) (len : ℕ)
      → len < 2 ^ 64
      → len ≤ length buffer
      → (s' : Store D) × (i : Inode D) × (write dev addr raw file buffer len s ≡ ok (0, s'))
        × (s'.inodes file ≡ some i)
        × (i.type ≢ filetype_device)
        × Stored s'.nodes i.first_node buffer len
  unfolding write
  write-Stored buffer len small fits =
      let sized_inode : Inode D = record (r.inode) { length = len } in
      let no_device : (r.inode.type == filetype_device) ≡ false = ground (arith, r.regular) in
      elim (r.contents) [
        | inl (empty, ends) ↦
            let q = addr s.calls in
            let none_yet : (r.inode.first_node == 0) ≡ true = ground (arith, empty) in
            let i : Inode D = record sized_inode { first_node = q } in
            let s1 : Store D = record (set_inode s file sized_inode) {
              inodes = put_at ((set_inode s file sized_inode).inodes) file i;
              nodes = put_at s.nodes q raw;
              calls = s.calls + 1;
            } in
            let (s', runs, w) =
              write_loop-Wrote addr raw sized buffer len fits small (suc len) 0 q len len q []
                buffer s1
                (record {
                  nonnull = fresh.nonnull;
                  distinct = fresh.distinct;
                  unused = λ n le.
                      put_at-ne s.nodes q (addr n) raw
                        (fresh.distinct n s.calls (omega (arith, le)))
                      ∙ fresh.unused n (omega (arith, le));
                })
                (raw, refl, fresh.nonnull s.calls, put_at_self s.nodes q raw, sized, ends) (tt, tt)
                (omega arith) ((λ e. omega (arith, e)), λ pos. (refl, omega arith, refl)) in
            (
              s',
              i,
              rw (deref-ok s.inodes file r.nonnull r.holds, no_device, none_yet, runs) refl,
              ap (λ h. h file) w.inodes
                  ∙ put_at_self ((set_inode s file sized_inode).inodes) file i,
              r.regular,
              w.stored,
            )
        | inr (c, cs, blocks, distinct) ↦
            let some_yet : (r.inode.first_node == 0) ≡ false = ground (arith, blocks.1, blocks.2) in
            let s1 = set_inode s file sized_inode in
            let (s', runs, w) =
              write_loop-Wrote addr raw sized buffer len fits small (suc len) 0 r.inode.first_node
                len len c cs buffer s1
                (record {
                  nonnull = fresh.nonnull;
                  distinct = fresh.distinct;
                  unused = fresh.unused;
                })
                blocks distinct (omega arith)
                ((λ e. omega (arith, e)), λ pos. (refl, omega arith, refl)) in
            (
              s',
              sized_inode,
              rw (deref-ok s.inodes file r.nonnull r.holds, no_device, some_yet, runs) refl,
              ap (λ h. h file) w.inodes ∙ put_at_self s.inodes file sized_inode,
              r.regular,
              subst (λ p. Stored s'.nodes p buffer len) (sym (blocks.1)) w.stored,
            )
      ]

  -- What was written is read back, for every size that fits a `size_t`.
  pub temp_fs-ReadsBack :
      (raw_entry : DirEntryNode) (limit : ℕ)
      → limit < 2 ^ 64
      → ReadsBack (temp_fs dev addr raw_entry raw) file s limit
  unfolding temp_fs read
  temp_fs-ReadsBack raw_entry limit small = record {
    write_read = λ buffer size few fits.
        let (s', i, wrote, holds, regular, stored) =
          write-Stored buffer size (omega (arith, few)) fits in
        (
          s',
          wrote,
          λ out n le room.
              let no_device : (i.type == filetype_device) ≡ false = ground (arith, regular) in
              let halves = take-append-drop n out in
              let loop =
                read_loop-Stored s'.nodes n (suc n) 0 i.first_node n n size buffer [] (take n out)
                  (drop n out) stored le (omega arith) (length-take n out room)
                  (λ e. omega (arith, e)) (λ pos. (refl, refl, omega arith))
                  (omega (arith, le, few, small)) in
              let whole : read_loop s'.nodes n (suc n) 0 i.first_node n out
                  ≡ ok (take n buffer ++ drop n out) =
                subst
                  (λ t.
                    read_loop s'.nodes n (suc n) 0 i.first_node n t
                    ≡ ok (take n buffer ++ drop n out))
                  halves loop in
              rw (deref-ok s'.inodes file r.nonnull holds, no_device, whole) refl,
        );
  }
