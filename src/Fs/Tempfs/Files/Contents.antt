-- ===== src/Fs/Tempfs/Files/Contents.antt =====
-- What `tempfs_write` leaves, and that `tempfs_read` reads it.
use potat_os.Prelude.{
  ℕ, zero, suc, ◌+◌, ◌-◌, ◌^◌, ◌<◌, ◌≤◌, ◌≡◌, refl, ◌≢◌, ap, sym, ◌∙◌, subst, arith, true, false,
  List, [], ◌∷◌, ◌++◌, length, length-append, length-take, length-drop, take, drop,
  take-length_append, none, some, ltb, ok, ◌==◌, put_at, put_at-ne, put_at_self, deref-ok, held_ne,
}
use potat_os.Utils.Strings.{memcpy}
use potat_os.Utils.Strings.Edit.{memcpy_lem}
use potat_os.Fs.Tempfs.{FileNode, Store, data_size}
use potat_os.Fs.Tempfs.Files.{amount_to_copy, left_after, next_of, write_loop}
use potat_os.Fs.Tempfs.Files.Chains.{
  NotAmong, Distinct, Blocks, Stored, done, block, Blocks-put_at, drop_add, amount_le,
}

-- The addresses that `malloc` is still to give are not null, all different, and no block is there.
pub record FreshNodes {D : Type 0} (addr : ℕ → ℕ) (s : Store D) : Type 0 where
  pub nonnull : (n : ℕ) → addr n ≢ 0
  pub distinct : (n m : ℕ) → n ≢ m → addr n ≢ addr m
  pub unused : (n : ℕ) → s.calls ≤ n → s.nodes (addr n) ≡ none

-- What writing the first `n` bytes of `xs` from the block at `p`, one of `cs`, leaves.
pub record Wrote {D : Type 0} (s : Store D) (p : ℕ) (cs xs : List ℕ) (n : ℕ) (s' : Store D)
    : Type 0 where
  pub stored : Stored s'.nodes p xs n
  pub frame : (a : ℕ) (x : FileNode) → NotAmong a cs → s.nodes a ≡ some x → s'.nodes a ≡ some x
  pub inodes : s'.inodes ≡ s.inodes

-- One block: what it holds after the copy.
copy_block :
    (bytes xs : List ℕ) (m : ℕ)
    → length bytes ≡ data_size
    → m ≤ length xs
    → (copied : List ℕ) × (memcpy bytes xs (amount_to_copy m) ≡ ok copied)
      × (take (amount_to_copy m) copied ≡ take (amount_to_copy m) xs)
      × (length copied ≡ data_size)
copy_block bytes xs m full fits =
    let a = amount_to_copy m in
    let amount = amount_le m in
    let front = take a xs in
    let room = length-take a xs (omega (arith, amount)) in
    let first : take a (front ++ drop a bytes) ≡ front =
      ap (λ k. take k (front ++ drop a bytes)) (sym room)
      ∙ take-length_append front (drop a bytes) in
    (
      front ++ drop a bytes,
      memcpy_lem bytes xs a (omega (arith, amount, full)) (omega (arith, amount)),
      first,
      omega (arith, length-append front (drop a bytes), room, length-drop a bytes, full, amount),
    )

-- `m` bytes of the `len` are left at the index `i`, and `xs` starts there.
abbrev Goes : List ℕ → ℕ → ℕ → ℕ → ℕ → List ℕ → Type 0
Goes buffer len i left m xs =
    (m ≡ 0 → len ≤ i) × (0 < m → (left ≡ m) × (len ≡ i + m) × (xs ≡ drop i buffer))

Goes-drop :
    (buffer : List ℕ) (len i left m : ℕ) (xs : List ℕ)
    → len < 2 ^ 64
    → 0 < m
    → Goes buffer len i left m xs
    → Goes buffer len (i + data_size) (left_after left) (m - data_size) (drop data_size xs)
Goes-drop buffer len i left m xs small pos goes =
    let at = goes.1 pos in
    (
      λ e. omega (arith, e, at.1),
      λ more. (
        omega (arith, at.0, at.1, more, small),
        omega (arith, at.1, more),
        ap (drop data_size) at.2 ∙ sym (drop_add i data_size buffer),
      ),
    )

module _ {D : Type 0} (addr : ℕ → ℕ) (raw : FileNode) (sized : length raw.bytes ≡ data_size)
    (buffer : List ℕ) (len : ℕ) (fits : len ≤ length buffer) (small : len < 2 ^ 64) where
  -- The state behind one round at `p`, with the next block at `q`.
  abbrev behind : ℕ → List ℕ → ℕ → Store D → Store D
  behind p copied q s1 = record s1 {
    nodes = put_at s1.nodes p (record { bytes = copied; next_node = q });
  }

  FreshNodes-write :
      (s1 : Store D) (p : ℕ) (copied : List ℕ) (q : ℕ) {x : FileNode}
      → FreshNodes addr s1
      → s1.nodes p ≡ some x
      → FreshNodes addr (behind p copied q s1)
  FreshNodes-write s1 p copied q f holds = record {
    nonnull = f.nonnull;
    distinct = f.distinct;
    unused = λ n le.
        let none_there = f.unused n le in
        put_at-ne s1.nodes p (addr n) (record { bytes = copied; next_node = q })
          (λ e. held_ne s1.nodes p (addr n) holds none_there (sym e))
        ∙ none_there;
  }

  FreshNodes-alloc :
      (s : Store D) (new : FileNode)
      → FreshNodes addr s
      → FreshNodes addr
          (record s { nodes = put_at s.nodes (addr s.calls) new; calls = s.calls + 1 })
  FreshNodes-alloc s new f = record {
    nonnull = f.nonnull;
    distinct = f.distinct;
    unused = λ n le.
        put_at-ne s.nodes (addr s.calls) (addr n) new (f.distinct n s.calls (omega (arith, le)))
        ∙ f.unused n (omega (arith, le));
  }

  -- One round, given what the others do.
  write_round :
      (fuel i p left m : ℕ) (cs cs' xs : List ℕ) (s : Store D) (node : FileNode) (q : ℕ)
      (s1 : Store D)
      → next_of addr raw node s ≡ (q, s1)
      → p ≢ 0
      → s.nodes p ≡ some node
      → length node.bytes ≡ data_size
      → 0 < m
      → Goes buffer len i left m xs
      → NotAmong p cs'
      → ((a : ℕ) (x : FileNode)
          → NotAmong a (p ∷ cs)
          → s.nodes a ≡ some x
          → NotAmong a cs' × (s1.nodes a ≡ some x))
      → ((copied : List ℕ)
          → length copied ≡ data_size
          → (s' : Store D) × (write_loop addr raw buffer len fuel
                (i + data_size)
                q
                (left_after left)
                (behind p copied q s1)
              ≡ ok s')
            × Wrote (behind p copied q s1) q cs' (drop data_size xs) (m - data_size) s')
      → s1.inodes ≡ s.inodes
      → (s' : Store D) × (write_loop addr raw buffer len (suc fuel) i p left s ≡ ok s')
        × Wrote s p (p ∷ cs) xs m s'
  unfolding write_loop
  write_round fuel i p left m cs cs' xs s node q s1 there ne holds full pos goes out others next
        same =
      let at = goes.1 pos in
      let inside : ltb i len ≡ true = ground (arith, at.1, pos) in
      let long : m ≤ length xs = omega (arith, at.1, fits, ap length at.2, length-drop i buffer) in
      let (copied, runs, holds_now, still_full) = copy_block node.bytes xs m full long in
      let copies : memcpy node.bytes (drop i buffer) (amount_to_copy left) ≡ ok copied =
        ap (λ t. memcpy node.bytes t (amount_to_copy left)) (sym (at.2))
        ∙ ap (λ n. memcpy node.bytes xs (amount_to_copy n)) at.0
        ∙ runs in
      let (s', loops, w) = next copied still_full in
      let now : FileNode = record { bytes = copied; next_node = q } in
      (
        s',
        rw (inside, deref-ok s.nodes p ne holds, there, copies, loops) refl,
        record {
          stored =
              block p xs m now ne (w.frame p now out (put_at_self (s1.nodes) p now)) still_full
                holds_now w.stored;
          frame = λ a x away old.
              let kept = others a x away old in
              w.frame a x kept.0 (put_at-ne (s1.nodes) p a now away.0 ∙ kept.1);
          inodes = w.inodes ∙ same;
        },
      )

  pub write_loop-Wrote :
      (fuel i p left m c : ℕ) (cs xs : List ℕ) (s : Store D)
      → FreshNodes addr s
      → Blocks s.nodes p (c ∷ cs)
      → Distinct (c ∷ cs)
      → m < fuel
      → Goes buffer len i left m xs
      → (s' : Store D) × (write_loop addr raw buffer len fuel i p left s ≡ ok s')
        × Wrote s c (c ∷ cs) xs m s'
  unfolding write_loop
  write_loop-Wrote zero i p left m c cs xs s f b d lt goes = absurd (omega arith)
  write_loop-Wrote (suc fuel) i p left zero c cs xs s f b d lt goes =
      let over : ltb i len ≡ false = ground (arith, goes.0 refl) in
      (
        s,
        rw over refl,
        record { stored = done c xs; frame = λ a x out holds. holds; inodes = refl },
      )
  write_loop-Wrote (suc fuel) i p left (suc m) c [] xs s f (node, start, ne, holds, full, rest) d lt
        goes =
      let q = addr s.calls in
      let new : FileNode = record raw { next_node = 0 } in
      let h = put_at s.nodes q new in
      let s1 : Store D = record s { nodes = h; calls = s.calls + 1 } in
      let apart : c ≢ q = held_ne s.nodes c q holds (f.unused s.calls (omega arith)) in
      let takes : next_of addr raw node s ≡ (q, s1) =
        let none_next : (node.next_node == 0) ≡ true = ground (arith, rest) in rw none_next refl in
      let round =
        write_round fuel i c left (suc m) [] (q ∷ []) xs s node q s1 takes ne holds full
          (omega arith) goes (apart, tt)
          (λ a x away old.
            let other = held_ne s.nodes a q old (f.unused s.calls (omega arith)) in
            ((other, tt), put_at-ne s.nodes q a new other ∙ old))
          (λ copied size.
            write_loop-Wrote fuel (i + data_size) q (left_after left) (suc m - data_size) q []
              (drop data_size xs) (behind c copied q s1)
              (FreshNodes-write s1 c copied q (FreshNodes-alloc s new f)
                (put_at-ne s.nodes q c new apart ∙ holds))
              (
                new,
                refl,
                f.nonnull s.calls,
                put_at-ne h c q (record { bytes = copied; next_node = q }) (λ e. apart (sym e))
                    ∙ put_at_self s.nodes q new,
                sized,
                refl,
              )
              (tt, tt) (omega arith)
              (Goes-drop buffer len i left (suc m) xs small (omega arith) goes))
          refl in
      subst
        (λ t.
          (s' : Store D) × (write_loop addr raw buffer len (suc fuel) i t left s ≡ ok s')
          × Wrote s c (c ∷ []) xs (suc m) s')
        (sym start) round
  write_loop-Wrote (suc fuel) i p left (suc m) c (c' ∷ cs) xs s f
        (node, start, ne, holds, full, rest) d lt goes =
      let q = node.next_node in
      let takes : next_of addr raw node s ≡ (q, s) =
        let more : (node.next_node == 0) ≡ false = ground (arith, rest.1, rest.2) in rw more refl in
      let round =
        write_round fuel i c left (suc m) (c' ∷ cs) (c' ∷ cs) xs s node q s takes ne holds full
          (omega arith) goes d.0 (λ a x away old. (away.1, old))
          (λ copied size.
            let (s', runs, w) =
              write_loop-Wrote fuel (i + data_size) q (left_after left) (suc m - data_size) c' cs
                (drop data_size xs) (behind c copied q s) (FreshNodes-write s c copied q f holds)
                (Blocks-put_at s.nodes c (record { bytes = copied; next_node = q }) q (c' ∷ cs) d.0
                  rest)
                d.1 (omega arith)
                (Goes-drop buffer len i left (suc m) xs small (omega arith) goes) in
            (
              s',
              runs,
              subst
                  (λ t.
                    Wrote (behind c copied q s) t (c' ∷ cs) (drop data_size xs) (suc m - data_size)
                      s')
                  (sym (rest.1)) w,
            ))
          refl in
      subst
        (λ t.
          (s' : Store D) × (write_loop addr raw buffer len (suc fuel) i t left s ≡ ok s')
          × Wrote s c (c ∷ c' ∷ cs) xs (suc m) s')
        (sym start) round
