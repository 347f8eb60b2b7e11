-- ===== src/Mem/Kheap/Malloc.antt =====
-- `malloc` on a well-formed heap.
use potat_os.Prelude.{
  ℕ, zero, suc, ◌+◌, ◌-◌, ◌/◌, ◌%◌, ◌^◌, ◌<◌, ◌≤◌, ◌≡◌, refl, ◌≢◌, sym, ◌∙◌, subst, arith, Bool,
  true, false, ◌⊎◌, inl, inr, Bool-cases, List, [], ◌∷◌, length, ltb→lt, ◌&&◌, put_at, put_at_self,
  put_at-ne, Run, ok, deref-ok, ◌==◌, ltb, if◌then◌else◌,
}
use potat_os.Mem.Kheap.{
  Pool, Pools, pool_bytes, create_pool, page_align_up, append_pool, malloc_loop, malloc,
}
use potat_os.Mem.Kheap.Chains.{
  Block, block, Chain, Away, Apart, InUse, Away-within, InUse-Away, IsHeap,
}
use potat_os.Mem.Kheap.Blocks.{Clear, Given, reuse-Given, split_pool-Given}

-- The last address of the pages for `size` bytes and a header, at `lo`.
abbrev pub last_byte : ℕ → ℕ → ℕ
last_byte lo size = lo + page_align_up ((size + pool_bytes) % 2 ^ 64) - 1

page_align_up_bounds :
    (size : ℕ)
    → size < 2 ^ 61
    → (size + pool_bytes ≤ page_align_up ((size + pool_bytes) % 2 ^ 64))
      × (page_align_up ((size + pool_bytes) % 2 ^ 64) < 2 ^ 62)
page_align_up_bounds size less = (omega arith, omega arith)

-- What `malloc` of `size` bytes leaves when it gives the pool at `q`.
pub record Allocated (start : ℕ) (bs : List Block) (size q : ℕ) (h' : Pools) : Type 0 where
  pub blocks : List Block
  pub heap : IsHeap h' start blocks
  pub kept :
      (a r : ℕ) → InUse bs a r → InUse blocks a r × ((a + r ≤ q) ⊎ (q + (size + pool_bytes) ≤ a))
  pub given : InUse blocks q (size + pool_bytes)

module _ {S : Type 0} (kmalloc : ℕ → S → Run (ℕ × S)) (hhdm : ℕ) (size pages : ℕ) (st st' : S)
    (less : size < 2 ^ 61)
    (taken : kmalloc (page_align_up ((size + pool_bytes) % 2 ^ 64) / 4096) st ≡ ok (pages, st'))
    (nonnull : pages + hhdm ≢ 0) where
  -- New pages behind the last pool.
  append_pool-Given :
      (h : Pools) (b : Block)
      → Chain h b.place (b ∷ [])
      → Away (pages + hhdm) (last_byte (pages + hhdm) size) (b ∷ [])
      → (h' : Pools) × (append_pool kmalloc hhdm b.place b.pool size h st
          ≡ ok (pages + hhdm + pool_bytes, (h', st')))
        × Given h b.place
            (b ∷ [])
            (pages + hhdm)
            (last_byte (pages + hhdm) size)
            size
            (pages + hhdm)
            h'
  unfolding append_pool
  append_pool-Given h b (start, ne, holds, sound, ends) (side, tt) =
      let q = pages + hhdm in
      let bounds = page_align_up_bounds size less in
      let linked : Pool = record (b.pool) { next_pool = q } in
      let total = page_align_up ((size + pool_bytes) % 2 ^ 64) in
      let made = create_pool total ((size + pool_bytes) % 2 ^ 64) 0 false in
      let made_size : made.size ≡ total - 1 = omega (arith, bounds.0, bounds.1) in
      let other : b.place ≢ q =
        at_other b.pool.size (last_byte q size) side (omega (arith, bounds.0)) in
      (
        put_at (put_at h b.place linked) q made,
        rw taken refl,
        record {
          blocks = block b.place linked ∷ block q made ∷ [];
          chain = (
            refl,
            ne,
            put_at-ne (put_at h b.place linked) q b.place made other ∙ put_at_self h b.place linked,
            record {
              verified = sound.verified;
              header = sound.header;
              fits = sound.fits;
              small = sound.small;
            },
            (
              refl,
              nonnull,
              put_at_self (put_at h b.place linked) q made,
              record {
                verified = refl;
                header = omega arith;
                fits = omega (arith, made_size, bounds.0);
                small = omega (arith, made_size, bounds.1);
              },
              refl,
            ),
          );
          apart = (
            (apart_from b.pool.size made.size side (omega (arith, made_size, bounds.0)), tt),
            (tt, tt),
          );
          away = λ l u away clear.
              (away.0, (clear_of l u made.size clear (omega (arith, made_size, bounds.0)), tt));
          frame = λ a away clear.
              put_at-ne (put_at h b.place linked) q a made
                (not_new a (last_byte q size) clear (omega (arith, bounds.0)))
              ∙ put_at-ne h b.place a linked (not_old a b.pool.size away.0);
          kept = λ a r i. elim i [
            | inl used ↦ (inl used, in_old a r side used.0 used.1)
            | inr i ↦ elim i [ ]
          ];
          given = inr (inl (refl, omega arith, refl));
        },
      )
    where
      at_other :
          (s hi : ℕ)
          → (hi < b.place) ⊎ (b.place + s < pages + hhdm)
          → pages + hhdm ≤ hi
          → b.place ≢ pages + hhdm
      at_other s hi (inl f) le e = absurd (omega arith)
      at_other s hi (inr g) le e = absurd (omega arith)

      apart_from :
          (s m : ℕ)
          → (last_byte (pages + hhdm) size < b.place) ⊎ (b.place + s < pages + hhdm)
          → pages + hhdm + m ≡ last_byte (pages + hhdm) size
          → (b.place + s < pages + hhdm) ⊎ (pages + hhdm + m < b.place)
      apart_from s m (inl f) e = inr (omega arith)
      apart_from s m (inr g) e = inl g

      clear_of :
          (l u m : ℕ)
          → Clear l u (pages + hhdm) (last_byte (pages + hhdm) size)
          → pages + hhdm + m ≡ last_byte (pages + hhdm) size
          → (u < pages + hhdm) ⊎ (pages + hhdm + m < l)
      clear_of l u m (inl f) e = inl f
      clear_of l u m (inr g) e = inr (omega arith)

      not_new : (a hi : ℕ) → Clear a a (pages + hhdm) hi → pages + hhdm ≤ hi → a ≢ pages + hhdm
      not_new a hi (inl f) le e = absurd (omega arith)
      not_new a hi (inr g) le e = absurd (omega arith)

      not_old : (a s : ℕ) → (a < b.place) ⊎ (b.place + s < a) → a ≢ b.place
      not_old a s (inl f) e = absurd (omega arith)
      not_old a s (inr g) e = absurd (omega arith)

      in_old :
          (a r : ℕ)
          → (last_byte (pages + hhdm) size < b.place) ⊎ (b.place + b.pool.size < pages + hhdm)
          → b.place ≡ a
          → b.pool.required_size ≡ r
          → (a + r ≤ pages + hhdm) ⊎ (pages + hhdm + (size + pool_bytes) ≤ a)
      in_old a r (inl f) at req =
          let bounds = page_align_up_bounds size less in inr (omega (arith, bounds.0))
      in_old a r (inr g) at req = inl (omega (arith, sound.fits))

  -- A pool that gives nothing stays in front of what the rest gives.
  later-Given :
      (h h' : Pools) (b : Block) (bs : List Block) (lo hi q : ℕ)
      → Chain h b.place (b ∷ bs)
      → Apart (b ∷ bs)
      → Away lo hi (b ∷ bs)
      → Given h b.pool.next_pool bs lo hi size q h'
      → Given h b.place (b ∷ bs) lo hi size q h'
  later-Given h h' b bs lo hi q (start, ne, holds, sound, rest) (w, ws) (side, out) g =
      let around =
        Away-within b.place (b.place + b.pool.size) b.place b.place bs (omega arith) (omega arith)
          w in
      record {
        blocks = b ∷ g.blocks;
        chain = (
          refl,
          ne,
          g.frame b.place around (turn b.place b.pool.size b.place side (omega arith)) ∙ holds,
          sound,
          g.chain,
        );
        apart = (
          g.away b.place (b.place + b.pool.size) w
              (turn b.place b.pool.size (b.place + b.pool.size) side (omega arith)),
          g.apart,
        );
        away = λ l u away clear. (away.0, g.away l u away.1 clear);
        frame = λ a away clear. g.frame a away.1 clear;
        kept = λ a r i. elim i [
          | inl used ↦ (inl used, front a r used.0 used.1)
          | inr i ↦ let k = g.kept a r i in (inr k.0, k.1)
        ];
        given = inr g.given;
      }
    where
      turn : (p s u : ℕ) → (hi < p) ⊎ (p + s < lo) → u ≤ p + s → (u < lo) ⊎ (hi < p)
      turn p s u (inl f) le = inr f
      turn p s u (inr g) le = inl (omega arith)

      front :
          (a r : ℕ)
          → b.place ≡ a
          → b.pool.required_size ≡ r
          → (a + r ≤ q) ⊎ (q + (size + pool_bytes) ≤ a)
      front a r at req =
          elim (InUse-Away h' b.pool.next_pool b.place (b.place + b.pool.size) q (size + pool_bytes)
            g.blocks g.chain
            (g.away b.place (b.place + b.pool.size) w
              (turn b.place b.pool.size (b.place + b.pool.size) side (omega arith)))
            g.given) [ inl f ↦ inr (omega (arith, f)) | inr f ↦ inl (omega (arith, f, sound.fits)) ]

  abbrev Gives : ℕ → ℕ → Pools → List Block → Type 0
  Gives fuel p h bs =
      (q : ℕ) × (h' : Pools) × (s : S) × (malloc_loop kmalloc hhdm fuel size p h st
        ≡ ok (q + pool_bytes, (h', s)))
      × Given h p bs (pages + hhdm) (last_byte (pages + hhdm) size) size q h'

  -- One round, by what the pool has.
  malloc_round :
      (fuel : ℕ) (h : Pools) (b : Block) (bs : List Block)
      → Chain h b.place (b ∷ bs)
      → Apart (b ∷ bs)
      → (b.pool.required_size + size + pool_bytes) % 2 ^ 64
        ≡ b.pool.required_size + size + pool_bytes
      → (malloc_loop kmalloc hhdm (suc fuel) size b.place h st ≡ (
            if b.pool.next_pool == 0
            then append_pool kmalloc hhdm b.place b.pool size h st
            else malloc_loop kmalloc hhdm fuel size b.pool.next_pool h st)
          → Gives (suc fuel) b.place h (b ∷ bs))
      → Gives (suc fuel) b.place h (b ∷ bs)
  unfolding malloc_loop
  malloc_round fuel h b bs c w wrap next =
      let read = deref-ok h b.place c.1 c.2 in
      let lo = pages + hhdm in
      let hi = last_byte (pages + hhdm) size in
      elim (Bool-cases (b.pool.free && ltb ((size + pool_bytes) % 2 ^ 64) b.pool.size)) [
        | inl fits ↦
            let both = both_of b.pool.free ((size + pool_bytes) % 2 ^ 64) b.pool.size fits in
            (
              b.place,
              _,
              st,
              rw (read, fits) refl,
              reuse-Given h b bs lo hi size c w less both.0 (omega (arith, both.1)),
            )
        | inr not_free ↦
            elim (Bool-cases
              (ltb ((b.pool.required_size + size + pool_bytes) % 2 ^ 64) b.pool.size)) [
                | inl splits ↦
                    let large : b.pool.required_size + size + pool_bytes < b.pool.size =
                      subst (λ n. n < b.pool.size) wrap
                        (ltb→lt ((b.pool.required_size + size + pool_bytes) % 2 ^ 64) b.pool.size
                          splits) in
                    let (h', runs, given) = split_pool-Given h b bs lo hi size c w less large in
                    (
                      b.place + b.pool.required_size + 1,
                      h',
                      st,
                      rw (read, not_free, splits, runs) refl,
                      given,
                    )
                | inr small ↦ next (rw (read, not_free, small) refl)
              ]
      ]
    where
      both_of : (f : Bool) (a n : ℕ) → (f && ltb a n) ≡ true → (f ≡ true) × (a < n)
      both_of f a n e = ground arith

  malloc_loop-Given :
      (fuel : ℕ) (h : Pools) (b : Block) (bs : List Block)
      → Chain h b.place (b ∷ bs)
      → Apart (b ∷ bs)
      → Away (pages + hhdm) (last_byte (pages + hhdm) size) (b ∷ bs)
      → length (b ∷ bs) ≤ fuel
      → Gives fuel b.place h (b ∷ bs)
  malloc_loop-Given zero h b bs c w out le = absurd (omega arith)
  malloc_loop-Given (suc fuel) h b [] (start, ne, holds, sound, ends) w out le =
      let c : Chain h b.place (b ∷ []) = (start, ne, holds, sound, ends) in
      malloc_round fuel h b [] c w (omega (arith, sound.fits, sound.small)) (λ round.
        let (h', runs, given) = append_pool-Given h b c out in
        let last : (b.pool.next_pool == 0) ≡ true = ground (arith, ends) in
        (pages + hhdm, h', st', rw (round, last, runs) refl, given))
  malloc_loop-Given (suc fuel) h b (b' ∷ bs) (start, ne, holds, sound, rest) w out le =
      let c : Chain h b.place (b ∷ b' ∷ bs) = (start, ne, holds, sound, rest) in
      let more : (b.pool.next_pool == 0) ≡ false = ground (arith, rest.0, rest.1) in
      malloc_round fuel h b (b' ∷ bs) c w (omega (arith, sound.fits, sound.small)) (λ round.
        let (q, h', s, runs, given) =
          malloc_loop-Given fuel h b' bs (refl, rest.1, rest.2, rest.3, rest.4) w.1 out.1
            (omega arith) in
        let same = sym (rest.0) in
        (
          q,
          h',
          s,
          rw (round, more, rest.0, runs) refl,
          later-Given h h' b (b' ∷ bs) (pages + hhdm) (last_byte (pages + hhdm) size) q c w out (
              subst
                (λ p. Given h p (b' ∷ bs) (pages + hhdm) (last_byte (pages + hhdm) size) size q h')
                same given),
        ))

  -- `malloc` of fewer than 2^61 bytes on a well-formed heap, when the pages it may ask for are outside
  -- all pools, returns a block behind the header of a pool that is in use from then on; every block
  -- in use before is in use still and lies outside the new one, and the heap is well-formed again.
  pub malloc-Allocated :
      (fuel start : ℕ) (h : Pools) (bs : List Block)
      → IsHeap h start bs
      → Away (pages + hhdm) (last_byte (pages + hhdm) size) bs
      → length bs ≤ fuel
      → (q : ℕ) × (h' : Pools) × (s : S) × (malloc kmalloc hhdm fuel start size h st
          ≡ ok (q + pool_bytes, (h', s)))
        × Allocated start bs size q h'
  unfolding malloc
  malloc-Allocated fuel start h [] heap out le = absurd (heap.nonempty (heap.chain))
  malloc-Allocated fuel start h (b ∷ bs) heap out le =
      let c : Chain h b.place (b ∷ bs) =
        (refl, heap.chain.1, heap.chain.2, heap.chain.3, heap.chain.4) in
      let (q, h', s, runs, given) = malloc_loop-Given fuel h b bs c heap.apart out le in
      (
        q,
        h',
        s,
        rw (heap.chain.0, runs) refl,
        record {
          blocks = given.blocks;
          heap = record {
            chain = subst (λ p. Chain h' p given.blocks) (sym (heap.chain.0)) given.chain;
            apart = given.apart;
            nonempty = heap.nonempty;
          };
          kept = given.kept;
          given = given.given;
        },
      )
