-- ===== src/Mem/Kheap/Blocks.antt =====
-- What one pool gives: the three ways in which `malloc` finds a block.
use potat_os.Prelude.{
  ℕ, ◌+◌, ◌-◌, ◌%◌, ◌^◌, ◌<◌, ◌≤◌, ◌≡◌, refl, ◌≢◌, ◌∙◌, arith, true, false, ◌⊎◌, inl, inr, List,
  ◌∷◌, put_at, put_at_self, put_at-ne, ok, deref-ok,
}
use potat_os.Mem.Kheap.{Pool, Pools, pool_bytes, create_pool, split_pool}
use potat_os.Mem.Kheap.Chains.{
  Block, block, Chain, Away, Apart, InUse, Away-within, Chain-put_at, InUse-Away,
}

-- The range from `l` to `u` is outside the range from `lo` to `hi`.
abbrev pub Clear : ℕ → ℕ → ℕ → ℕ → Type 0
Clear l u lo hi = (u < lo) ⊎ (hi < l)

-- What the heap of the pools `bs` from `p` is when the pool at `q` is given for `size` bytes; new
-- pages, if any are taken, are from `lo` to `hi`.
pub record Given (h : Pools) (p : ℕ) (bs : List Block) (lo hi size q : ℕ) (h' : Pools)
    : Type 0 where
  pub blocks : List Block
  pub chain : Chain h' p blocks
  pub apart : Apart blocks
  pub away : (l u : ℕ) → Away l u bs → Clear l u lo hi → Away l u blocks
  pub frame : (a : ℕ) → Away a a bs → Clear a a lo hi → h' a ≡ h a
  pub kept :
      (a r : ℕ) → InUse bs a r → InUse blocks a r × ((a + r ≤ q) ⊎ (q + (size + pool_bytes) ≤ a))
  pub given : InUse blocks q (size + pool_bytes)

-- A range in front of or behind all pools is so for one of them.
outside_ne : (a q s : ℕ) → (a < q) ⊎ (q + s < a) → a ≢ q
outside_ne a q s (inl l) e = absurd (omega arith)
outside_ne a q s (inr g) e = absurd (omega arith)

module _ (h : Pools) (b : Block) (bs : List Block) (lo hi size : ℕ) (c : Chain h b.place (b ∷ bs))
    (w : Apart (b ∷ bs)) (less : size < 2 ^ 61) where
  -- A free pool that is large enough.
  pub reuse-Given :
      b.pool.free ≡ true
      → size + pool_bytes < b.pool.size
      → Given h b.place (b ∷ bs) lo hi size b.place (
          put_at h b.place
            (record (b.pool) { free = false; required_size = (size + pool_bytes) % 2 ^ 64 }))
  reuse-Given is_free large =
      let x : Pool = record (b.pool) {
        free = false;
        required_size = (size + pool_bytes) % 2 ^ 64;
      } in
      let (start, ne, holds, sound, rest) = c in
      let around =
        Away-within b.place (b.place + b.pool.size) b.place b.place bs (omega arith) (omega arith)
          w.0 in
      record {
        blocks = block b.place x ∷ bs;
        chain = (
          refl,
          ne,
          put_at_self h b.place x,
          record {
            verified = sound.verified;
            header = omega arith;
            fits = omega arith;
            small = sound.small;
          },
          Chain-put_at h b.place x b.pool.next_pool bs around rest,
        );
        apart = w;
        away = λ l u away clear. away;
        frame = λ a away clear. put_at-ne h b.place a x (outside_ne a b.place b.pool.size away.0);
        kept = λ a r i. elim i [
          | inl used ↦ absurd (ground (arith, is_free, used.2))
          | inr i ↦ (
            inr i,
            elim (InUse-Away h b.pool.next_pool b.place (b.place + b.pool.size) a r bs rest w.0 i) [
              | inl f ↦ inl f
              | inr g ↦ inr (omega arith)
            ],
          )
        ];
        given = inl (refl, omega arith, refl);
      }

  -- The unused bytes of a pool, given as a pool of their own.
  pub split_pool-Given :
      b.pool.required_size + size + pool_bytes < b.pool.size
      → (h' : Pools) × (split_pool b.place size h ≡ ok (b.place + b.pool.required_size + 1, h'))
        × Given h b.place (b ∷ bs) lo hi size (b.place + b.pool.required_size + 1) h'
  unfolding split_pool
  split_pool-Given large =
      let (start, ne, holds, sound, rest) = c in
      let q = b.place + b.pool.required_size + 1 in
      let made =
        create_pool ((b.pool.size + 2 ^ 64 - b.pool.required_size) % 2 ^ 64)
          ((pool_bytes + size) % 2 ^ 64) b.pool.next_pool false in
      let left : Pool = record (b.pool) { size = b.pool.required_size; next_pool = q } in
      let half : made.size ≡ b.pool.size - b.pool.required_size - 1 = omega (arith, sound.small) in
      let around =
        Away-within b.place (b.place + b.pool.size) b.place b.place bs (omega arith) (omega arith)
          w.0 in
      let behind =
        Away-within b.place (b.place + b.pool.size) q q bs (omega arith) (omega arith) w.0 in
      (
        put_at (put_at h q made) b.place left,
        rw (deref-ok h b.place ne holds) refl,
        record {
          blocks = block b.place left ∷ block q made ∷ bs;
          chain = (
            refl,
            ne,
            put_at_self (put_at h q made) b.place left,
            record {
              verified = sound.verified;
              header = sound.header;
              fits = omega arith;
              small = omega (arith, sound.small);
            },
            (
              refl,
              omega arith,
              put_at-ne (put_at h q made) b.place q left (omega arith) ∙ put_at_self h q made,
              record {
                verified = refl;
                header = omega arith;
                fits = omega (arith, half);
                small = omega (arith, half, sound.small);
              },
              Chain-put_at (put_at h q made) b.place left b.pool.next_pool bs around
                  (Chain-put_at h q made b.pool.next_pool bs behind rest),
            ),
          );
          apart = (
            (
              inl (omega arith),
              Away-within b.place (b.place + b.pool.size) b.place (b.place + b.pool.required_size)
                  bs (omega arith) (omega arith) w.0,
            ),
            (
              Away-within b.place (b.place + b.pool.size) q (q + made.size) bs (omega arith)
                  (omega (arith, half)) w.0,
              w.1,
            ),
          );
          away = λ l u away clear. elim (away.0) [
            | inl f ↦ (inl f, (inl (omega (arith, f)), away.1))
            | inr g ↦ (inr (omega (arith, g)), (inr (omega (arith, g, half)), away.1))
          ];
          frame = λ a away clear.
              put_at-ne (put_at h q made) b.place a left (outside_ne a b.place b.pool.size away.0)
              ∙ put_at-ne h q a made (in_pool a away.0);
          kept = λ a r i. elim i [
            | inl used ↦ (inl used, inl (omega (arith, used.0, used.1)))
            | inr i ↦ (
              inr (inr i),
              elim (InUse-Away h b.pool.next_pool b.place (b.place + b.pool.size) a r bs rest w.0
                  i) [ inl f ↦ inl (omega (arith, f)) | inr g ↦ inr (omega (arith, g)) ],
            )
          ];
          given = inr (inl (refl, omega arith, refl));
        },
      )
    where
      in_pool :
          (a : ℕ)
          → (a < b.place) ⊎ (b.place + b.pool.size < a)
          → a ≢ b.place + b.pool.required_size + 1
      in_pool a (inl l) e = absurd (omega arith)
      in_pool a (inr g) e = absurd (omega arith)
