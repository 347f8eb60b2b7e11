-- ===== src/Mem/Kheap/Free.antt =====
-- `free`, and the first pool.
use potat_os.Prelude.{
  ℕ, ◌+◌, ◌-◌, ◌≡◌, refl, ◌≢◌, ap, sym, ◌∙◌, arith, true, inl, inr, List, [], ◌∷◌, some, put_at,
  put_at_self, put_at-ne, Run, ok, deref-ok, ◌==◌,
}
use mathlib.Core.Option.{some-injective}
use potat_os.Mem.Kheap.{Pool, Pools, pool_bytes, create_pool, free_block, init_kheap}
use potat_os.Mem.Kheap.Chains.{
  Block, block, Chain, Away, Apart, InUse, Away-within, Chain-put_at, InUse-Away, InUse-at, IsHeap,
}

abbrev pub freed : Pool → Pool
freed x = record x { free = true; required_size = pool_bytes }

-- What `free` of the block of the pool at `a` leaves.
pub record Released (h : Pools) (p a : ℕ) (bs : List Block) (h' : Pools) : Type 0 where
  pub blocks : List Block
  pub chain : Chain h' p blocks
  pub apart : Apart blocks
  pub away : (l u : ℕ) → Away l u bs → Away l u blocks
  pub kept : (q r : ℕ) → q ≢ a → InUse bs q r → InUse blocks q r
  pub no_other : (q r : ℕ) → InUse blocks q r → (q ≢ a) × InUse bs q r

-- A block in use stands at another pool than the ones in front of it.
InUse-ne :
    (h : Pools) (p lo s a r : ℕ) (bs : List Block)
    → Chain h p bs
    → Away lo (lo + s) bs
    → InUse bs a r
    → lo ≢ a
InUse-ne h p lo s a r bs c w i e =
    let (x, holds, ne, sound, req) = InUse-at h p a r bs c i in
    elim (InUse-Away h p lo (lo + s) a r bs c w i) [
      | inl f ↦ absurd (omega (arith, e, f, req, sound.header))
      | inr g ↦ absurd (omega (arith, e, g))
    ]

chain-Released :
    (h : Pools) (p a r : ℕ) (x : Pool) (bs : List Block)
    → Chain h p bs
    → Apart bs
    → h a ≡ some x
    → InUse bs a r
    → Released h p a bs (put_at h a (freed x))
chain-Released h p a r x [] c w holds i = elim i [ ]
chain-Released h p a r x (b ∷ bs) (start, ne, there, sound, rest) (w, ws) holds (inl (at, req, u)) =
    let same : b.pool ≡ x = some-injective _ _ (sym there ∙ ap h at ∙ holds) in
    let around =
      Away-within b.place (b.place + b.pool.size) a a bs (omega (arith, at)) (omega (arith, at))
        w in
    record {
      blocks = block b.place (freed b.pool) ∷ bs;
      chain = (
        start,
        ne,
        ap (put_at h a (freed x)) at
            ∙ put_at_self h a (freed x)
            ∙ ap (λ y. some (freed y)) (sym same),
        record {
          verified = sound.verified;
          header = omega arith;
          fits = omega (arith, sound.header, sound.fits);
          small = sound.small;
        },
        Chain-put_at h a (freed x) b.pool.next_pool bs around rest,
      );
      apart = (w, ws);
      away = λ l u out. out;
      kept =
          λ q r' other i. elim i [ inl used ↦ absurd (other (sym (used.0) ∙ at)) | inr i ↦ inr i ];
      no_other = λ q r' i. elim i [
        | inl used ↦ absurd (ground (arith, used.2))
        | inr i ↦ (
          (λ e. InUse-ne h b.pool.next_pool b.place b.pool.size q r' bs rest w i (at ∙ sym e)),
          inr i,
        )
      ];
    }
chain-Released h p a r x (b ∷ bs) (start, ne, there, sound, rest) (w, ws) holds (inr i) =
    let g = chain-Released h b.pool.next_pool a r x bs rest ws holds i in
    let other = InUse-ne h b.pool.next_pool b.place b.pool.size a r bs rest w i in
    record {
      blocks = b ∷ g.blocks;
      chain = (start, ne, put_at-ne h a b.place (freed x) other ∙ there, sound, g.chain);
      apart = (g.away b.place (b.place + b.pool.size) w, g.apart);
      away = λ l u out. (out.0, g.away l u out.1);
      kept = λ q r' ne i. elim i [ inl used ↦ inl used | inr i ↦ inr (g.kept q r' ne i) ];
      no_other = λ q r' i. elim i [
        | inl used ↦ ((λ e. other (used.0 ∙ e)), inl used)
        | inr i ↦ let k = g.no_other q r' i in (k.0, inr k.1)
      ];
    }

-- `free` of a block in use on a well-formed heap returns and leaves a well-formed heap, in which
-- exactly the other blocks in use are in use.
pub free_block-IsHeap :
    (h : Pools) (start a r : ℕ) (bs : List Block)
    → IsHeap h start bs
    → InUse bs a r
    → (h' : Pools) × (bs' : List Block) × (free_block (a + pool_bytes) h ≡ ok h')
      × IsHeap h' start bs'
      × ((q s : ℕ) → InUse bs' q s → (q ≢ a) × InUse bs q s)
      × ((q s : ℕ) → q ≢ a → InUse bs q s → InUse bs' q s)
unfolding free_block
free_block-IsHeap h start a r bs heap i =
    let (x, holds, ne, sound, req) = InUse-at h start a r bs heap.chain i in
    let g = chain-Released h start a r x bs heap.chain heap.apart holds i in
    let back : a + pool_bytes - pool_bytes ≡ a = omega arith in
    let verified : (x.verify == 69) ≡ true = ground (arith, sound.verified) in
    (
      put_at h a (freed x),
      g.blocks,
      rw (back, deref-ok h a ne holds, verified) refl,
      record { chain = g.chain; apart = g.apart; nonempty = heap.nonempty },
      g.no_other,
      g.kept,
    )

-- The first pool is a well-formed heap with no block in use, when there are two pages for it.
pub init_kheap-IsHeap :
    {S : Type 0} (kmalloc : ℕ → S → Run (ℕ × S)) (hhdm pages : ℕ) (h : Pools) (st st' : S)
    → kmalloc 2 st ≡ ok (pages, st')
    → pages + hhdm ≢ 0
    → (h' : Pools) × (bs : List Block) × (init_kheap kmalloc hhdm h st
        ≡ ok (pages + hhdm, (h', st')))
      × IsHeap h' (pages + hhdm) bs
      × ((q s : ℕ) → ¬ InUse bs q s)
unfolding init_kheap
init_kheap-IsHeap kmalloc hhdm pages h st st' taken ne =
    let first = create_pool 8192 pool_bytes 0 true in
    let q = pages + hhdm in
    (
      put_at h q first,
      block q first ∷ [],
      rw taken refl,
      record {
        chain = (
          refl,
          ne,
          put_at_self h q first,
          record { verified = refl; header = omega arith; fits = omega arith; small = omega arith },
          refl,
        );
        apart = (tt, tt);
        nonempty = ne;
      },
      λ a r i. elim i [ inl used ↦ ground (arith, used.2) | inr i ↦ i ],
    )
