-- ===== src/Mem/Kheap/Tests.antt =====
-- The heap on concrete pools: runs of the operations, and witnesses of the theorems.
use potat_os.Prelude.{
  ℕ, ◌+◌, ◌*◌, ◌≡◌, refl, ◌≢◌, arith, false, inl, inr, List, [], ◌∷◌, none, Run, ok, ◌>>=◌, put_at,
  put_at_self, deref,
}
use potat_os.Mem.Kheap.{
  Pool, Pools, create_pool, init_kheap, append_pool, split_pool, malloc_loop, malloc, free_block,
}
use potat_os.Mem.Kheap.Chains.{Block, block, InUse, IsHeap}
use potat_os.Mem.Kheap.Malloc.{Allocated, malloc-Allocated}
use potat_os.Mem.Kheap.Free.{free_block-IsHeap, init_kheap-IsHeap}

-- Pages one after the other.
abbrev next_pages : ℕ → ℕ → Run (ℕ × ℕ)
next_pages n st = ok (st, st + n * 4096)

-- A heap of one page at 4096 with a block of 100 bytes in use.
abbrev pool_0 : Pool
pool_0 = create_pool 4096 126 0 false

abbrev pools_0 : Pools
pools_0 = put_at (λ a. none) 4096 pool_0

pools_0-IsHeap : IsHeap pools_0 4096 (block 4096 pool_0 ∷ [])
pools_0-IsHeap = record {
  chain = (
    refl,
    ground arith,
    put_at_self (λ a. none) 4096 pool_0,
    record { verified = refl; header = omega arith; fits = omega arith; small = omega arith },
    refl,
  );
  apart = (tt, tt);
  nonempty = ground arith;
}

malloc-Allocated_example :
    (q : ℕ) × (h' : Pools) × (s : ℕ) × (malloc next_pages 0 1 4096 5000 pools_0 8192
      ≡ ok (q + 26, (h', s)))
    × Allocated 4096 (block 4096 pool_0 ∷ []) 5000 q h'
malloc-Allocated_example =
    malloc-Allocated next_pages 0 5000 8192 8192 16384 (omega arith) refl (ground arith) 1 4096
      pools_0 (block 4096 pool_0 ∷ []) pools_0-IsHeap (inr (omega arith), tt) (omega arith)

free_block-IsHeap_example :
    (h' : Pools) × (bs' : List Block) × (free_block 4122 pools_0 ≡ ok h')
    × IsHeap h' 4096 bs'
    × ((q s : ℕ) → InUse bs' q s → (q ≢ 4096) × InUse (block 4096 pool_0 ∷ []) q s)
    × ((q s : ℕ) → q ≢ 4096 → InUse (block 4096 pool_0 ∷ []) q s → InUse bs' q s)
free_block-IsHeap_example =
    free_block-IsHeap pools_0 4096 4096 126 (block 4096 pool_0 ∷ []) pools_0-IsHeap
      (inl (refl, refl, refl))

init_kheap-IsHeap_example :
    (h' : Pools) × (bs : List Block) × (init_kheap next_pages 0 (λ a. none) 4096
      ≡ ok (4096, (h', 12288)))
    × IsHeap h' 4096 bs
    × ((q s : ℕ) → ¬ InUse bs q s)
init_kheap-IsHeap_example =
    init_kheap-IsHeap next_pages 0 4096 (λ a. none) 4096 12288 refl (ground arith)

-- The first block takes the first pool, the second one is split off, the third one takes new pages,
-- and a freed block is given again.
malloc_runs :
    (do
      (start, (h, st)) ← init_kheap next_pages 0 (λ a. none) 4096
      (a, (h, st)) ← malloc next_pages 0 3 start 100 h st
      (b, (h, st)) ← malloc next_pages 0 3 start 200 h st
      (c, (h, st)) ← malloc next_pages 0 3 start 9000 h st
      h ← free_block b h
      (d, (h, st)) ← malloc next_pages 0 3 start 150 h st
      ok (a ∷ b ∷ c ∷ d ∷ []))
    ≡ ok (4122 ∷ 4249 ∷ 12314 ∷ 4249 ∷ [])
unfolding init_kheap malloc malloc_loop append_pool split_pool free_block deref
malloc_runs = refl
