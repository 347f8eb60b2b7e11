-- ===== src/Mem/Kheap/Chains.antt =====
-- The heap as the list of its pools.
use potat_os.Prelude.{
  ℕ, ◌+◌, ◌^◌, ◌<◌, ◌≤◌, ◌≡◌, ◌≢◌, ap, sym, ◌∙◌, arith, false, ◌⊎◌, inl, inr, List, [], ◌∷◌, some,
  put_at, put_at-ne,
}
use potat_os.Mem.Kheap.{Pool, Pools, pool_bytes}

pub record Block : Type 0 where
  pub place : ℕ
  pub pool : Pool

abbrev pub block : ℕ → Pool → Block
block a x = record { place = a; pool = x }

-- A pool's `size` is one less than its bytes, which hold at least what it is required to.
pub record Sound (x : Pool) : Type 0 where
  pub verified : x.verify ≡ 69
  pub header : pool_bytes ≤ x.required_size
  pub fits : x.required_size ≤ x.size + 1
  pub small : x.size < 2 ^ 62

-- The pools lead from the pointer `p` to the null pointer.
abbrev pub Chain : Pools → ℕ → List Block → Type 0
Chain h p [] = p ≡ 0
Chain h p (b ∷ bs) =
    (p ≡ b.place)
    × (b.place ≢ 0)
    × (h b.place ≡ some b.pool)
    × Sound b.pool
    × Chain h b.pool.next_pool bs

-- No address from `lo` to `hi` is in a pool.
abbrev pub Away : ℕ → ℕ → List Block → Type 0
Away lo hi [] = Unit
Away lo hi (b ∷ bs) = ((hi < b.place) ⊎ (b.place + b.pool.size < lo)) × Away lo hi bs

abbrev pub Apart : List Block → Type 0
Apart [] = Unit
Apart (b ∷ bs) = Away b.place (b.place + b.pool.size) bs × Apart bs

-- A pool at `a` that is not free, with `r` bytes required.
abbrev pub InUse : List Block → ℕ → ℕ → Type 0
InUse [] a r = ⊥
InUse (b ∷ bs) a r =
    ((b.place ≡ a) × (b.pool.required_size ≡ r) × (b.pool.free ≡ false)) ⊎ InUse bs a r

pub Away-within :
    (lo hi lo' hi' : ℕ) (bs : List Block) → lo ≤ lo' → hi' ≤ hi → Away lo hi bs → Away lo' hi' bs
Away-within lo hi lo' hi' [] l u w = tt
Away-within lo hi lo' hi' (b ∷ bs) l u (inl h, w) =
    (inl (omega arith), Away-within lo hi lo' hi' bs l u w)
Away-within lo hi lo' hi' (b ∷ bs) l u (inr h, w) =
    (inr (omega arith), Away-within lo hi lo' hi' bs l u w)

-- A write outside the pools keeps them.
pub Chain-put_at :
    (h : Pools) (a : ℕ) (x : Pool) (p : ℕ) (bs : List Block)
    → Away a a bs
    → Chain h p bs
    → Chain (put_at h a x) p bs
Chain-put_at h a x p [] w c = c
Chain-put_at h a x p (b ∷ bs) (side, w) (start, ne, holds, sound, rest) =
    let other : b.place ≢ a = outside b.pool.size b.place side in
    (
      start,
      ne,
      put_at-ne h a b.place x other ∙ holds,
      sound,
      Chain-put_at h a x b.pool.next_pool bs w rest,
    )
  where
    outside : (s q : ℕ) → (a < q) ⊎ (q + s < a) → q ≢ a
    outside s q (inl l) e = absurd (omega arith)
    outside s q (inr g) e = absurd (omega arith)

-- The block of a pool in use lies outside what all pools lie outside.
pub InUse-Away :
    (h : Pools) (p lo hi a r : ℕ) (bs : List Block)
    → Chain h p bs
    → Away lo hi bs
    → InUse bs a r
    → (a + r ≤ lo) ⊎ (hi < a)
InUse-Away h p lo hi a r [] c w i = elim i [ ]
InUse-Away h p lo hi a r (b ∷ bs) (start, ne, holds, sound, rest) (inl l, w) (inl (at, req, u)) =
    inr (omega arith)
InUse-Away h p lo hi a r (b ∷ bs) (start, ne, holds, sound, rest) (inr g, w) (inl (at, req, u)) =
    inl (omega (arith, sound.fits))
InUse-Away h p lo hi a r (b ∷ bs) (start, ne, holds, sound, rest) (side, w) (inr i) =
    InUse-Away h b.pool.next_pool lo hi a r bs rest w i

-- A well-formed heap: its pools lead from `start` to the null pointer and do not overlap.
pub record IsHeap (h : Pools) (start : ℕ) (bs : List Block) : Type 0 where
  pub chain : Chain h start bs
  pub apart : Apart bs
  pub nonempty : start ≢ 0

-- The pool of a block in use.
pub InUse-at :
    (h : Pools) (p a r : ℕ) (bs : List Block)
    → Chain h p bs
    → InUse bs a r
    → (x : Pool) × (h a ≡ some x) × (a ≢ 0) × Sound x × (x.required_size ≡ r)
InUse-at h p a r [] c i = elim i [ ]
InUse-at h p a r (b ∷ bs) (start, ne, holds, sound, rest) (inl (at, req, u)) =
    (b.pool, ap h (sym at) ∙ holds, (λ z. ne (at ∙ z)), sound, req)
InUse-at h p a r (b ∷ bs) (start, ne, holds, sound, rest) (inr i) =
    InUse-at h b.pool.next_pool a r bs rest i
