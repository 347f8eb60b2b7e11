-- ===== src/Mem/Kheap.antt =====
-- The kernel's heap of src/mem/kheap.c: pools, each a header and the bytes behind it, linked by
-- `next_pool`. The headers stand at their addresses in `pools`; what the data of a block contains is
-- the user's. The physical allocator is a parameter: `kmalloc n st` gives `n` pages and its next
-- state. Sums of addresses stay below 2^64 on the machine, and are plain sums here.
pub mod Chains
pub mod Blocks
pub mod Malloc
pub mod Free
pub mod Tests
use potat_os.Prelude.{
  ℕ, zero, suc, ◌+◌, ◌-◌, ◌*◌, ◌/◌, ◌%◌, ◌^◌, Bool, true, false, ◌&&◌, Option, none, Run, ok,
  halted, out_of_fuel, ◌>>=◌, ◌==◌, ltb, if◌then◌else◌, put_at, deref,
}

pub record Pool : Type 0 where
  pub verify : ℕ
  pub size : ℕ
  pub required_size : ℕ
  pub next_pool : ℕ
  pub free : Bool

-- `sizeof(Pool)`, packed.
abbrev pub pool_bytes : ℕ
pool_bytes = 26

abbrev pub Pools : Type 0
Pools = ℕ → Option Pool

abbrev pub create_pool : ℕ → ℕ → ℕ → Bool → Pool
create_pool size required_size next_pool free = record {
  verify = 69;
  size = (size + 2 ^ 64 - 1) % 2 ^ 64;
  required_size = required_size;
  next_pool = next_pool;
  free = free;
}

-- `PAGE_ALIGN_UP`.
abbrev pub page_align_up : ℕ → ℕ
page_align_up x = (x + 4095) % 2 ^ 64 / 4096 * 4096

unfoldable pub split_pool : ℕ → ℕ → Pools → Run (ℕ × Pools)
split_pool pool_addr size h = do
  pool ← deref h pool_addr
  let new_pool = pool_addr + pool.required_size + 1
  let made =
      create_pool ((pool.size + 2 ^ 64 - pool.required_size) % 2 ^ 64)
        ((pool_bytes + size) % 2 ^ 64) pool.next_pool false
  ok (
    new_pool,
    put_at (put_at h new_pool made) pool_addr
        (record pool { size = pool.required_size; next_pool = new_pool }),
  )

-- `free`, which halts on an address that is not of a block.
unfoldable pub free_block : ℕ → Pools → Run Pools
free_block addr h = do
  pool ← deref h (addr - pool_bytes)
  if pool.verify == 69
      then ok
          (put_at h (addr - pool_bytes) (record pool { free = true; required_size = pool_bytes }))
      else halted

module _ {S : Type 0} (kmalloc : ℕ → S → Run (ℕ × S)) (hhdm : ℕ) where
  unfoldable pub init_kheap : Pools → S → Run (ℕ × (Pools × S))
  init_kheap h st = do
    (pages, st') ← kmalloc 2 st
    ok (pages + hhdm, (put_at h (pages + hhdm) (create_pool 8192 pool_bytes 0 true), st'))

  -- The pool at `p` is the last one: it gets a new one behind it.
  unfoldable pub append_pool : ℕ → Pool → ℕ → Pools → S → Run (ℕ × (Pools × S))
  append_pool p pool size h st = do
    let new_pool_size = page_align_up ((size + pool_bytes) % 2 ^ 64)
    (pages, st') ← kmalloc (new_pool_size / 4096) st
    let new_pool = pages + hhdm
    let linked = put_at h p (record pool { next_pool = new_pool })
    ok (
      new_pool + pool_bytes,
      (
        put_at linked new_pool (create_pool new_pool_size ((size + pool_bytes) % 2 ^ 64) 0 false),
        st',
      ),
    )

  -- The loop of `malloc` from the pool at `p`.
  pub malloc_loop : ℕ → ℕ → ℕ → Pools → S → Run (ℕ × (Pools × S))
  malloc_loop zero size p h st = out_of_fuel
  malloc_loop (suc fuel) size p h st =
      let rest = (do pool ← deref h p; malloc_loop fuel size pool.next_pool h st) in
      do
        pool ← deref h p
        if pool.free && ltb ((size + pool_bytes) % 2 ^ 64) pool.size
            then ok (
              p + pool_bytes,
              (
                put_at h p
                    (record pool { free = false; required_size = (size + pool_bytes) % 2 ^ 64 }),
                st,
              ),
            )
            else if ltb ((pool.required_size + size + pool_bytes) % 2 ^ 64) pool.size
            then (do (new_pool, h') ← split_pool p size h; ok (new_pool + pool_bytes, (h', st)))
            else if pool.next_pool == 0
            then append_pool p pool size h st
            else rest

  -- `kheap_start` is where the first pool is.
  unfoldable pub malloc : ℕ → ℕ → ℕ → Pools → S → Run (ℕ × (Pools × S))
  malloc fuel kheap_start size h st = malloc_loop fuel size kheap_start h st
