-- ===== src/Mem/Pmm/Taken.antt =====
-- What marking and clearing a run of pages does: `allocate_pages` and `ku_memset` in `kmalloc`.
use potat_os.Prelude.{
  ℕ, zero, suc, ◌+◌, ◌*◌, ◌/◌, ◌^◌, ◌<◌, ◌≤◌, ◌≡◌, refl, ◌∙◌, ◌≢◌, ◌⊎◌, arith, if◌then◌else◌, inl,
  inr,
}
use potat_os.Mem.Pmm.{
  MemmapEntry, Memory, Pmm, fill, allocate_page, allocate_pages, page_bit, max_bitmap_bytes,
  take_pages,
}
use potat_os.Mem.Pmm.Bitmap.{IsBytes, in_run, page_bit-allocate_pages, allocate_pages-IsBytes}
use potat_os.Mem.Pmm.Search.{Free}

allocate_page_other : (s p a : ℕ) (m : Memory) → a ≢ s + p / 8 → allocate_page s p m a ≡ m a
unfolding allocate_page
allocate_page_other s p a m ne = ground (arith, ne)

fill_other :
    (m : Memory) (array value size a : ℕ)
    → (a < array) ⊎ (array + size ≤ a)
    → fill m array value size a ≡ m a
fill_other m array value size a (inl before) = ground (arith, before)
fill_other m array value size a (inr behind) = ground (arith, behind)

-- Bytes before the bitmap or behind the byte of the run's last page keep their value.
allocate_pages_other :
    (n s p a : ℕ) (m : Memory)
    → ((q : ℕ) → p ≤ q → q < p + n → a ≢ s + q / 8)
    → allocate_pages s p n m a ≡ m a
unfolding allocate_pages
allocate_pages_other zero s p a m out = refl
allocate_pages_other (suc n) s p a m out =
    allocate_pages_other n s (p + 1) a (allocate_page s p m)
      (λ q lo hi. out q (omega arith) (omega arith))
    ∙ allocate_page_other s p a m (out p (omega arith) (omega arith))

-- A section with between 1 and 32768 whole pages.
pub record IsSized (entry : MemmapEntry) : Type 0 where
  pub fits : entry.length < 2 ^ 64
  pub low : 1 ≤ entry.length / 4096
  pub high : entry.length / 4096 ≤ 32768

-- The bitmap of such a section fits the page that is reserved for it, and the pages it covers fit
-- the rest of the section.
pub max_bitmap_bytes_lem :
    {entry : MemmapEntry}
    → IsSized entry
    → (max_bitmap_bytes entry 4096 ≤ 4095)
      × (max_bitmap_bytes entry 4096 * 8 * 4096 + 4096 ≤ entry.length)
max_bitmap_bytes_lem z =
    let low = z.low in let high = z.high in let fits = z.fits in (omega arith, omega arith)

-- The state after the pages at `page` of the section were given out at the address `addr`.
pub record Taken (k : Pmm) (entry : MemmapEntry) (num page addr : ℕ) (k' : Pmm) : Type 0 where
  pub place : addr ≡ entry.base + page * 4096 + 4096
  pub within : addr + num * 4096 ≤ entry.base + entry.length
  pub same_entries : k'.entries ≡ k.entries
  pub same_hhdm : k'.hhdm ≡ k.hhdm
  pub still_unfreed : k'.last_freed_page ≡ k.last_freed_page
  pub bytes : IsBytes k'.memory
  pub marked :
      (q : ℕ)
      → q < max_bitmap_bytes entry 4096 * 8
      → page_bit k'.memory (entry.base + k.hhdm) q
        ≡ (if in_run page num q then 1 else page_bit k.memory (entry.base + k.hhdm) q)
  pub cleared : (a : ℕ) → a < num * 4096 → k'.memory (addr + k.hhdm + a) ≡ 0
  pub kept :
      (a : ℕ)
      → (a < entry.base + k.hhdm) ⊎ (entry.base + k.hhdm + entry.length ≤ a)
      → k'.memory a ≡ k.memory a

module _ (k : Pmm) {entry : MemmapEntry} (z : IsSized entry) (num page : ℕ)
    (bytes : IsBytes k.memory) where
  pub take_pages-Taken :
      Free k.memory k.hhdm entry 4096 num page
      → Taken k entry num page
          (take_pages k entry num 4096 page).0
          (take_pages k entry num 4096 page).1
  take_pages-Taken f =
      let (small, room) = max_bitmap_bytes_lem z in
      let inside = f.inside in
      let start = entry.base + k.hhdm in
      let marked = allocate_pages start page num k.memory in
      let cleared = entry.base + page * 4096 + 4096 + k.hhdm in
      let size = num * 4096 in
      let all = allocate_pages-IsBytes num start page k.memory bytes in
      record {
        place = refl;
        within = omega arith;
        same_entries = refl;
        same_hhdm = refl;
        still_unfreed = refl;
        bytes = λ a. ground (arith, all a);
        marked = λ q lt.
            let out =
              fill_other marked cleared 0 size (start + q / 8) (inl (omega (arith, lt, small))) in
            rw out (page_bit-allocate_pages num start page q k.memory bytes);
        cleared = λ a lt. ground (arith, lt);
        kept = λ a out. elim out [
          | inl below ↦
              fill_other marked cleared 0 size a (inl (omega arith))
              ∙ allocate_pages_other num start page a k.memory (λ q lo hi. ground (arith, below))
          | inr above ↦
              fill_other marked cleared 0 size a (inr (omega (arith, room, inside)))
              ∙ allocate_pages_other num start page a k.memory
                  (λ q lo hi. ground (arith, above, room, inside, lo, hi, small))
        ];
      }
