-- ===== src/Tasks/Loader/Image.antt =====
-- The pages that the loader makes of a file.
use potat_os.Prelude.{
  ℕ, zero, suc, ◌+◌, ◌-◌, ◌*◌, ◌/◌, ◌%◌, ◌^◌, ◌<◌, ◌≤◌, ◌≡◌, refl, sym, ◌∙◌, ap, subst, arith, true,
  Bool-cases, inl, inr, if◌then◌else◌, List, [], ◌∷◌, ◌++◌, length, length-append, length-take,
  length-drop, take, drop, take-length_append, drop-length_append, ok,
}
use mathlib.Core.Option.{some-injective}
use potat_os.Utils.Strings.Edit.{memcpy_lem}
use potat_os.Fs.Vfs.Paths.{memcpy_at}
use potat_os.Mem.Kheap.{page_align_up}
use potat_os.Tasks.Loader.{
  ElfProgramHeader, loadable, copy_segments, load_image, first_loadable_segment,
  last_loadable_segment,
}
use potat_os.Tasks.Loader.Layout.{Layout, Layout-above, Layout-end}
use potat_os.Tasks.Loader.Segments.{
  LoadableAt, AtOrAbove, first_loadable_segment-AtOrAbove, last_loadable_segment-AtOrBelow,
}

-- `n` bytes from the index `a` on.
abbrev pub slice : ℕ → ℕ → List ℕ → List ℕ
slice a n xs = take n (drop a xs)

take-take_append :
    (n a : ℕ) (xs ys : List ℕ) → n ≤ a → a ≤ length xs → take n (take a xs ++ ys) ≡ take n xs
take-take_append zero a xs ys le fits = refl
take-take_append (suc n) zero xs ys le fits = absurd (omega arith)
take-take_append (suc n) (suc a) [] ys le fits = absurd (omega arith)
take-take_append (suc n) (suc a) (x ∷ xs) ys le fits =
    ap (λ t. x ∷ t) (take-take_append n a xs ys (omega arith) (omega arith))

-- A copy changes nothing in front of it.
slice_before :
    (a n o : ℕ) (xs ys : List ℕ)
    → a + n ≤ o
    → o ≤ length xs
    → slice a n (take o xs ++ ys) ≡ slice a n xs
slice_before zero n o xs ys le fits = take-take_append n o xs ys (omega arith) fits
slice_before (suc a) n zero xs ys le fits = absurd (omega arith)
slice_before (suc a) n (suc o) [] ys le fits = absurd (omega arith)
slice_before (suc a) n (suc o) (x ∷ xs) ys le fits =
    slice_before a n o xs ys (omega arith) (omega arith)

-- One copy: it succeeds when there is room, and what the pages are then.
memcpy_at_lem :
    (pages from : List ℕ) (o n : ℕ)
    → o + n ≤ length pages
    → n ≤ length from
    → (pages' : List ℕ) × (memcpy_at pages o from n ≡ ok pages')
      × (length pages' ≡ length pages)
      × (slice o n pages' ≡ take n from)
      × ((a k : ℕ) → a + k ≤ o → slice a k pages' ≡ slice a k pages)
memcpy_at_lem pages from o n room enough =
    let rest = take n from ++ drop n (drop o pages) in
    let copied = memcpy_lem (drop o pages) from n (omega (arith, length-drop o pages)) enough in
    let front = length-take o pages (omega arith) in
    let part = length-take n from enough in
    let behind : drop o (take o pages ++ rest) ≡ rest =
      ap (λ k. drop k (take o pages ++ rest)) (sym front)
      ∙ drop-length_append (take o pages) rest in
    let first : take n rest ≡ take n from =
      ap (λ k. take k rest) (sym part) ∙ take-length_append (take n from) (drop n (drop o pages)) in
    (
      take o pages ++ rest,
      rw copied refl,
      omega (
        arith,
        length-append (take o pages) rest,
        length-append (take n from) (drop n (drop o pages)),
        front,
        part,
        length-drop n (drop o pages),
        length-drop o pages,
      ),
      ap (take n) behind ∙ first,
      λ a k le. slice_before a k o pages rest le (omega arith),
    )

-- The segments to be loaded have room in `size` bytes from the address `first` on.
abbrev Room : ℕ → ℕ → List ElfProgramHeader → Type 0
Room first size hs =
    (k : ℕ) (h : ElfProgramHeader)
    → LoadableAt hs k h
    → (first ≤ h.virtual_address) × (h.virtual_address + h.size_in_memory ≤ first + size)

-- The pages, the first byte of which is at the address `first`, have the bytes of every segment.
abbrev pub Loaded : List ℕ → ℕ → List ElfProgramHeader → List ℕ → Type 0
Loaded buffer first hs pages =
    (k : ℕ) (h : ElfProgramHeader)
    → LoadableAt hs k h
    → slice (h.virtual_address - first) h.size_in_file pages
      ≡ take h.size_in_file (drop h.offset buffer)

module _ (buffer : List ℕ) (first : ℕ) where
  abbrev Copies : ℕ → List ElfProgramHeader → List ℕ → List ℕ → Type 0
  Copies lo hs pages pages' =
      (copy_segments buffer first hs pages ≡ ok pages')
      × (length pages' ≡ length pages)
      × ((a n : ℕ) → first + a + n ≤ lo → slice a n pages' ≡ slice a n pages)
      × Loaded buffer first hs pages'

  Loaded-cons :
      (h : ElfProgramHeader) (hs : List ElfProgramHeader) (pages : List ℕ)
      → (loadable h ≡ true
          → slice (h.virtual_address - first) h.size_in_file pages
            ≡ take h.size_in_file (drop h.offset buffer))
      → Loaded buffer first hs pages
      → Loaded buffer first (h ∷ hs) pages
  Loaded-cons h hs pages here rest zero g (at, is) =
      let same = some-injective _ _ at in
      subst
        (λ x.
          slice (x.virtual_address - first) x.size_in_file pages
          ≡ take x.size_in_file (drop x.offset buffer))
        same (here (ap loadable same ∙ is))
  Loaded-cons h hs pages here rest (suc k) g there = rest k g there

  copy_segments-Loaded :
      (lo : ℕ) (hs : List ElfProgramHeader) (pages : List ℕ)
      → Layout (length buffer) lo hs
      → Room first (length pages) hs
      → (pages' : List ℕ) × Copies lo hs pages pages'
  unfolding copy_segments
  copy_segments-Loaded lo [] pages lay room =
      (pages, (refl, refl, (λ a n le. refl), λ k h there. ground (arith, there.0)))
  copy_segments-Loaded lo (h ∷ hs) pages (now, later) room = elim (Bool-cases (loadable h)) [
    | inr skip ↦
        let lay : Layout (length buffer) lo hs =
          subst
            (λ b.
              Layout (length buffer) (if b then h.virtual_address + h.size_in_memory else lo) hs)
            skip later in
        let (pages', (runs, same, kept, loaded)) =
          copy_segments-Loaded lo hs pages lay (λ k g there. room (suc k) g there) in
        (
          pages',
          (
            rw (skip, runs) refl,
            same,
            kept,
            Loaded-cons h hs pages' (λ is. ground (arith, skip, is)) loaded,
          ),
        )
    | inl is ↦
        let end = h.virtual_address + h.size_in_memory in
        let lay : Layout (length buffer) end hs =
          subst
            (λ b.
              Layout (length buffer) (if b then h.virtual_address + h.size_in_memory else lo) hs)
            is later in
        let ok_here = now is in
        let fits = room 0 h (refl, is) in
        let o = h.virtual_address - first in
        let from = drop h.offset buffer in
        let (copied, copies, same, put, before) =
          memcpy_at_lem pages from o h.size_in_file (omega (arith, ok_here.2, fits.0, fits.1))
            (omega (arith, length-drop h.offset buffer, ok_here.3)) in
        let at : (h.virtual_address + 2 ^ 64 - first) % 2 ^ 64 ≡ o =
          omega (arith, ok_here.4, fits.0) in
        let copies_at : memcpy_at pages ((h.virtual_address + 2 ^ 64 - first) % 2 ^ 64) from
              h.size_in_file
            ≡ ok copied =
          ap (λ k. memcpy_at pages k from h.size_in_file) at ∙ copies in
        let (pages', (runs, same', kept, loaded)) =
          copy_segments-Loaded end hs copied lay
            (λ k g there. let r = room (suc k) g there in (r.0, omega (arith, r.1, same))) in
        (
          pages',
          (
            rw (is, copies_at, runs) refl,
            same' ∙ same,
            (λ a n le.
                kept a n (omega (arith, le, ok_here.0))
                ∙ before a n (omega (arith, le, ok_here.0, fits.0))),
            Loaded-cons h hs pages'
                (λ is. kept o h.size_in_file (omega (arith, ok_here.2, fits.0)) ∙ put) loaded,
          ),
        )
  ]

page_align_up_le : (x : ℕ) → x < 2 ^ 63 → x ≤ page_align_up x / 4096 * 4096
page_align_up_le x less = omega arith

-- When kmalloc gives 4096 bytes for each page, the loader makes the pages of every executable whose
-- segments to be loaded are in order, do not overlap, are not empty in memory, have no more bytes in the file
-- than in memory, lie inside the file and end below 2^62, one of them being above the address 0: nothing is
-- copied out of bounds, and the bytes of each segment are at its place behind the lowest one.
pub load_image-Loaded :
    (alloc : ℕ → List ℕ) (buffer : List ℕ) (hs : List ElfProgramHeader) (j : ℕ)
    (h : ElfProgramHeader)
    → ((n : ℕ) → length (alloc n) ≡ n * 4096)
    → LoadableAt hs j h
    → 0 < h.virtual_address
    → Layout (length buffer) 0 hs
    → (first : ElfProgramHeader) × (pages : List ℕ) × (load_image alloc buffer hs ≡ ok pages)
      × LoadableAt hs (first_loadable_segment hs) first
      × AtOrAbove first.virtual_address hs
      × Loaded buffer first.virtual_address hs pages
unfolding load_image
load_image-Loaded alloc buffer hs j h allocates there above lay =
    let (first, at, low) = first_loadable_segment-AtOrAbove hs j h there in
    let (last, at', high) = last_loadable_segment-AtOrBelow hs j h there above in
    let fi = first_loadable_segment hs in
    let la = last_loadable_segment hs in
    let bound = Layout-above (length buffer) 0 la hs last lay at' in
    let under = low la last at' in
    let total =
      (last.virtual_address + last.size_in_memory + 2 ^ 64 - first.virtual_address) % 2 ^ 64 in
    let exact : first.virtual_address + total ≡ last.virtual_address + last.size_in_memory =
      omega (arith, bound.2, under) in
    let aligned = page_align_up_le total (omega (arith, exact, bound.2)) in
    let pages = alloc (page_align_up total / 4096) in
    let (pages', (runs, same, kept, loaded)) =
      copy_segments-Loaded buffer first.virtual_address 0 hs pages lay (λ k g where_g.
        let ends = Layout-end (length buffer) 0 k la hs g last lay where_g at' (high k g where_g) in
        (
          low k g where_g,
          omega (arith, ends, exact, aligned, allocates (page_align_up total / 4096)),
        )) in
    (first, pages', rw (at.0, at'.0, runs) refl, at, low, loaded)
