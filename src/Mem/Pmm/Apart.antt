-- ===== src/Mem/Pmm/Apart.antt =====
-- Two calls of `kmalloc` in a row.
use potat_os.Prelude.{
  ℕ, ◌+◌, ◌*◌, ◌^◌, ◌<◌, ◌≤◌, ◌≡◌, ap, sym, ◌∙◌, subst, ◌≢◌, ◌⊎◌, arith, ◌==◌, ltb, leb, Bool-cases,
  inl, inr, none, some, List, get_elem?, ok, ok-injective,
}
use mathlib.Core.Option.{some-injective}
use potat_os.Mem.Pmm.{MemmapEntry, Pmm, page_bit, max_bitmap_bytes, kmalloc}
use potat_os.Mem.Pmm.Kmalloc.{AreSized, allocated, exhausted, kmalloc-Allocates}
use potat_os.Mem.Pmm.Bitmap.{IsBytes}
use potat_os.Mem.Pmm.Search.{Free}
use potat_os.Mem.Pmm.Taken.{Taken}

-- The sections of a memory map do not overlap.
abbrev pub Disjoint : List MemmapEntry → Type 0
Disjoint es =
    (i j : ℕ) (d e : MemmapEntry)
    → i < j
    → get_elem? es i ≡ some d
    → get_elem? es j ≡ some e
    → (d.base + d.length ≤ e.base) ⊎ (e.base + e.length ≤ d.base)

-- A run that is free once another one was taken is apart from it.
runs_apart :
    {k k' : Pmm} {d : MemmapEntry} {n m p q a : ℕ}
    → Free k.memory k.hhdm d 4096 n p
    → Taken k d n p a k'
    → Free k'.memory k'.hhdm d 4096 m q
    → 1 ≤ n
    → 1 ≤ m
    → (p + n ≤ q) ⊎ (q + m ≤ p)
runs_apart {k} {k'} {d} {n} {m} {p} {q} f t g hn hm = elim (Bool-cases (leb (p + n) q)) [
  | inl leads ↦ inl (ground (arith, leads))
  | inr meets ↦ elim (Bool-cases (leb (q + m) p)) [
    | inl leads ↦ inr (ground (arith, leads))
    | inr meets' ↦ elim (Bool-cases (leb p q)) [
      | inl le ↦
          absurd (both q (ground (arith, le)) (ground (arith, meets)) (omega arith) (omega arith))
      | inr gt ↦
          absurd (both p (omega arith) (omega arith) (ground (arith, gt)) (ground (arith, meets')))
    ]
  ]
]
  where
    both : (x : ℕ) → p ≤ x → x < p + n → q ≤ x → x < q + m → ⊥
    both x lo hi lo' hi' =
        let in_d : x < max_bitmap_bytes d 4096 * 8 = omega (arith, f.inside, hi) in
        let mark = t.marked x in_d in
        let clear = g.unmarked x lo' hi' in
        let same = ap (λ (h : ℕ). page_bit k'.memory (d.base + h) x) t.same_hhdm in
        ground (arith, lo, hi, mark, clear, same)

-- The block at `addr` of a section of the map.
record Block (k : Pmm) (i : ℕ) (num page addr : ℕ) (k' : Pmm) : Type 0 where
  section : MemmapEntry
  entry_at : get_elem? k.entries i ≡ some section
  free : Free k.memory k.hhdm section 4096 num page
  taken : Taken k section num page addr k'

allocated_Block :
    (k k' : Pmm) (num a : ℕ)
    → IsBytes k.memory
    → AreSized k.entries
    → k.last_freed_page ≡ none
    → 1 ≤ num
    → num + 32768 < 2 ^ 64
    → kmalloc num k ≡ ok (a, k')
    → (i : ℕ) × (page : ℕ) × Block k i num page a k'
allocated_Block k k' num a bytes sized unfreed low high done =
    elim (kmalloc-Allocates k num bytes sized unfreed low high) [
      | exhausted nothing e ↦ absurd (ground (arith, done, e))
      | allocated i d p a' l at f first before e t ↦
          let same : (a', l) ≡ (a, k') = ok-injective (sym e ∙ done) in
          (
            i,
            p,
            record {
              section = d;
              entry_at = at;
              free = f;
              taken = subst (λ (r : ℕ × Pmm). Taken k d num p r.0 r.1) same t;
            },
          )
    ]

module _ {k k' k'' : Pmm} {i j n m p q a b : ℕ} (s : Block k i n p a k')
    (t : Block k' j m q b k'') where
  Block-same : i ≡ j → 1 ≤ n → 1 ≤ m → (a + n * 4096 ≤ b) ⊎ (b + m * 4096 ≤ a)
  Block-same ij hn hm =
      let at' : get_elem? k.entries i ≡ some t.section =
        subst (λ es. get_elem? es i ≡ some t.section) s.taken.same_entries
          (subst (λ x. get_elem? k'.entries x ≡ some t.section) (sym ij) t.entry_at) in
      let same : t.section ≡ s.section = some-injective _ _ (sym at' ∙ s.entry_at) in
      let g = subst (λ d. Free k'.memory k'.hhdm d 4096 m q) same t.free in
      let place = ap (λ (d : MemmapEntry). d.base) same in
      elim (runs_apart s.free s.taken g hn hm) [
        | inl x ↦ inl (omega (arith, x, place, s.taken.place, t.taken.place))
        | inr x ↦ inr (omega (arith, x, place, s.taken.place, t.taken.place))
      ]

  Block-other : Disjoint k.entries → i ≢ j → (a + n * 4096 ≤ b) ⊎ (b + m * 4096 ≤ a)
  Block-other apart ne =
      let at' = subst (λ es. get_elem? es j ≡ some t.section) s.taken.same_entries t.entry_at in
      let low = s.taken.place in
      let top = s.taken.within in
      let low' = t.taken.place in
      let top' = t.taken.within in
      elim (Bool-cases (ltb i j)) [
        | inl lt ↦ elim (apart i j s.section t.section (ground (arith, lt)) s.entry_at at') [
          | inl x ↦ inl (omega (arith, x))
          | inr x ↦ inr (omega (arith, x))
        ]
        | inr gt ↦ elim (apart j i t.section s.section (ground (arith, gt, ne)) at' s.entry_at) [
          | inl x ↦ inr (omega (arith, x))
          | inr x ↦ inl (omega (arith, x))
        ]
      ]

-- With well-sized sections that do not overlap and no freed pages remembered, the blocks that two calls of
-- `kmalloc` in a row return do not overlap.
pub kmalloc-kmalloc_apart :
    (k k' k'' : Pmm) (n m a b : ℕ)
    → IsBytes k.memory
    → AreSized k.entries
    → Disjoint k.entries
    → k.last_freed_page ≡ none
    → 1 ≤ n
    → n + 32768 < 2 ^ 64
    → 1 ≤ m
    → m + 32768 < 2 ^ 64
    → kmalloc n k ≡ ok (a, k')
    → kmalloc m k' ≡ ok (b, k'')
    → (a + n * 4096 ≤ b) ⊎ (b + m * 4096 ≤ a)
kmalloc-kmalloc_apart k k' k'' n m a b bytes sized apart unfreed hn fn hm fm one two =
    let (i, p, s) = allocated_Block k k' n a bytes sized unfreed hn fn one in
    let taken = s.taken in
    let (j, q, t) =
      allocated_Block k' k'' m b taken.bytes (subst AreSized (sym taken.same_entries) sized)
        (taken.still_unfreed ∙ unfreed) hm fm two in
    elim (Bool-cases (i == j)) [
      | inl same ↦ Block-same s t (ground (arith, same)) hn hm
      | inr other ↦ Block-other s t apart (ground (arith, other))
    ]
