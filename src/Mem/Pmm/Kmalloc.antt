-- ===== src/Mem/Pmm/Kmalloc.antt =====
-- `kmalloc` and its loop over the sections of the memory map.
use potat_os.Prelude.{
  ℕ, zero, suc, ◌+◌, ◌^◌, ◌<◌, ◌≤◌, ◌≡◌, refl, sym, ◌∙◌, subst, false, arith, ◌==◌, ltb, Bool-cases,
  inl, inr, none, some, List, [], ◌∷◌, get_elem?, Run, ok, halted,
}
use mathlib.Core.Option.{some-injective}
use potat_os.Mem.Pmm.{MemmapEntry, usable, Pmm, max_bitmap_bytes, take_pages, find_section, kmalloc}
use potat_os.Mem.Pmm.Bitmap.{IsBytes}
use potat_os.Mem.Pmm.Reserved.{get_bitmap_reserved_lem}
use potat_os.Mem.Pmm.Search.{Free, found, nowhere, find_byte-FirstFit}
use potat_os.Mem.Pmm.Taken.{IsSized, max_bitmap_bytes_lem, Taken, take_pages-Taken}

-- Every usable section has between 1 and 32768 whole pages.
abbrev pub AreSized : List MemmapEntry → Type 0
AreSized es = (i : ℕ) (e : MemmapEntry) → get_elem? es i ≡ some e → e.type ≡ usable → IsSized e

-- No run of `num` free pages in the sections before `n`.
abbrev pub NoRun : Pmm → ℕ → List MemmapEntry → ℕ → Type 0
NoRun k num es n =
    (i : ℕ) (e : MemmapEntry) (page : ℕ)
    → i < n
    → get_elem? es i ≡ some e
    → ¬ Free k.memory k.hhdm e 4096 num page

-- The pages of the first free run of the first section that has one, or a halt when none has.
pub data Allocates (k : Pmm) (num : ℕ) (es : List MemmapEntry) (r : Run (ℕ × Pmm)) : Type 0 where
  allocated :
      (i : ℕ) (entry : MemmapEntry) (page addr : ℕ) (k' : Pmm)
      → get_elem? es i ≡ some entry
      → Free k.memory k.hhdm entry 4096 num page
      → ((q : ℕ) → q < page → ¬ Free k.memory k.hhdm entry 4096 num q)
      → NoRun k num es i
      → r ≡ ok (addr, k')
      → Taken k entry num page addr k'
      → Allocates k num es r
  exhausted :
      ((i : ℕ) (e : MemmapEntry) (page : ℕ)
        → get_elem? es i ≡ some e
        → ¬ Free k.memory k.hhdm e 4096 num page)
      → r ≡ halted
      → Allocates k num es r

-- A section without a free run adds nothing in front of the others.
Allocates-skip :
    {k : Pmm} {num : ℕ} (e : MemmapEntry) {es : List MemmapEntry} {r r' : Run (ℕ × Pmm)}
    → ((page : ℕ) → ¬ Free k.memory k.hhdm e 4096 num page)
    → r' ≡ r
    → Allocates k num es r
    → Allocates k num (e ∷ es) r'
Allocates-skip {k} {num} e {es} none_here same
      (allocated i entry page addr k' at f first before eq t) =
    allocated (suc i) entry page addr k' at f first skipped (same ∙ eq) t
  where
    skipped : NoRun k num (e ∷ es) (suc i)
    skipped zero e' p lt at' g =
        none_here p
          (subst (λ x. Free k.memory k.hhdm x 4096 num p) (sym (some-injective _ _ at')) g)
    skipped (suc j) e' p lt at' g = before j e' p (omega arith) at' g
Allocates-skip {k} {num} e {es} none_here same (exhausted nothing eq) =
    exhausted skipped (same ∙ eq)
  where
    skipped :
        (i : ℕ) (e' : MemmapEntry) (page : ℕ)
        → get_elem? (e ∷ es) i ≡ some e'
        → ¬ Free k.memory k.hhdm e' 4096 num page
    skipped zero e' p at' g =
        none_here p
          (subst (λ x. Free k.memory k.hhdm x 4096 num p) (sym (some-injective _ _ at')) g)
    skipped (suc j) e' p at' g = nothing j e' p at' g

module _ (k : Pmm) (num : ℕ) (bytes : IsBytes k.memory) (some_pages : 1 ≤ num)
    (no_wrap : num + 32768 < 2 ^ 64) where
  find_section-Allocates :
      (es : List MemmapEntry) → AreSized es → Allocates k num es (find_section k num es)
  unfolding find_section
  find_section-Allocates [] sized = exhausted (λ i e page at f. ground (arith, at)) refl
  find_section-Allocates (e ∷ es) sized =
      let rest = find_section-Allocates es (λ i. sized (suc i)) in
      elim (Bool-cases (e.type == usable)) [
        | inr reserved ↦
            Allocates-skip e (λ page f. ground (arith, reserved, f.is_usable)) (rw reserved refl)
              rest
        | inl is_usable ↦
            let z = sized 0 e refl (ground (arith, is_usable)) in
            let one = (get_bitmap_reserved_lem 0 e z.fits).0 z.low z.high in
            let (small, room) = max_bitmap_bytes_lem z in
            elim (find_byte-FirstFit k.memory k.hhdm e num 4096 (max_bitmap_bytes e 4096) 0
              (omega (arith, small, no_wrap))) [
                | found page eq lo f before ↦
                    allocated 0 e page (take_pages k e num 4096 page).0
                      (take_pages k e num 4096 page).1 refl f (λ q lt. before q (omega arith) lt)
                      (λ i e' p lt. absurd (omega arith)) (rw (is_usable, one, eq) refl)
                      (take_pages-Taken k z num page bytes f)
                | nowhere eq above ↦
                    Allocates-skip e
                      (λ page f. above page (omega arith) (omega (arith, f.inside, some_pages)) f)
                      (rw (is_usable, one, eq) refl) rest
              ]
      ]

-- With well-sized sections and no freed pages remembered, `kmalloc` of one page or more, few enough
-- that no page number wraps around, gives out the first free run of the first section that has one,
-- marked, cleared and inside the section, and changes nothing outside that section; it halts
-- exactly when no section has a free run. It never loops and never faults.
pub kmalloc-Allocates :
    (k : Pmm) (num : ℕ)
    → IsBytes k.memory
    → AreSized k.entries
    → k.last_freed_page ≡ none
    → 1 ≤ num
    → num + 32768 < 2 ^ 64
    → Allocates k num k.entries (kmalloc num k)
unfolding kmalloc
kmalloc-Allocates k num bytes sized unfreed some_pages no_wrap =
    let enough : ltb num 1 ≡ false = ground (arith, some_pages) in
    let searched : kmalloc num k ≡ find_section k num k.entries = simp (enough, unfreed) in
    subst (Allocates k num k.entries) (sym searched)
      (find_section-Allocates k num bytes some_pages no_wrap k.entries sized)
