-- ===== src/Mem/Paging/Direct.antt =====
-- The direct mapping of physical memory that map_sections makes.
use potat_os.Prelude.{
  ℕ, ◌+◌, ◌-◌, ◌*◌, ◌/◌, ◌%◌, ◌^◌, ◌<◌, ◌≤◌, ◌≡◌, refl, ap, ◌∙◌, arith, ◌⊎◌, inl, inr, Bool, true,
  ◌&&◌, leb, ltb, if◌then◌else◌, List, [], ◌∷◌, Bool-cases, ok, halted,
}
use potat_os.Mem.Pmm.{MemmapEntry}
use potat_os.Mem.Paging.{Tables, Mapping, map_pages, virt_to_phys}
use potat_os.Mem.Paging.Trees.{Apart}
use potat_os.Mem.Paging.Growth.{Fresh}
use potat_os.Mem.Paging.Translate.{page_number, Mapped, map_pages-virt_to_phys}
use potat_os.Mem.Paging.Zero.{map_pages_zero}
use potat_os.Mem.Paging.Kernel.{is_mapped, map_sections}

module _ (hhdm : ℕ) (page : ℕ → ℕ) (different : (j k : ℕ) → page j ≡ page k → j ≡ k)
    (aligned : (k : ℕ) → page k % 4096 ≡ 0) (hhdm_aligned : hhdm % 4096 ≡ 0) (pml4 : ℕ) where
  -- Each section that is mapped starts at a page, has one at least, and fits below 2^48 behind `hhdm`.
  abbrev pub Fit : List MemmapEntry → Type 0
  Fit [] = Unit
  Fit (e ∷ es) =
      (is_mapped e.type ≡ true
        → (e.base % 4096 ≡ 0) × (4096 ≤ e.length) × (hhdm % 2 ^ 48 + e.base + e.length ≤ 2 ^ 48))
      × Fit es

  -- The address is in one of the whole pages of a section that is mapped.
  abbrev pub Within : ℕ → List MemmapEntry → Type 0
  Within x [] = ⊥
  Within x (e ∷ es) =
      ((is_mapped e.type ≡ true) × (e.base ≤ x) × (x < e.base + e.length / 4096 * 4096))
      ⊎ Within x es

  abbrev pub Direct : Tables → ℕ → Type 0
  Direct w x = virt_to_phys hhdm w pml4 (x + hhdm) ≡ x

  -- A section's pages are mapped directly, and what was before stays so.
  section-Direct :
      (e : MemmapEntry) (w : Tables) (calls : ℕ) (apart : Apart hhdm 3 w pml4)
      (fresh : Fresh hhdm page different 3 w pml4 calls)
      → e.base % 4096 ≡ 0
      → 4096 ≤ e.length
      → hhdm % 2 ^ 48 + e.base + e.length ≤ 2 ^ 48
      → (s : Mapping) × (map_pages hhdm page 3 pml4 (e.base + hhdm) e.base (e.length / 4096) w calls
          ≡ ok s)
        × Apart hhdm 3 s.tables pml4
        × Fresh hhdm page different 3 s.tables pml4 s.calls
        × ((x : ℕ)
            → x + hhdm % 2 ^ 48 < 2 ^ 48
            → Direct w x ⊎ ((e.base ≤ x) × (x < e.base + e.length / 4096 * 4096))
            → Direct s.tables x)
  section-Direct e w calls apart fresh base_aligned many fits =
      let (s, runs, m) =
        map_pages-virt_to_phys hhdm page different aligned 3 (omega arith) pml4 (e.base + hhdm)
          e.base (e.length / 4096) w calls apart fresh (omega arith) (omega arith) (omega arith)
          base_aligned (omega arith) in
      (s, runs, m.apart', m.fresh', λ x low before. direct s m x low before)
    where
      direct :
          (s : Mapping)
          → Mapped hhdm page different aligned 3
              (omega arith)
              pml4
              (e.base + hhdm)
              e.base
              (e.length / 4096)
              w
              calls
              apart
              fresh
              (omega arith)
              (omega arith)
              s
          → (x : ℕ) → x + hhdm % 2 ^ 48 < 2 ^ 48
          → Direct w x ⊎ ((e.base ≤ x) × (x < e.base + e.length / 4096 * 4096))
          → Direct s.tables x
      direct s m x low before =
          let first = page_number (e.base + hhdm) in
          let p = page_number (x + hhdm) in
          let found = m.found (x + hhdm) in
          let lower : first ≡ (hhdm % 2 ^ 48 + e.base) / 4096 = omega arith in
          let at : p ≡ (hhdm % 2 ^ 48 + x) / 4096 = omega arith in
          elim (Bool-cases (leb first p && ltb p (first + e.length / 4096))) [
            | inl t ↦
                let inside : first ≤ p = ground (arith, t) in
                found
                ∙ ap
                    (λ (b : Bool).
                      if b
                      then e.base + 4096 * (p - first) + (x + hhdm) % 4096
                      else virt_to_phys hhdm w pml4 (x + hhdm))
                    t
                ∙ omega (arith, inside, lower, at)
            | inr f ↦
                found
                ∙ ap
                    (λ (b : Bool).
                      if b
                      then e.base + 4096 * (p - first) + (x + hhdm) % 4096
                      else virt_to_phys hhdm w pml4 (x + hhdm))
                    f
                ∙ elim before [
                  | inl d ↦ d
                  | inr (from, to) ↦
                      let above : first ≤ p = omega (arith, lower, at) in
                      let below : p < first + e.length / 4096 = omega (arith, lower, at) in
                      absurd (ground (arith, f, above, below))
                ]
          ]

  -- When kmalloc gives different pages at multiples of 4096, `hhdm` is one, and the tree's pages are
  -- apart and from no later call of kmalloc: map_sections of sections that fit returns, and virt_to_phys
  -- then finds every byte of the whole pages of the mapped sections, at its address behind `hhdm`, where
  -- it is; so does it every byte that it found so before. The bytes are those whose address behind the
  -- low 48 bits of `hhdm` is below 2^48.
  pub map_sections-Direct :
      (entries : List MemmapEntry) (w : Tables) (calls : ℕ)
      → Apart hhdm 3 w pml4
      → Fresh hhdm page different 3 w pml4 calls
      → Fit entries
      → (w' : Tables) × (calls' : ℕ) × (map_sections hhdm page entries pml4 w calls
          ≡ ok (w', calls'))
        × ((x : ℕ) → x + hhdm % 2 ^ 48 < 2 ^ 48 → Direct w x ⊎ Within x entries → Direct w' x)
  unfolding map_sections
  map_sections-Direct [] w calls apart fresh fit =
      (w, calls, refl, λ x low before. elim before [ inl d ↦ d | inr none ↦ absurd none ])
  map_sections-Direct (e ∷ es) w calls apart fresh (one, others) =
      elim (Bool-cases (is_mapped e.type)) [
        | inl counts ↦
            let (base_aligned, many, fits) = one counts in
            let (s, runs, apart', fresh', direct) =
              section-Direct e w calls apart fresh base_aligned many fits in
            let (w', calls', rest, all) =
              map_sections-Direct es s.tables s.calls apart' fresh' others in
            (
              w',
              calls',
              rw (counts, runs) rest,
              λ x low before. all x low (elim before [
                | inl d ↦ inl (direct x low (inl d))
                | inr (inl (m, from, to)) ↦ inl (direct x low (inr (from, to)))
                | inr (inr later) ↦ inr later
              ]),
            )
        | inr skips ↦
            let (w', calls', rest, all) = map_sections-Direct es w calls apart fresh others in
            (
              w',
              calls',
              rw skips rest,
              λ x low before. all x low (elim before [
                | inl d ↦ inl d
                | inr (inl (m, from, to)) ↦ absurd (ground (arith, m, skips))
                | inr (inr later) ↦ inr later
              ]),
            )
      ]

  -- For such a tree and kmalloc: at a section that is to be mapped and has less than a page,
  -- map_sections halts.
  pub map_sections_halted :
      (e : MemmapEntry) (es : List MemmapEntry) (w : Tables) (calls : ℕ)
      → Apart hhdm 3 w pml4
      → Fresh hhdm page different 3 w pml4 calls
      → is_mapped e.type ≡ true
      → e.length < 4096
      → map_sections hhdm page (e ∷ es) pml4 w calls ≡ halted
  unfolding map_sections
  map_sections_halted e es w calls apart fresh counts short =
      let none : e.length / 4096 ≡ 0 = omega arith in
      rw
        (
          counts,
          none,
          map_pages_zero hhdm page different 3 pml4 (e.base + hhdm) e.base w calls aligned
              (omega arith) apart fresh,
        )
        refl
