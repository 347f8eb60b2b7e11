-- ===== src/Mem/Paging/Translate.antt =====
-- What virt_to_phys finds, and what it finds after map_pages.
use potat_os.Prelude.{
  ℕ, ◌+◌, ◌-◌, ◌*◌, ◌/◌, ◌%◌, ◌^◌, ◌<◌, ◌≤◌, ◌≡◌, refl, ◌≢◌, ap, sym, ◌∙◌, arith, inl, inr, Bool,
  false, ◌&&◌, leb, ltb, ◌==◌, if◌then◌else◌, bit_and, bit_or, Bool-cases, ok, halted,
}
use potat_os.Prelude.Bits.{bit_and_mask, bit_or-le_right, ◌>>>◌}
use potat_os.Mem.Paging.{
  Tables, Mapping, span, entry_table, page_align_down, pml_index, first_page, map_entry, map_with,
  map_pages, level, unmapped, virt_to_phys,
}
use potat_os.Mem.Paging.Trees.{Owned, Apart, entry}
use potat_os.Mem.Paging.Growth.{Fresh, Grew-Fresh}
use potat_os.Mem.Paging.Next.{page_align_down-bit_or}
use potat_os.Mem.Paging.Parts.{written, Filled}
use potat_os.Mem.Paging.Levels.{level-Filled}

-- The page of a virtual address, by its low 48 bits.
abbrev pub page_number : ℕ → ℕ
page_number virt_addr = virt_addr % 2 ^ 48 / 4096

pml_index_at : (a shift : ℕ) → pml_index a shift ≡ (a % 2 ^ 48) / 2 ^ shift % 512
unfolding pml_index
pml_index_at a shift =
    bit_and_mask 9 (bit_and a (2 ^ 48 - 1) >>> shift)
    ∙ ap (λ (x : ℕ). x / 2 ^ shift % 512) (bit_and_mask 48 a)

module _ (a : ℕ) where
  index_4 : pml_index a 39 ≡ page_number a / span 3
  unfolding span
  index_4 = omega (arith, pml_index_at a 39)

  index_3 : pml_index a 30 ≡ page_number a % span 3 / span 2
  unfolding span
  index_3 = omega (arith, pml_index_at a 30)

  index_2 : pml_index a 21 ≡ page_number a % span 3 % span 2 / span 1
  unfolding span
  index_2 = omega (arith, pml_index_at a 21)

  index_1 : pml_index a 12 ≡ page_number a % span 3 % span 2 % span 1
  unfolding span
  index_1 = omega (arith, pml_index_at a 12)

  pub first_page-page_number : first_page a ≡ page_number a
  unfolding first_page
  first_page-page_number =
      omega (arith, pml_index_at a 39, pml_index_at a 30, pml_index_at a 21, pml_index_at a 12)

-- The four tests as one.
tests_lem :
    (e4 e3 e2 e1 rest : ℕ)
    → (if e4 == 0
        then unmapped
        else if e3 == 0
        then unmapped
        else if e2 == 0
        then unmapped
        else if e1 == 0
        then unmapped
        else page_align_down e1 + rest)
      ≡ (if (if e4 == 0 then 0 else if e3 == 0 then 0 else if e2 == 0 then 0 else e1) == 0
          then unmapped
          else page_align_down
              (if e4 == 0 then 0 else if e3 == 0 then 0 else if e2 == 0 then 0 else e1)
            + rest)
tests_lem e4 e3 e2 e1 rest = ground arith

abbrev pub translate : ℕ → ℕ → ℕ
translate e a = if e == 0 then unmapped else page_align_down e + a % 4096

pub virt_to_phys-entry :
    (hhdm : ℕ) (w : Tables) (t a : ℕ)
    → virt_to_phys hhdm w t a ≡ translate (entry hhdm 3 w t (page_number a)) a
unfolding virt_to_phys entry
virt_to_phys-entry hhdm w t a =
    let e4 = w t (page_number a / span 3) in
    let e3 = w (entry_table hhdm e4) (page_number a % span 3 / span 2) in
    let e2 = w (entry_table hhdm e3) (page_number a % span 3 % span 2 / span 1) in
    let e1 = w (entry_table hhdm e2) (page_number a % span 3 % span 2 % span 1) in
    let offset : bit_and a (2 ^ 48 - 1) - page_align_down (bit_and a (2 ^ 48 - 1)) ≡ a % 4096 =
      omega (arith, bit_and_mask 48 a) in
    rw (index_4 a, index_3 a, index_2 a, index_1 a, offset) (tests_lem e4 e3 e2 e1 (a % 4096))

translate-written :
    (flags start k phys p old a : ℕ)
    → 0 < flags
    → flags < 4096
    → phys % 4096 ≡ 0
    → translate (written flags start k phys p old) a ≡ (
        if leb start p && ltb p (start + k)
        then phys + 4096 * (p - start) + a % 4096
        else translate old a)
translate-written flags start k phys p old a pos small aligned =
    let frame = phys + 4096 * (p - start) in
    let there : bit_or frame flags ≢ 0 = omega (arith, bit_or-le_right frame flags) in
    let down = page_align_down-bit_or frame flags (omega arith) small in
    let test : (bit_or frame flags == 0) ≡ false = ground (arith, there) in
    elim (Bool-cases (leb start p && ltb p (start + k))) [
      | inl e ↦ rw (e, test, down) refl
      | inr e ↦ rw e refl
    ]

module _ (hhdm : ℕ) (page : ℕ → ℕ) (different : (j k : ℕ) → page j ≡ page k → j ≡ k)
    (aligned : (k : ℕ) → page k % 4096 ≡ 0) (flags : ℕ) (small : flags < 4096)
    (pml4_addr virt_addr phys_addr num_pages : ℕ) (w : Tables) (calls : ℕ)
    (apart : Apart hhdm 3 w pml4_addr) (fresh : Fresh hhdm page different 3 w pml4_addr calls)
    (pos : 0 < num_pages) (bound : num_pages < 2 ^ 64) where
  -- What map_pages leaves: the translation of each address, and a tree that it can work on again.
  pub record Mapped (s' : Mapping) : Type 0 where
    pub found :
        (a : ℕ)
        → virt_to_phys hhdm s'.tables pml4_addr a ≡ (
            if leb (page_number virt_addr) (page_number a)
              && ltb (page_number a) (page_number virt_addr + num_pages)
            then phys_addr + 4096 * (page_number a - page_number virt_addr) + a % 4096
            else virt_to_phys hhdm w pml4_addr a)
    pub apart' : Apart hhdm 3 s'.tables pml4_addr
    pub fresh' : Fresh hhdm page different 3 s'.tables pml4_addr s'.calls
    pub only :
        (b : ℕ)
        → (Owned hhdm 3 w pml4_addr b → ⊥)
        → ((k : ℕ) → calls ≤ k → b ≢ page k + hhdm)
        → s'.tables b ≡ w b

  start : Mapping
  start = record { tables = w; calls = calls; phys_addr = phys_addr; num_pages = num_pages }

  runs :
      (result : Bool × Mapping) × (map_pages hhdm page flags pml4_addr virt_addr phys_addr num_pages
          w calls
        ≡ (if result.0 then ok result.1 else halted))
      × Filled hhdm page different flags 3 pml4_addr (page_number virt_addr) start result
  unfolding map_pages map_with start span
  runs =
      let filled =
        level-Filled hhdm page different aligned flags small 3 pml4_addr (page_number virt_addr)
          start apart fresh pos (omega (arith, bound)) (omega arith) in
      (
        level hhdm page flags (map_entry hhdm page flags) 3 pml4_addr (page_number virt_addr) start,
        rw (first_page-page_number virt_addr) refl,
        filled,
      )

  -- When kmalloc gives different pages at multiples of 4096, in a tree whose pages are apart and from no
  -- later call of it, map_pages of at least one page and fewer than 2^64, below 2^48, with flags between
  -- 1 and 4095 and a frame at a multiple of 4096, returns; virt_to_phys then finds each of the pages in
  -- consecutive frames and every other address where it was; the tree's pages stay apart and from no
  -- later call, and no page outside of the tree changes but those that kmalloc gives.
  pub map_pages-virt_to_phys :
      0 < flags
      → phys_addr % 4096 ≡ 0
      → page_number virt_addr + num_pages ≤ 2 ^ 36
      → (s' : Mapping) × (map_pages hhdm page flags pml4_addr virt_addr phys_addr num_pages w calls
          ≡ ok s')
        × Mapped s'
  unfolding start span
  map_pages-virt_to_phys flagged phys_aligned fits =
      let (result, goes, f) = runs in
      elim (Bool-cases result.0) [
        | inl e ↦
            let all : f.k ≡ num_pages = omega (arith, f.done e, f.part.count) in
            (
              result.1,
              goes ∙ ap (λ (b : Bool). if b then ok result.1 else halted) e,
              record {
                found = λ a.
                    virt_to_phys-entry hhdm result.1.tables pml4_addr a
                    ∙ ap (λ (x : ℕ). translate x a)
                        (f.part.entries (page_number a) (omega arith)
                          ∙ ap
                              (λ (x : ℕ).
                                written flags (page_number virt_addr) x phys_addr (page_number a)
                                  (entry hhdm 3 w pml4_addr (page_number a)))
                              all)
                    ∙ translate-written flags (page_number virt_addr) num_pages phys_addr
                        (page_number a) (entry hhdm 3 w pml4_addr (page_number a)) a flagged small
                        phys_aligned
                    ∙ ap
                        (λ (x : ℕ).
                          if leb (page_number virt_addr) (page_number a)
                            && ltb (page_number a) (page_number virt_addr + num_pages)
                          then phys_addr + 4096 * (page_number a - page_number virt_addr) + a % 4096
                          else x)
                        (sym (virt_to_phys-entry hhdm w pml4_addr a));
                apart' = f.part.grew.apart;
                fresh' = Grew-Fresh hhdm page different f.part.grew fresh;
                only = f.part.grew.kept;
              },
            )
        | inr e ↦
            let (more, full) = f.rest e in absurd (omega (arith, f.part.count, fits, full, more))
      ]

  -- For such a tree, kmalloc and flags, and at least one page and fewer than 2^64: when the pages do not
  -- fit below 2^48, map_pages halts.
  pub map_pages_halted :
      2 ^ 36 < page_number virt_addr + num_pages
      → map_pages hhdm page flags pml4_addr virt_addr phys_addr num_pages w calls ≡ halted
  unfolding start span
  map_pages_halted over =
      let (result, goes, f) = runs in
      elim (Bool-cases result.0) [
        | inl e ↦ absurd (omega (arith, f.done e, f.part.count, f.fits))
        | inr e ↦ goes ∙ ap (λ (b : Bool). if b then ok result.1 else halted) e
      ]
