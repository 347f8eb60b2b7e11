-- ===== src/Mem/Paging/Zero.antt =====
-- map_pages of no page.
use potat_os.Prelude.{
  ℕ, zero, suc, ◌+◌, ◌-◌, ◌*◌, ◌/◌, ◌%◌, ◌^◌, ◌<◌, ◌≡◌, refl, ap, sym, ◌∙◌, arith, inl, inr, Bool,
  true, ◌==◌, if◌then◌else◌, Bool-cases, halted,
}
use potat_os.Mem.Paging.{
  Tables, Mapping, span, next_table, map_entry, each_entry, each_table, level, map_with, map_pages,
}
use potat_os.Mem.Paging.Trees.{Apart, index_lt, rest_lt}
use potat_os.Mem.Paging.Growth.{Fresh}
use potat_os.Mem.Paging.Levels.{level-Filled}
use potat_os.Mem.Paging.Translate.{page_number, first_page-page_number}

module _ (hhdm : ℕ) (page : ℕ → ℕ) (flags : ℕ) (phys_addr : ℕ) where
  from_count : ℕ → Tables → ℕ → Mapping
  from_count n w c = record { tables = w; calls = c; phys_addr = phys_addr; num_pages = n }

  next-from_count :
      (n t i : ℕ) (w : Tables) (c : ℕ)
      → let below = next_table hhdm page flags t i (from_count 0 w c) in
        next_table hhdm page flags t i (from_count n w c)
        ≡ (below.0, from_count n below.1.tables below.1.calls)
  unfolding next_table from_count
  next-from_count n t i w c = elim (Bool-cases (w t i == 0)) [
    | inl e ↦ rw e refl
    | inr e ↦ rw e refl
  ]

  first_round :
      (inner : ℕ → ℕ → Mapping → Bool × Mapping) (rounds i low t : ℕ) (w : Tables) (c : ℕ)
      → ((next : ℕ) (v : Tables) (d : ℕ)
          → inner next low (from_count 0 v d) ≡ inner next low (from_count (2 ^ 64) v d))
      → each_table hhdm page flags inner (suc rounds) i low t (from_count 0 w c)
        ≡ each_table hhdm page flags inner (suc rounds) i low t (from_count (2 ^ 64) w c)
  unfolding each_table
  first_round inner rounds i low t w c same =
      let below = next_table hhdm page flags t i (from_count 0 w c) in
      let e0 = next-from_count 0 t i w c in
      let e1 = next-from_count (2 ^ 64) t i w c in
      let go = λ (b : ℕ × Mapping).
        let result = inner b.0 low b.1 in
        if result.0
        then (true, result.1)
        else each_table hhdm page flags inner rounds (i + 1) 0 t result.1 in
      let finish = λ (result : Bool × Mapping).
        if result.0
        then (true, result.1)
        else each_table hhdm page flags inner rounds (i + 1) 0 t result.1 in
      ap go e0 ∙ ap finish (same below.0 below.1.tables below.1.calls) ∙ sym (ap go e1)

  -- The counter's first step is the one from 2^64.
  level_zero :
      (depth t start : ℕ) (w : Tables) (c : ℕ)
      → start < 512 * span depth
      → level hhdm page flags (map_entry hhdm page flags) depth t start (from_count 0 w c)
        ≡ level hhdm page flags (map_entry hhdm page flags) depth t start (from_count (2 ^ 64) w c)
  unfolding level each_entry map_entry from_count span
  level_zero zero t start w c lt =
      let rounds : 512 - start ≡ suc (511 - start) = omega arith in rw rounds refl
  level_zero (suc depth) t start w c lt =
      let i = start / span (suc depth) in
      let rounds : 512 - i ≡ suc (511 - i) = omega (arith, index_lt (suc depth) start lt) in
      rw rounds (
        first_round (level hhdm page flags (map_entry hhdm page flags) depth) (511 - i) i
          (start % span (suc depth)) t w c
          (λ next v d.
            level_zero depth next (start % span (suc depth)) v d (rest_lt (suc depth) start)))

-- map_pages of no page at all counts down from 2^64, and halts when it has gone through all tables.
pub map_pages_zero :
    (hhdm : ℕ) (page : ℕ → ℕ) (different : (j k : ℕ) → page j ≡ page k → j ≡ k)
    (flags pml4_addr virt_addr phys_addr : ℕ) (w : Tables) (calls : ℕ)
    → ((k : ℕ) → page k % 4096 ≡ 0)
    → flags < 4096
    → Apart hhdm 3 w pml4_addr
    → Fresh hhdm page different 3 w pml4_addr calls
    → map_pages hhdm page flags pml4_addr virt_addr phys_addr 0 w calls ≡ halted
unfolding map_pages map_with from_count span
map_pages_zero hhdm page different flags pml4_addr virt_addr phys_addr w calls aligned small apart
      fresh =
    let first = page_number virt_addr in
    let s = from_count hhdm page flags phys_addr (2 ^ 64) w calls in
    let f =
      level-Filled hhdm page different aligned flags small 3 pml4_addr first s apart fresh
        (omega arith) (omega arith) (omega arith) in
    let same = level_zero hhdm page flags phys_addr 3 pml4_addr first w calls (omega arith) in
    let result = level hhdm page flags (map_entry hhdm page flags) 3 pml4_addr first s in
    elim (Bool-cases result.0) [
      | inl e ↦ absurd (omega (arith, f.done e, f.part.count, f.fits))
      | inr e ↦ rw (first_page-page_number virt_addr, same, e) refl
    ]
