-- ===== src/Mem/Paging/Next.antt =====
-- The table below an entry: the one that is there, or a new one.
use potat_os.Prelude.{
  ℕ, zero, suc, ◌+◌, ◌*◌, ◌/◌, ◌%◌, ◌^◌, ◌<◌, ◌≡◌, refl, ◌≢◌, ap, sym, ◌∙◌, subst, arith, inl, inr,
  ◌==◌, if◌then◌else◌, bit_or, same_or_not, true, false,
}
use potat_os.Prelude.Bits.{bit_or-lt, bit_or-le_right, bit_or_fields}
use potat_os.Mem.Paging.{
  Tables, Mapping, write, clear, span, page_align_down, entry_table, next_table,
}
use potat_os.Mem.Paging.Trees.{Owned, Apart, Same, self, entry, Same-entry, index_lt, rest_lt}
use potat_os.Mem.Paging.Growth.{Fresh, Grew, Grew-refl, Replaced, Replaced-Grew}

-- The flags in an entry leave the address of an aligned frame alone.
pub page_align_down-bit_or :
    (frame flags : ℕ)
    → frame % 4096 ≡ 0
    → flags < 4096
    → page_align_down (bit_or frame flags) ≡ frame
page_align_down-bit_or frame flags aligned small =
    let q = frame / 4096 in
    let e : frame ≡ q * 2 ^ 12 = omega arith in
    let sum = ap (λ (x : ℕ). bit_or x flags) e ∙ bit_or_fields 12 q flags (omega arith) in
    omega (arith, sum)

module _ (hhdm : ℕ) (page : ℕ → ℕ) (different : (j k : ℕ) → page j ≡ page k → j ≡ k)
    (aligned : (k : ℕ) → page k % 4096 ≡ 0) (flags : ℕ) (small : flags < 4096) where
  table_flags : ℕ
  table_flags = bit_or (bit_or (bit_or flags 1) 2) 4

  table_flags_lt : table_flags < 4096
  unfolding table_flags
  table_flags_lt =
      bit_or-lt 12 (bit_or (bit_or flags 1) 2) 4
        (bit_or-lt 12 (bit_or flags 1) 2 (bit_or-lt 12 flags 1 (omega arith) (omega arith))
          (omega arith))
        (omega arith)

  table_word : ℕ → ℕ
  table_word k = bit_or (page k) table_flags

  entry_table-table_word : (k : ℕ) → entry_table hhdm (table_word k) ≡ page k + hhdm
  unfolding table_word
  entry_table-table_word k =
      omega (arith, page_align_down-bit_or (page k) table_flags (aligned k) table_flags_lt)

  table_word_ne : (k : ℕ) → table_word k ≢ 0
  unfolding table_word table_flags
  table_word_ne k = omega (
    arith,
    bit_or-le_right (page k) (bit_or (bit_or (bit_or flags 1) 2) 4),
    bit_or-le_right (bit_or (bit_or flags 1) 2) 4,
  )

  pub record Next (depth t i : ℕ) (w : Tables) (c next : ℕ) (w' : Tables) (c' : ℕ) : Type 0 where
    pub grew : Grew hhdm page different (suc depth) t w w' c c'
    pub there : w' t i ≢ 0
    pub at : next ≡ entry_table hhdm (w' t i)
    pub same :
        (p : ℕ)
        → p < 512 * span (suc depth)
        → entry hhdm (suc depth) w' t p ≡ entry hhdm (suc depth) w t p

  -- A page of zeros is a tree with no other page.
  zeros-Owned :
      (depth : ℕ) (w : Tables) (t a : ℕ) → ((j : ℕ) → w t j ≡ 0) → Owned hhdm depth w t a → a ≡ t
  zeros-Owned zero w t a zeros o = o
  zeros-Owned (suc depth) w t a zeros (inl e) = e
  zeros-Owned (suc depth) w t a zeros (inr (i, lt, ne, o)) = absurd (ne (zeros i))

  zeros-Apart : (depth : ℕ) (w : Tables) (t : ℕ) → ((j : ℕ) → w t j ≡ 0) → Apart hhdm depth w t
  zeros-Apart zero w t zeros = tt
  zeros-Apart (suc depth) w t zeros = λ i lt ne. absurd (ne (zeros i))

  zeros_entry :
      (depth : ℕ) (w : Tables) (t p : ℕ) → ((j : ℕ) → w t j ≡ 0) → entry hhdm depth w t p ≡ 0
  unfolding entry
  zeros_entry zero w t p zeros = zeros p
  zeros_entry (suc depth) w t p zeros = ground (arith, zeros (p / span (suc depth)))

  module _ (depth t i : ℕ) (w : Tables) (c : ℕ) (lt_i : i < 512) where
    new_tables : Tables
    new_tables =
        let cleared = clear (write w t i (page c)) (page c + hhdm) in
        write cleared t i (bit_or (cleared t i) table_flags)

    module _ (ne : t ≢ page c + hhdm) where
      new-root : (j : ℕ) → new_tables t j ≡ (if j == i then table_word c else w t j)
      unfolding new_tables table_word
      new-root j =
          let kept : clear (write w t i (page c)) (page c + hhdm) t i ≡ page c =
            ground (arith, ne) in
          ground (arith, ne, kept)

      new-zeros : (j : ℕ) → new_tables (page c + hhdm) j ≡ 0
      unfolding new_tables
      new-zeros j = ground (arith, ne)

      new-kept : (a : ℕ) → a ≢ t → a ≢ page c + hhdm → new_tables a ≡ w a
      unfolding new_tables
      new-kept a out out' = ground (arith, out, out')

      module _ (empty : w t i ≡ 0) (apart : Apart hhdm (suc depth) w t)
          (fresh : Fresh hhdm page different (suc depth) w t c) where
        new-word : new_tables t i ≡ table_word c
        new-word = ground (arith, new-root i)

        new-child : entry_table hhdm (new_tables t i) ≡ page c + hhdm
        new-child = ap (λ (x : ℕ). entry_table hhdm x) new-word ∙ entry_table-table_word c

        new-other : (j : ℕ) → j ≢ i → new_tables t j ≡ w t j
        new-other j out = ground (arith, new-root j, out)

        new-Same :
            (j : ℕ) → j < 512 → w t j ≢ 0 → Same hhdm depth w new_tables (entry_table hhdm (w t j))
        new-Same j lt there a o =
            new-kept a
              (λ e.
                (apart j lt there).1
                  (subst (λ x. Owned hhdm depth w (entry_table hhdm (w t j)) x) e o))
              (λ e. fresh c (omega arith) (
                inr
                  (j, lt, there, subst (λ x. Owned hhdm depth w (entry_table hhdm (w t j)) x) e o)))

        new-Replaced : Replaced hhdm page different depth t i w new_tables c (c + 1) lt_i
        new-Replaced = record {
          more = omega arith;
          words = new-other;
          others = λ j lt out there. new-Same j lt there;
          child =
              subst (λ x. Apart hhdm depth new_tables x) (sym new-child)
                (zeros-Apart depth new_tables (page c + hhdm) new-zeros);
          grown = λ a o. inr (
            c,
            omega arith,
            omega arith,
            zeros-Owned depth new_tables (page c + hhdm) a new-zeros
                (subst (λ x. Owned hhdm depth new_tables x a) new-child o),
          );
          kept = λ a out new. new-kept a (λ e. out (inl e)) (new c (omega arith));
        }

        new-entry :
            (p : ℕ)
            → p < 512 * span (suc depth)
            → entry hhdm (suc depth) new_tables t p ≡ entry hhdm (suc depth) w t p
        unfolding entry span
        new-entry p lt =
            let j = p / span (suc depth) in
            let q = p % span (suc depth) in
            elim (same_or_not (w t j) 0) [
              | inl z ↦ elim (same_or_not j i) [
                | inl e ↦
                    let zero_below = zeros_entry depth new_tables (page c + hhdm) q new-zeros in
                    let at : entry_table hhdm (new_tables t j) ≡ page c + hhdm =
                      ap (λ (x : ℕ). entry_table hhdm (new_tables t x)) e ∙ new-child in
                    let below : entry hhdm depth new_tables (entry_table hhdm (new_tables t j)) q
                        ≡ 0 =
                      ap (λ (x : ℕ). entry hhdm depth new_tables x q) at ∙ zero_below in
                    ground (arith, below, z)
                | inr out ↦ ground (arith, new-other j out, z)
              ]
              | inr there ↦
                  let out : j ≢ i = λ e. there (ap (λ (x : ℕ). w t x) e ∙ empty) in
                  let below =
                    Same-entry hhdm depth w new_tables (entry_table hhdm (w t j))
                      (new-Same j (index_lt (suc depth) p lt) there) q (rest_lt (suc depth) p) in
                  rw (new-other j out) (ground (arith, below, there))
            ]

        new-Next : Next depth t i w c (page c + hhdm) new_tables (c + 1)
        new-Next = record {
          grew =
              Replaced-Grew hhdm page different depth t i w new_tables c (c + 1) lt_i new-Replaced
                apart fresh;
          there = λ z. table_word_ne c (sym new-word ∙ z);
          at = sym new-child;
          same = new-entry;
        }

  pub next_table-Next :
      (depth t i : ℕ) (s : Mapping)
      → i < 512
      → Apart hhdm (suc depth) s.tables t
      → Fresh hhdm page different (suc depth) s.tables t s.calls
      → (next : ℕ) × (w' : Tables) × (c' : ℕ) × (next_table hhdm page flags t i s
          ≡ (next, record s { tables = w'; calls = c' }))
        × Next depth t i s.tables s.calls next w' c'
  unfolding next_table new_tables table_flags
  next_table-Next depth t i s lt apart fresh = elim (same_or_not (s.tables t i) 0) [
    | inl z ↦
        let ne : t ≢ page s.calls + hhdm = λ e.
          fresh s.calls (omega arith) (
            subst (λ x. Owned hhdm (suc depth) s.tables t x) e
              (self hhdm (suc depth) s.tables t)) in
        let test : (s.tables t i == 0) ≡ true = ground (arith, z) in
        (
          page s.calls + hhdm,
          new_tables depth t i s.tables s.calls lt,
          s.calls + 1,
          rw test refl,
          new-Next depth t i s.tables s.calls lt ne z apart fresh,
        )
    | inr there ↦
        let test : (s.tables t i == 0) ≡ false = ground (arith, there) in
        (
          entry_table hhdm (s.tables t i),
          s.tables,
          s.calls,
          rw test refl,
          record {
            grew = Grew-refl hhdm page different (suc depth) t s.tables s.calls apart;
            there = there;
            at = refl;
            same = λ p p_lt. refl;
          },
        )
  ]
