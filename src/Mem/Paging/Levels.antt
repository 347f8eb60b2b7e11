-- ===== src/Mem/Paging/Levels.antt =====
-- The nested loops of map_pages, from the last tables up.
use potat_os.Prelude.{
  ℕ, zero, suc, ◌+◌, ◌-◌, ◌*◌, ◌/◌, ◌%◌, ◌^◌, ◌<◌, ◌≤◌, ◌≡◌, ◌≢◌, ap, sym, ◌∙◌, subst, arith, ◌⊎◌,
  inl, inr, Bool, true, false, ◌==◌, bit_or, same_or_not, Bool-cases,
}
use native.Mathlib.Nat.{div-add-mod', mul-le-mul_right}
use potat_os.Mem.Paging.{
  Tables, Mapping, write, span, entry_table, map_entry, each_entry, each_table, level,
}
use potat_os.Mem.Paging.Trees.{Apart, entry, index_lt, rest_lt, span_pos}
use potat_os.Mem.Paging.Growth.{Fresh, Grew, Grew-Fresh, Grew-trans}
use potat_os.Mem.Paging.Next.{Next, next_table-Next}
use potat_os.Mem.Paging.Parts.{
  written, Part, Part-none, Filled, Filled-after, Grew-below, entry_below, entry_old, entry_beside,
}

-- An entry's pages are the rows of `span` pages.
written_row :
    (flags size i low k phys p old : ℕ)
    → p / size ≡ i
    → written flags low k phys (p % size) old ≡ written flags (i * size + low) k phys p old
written_row flags size i low k phys p old e =
    let split : i * size + p % size ≡ p =
      ap (λ (x : ℕ). x * size + p % size) (sym e) ∙ div-add-mod' p size in
    let same : low ≤ p % size
        → bit_or (phys + 4096 * (p % size - low)) flags
          ≡ bit_or (phys + 4096 * (p - (i * size + low))) flags =
      λ le. ap (λ (x : ℕ). bit_or (phys + 4096 * x) flags) (omega arith) in
    ground (arith, same)

written_other_row :
    (flags size i low k phys p old : ℕ)
    → p / size ≢ i
    → p % size < size
    → low + k ≤ size
    → written flags (i * size + low) k phys p old ≡ old
written_other_row flags size i low k phys p old out lt fits =
    let j = p / size in
    let split = div-add-mod' p size in
    let side : (j < i) ⊎ (i < j) = omega (arith, out) in
    elim side [
      | inl h ↦
          let before : (j + 1) * size ≤ i * size = mul-le-mul_right size (omega arith) in
          let outside : p < i * size + low = omega (arith, before, split) in ground (arith, outside)
      | inr h ↦
          let behind : (i + 1) * size ≤ j * size = mul-le-mul_right size (omega arith) in
          let outside : i * size + low + k ≤ p = omega (arith, behind, split) in
          ground (arith, outside)
    ]

module _ (hhdm : ℕ) (page : ℕ → ℕ) (different : (j k : ℕ) → page j ≡ page k → j ≡ k)
    (aligned : (k : ℕ) → page k % 4096 ≡ 0) (flags : ℕ) (small : flags < 4096) where
  map_entry-Part :
      (t i : ℕ) (s : Mapping)
      → 0 < s.num_pages
      → s.num_pages ≤ 2 ^ 64
      → Part hhdm page different flags zero t i 1 s (map_entry hhdm page flags t i s)
  unfolding map_entry entry span
  map_entry-Part t i s pos bound = record {
    grew = record {
      more = omega arith;
      kept = λ a out new. ground (arith, out);
      owned = λ a o. inl o;
      apart = tt;
    };
    phys = omega arith;
    count = omega arith;
    entries = λ p lt. at p;
  }
    where
      at :
          (p : ℕ)
          → write s.tables t i (bit_or s.phys_addr flags) t p
            ≡ written flags i 1 s.phys_addr p (s.tables t p)
      at p = elim (same_or_not p i) [
        | inl e ↦
            let same : bit_or s.phys_addr flags ≡ bit_or (s.phys_addr + 4096 * (p - i)) flags =
              ap (λ (x : ℕ). bit_or x flags) (omega arith) in
            ground (arith, same)
        | inr out ↦ ground (arith, out)
      ]

  each_entry-Filled :
      (rounds i t : ℕ) (s : Mapping)
      → rounds + i ≡ 512
      → 0 < s.num_pages
      → s.num_pages ≤ 2 ^ 64
      → Filled hhdm page different flags zero t i s
          (each_entry hhdm page flags (map_entry hhdm page flags) rounds i t s)
  unfolding each_entry span
  each_entry-Filled zero i t s end pos bound = record {
    k = 0;
    part = Part-none hhdm page different flags zero t i s tt;
    fits = omega arith;
    done = λ e. absurd (ground (arith, e));
    rest = λ e. (pos, omega arith);
  }
  each_entry-Filled (suc rounds) i t s end pos bound =
      let s1 = map_entry hhdm page flags t i s in
      let part = map_entry-Part t i s pos bound in
      elim (same_or_not s1.num_pages 0) [
        | inl z ↦
            let test : (s1.num_pages == 0) ≡ true = ground (arith, z) in
            rw test (record {
              k = 1;
              part = part;
              fits = omega arith;
              done = λ e. z;
              rest = λ e. absurd (ground (arith, e));
            })
        | inr more ↦
            let test : (s1.num_pages == 0) ≡ false = ground (arith, more) in
            rw test (
              Filled-after hhdm page different flags part (
                each_entry-Filled rounds (i + 1) t s1 (omega arith) (omega arith)
                  (omega (arith, part.count))))
      ]

  -- One entry of a table of tables.
  module _ (depth t i low : ℕ) (lt_i : i < 512) (s : Mapping) (next : ℕ) (w1 : Tables) (c1 : ℕ)
      (result : Bool × Mapping) where
    round-Part :
        (n : Next hhdm page different aligned flags small depth t i s.tables s.calls next w1 c1)
        → Fresh hhdm page different (suc depth) s.tables t s.calls
        → (f : Filled hhdm page different flags depth next low
            (record s { tables = w1; calls = c1 })
            result)
        → Part hhdm page different flags (suc depth) t (i * span (suc depth) + low) f.k s result.1
    unfolding span
    round-Part n fresh f =
        let w2 = result.1.tables in
        let fresh1 = Grew-Fresh hhdm page different n.grew fresh in
        let g =
          subst (λ x. Grew hhdm page different depth x w1 w2 c1 result.1.calls) n.at f.part.grew in
        let inner : (p : ℕ)
            → p < 512 * span depth
            → entry hhdm depth w2 (entry_table hhdm (w1 t i)) p
              ≡ written flags low f.k s.phys_addr p
                  (entry hhdm depth w1 (entry_table hhdm (w1 t i)) p) =
          subst
            (λ x.
              (p : ℕ)
              → p < 512 * span depth
              → entry hhdm depth w2 x p
                ≡ written flags low f.k s.phys_addr p (entry hhdm depth w1 x p))
            n.at f.part.entries in
        let size = span (suc depth) in
        record {
          grew = Grew-trans hhdm page different n.grew (
              Grew-below hhdm page different flags depth t i w1 w2 c1 result.1.calls lt_i n.there g
                n.grew.apart fresh1);
          phys = f.part.phys;
          count = f.part.count;
          entries = λ p lt. elim (same_or_not (p / size) i) [
            | inl e ↦
                entry_below hhdm page different flags depth t i w1 w2 c1 result.1.calls lt_i n.there
                  g n.grew.apart fresh1 p lt e
                ∙ inner (p % size) (rest_lt (suc depth) p)
                ∙ ap (λ (x : ℕ). written flags low f.k s.phys_addr (p % size) x)
                    (sym (
                        entry_old hhdm page different flags depth t i w1 w2 c1 result.1.calls lt_i
                          n.there g n.grew.apart fresh1 p lt e)
                      ∙ n.same p lt)
                ∙ written_row flags size i low f.k s.phys_addr p
                    (entry hhdm (suc depth) s.tables t p) e
            | inr out ↦
                entry_beside hhdm page different flags depth t i w1 w2 c1 result.1.calls lt_i
                  n.there g n.grew.apart fresh1 p lt out
                ∙ n.same p lt
                ∙ sym (
                    written_other_row flags size i low f.k s.phys_addr p
                      (entry hhdm (suc depth) s.tables t p) out (rest_lt (suc depth) p) f.fits)
          ];
        }

  -- The loop of one table, when the loops inside do what is required of them.
  module _ (depth : ℕ) (inner : ℕ → ℕ → Mapping → Bool × Mapping)
      (inner-Filled : (t start : ℕ) (s : Mapping)
        → Apart hhdm depth s.tables t
        → Fresh hhdm page different depth s.tables t s.calls
        → 0 < s.num_pages
        → s.num_pages ≤ 2 ^ 64
        → start < 512 * span depth
        → Filled hhdm page different flags depth t start s (inner t start s)) where
    child-Fresh :
        (t i : ℕ) (w : Tables) (c : ℕ)
        → i < 512
        → w t i ≢ 0
        → Fresh hhdm page different (suc depth) w t c
        → Fresh hhdm page different depth w (entry_table hhdm (w t i)) c
    child-Fresh t i w c lt there fresh k le o = fresh k le (inr (i, lt, there, o))

    each_table-Filled :
        (rounds i low t : ℕ) (s : Mapping)
        → rounds + i ≡ 512
        → Apart hhdm (suc depth) s.tables t
        → Fresh hhdm page different (suc depth) s.tables t s.calls
        → 0 < s.num_pages
        → s.num_pages ≤ 2 ^ 64
        → low < span (suc depth)
        → i * span (suc depth) + low ≤ 512 * span (suc depth)
        → Filled hhdm page different flags
            (suc depth)
            t
            (i * span (suc depth) + low)
            s
            (each_table hhdm page flags inner rounds i low t s)
    unfolding each_table span
    each_table-Filled zero i low t s end apart fresh pos bound low_lt within =
        let top : i * span (suc depth) ≡ 512 * span (suc depth) =
          ap (λ (x : ℕ). x * span (suc depth)) (omega arith) in
        record {
          k = 0;
          part =
              Part-none hhdm page different flags (suc depth) t (i * span (suc depth) + low) s
                apart;
          fits = omega arith;
          done = λ e. absurd (ground (arith, e));
          rest = λ e. (pos, omega (arith, top, within));
        }
    each_table-Filled (suc rounds) i low t s end apart fresh pos bound low_lt within =
        let lt_i : i < 512 = omega arith in
        let (next, w1, c1, goes, n) =
          next_table-Next hhdm page different aligned flags small depth t i s lt_i apart fresh in
        let s1 : Mapping = record s { tables = w1; calls = c1 } in
        let result = inner next low s1 in
        let fresh1 =
          child-Fresh t i w1 c1 lt_i n.there (Grew-Fresh hhdm page different n.grew fresh) in
        let f =
          inner-Filled next low s1
            (subst (λ x. Apart hhdm depth w1 x) (sym n.at) (n.grew.apart i lt_i n.there).0)
            (subst (λ x. Fresh hhdm page different depth w1 x c1) (sym n.at) fresh1) pos bound
            low_lt in
        let part = round-Part depth t i low lt_i s next w1 c1 result n fresh f in
        let s2 = result.1 in
        let room : (i + 1) * span (suc depth) ≤ 512 * span (suc depth) =
          mul-le-mul_right (span (suc depth)) (omega arith) in
        elim (Bool-cases result.0) [
          | inl e ↦
              rw (goes, e)
                (record {
                  k = f.k;
                  part = part;
                  fits = omega (arith, room, f.fits);
                  done = λ q. f.done e;
                  rest = λ q. absurd (ground (arith, q));
                })
          | inr e ↦
              let (more, full) = f.rest e in
              let rest =
                each_table-Filled rounds (i + 1) 0 t s2 (omega arith) part.grew.apart
                  (Grew-Fresh hhdm page different part.grew fresh) more (omega (arith, part.count))
                  (span_pos (suc depth)) (omega (arith, room)) in
              let here : (i + 1) * span (suc depth) + 0 ≡ i * span (suc depth) + low + f.k =
                omega (arith, full) in
              rw (goes, e)
                (Filled-after hhdm page different flags part (
                  subst
                    (λ x.
                      Filled hhdm page different flags (suc depth) t x s2
                        (each_table hhdm page flags inner rounds (i + 1) 0 t s2))
                    here rest))
        ]

  pub level-Filled :
      (depth t start : ℕ) (s : Mapping)
      → Apart hhdm depth s.tables t
      → Fresh hhdm page different depth s.tables t s.calls
      → 0 < s.num_pages
      → s.num_pages ≤ 2 ^ 64
      → start < 512 * span depth
      → Filled hhdm page different flags depth t start s
          (level hhdm page flags (map_entry hhdm page flags) depth t start s)
  unfolding level span
  level-Filled zero t start s apart fresh pos bound lt =
      each_entry-Filled (512 - start) start t s (omega arith) pos bound
  level-Filled (suc depth) t start s apart fresh pos bound lt =
      let i = start / span (suc depth) in
      let low = start % span (suc depth) in
      let split = div-add-mod' start (span (suc depth)) in
      let i_lt = index_lt (suc depth) start lt in
      subst
        (λ x. Filled hhdm page different flags (suc depth) t x s (
          each_table hhdm page flags (level hhdm page flags (map_entry hhdm page flags) depth)
            (512 - i) i low t s))
        split
        (each_table-Filled depth (level hhdm page flags (map_entry hhdm page flags) depth)
          (level-Filled depth) (512 - i) i low t s (omega arith) apart fresh pos bound
          (rest_lt (suc depth) start) (omega (arith, split, lt)))
