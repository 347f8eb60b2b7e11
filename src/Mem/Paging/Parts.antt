-- ===== src/Mem/Paging/Parts.antt =====
-- What a part of the loops of map_pages does: consecutive pages from a start on.
use potat_os.Prelude.{
  ℕ, suc, ◌+◌, ◌-◌, ◌*◌, ◌/◌, ◌%◌, ◌<◌, ◌≤◌, ◌≡◌, ◌≢◌, ap, sym, ◌∙◌, subst, arith, inl, inr, Bool,
  true, false, ◌&&◌, leb, ltb, if◌then◌else◌, bit_or, same_or_not,
}
use potat_os.Mem.Paging.{Tables, Mapping, span, entry_table}
use potat_os.Mem.Paging.Trees.{Owned, Apart, Same, self, entry, Same-entry, index_lt, rest_lt}
use potat_os.Mem.Paging.Growth.{Fresh, Grew, Grew-refl, Grew-trans, Replaced-Grew}

-- The entries of `k` pages from `start` on are those of the frames from `phys` on.
abbrev pub written : ℕ → ℕ → ℕ → ℕ → ℕ → ℕ → ℕ
written flags start k phys p old =
    if leb start p && ltb p (start + k) then bit_or (phys + 4096 * (p - start)) flags else old

written-written :
    (flags start k m phys p old : ℕ)
    → written flags (start + k) m (phys + 4096 * k) p (written flags start k phys p old)
      ≡ written flags start (k + m) phys p old
written-written flags start k m phys p old =
    let e : start + k ≤ p
        → bit_or (phys + 4096 * k + 4096 * (p - (start + k))) flags
          ≡ bit_or (phys + 4096 * (p - start)) flags =
      λ le. ap (λ (x : ℕ). bit_or x flags) (omega arith) in
    ground (arith, e)

module _ (hhdm : ℕ) (page : ℕ → ℕ) (different : (j k : ℕ) → page j ≡ page k → j ≡ k)
    (flags : ℕ) where
  pub record Part (depth t start k : ℕ) (s s' : Mapping) : Type 0 where
    pub grew : Grew hhdm page different depth t s.tables s'.tables s.calls s'.calls
    pub phys : s'.phys_addr ≡ s.phys_addr + 4096 * k
    pub count : s'.num_pages + k ≡ s.num_pages
    pub entries :
        (p : ℕ)
        → p < 512 * span depth
        → entry hhdm depth s'.tables t p
          ≡ written flags start k s.phys_addr p (entry hhdm depth s.tables t p)

  pub Part-none :
      (depth t start : ℕ) (s : Mapping) → Apart hhdm depth s.tables t → Part depth t start 0 s s
  Part-none depth t start s apart = record {
    grew = Grew-refl hhdm page different depth t s.tables s.calls apart;
    phys = omega arith;
    count = omega arith;
    entries = λ p lt. ground arith;
  }

  pub Part-trans :
      {depth t start k m : ℕ} {s s1 s2 : Mapping}
      → Part depth t start k s s1
      → Part depth t (start + k) m s1 s2
      → Part depth t start (k + m) s s2
  Part-trans {depth} {t} {start} {k} {m} {s} {s1} {s2} a b = record {
    grew = Grew-trans hhdm page different a.grew b.grew;
    phys = omega (arith, a.phys, b.phys);
    count = omega (arith, a.count, b.count);
    entries = λ p lt.
        b.entries p lt
        ∙ ap (λ (x : ℕ). written flags (start + k) m x p (entry hhdm depth s1.tables t p)) a.phys
        ∙ ap (λ (x : ℕ). written flags (start + k) m (s.phys_addr + 4096 * k) p x) (a.entries p lt)
        ∙ written-written flags start k m s.phys_addr p (entry hhdm depth s.tables t p);
  }

  -- The loops return when no page is left, and else reach the end of the table.
  pub record Filled (depth t start : ℕ) (s : Mapping) (result : Bool × Mapping) : Type 0 where
    pub k : ℕ
    pub part : Part depth t start k s result.1
    pub fits : start + k ≤ 512 * span depth
    pub done : result.0 ≡ true → result.1.num_pages ≡ 0
    pub rest : result.0 ≡ false → (0 < result.1.num_pages) × (start + k ≡ 512 * span depth)

  pub Filled-after :
      {depth t start k : ℕ} {s s1 : Mapping} {result : Bool × Mapping}
      → Part depth t start k s s1
      → Filled depth t (start + k) s1 result
      → Filled depth t start s result
  Filled-after {depth} {t} {start} {k} {s} {s1} {result} a f = record {
    k = k + f.k;
    part = Part-trans a f.part;
    fits = omega (arith, f.fits);
    done = f.done;
    rest = λ e. ((f.rest e).0, omega (arith, (f.rest e).1));
  }

  -- What grows below an entry of a table.
  module _ (depth t i : ℕ) (w w' : Tables) (c c' : ℕ) (lt_i : i < 512) (there : w t i ≢ 0)
      (g : Grew hhdm page different depth (entry_table hhdm (w t i)) w w' c c')
      (apart : Apart hhdm (suc depth) w t)
      (fresh : Fresh hhdm page different (suc depth) w t c) where
    pub root_kept : w' t ≡ w t
    root_kept = g.kept t (apart i lt_i there).1 (λ k le e.
        fresh k le (subst (λ x. Owned hhdm (suc depth) w t x) e (self hhdm (suc depth) w t)))

    pub word_kept : (j : ℕ) → w' t j ≡ w t j
    word_kept j = ap (λ (f : ℕ → ℕ). f j) root_kept

    pub other_Same :
        (j : ℕ) → j < 512 → j ≢ i → w t j ≢ 0 → Same hhdm depth w w' (entry_table hhdm (w t j))
    other_Same j lt out ne a o =
        g.kept a (λ o'. (apart i lt_i there).2 j a lt ne out o' o)
          (λ k le e.
            fresh k le
              (inr (j, lt, ne, subst (λ x. Owned hhdm depth w (entry_table hhdm (w t j)) x) e o)))

    pub child_kept : entry_table hhdm (w' t i) ≡ entry_table hhdm (w t i)
    child_kept = ap (λ (x : ℕ). entry_table hhdm x) (word_kept i)

    pub Grew-below : Grew hhdm page different (suc depth) t w w' c c'
    Grew-below =
        Replaced-Grew hhdm page different depth t i w w' c c' lt_i
          (record {
            more = g.more;
            words = λ j out. word_kept j;
            others = other_Same;
            child = subst (λ x. Apart hhdm depth w' x) (sym child_kept) g.apart;
            grown = λ a o. elim (g.owned a (subst (λ x. Owned hhdm depth w' x a) child_kept o)) [
              | inl old ↦ inl (there, old)
              | inr new ↦ inr new
            ];
            kept = λ a out new. g.kept a (λ o. out (inr (i, lt_i, there, o))) new;
          })
          apart fresh

    pub entry_below :
        (p : ℕ)
        → p < 512 * span (suc depth)
        → (p / span (suc depth) ≡ i)
        → entry hhdm (suc depth) w' t p
          ≡ entry hhdm depth w' (entry_table hhdm (w t i)) (p % span (suc depth))
    unfolding entry
    entry_below p lt e =
        let at : w' t (p / span (suc depth)) ≡ w t i =
          word_kept (p / span (suc depth)) ∙ ap (w t) e in
        rw at (ground (arith, there))

    pub entry_old :
        (p : ℕ)
        → p < 512 * span (suc depth)
        → (p / span (suc depth) ≡ i)
        → entry hhdm (suc depth) w t p
          ≡ entry hhdm depth w (entry_table hhdm (w t i)) (p % span (suc depth))
    unfolding entry
    entry_old p lt e =
        let at : w t (p / span (suc depth)) ≡ w t i = ap (w t) e in rw at (ground (arith, there))

    pub entry_beside :
        (p : ℕ)
        → p < 512 * span (suc depth)
        → (p / span (suc depth) ≢ i)
        → entry hhdm (suc depth) w' t p ≡ entry hhdm (suc depth) w t p
    unfolding entry span
    entry_beside p lt out =
        let j = p / span (suc depth) in
        let at = word_kept j in
        elim (same_or_not (w t j) 0) [
          | inl z ↦ ground (arith, at, z)
          | inr ne ↦
              let below =
                Same-entry hhdm depth w w' (entry_table hhdm (w t j))
                  (other_Same j (index_lt (suc depth) p lt) out ne) (p % span (suc depth))
                  (rest_lt (suc depth) p) in
              rw at (ground (arith, below, ne))
        ]
