-- ===== src/Mem/Paging/Growth.antt =====
-- How a tree of page tables grows by the pages of further calls of kmalloc.
use potat_os.Prelude.{
  ℕ, suc, ◌+◌, ◌<◌, ◌≤◌, ◌≡◌, refl, ◌≢◌, sym, ◌∙◌, subst, arith, ◌⊎◌, inl, inr, same_or_not,
}
use potat_os.Mem.Paging.{Tables, entry_table}
use potat_os.Mem.Paging.Trees.{Owned, Apart, Same, self, Same-Owned, Same-Apart}

module _ (hhdm : ℕ) (page : ℕ → ℕ) (different : (j k : ℕ) → page j ≡ page k → j ≡ k) where
  -- The pages of the calls of kmalloc from one to another.
  abbrev pub Allocated : ℕ → ℕ → ℕ → Type 0
  Allocated c c' a = (k : ℕ) × (c ≤ k) × (k < c') × (a ≡ page k + hhdm)

  -- No page of the tree comes from a later call.
  abbrev pub Fresh : ℕ → Tables → ℕ → ℕ → Type 0
  Fresh depth w t c = (k : ℕ) → c ≤ k → Owned hhdm depth w t (page k + hhdm) → ⊥

  pub record Grew (depth : ℕ) (t : ℕ) (w w' : Tables) (c c' : ℕ) : Type 0 where
    pub more : c ≤ c'
    pub kept :
        (a : ℕ) → (Owned hhdm depth w t a → ⊥) → ((k : ℕ) → c ≤ k → a ≢ page k + hhdm) → w' a ≡ w a
    pub owned : (a : ℕ) → Owned hhdm depth w' t a → Owned hhdm depth w t a ⊎ Allocated c c' a
    pub apart : Apart hhdm depth w' t

  pub Grew-refl : (depth t : ℕ) (w : Tables) (c : ℕ) → Apart hhdm depth w t → Grew depth t w w c c
  Grew-refl depth t w c apart = record {
    more = omega arith;
    kept = λ a o f. refl;
    owned = λ a o. inl o;
    apart = apart;
  }

  pub Grew-trans :
      {depth t : ℕ} {w w1 w2 : Tables} {c c1 c2 : ℕ}
      → Grew depth t w w1 c c1
      → Grew depth t w1 w2 c1 c2
      → Grew depth t w w2 c c2
  Grew-trans {depth} {t} {w} {w1} {w2} {c} {c1} {c2} g h = record {
    more = omega (arith, g.more, h.more);
    kept = λ a out new.
        h.kept a (λ o. elim (g.owned a o) [ inl o' ↦ out o' | inr (k, le, lt, e) ↦ new k le e ])
          (λ k le. new k (omega (arith, g.more)))
        ∙ g.kept a out new;
    owned = λ a o. elim (h.owned a o) [
      | inl o' ↦ elim (g.owned a o') [
        | inl o2 ↦ inl o2
        | inr (k, le, lt, e) ↦ inr (k, le, omega (arith, h.more), e)
      ]
      | inr (k, le, lt, e) ↦ inr (k, omega (arith, g.more), lt, e)
    ];
    apart = h.apart;
  }

  pub Grew-Fresh :
      {depth t : ℕ} {w w' : Tables} {c c' : ℕ}
      → Grew depth t w w' c c'
      → Fresh depth w t c
      → Fresh depth w' t c'
  Grew-Fresh {depth} {t} {w} {w'} {c} {c'} g fresh k le o = elim (g.owned (page k + hhdm) o) [
    | inl o' ↦ fresh k (omega (arith, g.more)) o'
    | inr (j, le', lt, e) ↦ let same : j ≡ k = different j k (omega arith) in absurd (omega arith)
  ]

  -- The tree grows when one child of it does, or comes to be, and the others stay.
  module _ (depth t i : ℕ) (w w' : Tables) (c c' : ℕ) (lt_i : i < 512) where
    abbrev pub Child : Tables → ℕ → ℕ → Type 0
    Child v j a = Owned hhdm depth v (entry_table hhdm (v t j)) a

    pub record Replaced : Type 0 where
      pub more : c ≤ c'
      pub words : (j : ℕ) → j ≢ i → w' t j ≡ w t j
      pub others :
          (j : ℕ) → j < 512 → j ≢ i → w t j ≢ 0 → Same hhdm depth w w' (entry_table hhdm (w t j))
      pub child : Apart hhdm depth w' (entry_table hhdm (w' t i))
      pub grown : (a : ℕ) → Child w' i a → ((w t i ≢ 0) × Child w i a) ⊎ Allocated c c' a
      pub kept :
          (a : ℕ)
          → (Owned hhdm (suc depth) w t a → ⊥)
          → ((k : ℕ) → c ≤ k → a ≢ page k + hhdm)
          → w' a ≡ w a

    module _ (r : Replaced) (apart : Apart hhdm (suc depth) w t)
        (fresh : Fresh (suc depth) w t c) where
      -- A page of a child is the tree's.
      lift : (j a : ℕ) → j < 512 → w t j ≢ 0 → Child w j a → Owned hhdm (suc depth) w t a
      lift j a lt ne o = inr (j, lt, ne, o)

      other_back :
          (j a : ℕ) → j < 512 → j ≢ i → w' t j ≢ 0 → Child w' j a → (w t j ≢ 0) × Child w j a
      other_back j a lt other ne o =
          let e = r.words j other in
          let ne' : w t j ≢ 0 = λ z. ne (e ∙ z) in
          (
            ne',
            Same-Owned hhdm depth w w' (entry_table hhdm (w t j)) (r.others j lt other ne') a
                (subst (λ x. Owned hhdm depth w' (entry_table hhdm x) a) e o),
          )

      -- The two children have no page in common.
      never : (j a : ℕ) → j < 512 → j ≢ i → w' t j ≢ 0 → Child w' i a → Child w' j a → ⊥
      never j a lt other ne o o' =
          let (ne', old) = other_back j a lt other ne o' in
          elim (r.grown a o) [
            | inl (ne_i, old_i) ↦ (apart i lt_i ne_i).2 j a lt ne' other old_i old
            | inr (k, le, k_lt, e) ↦
                fresh k le (lift j (page k + hhdm) lt ne' (subst (λ x. Child w j x) e old))
          ]

      child_apart : (j : ℕ) → j < 512 → w' t j ≢ 0 → Apart hhdm depth w' (entry_table hhdm (w' t j))
      child_apart j lt ne = elim (same_or_not j i) [
        | inl e ↦ subst (λ x. Apart hhdm depth w' (entry_table hhdm (w' t x))) (sym e) r.child
        | inr other ↦
            let e = r.words j other in
            let ne' : w t j ≢ 0 = λ z. ne (e ∙ z) in
            subst (λ x. Apart hhdm depth w' (entry_table hhdm x)) (sym e)
              (Same-Apart hhdm depth w w' (entry_table hhdm (w t j)) (r.others j lt other ne')
                (apart j lt ne').0)
      ]

      not_root : (j : ℕ) → j < 512 → w' t j ≢ 0 → Child w' j t → ⊥
      not_root j lt ne o = elim (same_or_not j i) [
        | inl e ↦ elim (r.grown t (subst (λ x. Child w' x t) e o)) [
          | inl (ne_i, old) ↦ (apart i lt_i ne_i).1 old
          | inr (k, le, k_lt, at) ↦
              fresh k le (subst (λ x. Owned hhdm (suc depth) w t x) at (self hhdm (suc depth) w t))
        ]
        | inr other ↦ let (ne', old) = other_back j t lt other ne o in (apart j lt ne').1 old
      ]

      disjoint :
          (j m a : ℕ)
          → j < 512
          → w' t j ≢ 0
          → m < 512
          → w' t m ≢ 0
          → m ≢ j
          → Child w' j a
          → Child w' m a
          → ⊥
      disjoint j m a lt ne lt' ne' other o o' = elim (same_or_not j i) [
        | inl e ↦ never m a lt' (λ q. other (q ∙ sym e)) ne' (subst (λ x. Child w' x a) e o) o'
        | inr out ↦ elim (same_or_not m i) [
          | inl e' ↦ never j a lt out ne (subst (λ x. Child w' x a) e' o') o
          | inr out' ↦
              let (n1, old) = other_back j a lt out ne o in
              let (n2, old') = other_back m a lt' out' ne' o' in
              (apart j lt n1).2 m a lt' n2 other old old'
        ]
      ]

      pub Replaced-Grew : Grew (suc depth) t w w' c c'
      Replaced-Grew = record {
        more = r.more;
        kept = r.kept;
        owned = owned;
        apart = λ j lt ne. (
          child_apart j lt ne,
          not_root j lt ne,
          λ m a lt' ne' other. disjoint j m a lt ne lt' ne' other,
        );
      }
        where
          owned :
              (a : ℕ)
              → Owned hhdm (suc depth) w' t a
              → Owned hhdm (suc depth) w t a ⊎ Allocated c c' a
          owned a (inl e) = inl (inl e)
          owned a (inr (j, lt, ne, o)) = elim (same_or_not j i) [
            | inl e ↦ elim (r.grown a (subst (λ x. Child w' x a) e o)) [
              | inl (ne_i, old) ↦ inl (inr (i, lt_i, ne_i, old))
              | inr new ↦ inr new
            ]
            | inr other ↦
                let (ne', old) = other_back j a lt other ne o in inl (inr (j, lt, ne', old))
          ]
