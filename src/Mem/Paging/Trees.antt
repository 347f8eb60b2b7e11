-- ===== src/Mem/Paging/Trees.antt =====
-- A tree of page tables: the pages that it stands in, when they are apart, and the entry of a page.
use potat_os.Prelude.{
  ℕ, zero, suc, ◌*◌, ◌/◌, ◌%◌, ◌<◌, ◌≡◌, refl, ◌≢◌, ap, sym, ◌∙◌, subst, arith, ◌⊎◌, inl, inr, ◌==◌,
  if◌then◌else◌, same_or_not,
}
use native.Mathlib.Nat.{div-lt_iff_lt-mul, mod-lt}
use potat_os.Mem.Paging.{Tables, span, entry_table}

pub span_pos : (depth : ℕ) → 0 < span depth
unfolding span
span_pos zero = omega arith
span_pos (suc depth) = omega (arith, span_pos depth)

pub index_lt : (depth p : ℕ) → p < 512 * span depth → p / span depth < 512
index_lt depth p lt = (div-lt_iff_lt-mul {k = span depth} {x = p} {y = 512} (span_pos depth)).1 lt

pub rest_lt : (depth p : ℕ) → p % span depth < span depth
rest_lt depth p = mod-lt p (span_pos depth)

module _ (hhdm : ℕ) where
  -- `a` is a page of the tree at `t` that is `depth` tables above the last ones.
  abbrev pub Owned : ℕ → Tables → ℕ → ℕ → Type 0
  Owned zero w t a = a ≡ t
  Owned (suc depth) w t a =
      (a ≡ t) ⊎ ((i : ℕ) × (i < 512) × (w t i ≢ 0) × Owned depth w (entry_table hhdm (w t i)) a)

  -- No page of the tree is reached in two ways.
  abbrev pub Apart : ℕ → Tables → ℕ → Type 0
  Apart zero w t = Unit
  Apart (suc depth) w t =
      (i : ℕ)
      → i < 512
      → w t i ≢ 0
      → Apart depth w (entry_table hhdm (w t i))
        × (Owned depth w (entry_table hhdm (w t i)) t → ⊥)
        × ((j : ℕ) (a : ℕ)
            → j < 512
            → w t j ≢ 0
            → j ≢ i
            → Owned depth w (entry_table hhdm (w t i)) a
            → Owned depth w (entry_table hhdm (w t j)) a
            → ⊥)

  -- The entry of a page in the last table, 0 when there is none.
  unfoldable pub entry : ℕ → Tables → ℕ → ℕ → ℕ
  entry zero w t p = w t p
  entry (suc depth) w t p =
      let e = w t (p / span (suc depth)) in
      let below = entry depth w (entry_table hhdm e) (p % span (suc depth)) in
      if e == 0 then 0 else below

  abbrev pub Same : ℕ → Tables → Tables → ℕ → Type 0
  Same depth w w' t = (a : ℕ) → Owned depth w t a → w' a ≡ w a

  pub self : (depth : ℕ) (w : Tables) (t : ℕ) → Owned depth w t t
  self zero w t = refl
  self (suc depth) w t = inl refl

  pub Same-Owned :
      (depth : ℕ) (w w' : Tables) (t : ℕ)
      → Same depth w w' t
      → (a : ℕ) → Owned depth w' t a
      → Owned depth w t a
  Same-Owned zero w w' t same a o = o
  Same-Owned (suc depth) w w' t same a (inl e) = inl e
  Same-Owned (suc depth) w w' t same a (inr (i, lt, ne, o)) =
      let e : w' t i ≡ w t i = ap (λ (f : ℕ → ℕ). f i) (same t (inl refl)) in
      let ne' : w t i ≢ 0 = λ z. ne (e ∙ z) in
      let o' = subst (λ x. Owned depth w' (entry_table hhdm x) a) e o in
      inr (
        i,
        lt,
        ne',
        Same-Owned depth w w' (entry_table hhdm (w t i)) (λ b ob. same b (inr (i, lt, ne', ob))) a
            o',
      )

  pub Same-back : (depth : ℕ) (w w' : Tables) (t : ℕ) → Same depth w w' t → Same depth w' w t
  Same-back depth w w' t same a o = sym (same a (Same-Owned depth w w' t same a o))

  pub Same-Apart :
      (depth : ℕ) (w w' : Tables) (t : ℕ) → Same depth w w' t → Apart depth w t → Apart depth w' t
  Same-Apart zero w w' t same apart = tt
  Same-Apart (suc depth) w w' t same apart = λ i lt ne.
      let e : (j : ℕ) → w' t j ≡ w t j = λ j. ap (λ (f : ℕ → ℕ). f j) (same t (inl refl)) in
      let child = λ (j : ℕ). entry_table hhdm (w t j) in
      let inner : (j : ℕ) → j < 512 → w t j ≢ 0 → Same depth w w' (child j) =
        λ j jlt jne a o. same a (inr (j, jlt, jne, o)) in
      let down : (j : ℕ)
          → j < 512
          → w t j ≢ 0
          → (a : ℕ) → Owned depth w' (entry_table hhdm (w' t j)) a
          → Owned depth w (child j) a =
        λ j jlt jne a o.
          Same-Owned depth w w' (child j) (inner j jlt jne) a
            (subst (λ x. Owned depth w' (entry_table hhdm x) a) (e j) o) in
      let ne' : w t i ≢ 0 = λ z. ne (e i ∙ z) in
      let (one, two, three) = apart i lt ne' in
      (
        subst (λ x. Apart depth w' (entry_table hhdm x)) (sym (e i))
            (Same-Apart depth w w' (child i) (inner i lt ne') one),
        (λ o. two (down i lt ne' t o)),
        λ j a jlt jne other o o'.
            let jne' : w t j ≢ 0 = λ z. jne (e j ∙ z) in
            three j a jlt jne' other (down i lt ne' a o) (down j jlt jne' a o'),
      )

  pub Same-entry :
      (depth : ℕ) (w w' : Tables) (t : ℕ)
      → Same depth w w' t
      → (p : ℕ) → p < 512 * span depth
      → entry depth w' t p ≡ entry depth w t p
  unfolding entry span
  Same-entry zero w w' t same p lt = ap (λ (f : ℕ → ℕ). f p) (same t refl)
  Same-entry (suc depth) w w' t same p lt =
      let i = p / span (suc depth) in
      let e : w' t i ≡ w t i = ap (λ (f : ℕ → ℕ). f i) (same t (inl refl)) in
      elim (same_or_not (w t i) 0) [
        | inl z ↦ ground (arith, e, z)
        | inr ne ↦
            let below =
              Same-entry depth w w' (entry_table hhdm (w t i))
                (λ a o. same a (inr (i, index_lt (suc depth) p lt, ne, o))) (p % span (suc depth))
                (rest_lt (suc depth) p) in
            rw e (ground (arith, below, ne))
      ]
