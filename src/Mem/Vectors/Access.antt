-- ===== src/Mem/Vectors/Access.antt =====
-- `vector_at` and `vector_set`.
use potat_os.Prelude.{
  ℕ, zero, suc, ◌<◌, ◌≤◌, ◌≡◌, refl, ap, sym, ◌∙◌, subst, List, [], ◌∷◌, ◌++◌, arith, ok, leb,
  length, Bool-cases, inl, inr,
}
use potat_os.Mem.Vectors.{VectorNode, Vector, Nodes, write, vector_at, vector_set}
use potat_os.Mem.Vectors.Chains.{
  Cell, cell, Distinct, Seg, IsVector, values, At-of_lt, At-rebuild, Seg-write, Seg-Distinct,
  Distinct-suffix, load-ok,
}

-- The entry at an index, the null pointer beyond the end.
abbrev pub nth : List ℕ → ℕ → ℕ
nth [] i = 0
nth (x ∷ xs) zero = x
nth (x ∷ xs) (suc i) = nth xs i

abbrev pub set_value : List Cell → ℕ → ℕ → List Cell
set_value [] i v = []
set_value (c ∷ cs) zero v = cell c.addr v ∷ cs
set_value (c ∷ cs) (suc i) v = c ∷ set_value cs i v

pub nth_beyond : (cs : List Cell) (i : ℕ) → length cs ≤ i → nth (values cs) i ≡ 0
nth_beyond [] i h = refl
nth_beyond (c ∷ cs) zero h = absurd (omega arith)
nth_beyond (c ∷ cs) (suc i) h = nth_beyond cs i (omega arith)

pub nth_split : (xs ys : List Cell) (c : Cell) → nth (values (xs ++ (c ∷ ys))) (length xs) ≡ c.value
nth_split [] ys c = refl
nth_split (x ∷ xs) ys c = nth_split xs ys c

set_value_beyond : (cs : List Cell) (i v : ℕ) → length cs ≤ i → set_value cs i v ≡ cs
set_value_beyond [] i v h = refl
set_value_beyond (c ∷ cs) zero v h = absurd (omega arith)
set_value_beyond (c ∷ cs) (suc i) v h = ap (λ l. c ∷ l) (set_value_beyond cs i v (omega arith))

set_value_split :
    (xs ys : List Cell) (c : Cell) (v : ℕ)
    → set_value (xs ++ (c ∷ ys)) (length xs) v ≡ xs ++ (cell c.addr v ∷ ys)
set_value_split [] ys c v = refl
set_value_split (x ∷ xs) ys c v = ap (λ l. x ∷ l) (set_value_split xs ys c v)

pub length-set_value : (cs : List Cell) (i v : ℕ) → length (set_value cs i v) ≡ length cs
length-set_value [] i v = refl
length-set_value (c ∷ cs) zero v = refl
length-set_value (c ∷ cs) (suc i) v = ap suc (length-set_value cs i v)

pub nth-set_value :
    (cs : List Cell) (i v : ℕ) → i < length cs → nth (values (set_value cs i v)) i ≡ v
nth-set_value [] i v lt = absurd (omega arith)
nth-set_value (c ∷ cs) zero v lt = refl
nth-set_value (c ∷ cs) (suc i) v lt = nth-set_value cs i v (omega arith)

module _ {h : Nodes} {vec : Vector} {cs : List Cell} (is : IsVector h vec cs) (idx : ℕ) where
  -- `vector_at` of a well-formed vector returns its entry at the index, and the null pointer at
  -- every index beyond its length; it never faults.
  pub vector_at-nth : vector_at vec idx h ≡ ok (nth (values cs) idx)
  unfolding vector_at
  vector_at-nth = elim (Bool-cases (leb vec.length idx)) [
    | inl out ↦ rw out (ap ok (sym (nth_beyond cs idx (ground (arith, is.count)))))
    | inr inside ↦
        let a = At-of_lt idx is.chain (ground (arith, is.count)) in
        let entry : nth (values cs) idx ≡ a.node.data_addr =
          subst (λ i. nth (values cs) i ≡ a.node.data_addr) a.place
            (ap (λ l. nth (values l) (length a.before)) a.split
              ∙ nth_split a.before a.behind (cell a.addr a.node.data_addr)) in
        rw (inside, a.reached, load-ok h a.addr a.ne_null a.holds) (ap ok (sym entry))
  ]

  -- `vector_set` of a well-formed vector returns, leaves it well-formed with the entry at the index
  -- replaced and every other entry as it was, and changes nothing when the index is out of range.
  pub vector_set-set_value :
      (val : ℕ)
      → (g : Nodes) × (vector_set vec idx val h ≡ ok g) × IsVector g vec (set_value cs idx val)
  unfolding vector_set
  vector_set-set_value val = elim (Bool-cases (leb vec.length idx)) [
    | inl out ↦ (
      h,
      rw out refl,
      subst (IsVector h vec) (sym (set_value_beyond cs idx val (ground (arith, is.count)))) is,
    )
    | inr inside ↦
        let a = At-of_lt idx is.chain (ground (arith, is.count)) in
        let n : VectorNode = record (a.node) { data_addr = val } in
        let updated : set_value cs idx val ≡ a.before ++ (cell a.addr val ∷ a.behind) =
          subst (λ i. set_value cs i val ≡ a.before ++ (cell a.addr val ∷ a.behind)) a.place
            (ap (λ l. set_value l (length a.before) val) a.split
              ∙ set_value_split a.before a.behind (cell a.addr a.node.data_addr) val) in
        let distinct =
          Distinct-suffix a.before (cell a.addr a.node.data_addr ∷ a.behind)
            (cell a.addr val ∷ a.behind) (λ b o. o) (λ d. d)
            (subst Distinct a.split (Seg-Distinct is.chain)) in
        let chain = At-rebuild a n a.behind (Seg-write a.addr n a.rest a.new) a.new distinct in
        (
          write h a.addr n,
          rw (inside, a.reached, load-ok h a.addr a.ne_null a.holds) refl,
          record {
            chain = subst (Seg (write h a.addr n) 0 vec.first_node) (sym updated) chain;
            count = is.count ∙ sym (length-set_value cs idx val);
          },
        )
  ]
