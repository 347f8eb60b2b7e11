-- ===== src/Mem/Vectors/Pop.antt =====
-- `vector_pop`, on every branch.
use potat_os.Prelude.{
  ℕ, zero, suc, ◌+◌, ◌-◌, ◌<◌, ◌≤◌, ◌≡◌, refl, ap, sym, ◌∙◌, subst, false, List, [], ◌∷◌, ◌++◌,
  arith, Run, ok, fault, ◌>>=◌, ◌==◌, length, length-append,
}
use potat_os.Mem.Vectors.{VectorNode, Vector, Nodes, write, load, walk, vector_pop}
use potat_os.Mem.Vectors.Chains.{
  Cell, cell, NotIn, Distinct, Seg, nil, cons, IsVector, At-of_lt, At-rebuild, Seg-write,
  Seg-Distinct, Distinct-suffix, Seg-nil, load-ok, load_null, uncons, nonempty,
}

abbrev pub erase_at : List Cell → ℕ → List Cell
erase_at [] i = []
erase_at (c ∷ cs) zero = cs
erase_at (c ∷ cs) (suc i) = c ∷ erase_at cs i

erase_at_split :
    (xs ys : List Cell) (c d : Cell)
    → erase_at (xs ++ (c ∷ d ∷ ys)) (suc (length xs)) ≡ xs ++ (c ∷ ys)
erase_at_split [] ys c d = refl
erase_at_split (x ∷ xs) ys c d = ap (λ l. x ∷ l) (erase_at_split xs ys c d)

length-erase_at : (cs : List Cell) (i : ℕ) → i < length cs → length (erase_at cs i) ≡ length cs - 1
length-erase_at [] i h = absurd (omega arith)
length-erase_at (c ∷ cs) zero h = omega arith
length-erase_at (c ∷ cs) (suc i) h = omega (arith, length-erase_at cs i (omega arith))

-- The accesses of the general case reach the null pointer.
runs_off :
    {h : Nodes} {p : ℕ} {cs : List Cell} {A : Type 0} (k : VectorNode → VectorNode → ℕ → Run A)
    (idx : ℕ)
    → Seg h 0 p cs
    → length cs ≤ idx + 1
    → (walk idx h p >>= λ q. load h q >>= λ n. load h n.next_node >>= λ m. k n m q) ≡ fault
unfolding walk
runs_off {h} k zero nil r = rw (load_null h)
runs_off {h} k (suc idx) nil r = rw (load_null h)
runs_off {h} k zero (cons {p} {n} {cs = []} ne e out s) r =
    rw (load-ok h p ne e, Seg-nil s, load_null h)
runs_off {h} k zero (cons {p} {n} {cs = c ∷ cs} ne e out s) r = absurd (omega arith)
runs_off {h} k (suc idx) (cons {p} {n} ne e out s) r =
    rw (load-ok h p ne e) (runs_off k idx s (omega arith))

module _ {h : Nodes} {vec : Vector} {cs : List Cell} (is : IsVector h vec cs) where
  -- `vector_pop` of index 0 removes the first entry of a vector that has one; an empty vector it
  -- leaves as it is, whatever the index.
  pub vector_pop_head :
      (idx : ℕ)
      → (0 < length cs
          → (v : Vector) × (vector_pop vec 0 h ≡ ok (v, h)) × IsVector h v (erase_at cs 0))
        × (length cs ≡ 0 → vector_pop vec idx h ≡ ok (vec, h))
  unfolding vector_pop
  vector_pop_head idx = (
    λ some.
        let (d, ds, e) = nonempty cs some in
        let u = uncons (subst (Seg h 0 vec.first_node) e is.chain) in
        let v : Vector = record vec { length = vec.length - 1; first_node = u.node.next_node } in
        let has : (vec.length == 0) ≡ false = ground (arith, is.count, some) in
        (
          v,
          rw (has, load-ok h vec.first_node u.ne_null u.holds) refl,
          record {
            chain = subst (λ l. Seg h 0 u.node.next_node (erase_at l 0)) (sym e) u.rest;
            count = omega (arith, is.count, ap length e, ap (λ l. length (erase_at l 0)) e);
          },
        ),
    λ none. ground (arith, is.count),
  )

  -- At every later index `vector_pop` removes the entry behind the one asked for, when there is one.
  pub vector_pop_behind :
      (idx : ℕ)
      → 0 < idx
      → idx + 1 < length cs
      → (v : Vector) × (g : Nodes) × (vector_pop vec idx h ≡ ok (v, g))
        × IsVector g v (erase_at cs (suc idx))
  unfolding vector_pop
  vector_pop_behind idx pos room =
      let a = At-of_lt idx is.chain (omega arith) in
      let lengths = ap length a.split in
      let (d, ds, e) = nonempty a.behind (
        omega (
          arith,
          lengths,
          a.place,
          room,
          length-append a.before (cell a.addr a.node.data_addr ∷ a.behind),
        )) in
      let u = uncons (subst (Seg h 0 a.node.next_node) e a.rest) in
      let n : VectorNode = record (a.node) { next_node = u.node.next_node } in
      let out : NotIn a.addr (d ∷ ds) = subst (NotIn a.addr) e a.new in
      let split : cs ≡ a.before ++ (cell a.addr a.node.data_addr ∷ d ∷ ds) =
        a.split ∙ ap (λ l. a.before ++ (cell a.addr a.node.data_addr ∷ l)) e in
      let distinct =
        Distinct-suffix a.before (cell a.addr a.node.data_addr ∷ d ∷ ds)
          (cell a.addr a.node.data_addr ∷ ds) (λ b o. (o.0, o.1.1)) (λ q. (q.0.1, q.1.1))
          (subst Distinct split (Seg-Distinct is.chain)) in
      let erased : erase_at cs (suc idx) ≡ a.before ++ (cell a.addr a.node.data_addr ∷ ds) =
        subst (λ i. erase_at cs (suc i) ≡ a.before ++ (cell a.addr a.node.data_addr ∷ ds)) a.place
          (ap (λ l. erase_at l (suc (length a.before))) split
            ∙ erase_at_split a.before ds (cell a.addr a.node.data_addr) d) in
      let chain = At-rebuild a n ds (Seg-write a.addr n u.rest out.1) out.1 distinct in
      let has : (vec.length == 0) ≡ false = ground (arith, is.count, room) in
      let later : (idx == 0) ≡ false = ground (arith, pos) in
      (
        record vec { length = vec.length - 1 },
        write h a.addr n,
        rw
            (
              has,
              later,
              a.reached,
              load-ok h a.addr a.ne_null a.holds,
              load-ok h a.node.next_node u.ne_null u.holds,
            )
            refl,
        record {
          chain = subst (Seg (write h a.addr n) 0 vec.first_node) (sym erased) chain;
          count = omega (arith, is.count, length-erase_at cs (suc idx) (omega arith));
        },
      )

  -- At the last index, unless it is 0, and beyond the end `vector_pop` of a vector with entries goes
  -- through the null pointer.
  pub vector_pop_fault :
      (idx : ℕ) → 0 < idx → 0 < length cs → length cs ≤ idx + 1 → vector_pop vec idx h ≡ fault
  unfolding vector_pop
  vector_pop_fault idx pos has_one far =
      let has : (vec.length == 0) ≡ false = ground (arith, is.count, has_one) in
      let later : (idx == 0) ≡ false = ground (arith, pos) in
      rw (has, later) (runs_off _ idx is.chain far)
