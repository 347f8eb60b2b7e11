-- ===== src/Mem/Vectors/Push.antt =====
-- `vector_push`.
use potat_os.Prelude.{
  ℕ, zero, suc, ◌+◌, ◌-◌, ◌^◌, ◌<◌, ◌≡◌, refl, ◌≢◌, ap, sym, ◌∙◌, subst, true, false, Option, List,
  [], ◌∷◌, ◌++◌, append_assoc, arith, ok, ◌==◌, length, length-append, Bool-cases, inl, inr,
}
use potat_os.Mem.Vectors.{
  VectorNode, vector_node, Vector, Nodes, write, last_node, longer, walk, vector_push,
}
use potat_os.Mem.Vectors.Chains.{
  Cell, cell, Distinct, Seg, nil, cons, IsVector, At-of_lt, Seg-append, Seg-write, Seg-Distinct,
  Distinct-snoc, NotIn-fresh, Seg-nil, load-ok, uncons, nonempty,
}

-- The loop ends at the last node.
last_node-walk :
    (k i : ℕ) {h : Nodes} {p : ℕ} (cs : List Cell)
    → Seg h 0 p cs
    → length cs ≡ suc i
    → length cs < k
    → last_node k h p ≡ walk i h p
unfolding last_node walk
last_node-walk zero i cs s e r = absurd (omega arith)
last_node-walk (suc k) i [] s e r = absurd (omega arith)
last_node-walk (suc k) zero {h} {p} (c ∷ []) s e r =
    let u = uncons s in rw (load-ok h p u.ne_null u.holds, Seg-nil u.rest)
last_node-walk (suc k) (suc i) (c ∷ []) s e r = absurd (omega arith)
last_node-walk (suc k) zero (c ∷ d ∷ cs) s e r = absurd (omega arith)
last_node-walk (suc k) (suc i) {h} {p} (c ∷ d ∷ cs) s e r =
    let u = uncons s in
    let next = uncons u.rest in
    let more : (u.node.next_node == 0) ≡ false = ground (arith, next.ne_null) in
    rw (load-ok h p u.ne_null u.holds, more)
      (last_node-walk k i (d ∷ cs) u.rest (omega arith) (omega arith))

eq-nil : (xs : List Cell) → length xs ≡ 0 → xs ≡ []
eq-nil [] e = refl
eq-nil (x ∷ xs) e = absurd (omega arith)

abbrev pub Pushed : Nodes → Vector → ℕ → ℕ → List Cell → Type 0
Pushed h vec fresh val cs =
    (v : Vector) × (g : Nodes) × (vector_push fresh vec val h ≡ ok (v, g))
    × IsVector g v (cs ++ (cell fresh val ∷ []))

module _ {h : Nodes} {vec : Vector} (fresh val : ℕ) (ne : fresh ≢ 0)
    (unused : h fresh ≡ Option.none) where
  push_first : {cs : List Cell} → IsVector h vec cs → cs ≡ [] → Pushed h vec fresh val cs
  unfolding vector_push
  push_first {cs} is e =
      let null : (vec.first_node == 0) ≡ true =
        ground (arith, Seg-nil (subst (Seg h 0 vec.first_node) e is.chain)) in
      let n = vector_node 0 0 val in
      (
        longer vec fresh,
        write h fresh n,
        rw null refl,
        record {
          chain =
              subst (λ l. Seg (write h fresh n) 0 fresh (l ++ (cell fresh val ∷ []))) (sym e)
                (cons {n = n} ne (ground arith) tt nil);
          count = omega (arith, is.count, ap length e, length-append cs (cell fresh val ∷ []));
        },
      )

  push_behind :
      {cs : List Cell} (i : ℕ)
      → IsVector h vec cs
      → length cs ≡ suc i
      → length cs + 1 < 2 ^ 64
      → Pushed h vec fresh val cs
  unfolding vector_push
  push_behind {cs} i is e fits =
      let a = At-of_lt i is.chain (omega arith) in
      let added = vector_node a.node.index 0 val in
      let n : VectorNode = record (a.node) { next_node = fresh } in
      let g = write (write h a.addr n) fresh added in
      let out = NotIn-fresh fresh is.chain unused in
      let other : a.addr ≢ fresh = λ q. ground (arith, q, a.holds, unused) in
      let lengths = length-append a.before (cell a.addr a.node.data_addr ∷ a.behind) in
      let none_behind = eq-nil a.behind (omega (arith, ap length a.split, a.place, lengths)) in
      let split : cs ≡ a.before ++ (cell a.addr a.node.data_addr ∷ []) =
        a.split ∙ ap (λ l. a.before ++ (cell a.addr a.node.data_addr ∷ l)) none_behind in
      let longer_split : cs ++ (cell fresh val ∷ [])
          ≡ a.before ++ (cell a.addr a.node.data_addr ∷ cell fresh val ∷ []) =
        ap (λ l. l ++ (cell fresh val ∷ [])) split
        ∙ append_assoc a.before (cell a.addr a.node.data_addr ∷ []) (cell fresh val ∷ []) in
      let distinct =
        subst Distinct longer_split (Distinct-snoc fresh val cs (Seg-Distinct is.chain) out) in
      let front =
        Seg-write fresh added (Seg-write a.addr n a.front a.new_front)
          (NotIn-fresh fresh a.front unused) in
      let rear : Seg g 0 fresh (cell fresh val ∷ []) = cons {n = added} ne (ground arith) tt nil in
      let chain =
        Seg-append (cell a.addr a.node.data_addr ∷ cell fresh val ∷ []) front
          (cons {n = n} a.ne_null (ground (arith, other)) (other, tt) rear) distinct in
      let (d, ds, f) = nonempty cs (omega arith) in
      let u = uncons (subst (Seg h 0 vec.first_node) f is.chain) in
      let linked : (vec.first_node == 0) ≡ false = ground (arith, u.ne_null) in
      (
        longer vec vec.first_node,
        g,
        rw
            (
              linked,
              last_node-walk (vec.length + 1) i cs is.chain e (omega (arith, is.count)),
              a.reached,
              load-ok h a.addr a.ne_null a.holds,
            )
            refl,
        record {
          chain = subst (Seg g 0 vec.first_node) (sym longer_split) chain;
          count = omega (arith, is.count, length-append cs (cell fresh val ∷ []));
        },
      )

  -- `vector_push` onto a well-formed vector, with a fresh node from `malloc` and room in the length
  -- counter, returns, and leaves a well-formed vector with the value behind the entries it had.
  pub vector_push-append :
      {cs : List Cell} → IsVector h vec cs → length cs + 1 < 2 ^ 64 → Pushed h vec fresh val cs
  vector_push-append {cs} is fits = elim (Bool-cases (length cs == 0)) [
    | inl none ↦ push_first is (eq-nil cs (ground arith))
    | inr some ↦ push_behind (length cs - 1) is (ground arith) fits
  ]
