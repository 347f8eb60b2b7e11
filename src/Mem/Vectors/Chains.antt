-- ===== src/Mem/Vectors/Chains.antt =====
-- What a vector stands for: the cells of its chain of nodes, in order.
use potat_os.Prelude.{
  ℕ, zero, suc, ◌<◌, ◌≡◌, refl, ◌≢◌, ap, sym, subst, none, List, [], ◌∷◌, ◌++◌, arith, some, ok,
  fault, length,
}
use potat_os.Mem.Vectors.{VectorNode, Vector, Nodes, write, load, walk}

-- Address and value of a node.
pub record Cell : Type 0 where
  pub addr : ℕ
  pub value : ℕ

abbrev pub cell : ℕ → ℕ → Cell
cell a v = record { addr = a; value = v }

abbrev pub NotIn : ℕ → List Cell → Type 0
NotIn a [] = Unit
NotIn a (c ∷ cs) = (a ≢ c.addr) × NotIn a cs

-- From `p` the `next_node` pointers lead through the distinct nodes `cs` to `stop`.
pub data Seg (h : Nodes) (stop : ℕ) : ℕ → List Cell → Type 0 where
  nil : Seg h stop stop []
  cons :
      {p : ℕ} {n : VectorNode} {cs : List Cell}
      → p ≢ 0
      → h p ≡ some n
      → NotIn p cs
      → Seg h stop n.next_node cs
      → Seg h stop p (cell p n.data_addr ∷ cs)

pub record IsVector (h : Nodes) (vec : Vector) (cs : List Cell) : Type 0 where
  pub chain : Seg h 0 vec.first_node cs
  pub count : vec.length ≡ length cs

abbrev pub values : List Cell → List ℕ
values [] = []
values (c ∷ cs) = c.value ∷ values cs

pub load-ok : (h : Nodes) (p : ℕ) {n : VectorNode} → p ≢ 0 → h p ≡ some n → load h p ≡ ok n
unfolding load
load-ok h p ne e = ground arith

pub load_null : (h : Nodes) → load h 0 ≡ fault
unfolding load
load_null h = refl

-- A segment survives a write to a node that is not in it.
pub Seg-write :
    {h : Nodes} {stop p : ℕ} {cs : List Cell} (a : ℕ) (n : VectorNode)
    → Seg h stop p cs
    → NotIn a cs
    → Seg (write h a n) stop p cs
Seg-write a n nil out = nil
Seg-write a n (cons {p} {n = m} ne e new s) out =
    cons {n = m} ne (ground (arith, out.0)) new (Seg-write a n s out.1)

NotIn-front : (a : ℕ) (xs ys : List Cell) → NotIn a (xs ++ ys) → NotIn a xs
NotIn-front a [] ys h = tt
NotIn-front a (x ∷ xs) ys h = (h.0, NotIn-front a xs ys h.1)

NotIn-rear : (a : ℕ) (xs ys : List Cell) → NotIn a (xs ++ ys) → NotIn a ys
NotIn-rear a [] ys h = h
NotIn-rear a (x ∷ xs) ys h = NotIn-rear a xs ys h.1

-- The `idx`-th node of a segment is reached by `idx` steps: the cells before it, itself, and those
-- behind it.
pub record At (h : Nodes) (p idx : ℕ) (cs : List Cell) : Type 0 where
  pub before : List Cell
  pub addr : ℕ
  pub node : VectorNode
  pub behind : List Cell
  pub split : cs ≡ before ++ (cell addr node.data_addr ∷ behind)
  pub place : length before ≡ idx
  pub reached : walk idx h p ≡ ok addr
  pub ne_null : addr ≢ 0
  pub holds : h addr ≡ some node
  pub front : Seg h addr p before
  pub rest : Seg h 0 node.next_node behind
  pub new : NotIn addr behind
  pub new_front : NotIn addr before

pub At-of_lt :
    {h : Nodes} {p : ℕ} {cs : List Cell} (idx : ℕ) → Seg h 0 p cs → idx < length cs → At h p idx cs
unfolding walk
At-of_lt idx nil r = absurd (omega arith)
At-of_lt zero (cons {p} {n} {cs} ne e out s) r = record {
  before = [];
  addr = p;
  node = n;
  behind = cs;
  split = refl;
  place = refl;
  reached = refl;
  ne_null = ne;
  holds = e;
  front = nil;
  rest = s;
  new = out;
  new_front = tt;
}
At-of_lt {h} (suc idx) (cons {p} {n} {cs} ne e out s) r =
    let a = At-of_lt idx s (omega arith) in
    let parts = subst (NotIn p) a.split out in
    let ne_p : p ≢ a.addr = (NotIn-rear p a.before _ parts).0 in
    record {
      before = cell p n.data_addr ∷ a.before;
      addr = a.addr;
      node = a.node;
      behind = a.behind;
      split = ap (λ l. cell p n.data_addr ∷ l) a.split;
      place = ap suc a.place;
      reached = rw (load-ok h p ne e) a.reached;
      ne_null = a.ne_null;
      holds = a.holds;
      front = cons ne e (NotIn-front p a.before _ parts) a.front;
      rest = a.rest;
      new = a.new;
      new_front = (λ q. ne_p (sym q), a.new_front);
    }

abbrev pub Distinct : List Cell → Type 0
Distinct [] = Unit
Distinct (c ∷ cs) = NotIn c.addr cs × Distinct cs

pub Seg-Distinct : {h : Nodes} {stop p : ℕ} {cs : List Cell} → Seg h stop p cs → Distinct cs
Seg-Distinct nil = tt
Seg-Distinct (cons ne e out s) = (out, Seg-Distinct s)

NotIn-suffix :
    (a : ℕ) (xs ys zs : List Cell)
    → ((b : ℕ) → NotIn b ys → NotIn b zs)
    → NotIn a (xs ++ ys)
    → NotIn a (xs ++ zs)
NotIn-suffix a [] ys zs f h = f a h
NotIn-suffix a (x ∷ xs) ys zs f h = (h.0, NotIn-suffix a xs ys zs f h.1)

-- A suffix may be exchanged for one with no further addresses.
pub Distinct-suffix :
    (xs ys zs : List Cell)
    → ((b : ℕ) → NotIn b ys → NotIn b zs)
    → (Distinct ys → Distinct zs)
    → Distinct (xs ++ ys)
    → Distinct (xs ++ zs)
Distinct-suffix [] ys zs f g h = g h
Distinct-suffix (x ∷ xs) ys zs f g h =
    (NotIn-suffix x.addr xs ys zs f h.0, Distinct-suffix xs ys zs f g h.1)

pub NotIn-snoc : (a b v : ℕ) (xs : List Cell) → NotIn a xs → a ≢ b → NotIn a (xs ++ (cell b v ∷ []))
NotIn-snoc a b v [] h ne = (ne, tt)
NotIn-snoc a b v (x ∷ xs) h ne = (h.0, NotIn-snoc a b v xs h.1 ne)

pub Distinct-snoc :
    (a v : ℕ) (xs : List Cell) → Distinct xs → NotIn a xs → Distinct (xs ++ (cell a v ∷ []))
Distinct-snoc a v [] d out = (tt, tt)
Distinct-snoc a v (x ∷ xs) d out =
    (NotIn-snoc x.addr a v xs d.0 (λ e. out.0 (sym e)), Distinct-snoc a v xs d.1 out.1)

pub Seg-append :
    {h : Nodes} {stop p : ℕ} {xs : List Cell} (ys : List Cell)
    → Seg h stop p xs
    → Seg h 0 stop ys
    → Distinct (xs ++ ys)
    → Seg h 0 p (xs ++ ys)
Seg-append ys nil t d = t
Seg-append ys (cons ne e out s) t d = cons ne e d.0 (Seg-append ys s t d.1)

-- A fresh address is in no segment.
pub NotIn-fresh :
    {h : Nodes} {stop p : ℕ} {cs : List Cell} (a : ℕ) → Seg h stop p cs → h a ≡ none → NotIn a cs
NotIn-fresh a nil e = tt
NotIn-fresh a (cons ne f out s) e = (λ q. ground (arith, q, e, f), NotIn-fresh a s e)

-- Overwriting the reached node, with another value or another rest.
pub At-rebuild :
    {h : Nodes} {p idx : ℕ} {cs : List Cell} (a : At h p idx cs) (n : VectorNode) (ys : List Cell)
    → Seg (write h a.addr n) 0 n.next_node ys
    → NotIn a.addr ys
    → Distinct (a.before ++ (cell a.addr n.data_addr ∷ ys))
    → Seg (write h a.addr n) 0 p (a.before ++ (cell a.addr n.data_addr ∷ ys))
At-rebuild {h} a n ys s out d =
    Seg-append (cell a.addr n.data_addr ∷ ys) (Seg-write a.addr n a.front a.new_front)
      (cons {n = n} a.ne_null (ground arith) out s) d

pub Seg-nil : {h : Nodes} {stop p : ℕ} → Seg h stop p [] → p ≡ stop
Seg-nil nil = refl

pub record Uncons (h : Nodes) (stop p : ℕ) (d : Cell) (ds : List Cell) : Type 0 where
  pub node : VectorNode
  pub ne_null : p ≢ 0
  pub holds : h p ≡ some node
  pub rest : Seg h stop node.next_node ds

pub uncons :
    {h : Nodes} {stop p : ℕ} {d : Cell} {ds : List Cell}
    → Seg h stop p (d ∷ ds)
    → Uncons h stop p d ds
uncons (cons {n} ne e out s) = record { node = n; ne_null = ne; holds = e; rest = s }

pub nonempty : (xs : List Cell) → 0 < length xs → (d : Cell) × (ds : List Cell) × (xs ≡ d ∷ ds)
nonempty [] h = absurd (omega arith)
nonempty (x ∷ xs) h = (x, xs, refl)
