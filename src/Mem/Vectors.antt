-- ===== src/Mem/Vectors.antt =====
-- The linked vector of src/mem/vector.c over an explicit heap of its nodes. A `Vector` structure
-- lives outside that heap: an operation that updates it returns it anew. Address 0 is the null
-- pointer, and an access through it or through an address with no node is a `fault`. `malloc` never
-- returns a null pointer (it halts instead); the address that it gives is an argument, `fresh`.
pub mod Chains
pub mod Access
pub mod Push
pub mod Pop
pub mod Tests
use potat_os.Prelude.{
  ℕ, zero, suc, ◌+◌, ◌-◌, ◌%◌, ◌^◌, Option, none, some, Run, ok, fault, out_of_fuel, checked, ◌>>=◌,
  ◌==◌, leb, if◌then◌else◌,
}

pub record VectorNode : Type 0 where
  pub index : ℕ
  pub next_node : ℕ
  pub data_addr : ℕ

abbrev pub vector_node : ℕ → ℕ → ℕ → VectorNode
vector_node i next val = record { index = i; next_node = next; data_addr = val }

pub record Vector : Type 0 where
  pub data_size : ℕ
  pub length : ℕ
  pub first_node : ℕ

abbrev pub Nodes : Type 0
Nodes = ℕ → Option VectorNode

abbrev pub write : Nodes → ℕ → VectorNode → Nodes
write h p n a = if a == p then some n else h a

-- `*p`.
unfoldable pub load : Nodes → ℕ → Run VectorNode
load h p = if p == 0 then fault else checked (h p)

unfoldable pub new_vector : ℕ → Vector
new_vector element_size = record { data_size = element_size; length = 0; first_node = 0 }

-- `while (true) if (this_node->next_node != 0) this_node = this_node->next_node; else break;`
pub last_node : ℕ → Nodes → ℕ → Run ℕ
last_node zero h p = out_of_fuel
last_node (suc k) h p =
    let rest = (do n ← load h p; last_node k h n.next_node) in
    do n ← load h p; if n.next_node == 0 then ok p else rest

abbrev pub longer : Vector → ℕ → Vector
longer vec first = record vec { length = (vec.length + 1) % 2 ^ 64; first_node = first }

-- Fuel for one node more than the vector counts.
unfoldable pub vector_push : ℕ → Vector → ℕ → Nodes → Run (Vector × Nodes)
vector_push fresh vec val_addr h =
    if vec.first_node == 0
    then ok (longer vec fresh, write h fresh (vector_node 0 0 val_addr))
    else (do
      p ← last_node (vec.length + 1) h vec.first_node
      n ← load h p
      let linked = write h p (record n { next_node = fresh })
      ok (longer vec vec.first_node, write linked fresh (vector_node n.index 0 val_addr)))

-- `for (; current_idx < idx; current_idx++) this_node = this_node->next_node;`
pub walk : ℕ → Nodes → ℕ → Run ℕ
walk zero h p = ok p
walk (suc idx) h p = do n ← load h p; walk idx h n.next_node

unfoldable pub vector_set : Vector → ℕ → ℕ → Nodes → Run Nodes
vector_set vec idx val h = if leb vec.length idx then ok h else (do
  p ← walk idx h vec.first_node
  n ← load h p
  ok (write h p (record n { data_addr = val })))

-- `NULL` when out of range.
unfoldable pub vector_at : Vector → ℕ → Nodes → Run ℕ
vector_at vec idx h =
    if leb vec.length idx
    then ok 0
    else (do p ← walk idx h vec.first_node; n ← load h p; ok n.data_addr)

unfoldable pub vector_pop : Vector → ℕ → Nodes → Run (Vector × Nodes)
vector_pop vec idx h =
    if vec.length == 0
    then ok (vec, h)
    else if idx == 0
    then (do
      n ← load h vec.first_node
      ok (record vec { length = vec.length - 1; first_node = n.next_node }, h))
    else (do
      p ← walk idx h vec.first_node
      n ← load h p
      m ← load h n.next_node
      ok (record vec { length = vec.length - 1 }, write h p (record n { next_node = m.next_node })))
