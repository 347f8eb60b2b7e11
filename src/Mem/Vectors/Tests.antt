-- ===== src/Mem/Vectors/Tests.antt =====
-- Runs of the vector, and its theorems at a vector of three entries.
use potat_os.Prelude.{◌≡◌, refl, List, [], ◌∷◌, arith, none, ok, fault, ◌>>=◌}
use potat_os.Mem.Vectors.{
  vector_node, Vector, Nodes, write, load, new_vector, last_node, walk, vector_push, vector_at,
  vector_pop,
}
use potat_os.Mem.Vectors.Chains.{Cell, cell, nil, cons, IsVector}
use potat_os.Mem.Vectors.Push.{Pushed, vector_push-append}
use potat_os.Mem.Vectors.Pop.{erase_at, vector_pop_behind, vector_pop_fault}

abbrev heap : Nodes
heap =
    write (write (write (λ _. none) 3 (vector_node 0 0 70)) 2 (vector_node 0 3 60)) 1
      (vector_node 0 2 50)

abbrev three : Vector
three = record { data_size = 8; length = 3; first_node = 1 }

abbrev cells : List Cell
cells = cell 1 50 ∷ cell 2 60 ∷ cell 3 70 ∷ []

three-IsVector : IsVector heap three cells
three-IsVector = record {
  chain = cons {n = vector_node 0 2 50} (omega arith) refl (omega arith) (
      cons {n = vector_node 0 3 60} (omega arith) refl (omega arith)
        (cons {n = vector_node 0 0 70} (omega arith) refl tt nil));
  count = refl;
}

-- Pushing onto an empty vector, and reading the entries back.
pushes :
    ((vector_push 1 (new_vector 8) 50 (λ _. none) >>= λ (v, h). vector_push 2 v 60 h) >>= λ (v, h).
    vector_at v 1 h)
    ≡ ok 60
unfolding vector_push new_vector vector_at last_node walk load
pushes = refl

vector_push-append_example : Pushed heap three 9 80 cells
vector_push-append_example = vector_push-append 9 80 (omega arith) refl three-IsVector (omega arith)

vector_pop_behind_example :
    (v : Vector) × (g : Nodes) × (vector_pop three 1 heap ≡ ok (v, g))
    × IsVector g v (erase_at cells 2)
vector_pop_behind_example = vector_pop_behind three-IsVector 1 (omega arith) (omega arith)

vector_pop_fault_example : vector_pop three 2 heap ≡ fault
vector_pop_fault_example =
    vector_pop_fault three-IsVector 2 (omega arith) (omega arith) (omega arith)
