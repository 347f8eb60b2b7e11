-- ===== src/Tasks/Events/Tests.antt =====
-- The theorems on event queues at a queue of one event and one of two.
use potat_os.Prelude.{◌≡◌, refl, List, [], ◌∷◌, arith, none, fault}
use potat_os.Mem.Vectors.{vector_node, Vector, Nodes, write}
use potat_os.Mem.Vectors.Chains.{Cell, cell, nil, cons, IsVector}
use potat_os.Tasks.Events.{Memory, poll}
use potat_os.Tasks.Events.Queue.{poll_fault}

abbrev one_node : Nodes
one_node = write (λ _. none) 1 (vector_node 0 0 64)

abbrev two_nodes : Nodes
two_nodes = write (write (λ _. none) 2 (vector_node 0 0 96)) 1 (vector_node 0 2 64)

abbrev one : Vector
one = record { data_size = 32; length = 1; first_node = 1 }

abbrev two : Vector
two = record { data_size = 32; length = 2; first_node = 1 }

abbrev one_event : Memory
one_event = record { nodes = one_node; events = λ _. none }

abbrev two_events : Memory
two_events = record { nodes = two_nodes; events = λ _. none }

abbrev one_cell : List Cell
one_cell = cell 1 64 ∷ []

one-IsVector : IsVector one_node one one_cell
one-IsVector = record {
  chain = cons {n = vector_node 0 0 64} (omega arith) refl tt nil;
  count = refl;
}

two-IsVector : IsVector two_nodes two (cell 1 64 ∷ cell 2 96 ∷ [])
two-IsVector = record {
  chain =
      cons {n = vector_node 0 2 64} (omega arith) refl (omega arith)
        (cons {n = vector_node 0 0 96} (omega arith) refl tt nil);
  count = refl;
}

poll_fault_example : poll 128 two two_events ≡ fault
poll_fault_example = poll_fault two_events two-IsVector 128 (omega arith)
