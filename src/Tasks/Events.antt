-- ===== src/Tasks/Events.antt =====
-- The event queues of src/tasks/events.c: a vector of the addresses of events. The events live at
-- addresses of their own; the addresses that `malloc` gives are arguments.
pub mod Queue
pub mod Tests
use potat_os.Prelude.{
  ℕ, ◌-◌, Bool, true, false, Option, none, some, Run, ok, ◌>>=◌, ◌==◌, if◌then◌else◌,
}
use potat_os.Mem.Vectors.{Vector, Nodes, new_vector, vector_push, vector_at, vector_pop}

pub record Event : Type 0 where
  pub do_handle : Bool
  pub event_id : ℕ
  pub data0 : ℕ
  pub data1 : ℕ

-- The size of an `Event` for the compiler.
abbrev event_size : ℕ
event_size = 32

-- The memory that the queues use: the nodes of their vectors, and the events.
pub record Memory : Type 0 where
  pub nodes : Nodes
  pub events : ℕ → Option Event

abbrev pub put : Memory → ℕ → Option Event → Memory
put m a e = record m { events = λ b. if b == a then e else m.events b }

abbrev pub unhandled : Event
unhandled = record { do_handle = false; event_id = 0; data0 = 0; data1 = 0 }

abbrev pub new_event : ℕ → ℕ → ℕ → Event
new_event event_type data0 data1 = record {
  do_handle = true;
  event_id = event_type;
  data0 = data0;
  data1 = data1;
}

unfoldable pub new_event_queue : Vector
unfolding new_vector
new_event_queue = new_vector event_size

-- `event_addr` and `fresh` are what the two calls of `malloc` return.
unfoldable pub add_event : ℕ → ℕ → Vector → ℕ → ℕ → ℕ → Memory → Run (Vector × Memory)
add_event event_addr fresh q event_type data0 data1 m = do
  let m' = put m event_addr (some (new_event event_type data0 data1))
  (q', nodes) ← vector_push fresh q event_addr m'.nodes
  ok (q', record m' { nodes = nodes })

-- The address of the event, the queue and the memory; `fresh` is used when the queue is empty.
unfoldable pub poll : ℕ → Vector → Memory → Run (ℕ × Vector × Memory)
poll fresh q m = if q.length == 0 then ok (fresh, q, put m fresh (some unhandled)) else (do
  this_event ← vector_at q (q.length - 1) m.nodes
  (q', nodes) ← vector_pop q (q.length - 1) m.nodes
  ok (this_event, q', record m { nodes = nodes }))

unfoldable pub peek : ℕ → Vector → Memory → Run (ℕ × Memory)
peek fresh q m =
    if q.length == 0
    then ok (fresh, put m fresh (some unhandled))
    else (do this_event ← vector_at q (q.length - 1) m.nodes; ok (this_event, m))

-- `free` gives the event's memory back.
unfoldable pub cleanup_event : ℕ → Memory → Memory
cleanup_event event m = put m event none
