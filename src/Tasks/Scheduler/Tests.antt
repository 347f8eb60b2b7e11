-- ===== src/Tasks/Scheduler/Tests.antt =====
-- The scheduler with three tasks on one processor: runs, and witnesses of the theorems.
use potat_os.Prelude.{
  ℕ, ◌≡◌, refl, arith, true, false, [], ◌∷◌, none, replicate, length-replicate, ok, fault,
  out_of_fuel, put_at,
}
use potat_os.Mem.Vectors.{vector_node, Nodes, write}
use potat_os.Mem.Vectors.Chains.{cell, nil, cons, IsVector}
use potat_os.Tasks.Scheduler.{Task, Sched, task_select, create_task}
use potat_os.Tasks.Scheduler.Turns.{Turn}
use potat_os.Tasks.Scheduler.Select.{Picked, task_select-Picked, task_select_fault}
use potat_os.Tasks.Scheduler.Alone.{task_select-spinlock_aquire}
use potat_os.Tasks.Scheduler.Create.{create_task_overflow}

abbrev task : ℕ → Task
task flags = record {
  is_user = true;
  current_dir = b'R' ∷ b':' ∷ b'/' ∷ 0 ∷ [];
  argc = 0;
  argv = 0;
  pml4_addr = 0;
  kernel_rsp = 0;
  current_rsp = 0;
  entry_point = 0;
  parent = 0;
  flags = flags;
}

abbrev list_nodes : Nodes
list_nodes =
    write (write (write (λ a. none) 3 (vector_node 0 0 70)) 2 (vector_node 0 3 60)) 1
      (vector_node 0 2 50)

-- Processor 0 runs the first of the tasks 50, 60 and 70, another one runs 60, and 70 is ready.
abbrev sched_0 : Sched
sched_0 = record {
  list = record { data_size = 8; length = 3; first_node = 1 };
  list_nodes = list_nodes;
  current_tasks = record { data_size = 8; length = 1; first_node = 9 };
  current_nodes = write (λ a. none) 9 (vector_node 0 0 0);
  tasks = put_at (put_at (put_at (λ a. none) 50 (task 5)) 60 (task 5)) 70 (task 1);
  scheduler_lock = false;
}

three_tasks : IsVector list_nodes sched_0.list (cell 1 50 ∷ cell 2 60 ∷ cell 3 70 ∷ [])
three_tasks = record {
  chain = cons {n = vector_node 0 2 50} (omega arith) refl (omega arith) (
      cons {n = vector_node 0 3 60} (omega arith) refl (omega arith)
        (cons {n = vector_node 0 0 70} (omega arith) refl tt nil));
  count = refl;
}

first_runs : IsVector sched_0.current_nodes sched_0.current_tasks (cell 9 0 ∷ [])
first_runs = record { chain = cons {n = vector_node 0 0 0} (omega arith) refl tt nil; count = refl }

sched_0-Turn : Turn 0 sched_0 [] (cell 1 50) (cell 2 60 ∷ cell 3 70 ∷ [])
sched_0-Turn = record {
  list = three_tasks;
  cells = cell 9 0 ∷ [];
  current = first_runs;
  core_in = omega arith;
  place = refl;
  nonnull = ground arith;
  task = task 5;
  holds = refl;
  free = refl;
}

task_select-Picked_example :
    (s' : Sched) × (task_select 2 1 0 sched_0 ≡ ok (70, s'))
    × Picked 0 sched_0 [] (cell 1 50) (cell 2 60 ∷ []) (cell 3 70) (task 1) s'
task_select-Picked_example =
    task_select-Picked 0 0 2 sched_0 [] (cell 1 50) (cell 2 60 ∷ []) (cell 3 70) [] (task 1)
      sched_0-Turn ((ground arith, (task 5, refl, refl)), tt) (ground arith) refl refl
      ((ground arith, (ground arith, tt)), ((ground arith, tt), (tt, tt))) (omega arith)

-- The same with the third task running.
abbrev sched_1 : Sched
sched_1 = record sched_0 { tasks = put_at sched_0.tasks 70 (task 5) }

task_select_fault_example : task_select 3 1 0 sched_1 ≡ fault
task_select_fault_example =
    task_select_fault 0 0 3 sched_1 [] (cell 1 50) (cell 2 60 ∷ cell 3 70 ∷ [])
      (record {
        list = three_tasks;
        cells = cell 9 0 ∷ [];
        current = first_runs;
        core_in = omega arith;
        place = refl;
        nonnull = ground arith;
        task = task 5;
        holds = refl;
        free = refl;
      })
      ((ground arith, (task 5, refl, refl)), ((ground arith, (task 5, refl, refl)), tt))
      ((ground arith, (ground arith, tt)), ((ground arith, tt), (tt, tt))) (omega arith)
      (omega arith)

-- One task only.
abbrev sched_2 : Sched
sched_2 = record sched_0 {
  list = record { data_size = 8; length = 1; first_node = 3 };
  tasks = put_at (λ a. none) 70 (task 5);
}

task_select-spinlock_aquire_example :
    (s' : Sched) × (task_select 1 1 0 sched_2 ≡ ok (70, s'))
    × ((fuel' spins' : ℕ) → task_select fuel' spins' 0 s' ≡ out_of_fuel)
task_select-spinlock_aquire_example =
    task_select-spinlock_aquire 0 0 0 sched_2 (cell 3 70) (record {
      list = record {
        chain = cons {n = vector_node 0 0 70} (omega arith) refl tt nil;
        count = refl;
      };
      cells = cell 9 0 ∷ [];
      current = first_runs;
      core_in = omega arith;
      place = refl;
      nonnull = ground arith;
      task = task 5;
      holds = refl;
      free = refl;
    })

create_task_overflow_example : create_task (λ n. replicate n 7) 80 4 4096 0 0 0 0 3 sched_0 ≡ fault
create_task_overflow_example =
    create_task_overflow (λ n. replicate n 7) 80 4 4096 0 0 0 0 3 sched_0 []
      (cell 2 60 ∷ cell 3 70 ∷ []) (cell 1 50) sched_0-Turn (task 5) (b'R' ∷ b':' ∷ b'/' ∷ []) []
      (λ n. omega (arith, length-replicate {A = ℕ} n 7)) refl refl
      (ground arith, (ground arith, (ground arith, tt)))
