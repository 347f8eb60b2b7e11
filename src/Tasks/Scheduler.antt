-- ===== src/Tasks/Scheduler.antt =====
-- The scheduler of src/tasks/tasklist.c, on one processor, `core`, and the accessors of
-- src/tasks/switchutils.c. Each of the two vectors has the heap of its own nodes, and the tasks are at
-- addresses of their own. The lock of get_current_task is free again when each call returns, and is
-- left out; `scheduler_lock` is kept. `resources`, `errno` and `mmap_upto` are left out.
pub mod Select
pub mod Alone
pub mod Create
pub mod Turns
pub mod Tests
use potat_os.Prelude.{
  ℕ, zero, suc, ◌+◌, ◌-◌, Bool, true, false, not, ◌&&◌, ◌==◌, leb, if◌then◌else◌, List, [], ◌∷◌,
  drop, Option, none, some, Run, ok, out_of_fuel, ◌>>=◌, bit_and, bit_or, put_at, deref,
}
use potat_os.Mem.Vectors.{Vector, Nodes, new_vector, vector_push, vector_set, vector_at, vector_pop}
use potat_os.Utils.Strings.{strlen, memset, memcpy}

pub record Task : Type 0 where
  pub is_user : Bool
  pub current_dir : List ℕ
  pub argc : ℕ
  pub argv : ℕ
  pub pml4_addr : ℕ
  pub kernel_rsp : ℕ
  pub current_rsp : ℕ
  pub entry_point : ℕ
  pub parent : ℕ
  pub flags : ℕ

pub record Sched : Type 0 where
  pub list : Vector
  pub list_nodes : Nodes
  pub current_tasks : Vector
  pub current_nodes : Nodes
  pub tasks : ℕ → Option Task
  pub scheduler_lock : Bool

-- TASK_PRESENT, TASK_FIRST_EXEC and TASK_RUNNING; the masks are the other bits of a `uint8_t`.
abbrev pub task_present : ℕ
task_present = 1

abbrev not_first_exec : ℕ
not_first_exec = 253

abbrev pub task_running : ℕ
task_running = 4

abbrev pub not_running : ℕ
not_running = 251

-- `while (atomic_flag_test_and_set(lock)) { }` with nobody to release the lock.
pub spinlock_aquire : ℕ → Bool → Run Bool
spinlock_aquire zero lock = out_of_fuel
spinlock_aquire (suc fuel) lock =
    let rest = spinlock_aquire fuel true in if lock then rest else ok true

unfoldable pub get_task : ℕ → Sched → Run ℕ
get_task pid s = vector_at s.list pid s.list_nodes

unfoldable pub task_remove : ℕ → Sched → Run Sched
task_remove pid s = do
  (list, nodes) ← vector_pop s.list pid s.list_nodes
  ok (record s { list = list; list_nodes = nodes })

unfoldable pub get_current_task : ℕ → Sched → Run ℕ
get_current_task core s = do num ← vector_at s.current_tasks core s.current_nodes; get_task num s

unfoldable pub set_current : ℕ → ℕ → Sched → Run Sched
set_current core num s = do
  nodes ← vector_set s.current_tasks core num s.current_nodes
  ok (record s { current_nodes = nodes })

abbrev pub is_ready : Task → Bool
is_ready t = not (bit_and t.flags task_present == 0) && (bit_and t.flags task_running == 0)

-- The end of a round: the task chosen, or none.
unfoldable pub try_task : ℕ → Sched → Run (Option ℕ × Sched)
try_task new_task s = do
  t ← deref s.tasks new_task
  if is_ready t
      then ok (
        some new_task,
        record s {
          tasks = put_at s.tasks new_task (record t { flags = bit_or t.flags task_running });
          scheduler_lock = false;
        },
      )
      else ok (none, record s { scheduler_lock = false })

-- One call of `task_select` up to the call of itself, which stands for `none`. `spins` is how often it
-- tries to take the lock.
unfoldable pub select_round : ℕ → ℕ → Sched → Run (Option ℕ × Sched)
select_round spins core s = do
  lock ← spinlock_aquire spins s.scheduler_lock
  current_task_num ← vector_at s.current_tasks core s.current_nodes
  current_task ← get_task current_task_num s
  t ← deref s.tasks current_task
  let stopped = record s {
    tasks = put_at s.tasks current_task (record t { flags = bit_and t.flags not_running });
    scheduler_lock = lock;
  }
  if s.list.length == 1
      then (do reset ← set_current core 0 stopped; first ← get_task 0 reset; ok (some first, reset))
      else (do
        moved ← set_current core (current_task_num + 1) stopped
        ignored ← vector_at moved.current_tasks core moved.current_nodes
        wrapped ←
            (if leb s.list.length current_task_num then set_current core 0 moved else ok moved)
        new_task ← get_current_task core wrapped
        try_task new_task wrapped)

pub task_select : ℕ → ℕ → ℕ → Sched → Run (ℕ × Sched)
task_select zero spins core s = out_of_fuel
task_select (suc fuel) spins core s = do
  (chosen, s') ← select_round spins core s
  elim chosen [ some task ↦ ok (task, s') | none ↦ task_select fuel spins core s' ]

-- `alloc` gives the object for the directory's name, `task_addr` the address of the task and `fresh`
-- the one of the vector's node. `kernel_stack` is KERNEL_STACK_PTR.
unfoldable pub create_task : (ℕ → List ℕ) → ℕ → ℕ → ℕ → ℕ → ℕ → ℕ → ℕ → ℕ → Sched → Run (ℕ × Sched)
create_task alloc task_addr fresh kernel_stack core pml4_addr entry_point user_stack flags s = do
  current ← get_current_task core s
  t ← deref s.tasks current
  dirname_len ← strlen t.current_dir
  cleared ← memset (drop 1 (alloc dirname_len)) 0 dirname_len
  current_dir ← memcpy cleared t.current_dir (dirname_len + 1)
  (list, nodes) ← vector_push fresh s.list task_addr s.list_nodes
  ok (
    task_addr,
    record s {
      list = list;
      list_nodes = nodes;
      tasks = put_at s.tasks task_addr (record {
        is_user = true;
        current_dir = current_dir;
        argc = 0;
        argv = 0;
        pml4_addr = pml4_addr;
        kernel_rsp = kernel_stack;
        current_rsp = user_stack;
        entry_point = entry_point;
        parent = 0;
        flags = flags;
      });
    },
  )

-- `for (i = 0; i < cpu_count; i++) vector_push(current_tasks, 0);` with the nodes at `fresh i`.
pub push_cores : ℕ → (ℕ → ℕ) → ℕ → Vector → Nodes → Run (Vector × Nodes)
push_cores zero fresh i vec h = ok (vec, h)
push_cores (suc n) fresh i vec h = do
  (vec', h') ← vector_push (fresh i) vec 0 h
  push_cores n fresh (i + 1) vec' h'

-- `cr3` and `ended` are the kernel's page tree and the address of `all_tasks_ended`.
unfoldable pub init_tasklist : ℕ → ℕ → (ℕ → ℕ) → ℕ → ℕ → ℕ → ℕ → Sched → Run Sched
init_tasklist task_addr node fresh kernel_stack cr3 ended cpu_count s = do
  let first_task : Task = record {
    is_user = false;
    current_dir = b'R' ∷ b':' ∷ b'/' ∷ 0 ∷ [];
    argc = 0;
    argv = 0;
    pml4_addr = cr3;
    kernel_rsp = kernel_stack;
    current_rsp = kernel_stack;
    entry_point = ended;
    parent = task_addr;
    flags = 0;
  }
  (list, nodes) ← vector_push node (new_vector 264) task_addr s.list_nodes
  (current, current_nodes) ← push_cores cpu_count fresh 0 (new_vector 8) s.current_nodes
  ok (record s {
    list = list;
    list_nodes = nodes;
    current_tasks = current;
    current_nodes = current_nodes;
    tasks = put_at s.tasks task_addr first_task;
  })

-- A task's flag is cleared when its first run starts, and its stack pointer is kept at each switch.
unfoldable pub task_disable_first_exec : ℕ → Sched → Run Sched
task_disable_first_exec task s = do
  t ← deref s.tasks task
  ok (record s {
    tasks = put_at s.tasks task (record t { flags = bit_and t.flags not_first_exec });
  })

unfoldable pub task_set_rsp : ℕ → ℕ → Sched → Run Sched
task_set_rsp task rsp s = do
  t ← deref s.tasks task
  ok (record s { tasks = put_at s.tasks task (record t { current_rsp = rsp }) })
