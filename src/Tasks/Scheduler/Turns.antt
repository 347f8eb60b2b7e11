-- ===== src/Tasks/Scheduler/Turns.antt =====
-- The state of the scheduler as the list of its tasks, and one round of `task_select`.
use potat_os.Prelude.{
  ℕ, suc, ◌+◌, ◌<◌, ◌≡◌, refl, ◌≢◌, ap, ◌∙◌, arith, true, false, ◌==◌, leb, List, [], ◌∷◌, ◌++◌,
  length, length-append, Option, some, ok, bit_and, put_at, deref-ok,
}
use potat_os.Mem.Vectors.{vector_at}
use potat_os.Mem.Vectors.Chains.{Cell, IsVector, values}
use potat_os.Mem.Vectors.Access.{
  nth, set_value, nth_split, nth-set_value, length-set_value, vector_at-nth, vector_set-set_value,
}
use potat_os.Tasks.Scheduler.{
  Task, Sched, spinlock_aquire, get_task, get_current_task, set_current, not_running, try_task,
  select_round,
}

-- The tasks' addresses are not null, and tasks are there.
abbrev pub Hold : (ℕ → Option Task) → List Cell → Type 0
Hold tasks [] = Unit
Hold tasks (c ∷ cs) = (c.value ≢ 0) × ((t : Task) × (tasks c.value ≡ some t)) × Hold tasks cs

-- The processor runs the task `cur`; the tasks `after` are behind it in the list.
pub record Turn (core : ℕ) (s : Sched) (before : List Cell) (cur : Cell) (after : List Cell)
    : Type 0 where
  pub list : IsVector s.list_nodes s.list (before ++ (cur ∷ after))
  pub cells : List Cell
  pub current : IsVector s.current_nodes s.current_tasks cells
  pub core_in : core < length cells
  pub place : nth (values cells) core ≡ length before
  pub nonnull : cur.value ≢ 0
  pub task : Task
  pub holds : s.tasks cur.value ≡ some task
  pub free : s.scheduler_lock ≡ false

-- The task without its flag TASK_RUNNING.
abbrev pub stopped : Task → Task
stopped t = record t { flags = bit_and t.flags not_running }

-- What has moved to the next index, with the lock held.
pub record Moved (core : ℕ) (s : Sched) (before : List Cell) (cur : Cell) (after : List Cell)
    (s1 : Sched) : Type 0 where
  pub turn : Turn core s before cur after
  pub tasks : s1.tasks ≡ put_at s.tasks cur.value (stopped turn.task)
  pub list : IsVector s1.list_nodes s1.list (before ++ (cur ∷ after))
  pub cells : List Cell
  pub current : IsVector s1.current_nodes s1.current_tasks cells
  pub core_in : core < length cells
  pub place : nth (values cells) core ≡ length before + 1

pub spinlock_aquire_free :
    (spins : ℕ) (lock : _) → lock ≡ false → spinlock_aquire (suc spins) lock ≡ ok true
unfolding spinlock_aquire
spinlock_aquire_free spins lock e = rw e refl

module _ (core : ℕ) (s : Sched) (before : List Cell) (cur : Cell) (after : List Cell)
    (t : Turn core s before cur after) (spins : ℕ)
    (several : 1 < length (before ++ (cur ∷ after))) where
  -- A round of several tasks tries the one behind the current one.
  pub select_round-Moved :
      (s1 : Sched) × (select_round (suc spins) core s
        ≡ try_task (nth (values (before ++ (cur ∷ after))) (length before + 1)) s1)
      × Moved core s before cur after s1
  unfolding select_round get_task get_current_task set_current
  select_round-Moved =
      let n = length before in
      let here = vector_at-nth t.current core in
      let found : vector_at s.list n s.list_nodes ≡ ok cur.value =
        vector_at-nth t.list n ∙ ap ok (nth_split before after cur) in
      let (g, sets, is) = vector_set-set_value t.current core (n + 1) in
      let cells = set_value t.cells core (n + 1) in
      let there : nth (values cells) core ≡ n + 1 = nth-set_value t.cells core (n + 1) t.core_in in
      let again = vector_at-nth is core ∙ ap ok there in
      let two : (s.list.length == 1) ≡ false = ground (arith, t.list.count, several) in
      let inside : leb s.list.length n ≡ false =
        ground (arith, t.list.count, length-append before (cur ∷ after)) in
      let s1 : Sched = record s {
        tasks = put_at s.tasks cur.value (stopped t.task);
        scheduler_lock = true;
        current_nodes = g;
      } in
      (
        s1,
        rw
            (
              spinlock_aquire_free spins s.scheduler_lock t.free,
              here,
              t.place,
              found,
              deref-ok s.tasks cur.value t.nonnull t.holds,
              two,
              sets,
              again,
              inside,
              again,
              vector_at-nth t.list (n + 1),
            )
            refl,
        record {
          turn = t;
          tasks = refl;
          list = t.list;
          cells = cells;
          current = is;
          core_in = omega (arith, length-set_value t.cells core (n + 1), t.core_in);
          place = there;
        },
      )
