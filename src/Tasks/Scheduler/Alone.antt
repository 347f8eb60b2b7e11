-- ===== src/Tasks/Scheduler/Alone.antt =====
-- `task_select` when the first task is the only one.
use potat_os.Prelude.{
  ℕ, zero, suc, ◌≡◌, refl, ap, ◌∙◌, arith, true, ◌==◌, [], ok, out_of_fuel, put_at, deref-ok,
}
use potat_os.Mem.Vectors.{vector_at}
use potat_os.Mem.Vectors.Chains.{Cell}
use potat_os.Mem.Vectors.Access.{vector_at-nth, vector_set-set_value}
use potat_os.Tasks.Scheduler.{
  Sched, spinlock_aquire, get_task, set_current, select_round, task_select,
}
use potat_os.Tasks.Scheduler.Turns.{Turn, stopped, spinlock_aquire_free}

spinlock_aquire_held : (spins : ℕ) → spinlock_aquire spins true ≡ out_of_fuel
unfolding spinlock_aquire
spinlock_aquire_held zero = refl
spinlock_aquire_held (suc spins) = spinlock_aquire_held spins

select_held :
    (fuel spins core : ℕ) (s : Sched)
    → s.scheduler_lock ≡ true
    → task_select fuel spins core s ≡ out_of_fuel
unfolding task_select select_round
select_held zero spins core s held = refl
select_held (suc fuel) spins core s held = rw (held, spinlock_aquire_held spins) refl

-- With a single task `task_select` returns it, with the lock of the scheduler still held: the next
-- call never returns, however often it tries to take the lock.
pub task_select-spinlock_aquire :
    (fuel spins core : ℕ) (s : Sched) (only : Cell)
    → Turn core s [] only []
    → (s' : Sched) × (task_select (suc fuel) (suc spins) core s ≡ ok (only.value, s'))
      × ((fuel' spins' : ℕ) → task_select fuel' spins' core s' ≡ out_of_fuel)
unfolding task_select select_round get_task set_current
task_select-spinlock_aquire fuel spins core s only turn =
    let found : vector_at s.list 0 s.list_nodes ≡ ok only.value = vector_at-nth turn.list 0 in
    let here = vector_at-nth turn.current core ∙ ap ok turn.place in
    let (g, sets, is) = vector_set-set_value turn.current core 0 in
    let one : (s.list.length == 1) ≡ true = ground (arith, turn.list.count) in
    let s' : Sched = record s {
      tasks = put_at s.tasks only.value (stopped turn.task);
      scheduler_lock = true;
      current_nodes = g;
    } in
    (
      s',
      rw
          (
            spinlock_aquire_free spins s.scheduler_lock turn.free,
            here,
            found,
            deref-ok s.tasks only.value turn.nonnull turn.holds,
            one,
            sets,
            found,
          )
          refl,
      λ fuel' spins'. select_held fuel' spins' core s' refl,
    )
