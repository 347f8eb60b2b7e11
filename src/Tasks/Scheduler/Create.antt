-- ===== src/Tasks/Scheduler/Create.antt =====
-- The directory of a new task.
use potat_os.Prelude.{
  ℕ, zero, suc, ◌+◌, ◌<◌, ◌≤◌, ◌≡◌, refl, ap, ◌∙◌, arith, List, [], ◌∷◌, ◌++◌, inl, inr, length,
  length-drop, length-replicate, length-append, drop, replicate, some, ok, fault, leb, leb→le,
  Bool-cases, deref-ok,
}
use potat_os.Utils.Strings.{memset, memcpy}
use potat_os.Utils.Strings.Compare.{NoNul, strlen-length}
use potat_os.Utils.Strings.Edit.{memset_lem}
use potat_os.Mem.Vectors.{vector_at}
use potat_os.Mem.Vectors.Chains.{Cell}
use potat_os.Mem.Vectors.Access.{vector_at-nth, nth_split}
use potat_os.Tasks.Scheduler.{Task, Sched, get_task, get_current_task, create_task}
use potat_os.Tasks.Scheduler.Turns.{Turn}

memset_beyond : (array : List ℕ) (value n : ℕ) → length array < n → memset array value n ≡ fault
unfolding memset
memset_beyond array value zero lt = absurd (omega arith)
memset_beyond [] value (suc n) lt = refl
memset_beyond (d ∷ ds) value (suc n) lt = rw (memset_beyond ds value n (omega arith)) refl

memcpy_beyond : (dest from : List ℕ) (n : ℕ) → length dest < n → memcpy dest from n ≡ fault
unfolding memcpy
memcpy_beyond dest from zero lt = absurd (omega arith)
memcpy_beyond [] from (suc n) lt = refl
memcpy_beyond (d ∷ ds) [] (suc n) lt = refl
memcpy_beyond (d ∷ ds) (c ∷ cs) (suc n) lt = rw (memcpy_beyond ds cs n (omega arith)) refl

-- `create_task` writes the new task's directory out of bounds, whatever the current directory is, when
-- the object that malloc gives has at most one byte more than it is asked for.
pub create_task_overflow :
    (alloc : ℕ → List ℕ)
    (task_addr fresh kernel_stack core pml4_addr entry_point user_stack flags : ℕ) (s : Sched)
    (before after : List Cell) (cur : Cell) (t : Turn core s before cur after) (task : Task)
    (dir r : List ℕ)
    → ((n : ℕ) → length (alloc n) ≤ n + 1)
    → s.tasks cur.value ≡ some task
    → task.current_dir ≡ dir ++ (0 ∷ r)
    → NoNul dir
    → create_task alloc task_addr fresh kernel_stack core pml4_addr entry_point user_stack flags s
      ≡ fault
unfolding create_task get_current_task get_task
create_task_overflow alloc task_addr fresh kernel_stack core pml4_addr entry_point user_stack flags
      s before after cur t task dir r exact holds text nonul =
    let n = length dir in
    let object = drop 1 (alloc n) in
    let found : vector_at s.list (length before) s.list_nodes ≡ ok cur.value =
      vector_at-nth t.list (length before) ∙ ap ok (nth_split before after cur) in
    let here = vector_at-nth t.current core ∙ ap ok t.place in
    let size = length-drop 1 (alloc n) in
    elim (Bool-cases (leb n (length object))) [
      | inl fits ↦
          let cleared = memset_lem object 0 n (ground (arith, fits)) in
          let short : length (replicate n 0 ++ drop n object) < n + 1 = omega (
            arith,
            length-append (replicate n 0) (drop n object),
            length-replicate {A = ℕ} n 0,
            length-drop n object,
            size,
            exact n,
            leb→le n (length object) fits,
          ) in
          rw
            (
              here,
              found,
              deref-ok s.tasks cur.value t.nonnull holds,
              text,
              strlen-length dir r nonul,
              cleared,
              memcpy_beyond (replicate n 0 ++ drop n object) (dir ++ (0 ∷ r)) (n + 1) short,
            )
            refl
      | inr not_fit ↦
          rw
            (
              here,
              found,
              deref-ok s.tasks cur.value t.nonnull holds,
              text,
              strlen-length dir r nonul,
              memset_beyond object 0 n (ground (arith, not_fit)),
            )
            refl
    ]
