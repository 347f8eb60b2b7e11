-- ===== src/Tasks/Scheduler/Select.antt =====
-- Which task `task_select` chooses.
use potat_os.Prelude.{
  ℕ, zero, suc, ◌+◌, ◌<◌, ◌≡◌, refl, ◌≢◌, ap, sym, ◌∙◌, subst, arith, true, false, List, [], ◌∷◌,
  ◌++◌, append_assoc, length, length-append, Option, some, ok, fault, bit_or, put_at, put_at-ne,
  put_at_self, deref, deref-ok,
}
use mathlib.Core.Option.{some-injective}
use potat_os.Mem.Vectors.Chains.{Cell, IsVector, values}
use potat_os.Mem.Vectors.Access.{nth, nth_beyond, nth_split}
use potat_os.Tasks.Scheduler.{
  Task, Sched, task_running, is_ready, try_task, select_round, task_select,
}
use potat_os.Tasks.Scheduler.Turns.{Turn, stopped, select_round-Moved}

-- The tasks are at other addresses than `a`.
abbrev pub Elsewhere : ℕ → List Cell → Type 0
Elsewhere a [] = Unit
Elsewhere a (c ∷ cs) = (a ≢ c.value) × Elsewhere a cs

abbrev pub Different : List Cell → Type 0
Different [] = Unit
Different (c ∷ cs) = Elsewhere c.value cs × Different cs

-- Not to be chosen: not present, or running already.
abbrev pub Busy : (ℕ → Option Task) → List Cell → Type 0
Busy tasks [] = Unit
Busy tasks (c ∷ cs) =
    ((c.value ≢ 0) × ((t : Task) × (tasks c.value ≡ some t) × (is_ready t ≡ false))) × Busy tasks cs

abbrev pub Stopped : (ℕ → Option Task) → (ℕ → Option Task) → List Cell → Type 0
Stopped tasks tasks' [] = Unit
Stopped tasks tasks' (c ∷ cs) =
    ((t : Task) → tasks c.value ≡ some t → tasks' c.value ≡ some (stopped t))
    × Stopped tasks tasks' cs

Elsewhere-append :
    (a : ℕ) (xs : List Cell) (c : Cell) (ys : List Cell)
    → Elsewhere a (xs ++ (c ∷ ys))
    → Elsewhere a xs × (a ≢ c.value)
Elsewhere-append a [] c ys e = (tt, e.0)
Elsewhere-append a (x ∷ xs) c ys e =
    let rest = Elsewhere-append a xs c ys e.1 in ((e.0, rest.0), rest.1)

Busy-kept :
    (m m' : ℕ → Option Task) (a : ℕ) (cs : List Cell)
    → ((b : ℕ) → b ≢ a → m' b ≡ m b)
    → Elsewhere a cs
    → Busy m cs
    → Busy m' cs
Busy-kept m m' a [] same e b = tt
Busy-kept m m' a (c ∷ cs) same e ((ne, (t, holds, not_ready)), rest) = (
  (ne, (t, same c.value (λ q. e.0 (sym q)) ∙ holds, not_ready)),
  Busy-kept m m' a cs same e.1 rest,
)

Stopped-before :
    (m m' n : ℕ → Option Task) (a : ℕ) (cs : List Cell)
    → ((b : ℕ) → b ≢ a → m' b ≡ m b)
    → Elsewhere a cs
    → Stopped m' n cs
    → Stopped m n cs
Stopped-before m m' n a [] same e s = tt
Stopped-before m m' n a (c ∷ cs) same e (here, rest) = (
  (λ t holds. here t (same c.value (λ q. e.0 (sym q)) ∙ holds)),
  Stopped-before m m' n a cs same e.1 rest,
)

-- What choosing the task `chosen` leaves, behind `skipped`, which are behind `cur`.
pub record Picked (core : ℕ) (s : Sched) (before : List Cell) (cur : Cell) (skipped : List Cell)
    (chosen : Cell) (t : Task) (s' : Sched) : Type 0 where
  pub cells : List Cell
  pub current : IsVector s'.current_nodes s'.current_tasks cells
  pub place : nth (values cells) core ≡ length before + (1 + length skipped)
  pub free : s'.scheduler_lock ≡ false
  pub runs : s'.tasks chosen.value ≡ some (record t { flags = bit_or t.flags task_running })
  pub stopped : Stopped s.tasks s'.tasks (cur ∷ skipped)
  pub others : (a : ℕ) → Elsewhere a (cur ∷ skipped) → a ≢ chosen.value → s'.tasks a ≡ s.tasks a

try_task_null : (s : Sched) → try_task 0 s ≡ fault
unfolding try_task deref
try_task_null s = refl

module _ (core spins : ℕ) where
  -- The value at the next index.
  nth_next :
      (before : List Cell) (cur c : Cell) (rest : List Cell)
      → nth (values (before ++ (cur ∷ c ∷ rest))) (length before + 1) ≡ c.value
  nth_next before cur c rest =
      let front = before ++ (cur ∷ []) in
      let size : length before + 1 ≡ length front =
        omega (arith, length-append before (cur ∷ [])) in
      ap (λ i. nth (values (before ++ (cur ∷ c ∷ rest))) i) size
      ∙ ap (λ l. nth (values l) (length front)) (sym (append_assoc before (cur ∷ []) (c ∷ rest)))
      ∙ nth_split front rest c

  select_skip :
      (fuel : ℕ) (s s1 : Sched) (c : Cell) (t : Task)
      → select_round (suc spins) core s ≡ try_task c.value s1
      → c.value ≢ 0
      → s1.tasks c.value ≡ some t
      → is_ready t ≡ false
      → task_select (suc fuel) (suc spins) core s
        ≡ task_select fuel (suc spins) core (record s1 { scheduler_lock = false })
  unfolding task_select try_task
  select_skip fuel s s1 c t round ne holds busy =
      rw (round, deref-ok s1.tasks c.value ne holds, busy) refl

  select_take :
      (fuel : ℕ) (s s1 : Sched) (c : Cell) (t : Task)
      → select_round (suc spins) core s ≡ try_task c.value s1
      → c.value ≢ 0
      → s1.tasks c.value ≡ some t
      → is_ready t ≡ true
      → task_select (suc fuel) (suc spins) core s
        ≡ ok (
          c.value,
          record s1 {
            tasks = put_at s1.tasks c.value (record t { flags = bit_or t.flags task_running });
            scheduler_lock = false;
          },
        )
  unfolding task_select try_task
  select_take fuel s s1 c t round ne holds ready =
      rw (round, deref-ok s1.tasks c.value ne holds, ready) refl

  -- Behind the task that runs, `task_select` chooses the first one that is present and not running:
  -- the current task and all that it skips lose their flag TASK_RUNNING, the one chosen has it, and no
  -- other task changes.
  pub task_select-Picked :
      (fuel : ℕ) (s : Sched) (before : List Cell) (cur : Cell) (skipped : List Cell) (chosen : Cell)
      (rest : List Cell) (t : Task)
      → Turn core s before cur (skipped ++ (chosen ∷ rest))
      → Busy s.tasks skipped
      → chosen.value ≢ 0
      → s.tasks chosen.value ≡ some t
      → is_ready t ≡ true
      → Different (cur ∷ (skipped ++ (chosen ∷ rest)))
      → length skipped < fuel
      → (s' : Sched) × (task_select fuel (suc spins) core s ≡ ok (chosen.value, s'))
        × Picked core s before cur skipped chosen t s'
  task_select-Picked zero s before cur skipped chosen rest t turn busy ne holds ready d lt =
      absurd (omega arith)
  task_select-Picked (suc fuel) s before cur [] chosen rest t turn busy ne holds ready d lt =
      let (s1, round, moved) =
        select_round-Moved core s before cur (chosen ∷ rest) turn spins
          (omega (arith, length-append before (cur ∷ chosen ∷ rest))) in
      let tries = round ∙ ap (λ v. try_task v s1) (nth_next before cur chosen rest) in
      let task1 : s1.tasks chosen.value ≡ some t =
        ap (λ m. m chosen.value) moved.tasks
        ∙ put_at-ne s.tasks cur.value chosen.value (stopped moved.turn.task) (λ e. d.0.0 (sym e))
        ∙ holds in
      let running : Task = record t { flags = bit_or t.flags task_running } in
      (
        record s1 { tasks = put_at s1.tasks chosen.value running; scheduler_lock = false },
        select_take fuel s s1 chosen t tries ne task1 ready,
        record {
          cells = moved.cells;
          current = moved.current;
          place = omega (arith, moved.place);
          free = refl;
          runs = put_at_self s1.tasks chosen.value running;
          stopped = (
            (λ u at.
                put_at-ne s1.tasks chosen.value cur.value running d.0.0
                ∙ ap (λ m. m cur.value) moved.tasks
                ∙ put_at_self s.tasks cur.value (stopped moved.turn.task)
                ∙ ap (λ y. some (stopped y)) (some-injective _ _ (sym (moved.turn.holds) ∙ at))),
            tt,
          );
          others = λ a away other.
              put_at-ne s1.tasks chosen.value a running other
              ∙ ap (λ m. m a) moved.tasks
              ∙ put_at-ne s.tasks cur.value a (stopped moved.turn.task) away.0;
        },
      )
  task_select-Picked (suc fuel) s before cur (c ∷ skipped) chosen rest t turn busy ne holds ready d
        lt =
      let behind = skipped ++ (chosen ∷ rest) in
      let (s1, round, moved) =
        select_round-Moved core s before cur (c ∷ behind) turn spins
          (omega (arith, length-append before (cur ∷ c ∷ behind))) in
      let ((c_ne, (u, c_holds, c_busy)), busy_rest) = busy in
      let tries = round ∙ ap (λ v. try_task v s1) (nth_next before cur c behind) in
      let kept : (b : ℕ) → b ≢ cur.value → s1.tasks b ≡ s.tasks b = λ b other.
        ap (λ m. m b) moved.tasks ∙ put_at-ne s.tasks cur.value b (stopped moved.turn.task) other in
      let away = Elsewhere-append cur.value skipped chosen rest d.0.1 in
      let c_holds1 = kept c.value (λ e. d.0.0 (sym e)) ∙ c_holds in
      let s2 : Sched = record s1 { scheduler_lock = false } in
      let front = before ++ (cur ∷ []) in
      let turn2 : Turn core s2 front c behind = record {
        list =
            subst (IsVector s1.list_nodes s1.list)
              (sym (append_assoc before (cur ∷ []) (c ∷ behind))) moved.list;
        cells = moved.cells;
        current = moved.current;
        core_in = moved.core_in;
        place = omega (arith, moved.place, length-append before (cur ∷ []));
        nonnull = c_ne;
        task = u;
        holds = c_holds1;
        free = refl;
      } in
      let (s', runs, p) =
        task_select-Picked fuel s2 front c skipped chosen rest t turn2
          (Busy-kept s.tasks s1.tasks cur.value skipped kept away.0 busy_rest) ne
          (kept chosen.value (λ e. away.1 (sym e)) ∙ holds) ready d.1 (omega arith) in
      (
        s',
        select_skip fuel s s1 c u tries c_ne c_holds1 c_busy ∙ runs,
        record {
          cells = p.cells;
          current = p.current;
          place = omega (arith, p.place, length-append before (cur ∷ []));
          free = p.free;
          runs = p.runs;
          stopped = (
            (λ x at.
                p.others cur.value (d.0.0, away.0) away.1
                ∙ ap (λ m. m cur.value) moved.tasks
                ∙ put_at_self s.tasks cur.value (stopped moved.turn.task)
                ∙ ap (λ y. some (stopped y)) (some-injective _ _ (sym (moved.turn.holds) ∙ at))),
            Stopped-before s.tasks s1.tasks s'.tasks cur.value (c ∷ skipped) kept (d.0.0, away.0)
                p.stopped,
          );
          others = λ a out other. p.others a out.1 other ∙ kept a out.0;
        },
      )

  -- When no task behind the current one can be chosen, `task_select` runs over the end of the list and
  -- through the null pointer, even when a task in front of the current one could run.
  pub task_select_fault :
      (fuel : ℕ) (s : Sched) (before : List Cell) (cur : Cell) (after : List Cell)
      → Turn core s before cur after
      → Busy s.tasks after
      → Different (cur ∷ after)
      → 1 < length (before ++ (cur ∷ after))
      → length after < fuel
      → task_select fuel (suc spins) core s ≡ fault
  unfolding task_select
  task_select_fault zero s before cur after turn busy d several lt = absurd (omega arith)
  task_select_fault (suc fuel) s before cur [] turn busy d several lt =
      let (s1, round, moved) = select_round-Moved core s before cur [] turn spins several in
      let out =
        nth_beyond (before ++ (cur ∷ [])) (length before + 1)
          (omega (arith, length-append before (cur ∷ []))) in
      rw (round ∙ ap (λ v. try_task v s1) out ∙ try_task_null s1) refl
  task_select_fault (suc fuel) s before cur (c ∷ after) turn busy d several lt =
      let (s1, round, moved) =
        select_round-Moved core s before cur (c ∷ after) turn spins several in
      let ((c_ne, (u, c_holds, c_busy)), busy_rest) = busy in
      let tries = round ∙ ap (λ v. try_task v s1) (nth_next before cur c after) in
      let kept : (b : ℕ) → b ≢ cur.value → s1.tasks b ≡ s.tasks b = λ b other.
        ap (λ m. m b) moved.tasks ∙ put_at-ne s.tasks cur.value b (stopped moved.turn.task) other in
      let c_holds1 = kept c.value (λ e. d.0.0 (sym e)) ∙ c_holds in
      let s2 : Sched = record s1 { scheduler_lock = false } in
      let front = before ++ (cur ∷ []) in
      let assoc = append_assoc before (cur ∷ []) (c ∷ after) in
      select_skip fuel s s1 c u tries c_ne c_holds1 c_busy
      ∙ task_select_fault fuel s2 front c after
          (record {
            list = subst (IsVector s1.list_nodes s1.list) (sym assoc) moved.list;
            cells = moved.cells;
            current = moved.current;
            core_in = moved.core_in;
            place = omega (arith, moved.place, length-append before (cur ∷ []));
            nonnull = c_ne;
            task = u;
            holds = c_holds1;
            free = refl;
          })
          (Busy-kept s.tasks s1.tasks cur.value after kept d.0.1 busy_rest) d.1
          (omega (arith, several, ap length assoc)) (omega arith)
