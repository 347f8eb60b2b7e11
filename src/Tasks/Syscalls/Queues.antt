-- ===== src/Tasks/Syscalls/Queues.antt =====
-- syscall_poll and syscall_peek of src/tasks/syscalls.c, on the event queue of the current task. An event
-- that is freed is gone from the memory.
use potat_os.Prelude.{
  ℕ, ◌-◌, ◌<◌, ◌≡◌, refl, ◌≢◌, ap, ◌∙◌, arith, false, Option, some, none, List, ◌==◌, Run, ok,
  fault, ◌>>=◌, length, deref, ◌⊎◌, inl, inr, ◌≤◌,
}
use potat_os.Mem.Vectors.{Vector}
use potat_os.Mem.Vectors.Chains.{Cell, IsVector, values}
use potat_os.Mem.Vectors.Access.{nth, vector_at-nth}
use potat_os.Tasks.Events.Queue.{poll_lem, poll_fault}
use potat_os.Tasks.Events.{Event, Memory, put, poll, peek, cleanup_event}

-- The event that is copied to the buffer, the queue and the memory.
unfoldable pub syscall_poll : ℕ → Vector → Memory → Run (Event × Vector × Memory)
syscall_poll fresh q m = do
  (this_event, q', m') ← poll fresh q m
  e ← deref m'.events this_event
  ok (e, q', cleanup_event this_event m')

unfoldable pub syscall_peek : ℕ → Vector → Memory → Run (Event × Memory)
syscall_peek fresh q m = do
  (this_event, m') ← peek fresh q m
  e ← deref m'.events this_event
  ok (e, cleanup_event this_event m')

deref-none : (events : ℕ → Option Event) (a : ℕ) → a ≢ 0 → events a ≡ none → deref events a ≡ fault
unfolding deref
deref-none events a ne gone =
    let nonnull : (a == 0) ≡ false = ground (arith, ne) in rw (nonnull, gone) refl

-- syscall_poll when the newest event was freed.
syscall_poll_fault :
    (fresh : ℕ) (q : Vector) (m : Memory) (cs : List Cell) (a : ℕ)
    → IsVector m.nodes q cs
    → 0 < q.length
    → nth (values cs) (q.length - 1) ≡ a
    → a ≢ 0
    → m.events a ≡ none
    → syscall_poll fresh q m ≡ fault
unfolding syscall_poll
syscall_poll_fault fresh q m cs a is some_events last ne gone = elim (how_many (length cs)) [
  | inl single ↦
      let (v, polled, empty) = (poll_lem m is fresh).0 single in
      let first : nth (values cs) 0 ≡ a = ap (nth (values cs)) (at_0 single) ∙ last in
      rw (polled, first, deref-none m.events a ne gone) refl
  | inr (inl many) ↦ rw (poll_fault m is fresh many) refl
  | inr (inr empty) ↦ absurd (omega (arith, some_events, is.count, empty))
]
  where
    how_many : (n : ℕ) → (n ≡ 1) ⊎ (2 ≤ n) ⊎ (n ≡ 0)
    how_many n = omega arith

    at_0 : length cs ≡ 1 → 0 ≡ q.length - 1
    at_0 single = omega (arith, is.count, single)

-- syscall_peek of a well-formed queue with events gives the newest one and frees it in the queue: the
-- next syscall_peek and the next syscall_poll of the queue go to freed memory or through a null pointer.
pub syscall_peek-cleanup_event :
    (fresh : ℕ) (q : Vector) (m : Memory) (cs : List Cell) (a : ℕ) (e : Event)
    → IsVector m.nodes q cs
    → 0 < q.length
    → nth (values cs) (q.length - 1) ≡ a
    → a ≢ 0
    → m.events a ≡ some e
    → (m' : Memory) × (syscall_peek fresh q m ≡ ok (e, m'))
      × ((fresh' : ℕ) → (syscall_peek fresh' q m' ≡ fault) × (syscall_poll fresh' q m' ≡ fault))
unfolding syscall_peek peek cleanup_event deref
syscall_peek-cleanup_event fresh q m cs a e is some_events last ne holds =
    let has : (q.length == 0) ≡ false = ground (arith, some_events) in
    let found = vector_at-nth is (q.length - 1) ∙ ap ok last in
    let nonnull : (a == 0) ≡ false = ground (arith, ne) in
    let gone : (put m a none).events a ≡ none = ground arith in
    (
      put m a none,
      rw (has, found, nonnull, holds) refl,
      λ fresh'. (
        rw (has, found, nonnull, gone) refl,
        syscall_poll_fault fresh' q (put m a none) cs a is some_events last ne gone,
      ),
    )
