-- ===== src/Tasks/Events/Queue.antt =====
-- What an event queue promises, and where it breaks.
use potat_os.Prelude.{
  ℕ, ◌+◌, ◌-◌, ◌^◌, ◌<◌, ◌≤◌, ◌≡◌, refl, ◌≢◌, ◌∙◌, subst, false, Option, some, List, [], ◌∷◌, ◌++◌,
  arith, ok, fault, ◌==◌, length, length-append,
}
use potat_os.Mem.Vectors.{Vector}
use potat_os.Mem.Vectors.Chains.{Cell, cell, IsVector, values}
use potat_os.Mem.Vectors.Access.{nth, vector_at-nth}
use potat_os.Mem.Vectors.Push.{vector_push-append}
use potat_os.Mem.Vectors.Pop.{erase_at, vector_pop_head, vector_pop_fault}
use potat_os.Tasks.Events.{Memory, put, unhandled, new_event, add_event, poll, peek}

nth-snoc : (cs : List Cell) (a v i : ℕ) → i ≡ length cs → nth (values (cs ++ (cell a v ∷ []))) i ≡ v
nth-snoc cs a v i e = rw e (last cs)
  where
    last : (xs : List Cell) → nth (values (xs ++ (cell a v ∷ []))) (length xs) ≡ v
    last [] = refl
    last (x ∷ xs) = last xs

erase_single : (cs : List Cell) → length cs ≡ 1 → erase_at cs 0 ≡ []
erase_single [] e = absurd (omega arith)
erase_single (c ∷ []) e = refl
erase_single (c ∷ d ∷ cs) e = absurd (omega arith)

-- A well-formed queue is a vector of the addresses of its events, the oldest first.
module _ (m : Memory) {q : Vector} {cs : List Cell} (is : IsVector m.nodes q cs) (fresh : ℕ) where
  -- `poll` of a well-formed queue with one event returns the address of that event and leaves an
  -- empty queue; of an empty queue it returns a new event that is not to be handled.
  pub poll_lem :
      (length cs ≡ 1
        → (v : Vector) × (poll fresh q m ≡ ok (nth (values cs) 0, v, m)) × IsVector m.nodes v [])
      × (length cs ≡ 0 → poll fresh q m ≡ ok (fresh, q, put m fresh (some unhandled)))
  unfolding poll
  poll_lem = (
    λ one.
        let has : (q.length == 0) ≡ false = ground (arith, is.count, one) in
        let last : q.length - 1 ≡ 0 = omega (arith, is.count, one) in
        let (v, popped, empty) = (vector_pop_head is 0).0 (omega arith) in
        (
          v,
          rw (has, last, vector_at-nth is 0, popped) refl,
          subst (IsVector m.nodes v) (erase_single cs one) empty,
        ),
    λ none. ground (arith, is.count),
  )

  -- `poll` of a well-formed queue with two or more events goes through the null pointer.
  pub poll_fault : 2 ≤ length cs → poll fresh q m ≡ fault
  unfolding poll
  poll_fault two =
      let has : (q.length == 0) ≡ false = ground (arith, is.count, two) in
      let i = q.length - 1 in
      let pos : 0 < i = omega (arith, is.count) in
      let far : length cs ≤ i + 1 = omega (arith, is.count) in
      rw (has, vector_at-nth is i, vector_pop_fault is i pos (omega arith) far) refl

  -- An event added to a well-formed queue, with a fresh node from `malloc` and room in the length
  -- counter, is stored with its data, and `peek` returns it next: the newest event comes first.
  pub peek-add_event :
      (event_addr other event_type data0 data1 : ℕ)
      → fresh ≢ 0
      → m.nodes fresh ≡ Option.none
      → length cs + 1 < 2 ^ 64
      → (v : Vector) × (m' : Memory) × (add_event event_addr fresh q event_type data0 data1 m
          ≡ ok (v, m'))
        × (peek other v m' ≡ ok (event_addr, m'))
        × (m'.events event_addr ≡ some (new_event event_type data0 data1))
  unfolding add_event peek
  peek-add_event event_addr other event_type data0 data1 ne unused fits =
      let (v, g, pushed, isv) = vector_push-append fresh event_addr ne unused is fits in
      let event = new_event event_type data0 data1 in
      let m' : Memory = record (put m event_addr (some event)) { nodes = g } in
      let size : v.length ≡ length cs + 1 =
        isv.count ∙ length-append cs (cell fresh event_addr ∷ []) in
      let has : (v.length == 0) ≡ false = ground (arith, size) in
      let i = v.length - 1 in
      (
        v,
        m',
        rw pushed refl,
        rw (has, vector_at-nth isv i, nth-snoc cs fresh event_addr i (omega (arith, size))) refl,
        ground arith,
      )
