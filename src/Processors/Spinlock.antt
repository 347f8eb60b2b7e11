-- ===== src/Processors/Spinlock.antt =====
-- The spin lock of src/processors/spinlock.c between the processors, a shared access at a time. Any
-- processor outside may call either function, and one that is behind spinlock_aquire may stay there.
pub mod Exclusion
pub mod Tests
use potat_os.Prelude.{ℕ, Bool, true, false, ◌==◌, if◌then◌else◌, ◌<◌}

-- Where a processor stands: outside, in the loop of `spinlock_aquire`, or behind it.
pub data Pc : Type 0 where
  outside : Pc
  spinning : Pc
  inside : Pc

pub record System : Type 0 where
  pub lock : Bool
  pub pc : ℕ → Pc

abbrev pub update : (ℕ → Pc) → ℕ → Pc → ℕ → Pc
update pc i p j = if j == i then p else pc j

-- One shared access of one processor: `atomic_flag_test_and_set` returns what the flag was and sets
-- it, and `atomic_flag_clear` clears it, also for a processor that has not taken the lock. One that is
-- inside may do other work, for ever.
pub data Move : Bool → Pc → Bool → Pc → Type 0 where
  call : (lock : Bool) → Move lock outside lock spinning
  spin : Move true spinning true spinning
  take : Move false spinning true inside
  work : (lock : Bool) → Move lock inside lock inside
  release : (lock : Bool) → Move lock inside false outside
  release_unheld : (lock : Bool) → Move lock outside false outside

pub data Step (n : ℕ) (s : System) : System → Type 0 where
  pick :
      (i : ℕ) {lock : Bool} {p : Pc}
      → i < n
      → Move s.lock (s.pc i) lock p
      → Step n s (record { lock = lock; pc = update s.pc i p })

abbrev pub init : System
init = record { lock = false; pc = λ i. outside }

pub data Reach (n : ℕ) : System → Type 0 where
  start : Reach n init
  later : {s t : System} → Reach n s → Step n s t → Reach n t

-- Every release is by a processor that has taken the lock.
abbrev pub IsHeld : {lock lock' : Bool} {p p' : Pc} → Move lock p lock' p' → Type 0
IsHeld (call lock) = Unit
IsHeld spin = Unit
IsHeld take = Unit
IsHeld (work lock) = Unit
IsHeld (release lock) = Unit
IsHeld (release_unheld lock) = ⊥

abbrev pub HeldStep : {n : ℕ} {s t : System} → Step n s t → Type 0
HeldStep (pick i lt move) = IsHeld move

abbrev pub Paired : {n : ℕ} {s : System} → Reach n s → Type 0
Paired start = Unit
Paired (later r step) = Paired r × HeldStep step
