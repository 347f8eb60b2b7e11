-- ===== src/Drivers/Keyboard/Session.antt =====
-- A whole read: `read_ps2_kb` with the interrupts that come while it waits.
use potat_os.Prelude.{
  ℕ, ◌+◌, ◌-◌, ◌%◌, ◌^◌, ◌<◌, ◌≤◌, ◌≡◌, refl, ◌∙◌, subst, true, false, ◌==◌, arith, List, [], ◌∷◌,
  length, some, ok,
}
use potat_os.Drivers.Keyboard.{
  KeyboardData, Effect, handle_scancode, keyboard_isr, run_keys, begin_read,
}
use potat_os.Drivers.Keyboard.Line.{Line, editing, done, next, Typing, Matches}
use potat_os.Drivers.Keyboard.Edits.{handle_scancode-next}

-- Scan codes are bytes.
abbrev pub AreBytes : List ℕ → Type 0
AreBytes [] = Unit
AreBytes (c ∷ cs) = (c < 256) × AreBytes cs

-- What the keys leave: a line that is still edited or one that is done.
abbrev pub Reads : List ℕ → KeyboardData → ℕ → Type 0
Reads scs d size =
    (d' : KeyboardData) × (l : Line) × (run_keys scs (some d) ≡ ok (some d'))
    × Matches d' l
    × (d'.buffer_size ≡ size)

done_stays :
    (scs : List ℕ) (d : KeyboardData)
    → d.currently_reading ≡ false
    → run_keys scs (some d) ≡ ok (some d)
unfolding run_keys keyboard_isr
done_stays [] d e = refl
done_stays (c ∷ scs) d e =
    let ignored : keyboard_isr 1 c (some d) ≡ ok (some d, []) = simp e in
    rw ignored (done_stays scs d e)

isr_handles :
    (d d' : KeyboardData) (c : ℕ) (effects : List Effect)
    → d.currently_reading ≡ true
    → handle_scancode c d ≡ ok (d', effects)
    → keyboard_isr 1 c (some d) ≡ ok (some d', effects)
unfolding keyboard_isr
isr_handles d d' c effects reading e = simp (reading, e)

keys-Reads :
    (scs : List ℕ) (d : KeyboardData) (l : Line)
    → AreBytes scs
    → Matches d l
    → Reads scs d d.buffer_size
unfolding run_keys
keys-Reads [] d l bytes m = (d, l, refl, m, refl)
keys-Reads scs d (done line) bytes m = (d, done line, done_stays scs d m.stopped, m, refl)
keys-Reads (c ∷ scs) d (editing line) bytes m =
    let full = d.buffer_size == length line in
    let (d', effects, e, m', a, same) = handle_scancode-next d line c m bytes.0 in
    let taken : keyboard_isr 1 c (some d) ≡ ok (some d', effects) =
      isr_handles d d' c effects m.reading e in
    let (d'', l, run, m'', size) =
      keys-Reads scs d' (next d.shifted d.caps full c line) bytes.1 m' in
    (d'', l, rw taken run, m'', size ∙ same)

-- A read into a buffer of at least `max_len` bytes, from data with no input left over: whatever
-- keys come, no interrupt faults, and the buffer holds the line so far or, once the read is over,
-- the line and its terminator, in the first `max_len` bytes.
pub run_keys-begin_read :
    (buffer : List ℕ) (max_len : ℕ) (d : KeyboardData) (scs : List ℕ)
    → 1 ≤ max_len
    → max_len ≤ length buffer
    → max_len < 2 ^ 64
    → d.input_len ≡ 0
    → AreBytes scs
    → Reads scs (begin_read buffer max_len d) (max_len - 1)
unfolding begin_read
run_keys-begin_read buffer max_len d scs low room fits clear bytes =
    let size : (max_len + 2 ^ 64 - 1) % 2 ^ 64 ≡ max_len - 1 = omega arith in
    let start : Typing (begin_read buffer max_len d) [] = record {
      reading = refl;
      rest = buffer;
      split = refl;
      len = clear;
      room = omega arith;
      fits = omega (arith, size);
      small = omega arith;
    } in
    subst (Reads scs (begin_read buffer max_len d)) size
      (keys-Reads scs (begin_read buffer max_len d) (editing []) bytes start)
