-- ===== src/Drivers/Keyboard/Tests.antt =====
-- Runs of the keyboard driver, and its theorems at a read of a short line.
use potat_os.Prelude.{
  ℕ, ◌≡◌, refl, true, false, ◌==◌, arith, List, [], ◌∷◌, Option, some, Run, ok, store,
}
use potat_os.Drivers.Keyboard.{
  KeyboardData, fresh_data, key_ch, handle_scancode, keyboard_isr, run_keys, begin_read,
}
use potat_os.Drivers.Keyboard.Chars.{typed, key_ch-typed}
use potat_os.Drivers.Keyboard.Line.{next, Typing, Handled}
use potat_os.Drivers.Keyboard.Edits.{handle_scancode-next}
use potat_os.Drivers.Keyboard.Session.{AreBytes, Reads, run_keys-begin_read}

abbrev five : List ℕ
five = 1 ∷ 1 ∷ 1 ∷ 1 ∷ 1 ∷ []

-- Shift and "h", release of shift, "i", "i", backspace, enter.
abbrev presses : List ℕ
presses = 42 ∷ 35 ∷ 170 ∷ 23 ∷ 23 ∷ 14 ∷ 28 ∷ []

abbrev buffer_of : Run (Option KeyboardData) → List ℕ
buffer_of (ok (some d)) = d.current_buffer
buffer_of _ = []

types_hi :
    buffer_of (run_keys presses (some (begin_read five 5 fresh_data))) ≡ 72 ∷ 105 ∷ 0 ∷ 1 ∷ 1 ∷ []
unfolding run_keys keyboard_isr handle_scancode begin_read key_ch store
types_hi = refl

key_ch-typed_example : key_ch false true 30 ≡ ok (typed false true 30)
key_ch-typed_example = key_ch-typed false true 30 (omega arith)

abbrev reading_data : KeyboardData
reading_data = record {
  input_len = 1;
  currently_reading = true;
  shifted = false;
  caps = false;
  current_buffer = 72 ∷ 1 ∷ 1 ∷ [];
  buffer_size = 2;
}

reading-Typing : Typing reading_data (72 ∷ [])
reading-Typing = record {
  reading = refl;
  rest = 1 ∷ 1 ∷ [];
  split = refl;
  len = refl;
  room = omega arith;
  fits = omega arith;
  small = omega arith;
}

handle_scancode-next_example : Handled reading_data 23 (next false false (2 == 1) 23 (72 ∷ []))
handle_scancode-next_example =
    handle_scancode-next reading_data (72 ∷ []) 23 reading-Typing (omega arith)

presses-AreBytes : AreBytes presses
presses-AreBytes = (
  omega arith,
  (omega arith, (omega arith, (omega arith, (omega arith, (omega arith, (omega arith, tt)))))),
)

run_keys-begin_read_example : Reads presses (begin_read five 5 fresh_data) 4
run_keys-begin_read_example =
    run_keys-begin_read five 5 fresh_data presses (omega arith) (omega arith) (omega arith) refl
      presses-AreBytes
