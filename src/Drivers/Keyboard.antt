-- ===== src/Drivers/Keyboard.antt =====
-- The keyboard driver of src/drivers/keyboard.c. The buffer of a read is the list of the bytes of
-- its object, [] for the null pointer. What `inb` returns is an argument. Text on the screen and the
-- end of the interrupt are a list of effects, in their order.
pub mod Tables
pub mod Chars
pub mod Line
pub mod Edits
pub mod Session
pub mod Tests
use potat_os.Prelude.{
  ℕ, ◌+◌, ◌-◌, ◌%◌, ◌^◌, Bool, true, false, not, ◌&&◌, ◌||◌, ◌==◌, leb, ltb, if◌then◌else◌, List,
  [], ◌∷◌, Option, none, some, get_elem?, Run, ok, fault, checked, ◌>>=◌, store, bit_and,
}
use potat_os.Drivers.Keyboard.Tables.{character_table, shifted_character_table}

pub record KeyboardData : Type 0 where
  pub input_len : ℕ
  pub currently_reading : Bool
  pub shifted : Bool
  pub caps : Bool
  pub current_buffer : List ℕ
  pub buffer_size : ℕ

-- `printf` of one character, a move of `kernel.ch_X` to the left, `draw_cursor`, and
-- `end_of_interrupt`.
pub data Effect : Type 0 where
  print back : ℕ → Effect
  draw_cursor end_of_interrupt : Effect

abbrev pub lookup : List ℕ → ℕ → Run ℕ
lookup table scancode = checked (get_elem? table scancode)

abbrev pub is_lower : ℕ → Bool
is_lower c = leb 97 c && leb c 122

-- The character of a key, by the state of the shift and caps lock keys.
unfoldable pub key_ch : Bool → Bool → ℕ → Run ℕ
key_ch shifted caps scancode =
    if shifted && not caps
    then lookup shifted_character_table scancode
    else if shifted && caps
    then (do
      c ← lookup character_table scancode
      if is_lower c then ok c else lookup shifted_character_table scancode)
    else if not shifted && caps
    then (do
      c ← lookup character_table scancode
      if is_lower c then lookup shifted_character_table scancode else ok c)
    else lookup character_table scancode

abbrev pub with_input : KeyboardData → List ℕ → ℕ → KeyboardData
with_input d buffer len = record d { current_buffer = buffer; input_len = len }

abbrev pub finished : KeyboardData → List ℕ → KeyboardData
finished d buffer = record d { current_buffer = buffer; currently_reading = false }

-- `keyboard_isr` from the special cases on.
unfoldable pub handle_scancode : ℕ → KeyboardData → Run (KeyboardData × List Effect)
handle_scancode scancode d =
    if not (bit_and scancode 128 == 0)
    then if scancode == 170 || scancode == 182
      then ok (record d { shifted = false }, end_of_interrupt ∷ [])
      else ok (d, end_of_interrupt ∷ [])
    else if scancode == 14 && ltb 0 d.input_len
    then (do
      buffer ← store d.current_buffer (d.input_len - 1) 0
      ok (
        with_input d buffer (d.input_len - 1),
        print 32 ∷ back 16 ∷ print 32 ∷ back 8 ∷ draw_cursor ∷ end_of_interrupt ∷ [],
      ))
    else if scancode == 58
    then ok (record d { caps = not d.caps }, end_of_interrupt ∷ [])
    else if scancode == 42 || scancode == 54
    then ok (record d { shifted = true }, end_of_interrupt ∷ [])
    else if scancode == 28 || d.buffer_size == d.input_len
    then (do
      buffer ← store d.current_buffer d.input_len 0
      ok (finished d buffer, print 32 ∷ back 8 ∷ end_of_interrupt ∷ []))
    else (do
      ch ← key_ch d.shifted d.caps scancode
      buffer ← store d.current_buffer d.input_len ch
      ok (
        with_input d buffer ((d.input_len + 1) % 2 ^ 64),
        print ch ∷ draw_cursor ∷ end_of_interrupt ∷ [],
      ))

-- `none` for the null pointer in `current_input_data`.
unfoldable pub keyboard_isr : ℕ → ℕ → Option KeyboardData → Run (Option KeyboardData × List Effect)
keyboard_isr status scancode none = ok (none, [])
keyboard_isr status scancode (some d) =
    if not d.currently_reading
    then ok (some d, [])
    else if bit_and status 1 == 0
    then ok (some d, [])
    else (do (d', effects) ← handle_scancode scancode d; ok (some d', effects))

-- The two parts of `read_ps2_kb`, before and behind the loop that waits for the interrupts.
unfoldable pub begin_read : List ℕ → ℕ → KeyboardData → KeyboardData
begin_read buffer max_len d = record d {
  currently_reading = true;
  current_buffer = buffer;
  buffer_size = (max_len + 2 ^ 64 - 1) % 2 ^ 64;
}

unfoldable pub end_read : KeyboardData → KeyboardData
end_read d = record d { current_buffer = []; input_len = 0 }

-- The data that `open_ps2_kb` makes, and its guard on the mode; MODE_READONLY is 1.
abbrev pub fresh_data : KeyboardData
fresh_data = record {
  input_len = 0;
  currently_reading = false;
  shifted = false;
  caps = false;
  current_buffer = [];
  buffer_size = 0;
}

unfoldable pub open_ps2_kb : ℕ → Option KeyboardData → Option KeyboardData
open_ps2_kb mode private = if not (mode == 1) then private else some fresh_data

-- The interrupts while data waits at the port, in their order.
unfoldable pub run_keys : List ℕ → Option KeyboardData → Run (Option KeyboardData)
run_keys [] o = ok o
run_keys (scancode ∷ scancodes) o = do
  (o', effects) ← keyboard_isr 1 scancode o
  run_keys scancodes o'
