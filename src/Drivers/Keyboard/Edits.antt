-- ===== src/Drivers/Keyboard/Edits.antt =====
-- The other keys of the line editor, and all keys together.
use potat_os.Prelude.{
  ℕ, ◌-◌, ◌<◌, ◌≡◌, refl, ap, sym, ◌∙◌, subst, Bool, true, false, not, ◌&&◌, ◌||◌, ◌==◌, ltb, arith,
  Bool-cases, inl, inr, List, [], ◌∷◌, ◌++◌, append_assoc, length, length-append, take,
  take-length_append, ok, store, store-append, bit_and,
}
use potat_os.Drivers.Keyboard.{
  KeyboardData, end_of_interrupt, print, back, draw_cursor, with_input, handle_scancode,
}
use potat_os.Drivers.Keyboard.Chars.{typed}
use potat_os.Drivers.Keyboard.Line.{
  editing, done, next, Typing, Handled, release_bit, last_entry, length-store_at, handle_enter,
  handle_typed,
}

module _ (d : KeyboardData) (line : List ℕ) (t : Typing d line) (sc : ℕ) where
  handle_backspace :
      0 < length line
      → (bit_and sc 128 == 0) ≡ true
      → (sc == 14 && ltb 0 d.input_len) ≡ true
      → Handled d sc (editing (take (length line - 1) line))
  unfolding handle_scancode
  handle_backspace some a b =
      let (front, c, eq) = last_entry line some in
      let size = ap length eq ∙ length-append front (c ∷ []) in
      let kept : take (length line - 1) line ≡ front =
        ap (λ n. take n line) (omega (arith, size))
        ∙ ap (λ l. take (length front) l) eq
        ∙ take-length_append front (c ∷ []) in
      let split : d.current_buffer ≡ front ++ (c ∷ t.rest) =
        t.split ∙ ap (λ l. l ++ t.rest) eq ∙ append_assoc front (c ∷ []) t.rest in
      let stored : store d.current_buffer (d.input_len - 1) 0 ≡ ok (front ++ (0 ∷ t.rest)) =
        subst (λ l. store l (d.input_len - 1) 0 ≡ ok (front ++ (0 ∷ t.rest))) (sym split)
          (store-append front t.rest c 0 (d.input_len - 1) (omega (arith, t.len, size))) in
      let same = length-store_at front t.rest c 0 ∙ ap length (sym split) in
      let typing : Typing (with_input d (front ++ (0 ∷ t.rest)) (d.input_len - 1)) front = record {
        reading = t.reading;
        rest = 0 ∷ t.rest;
        split = refl;
        len = omega (arith, t.len, size);
        room = omega (arith, t.room, size);
        fits = omega (arith, t.fits, same);
        small = t.small;
      } in
      (
        with_input d (front ++ (0 ∷ t.rest)) (d.input_len - 1),
        print 32 ∷ back 16 ∷ print 32 ∷ back 8 ∷ draw_cursor ∷ end_of_interrupt ∷ [],
        rw (a, b, stored) refl,
        subst (Typing (with_input d (front ++ (0 ∷ t.rest)) (d.input_len - 1))) (sym kept) typing,
        refl,
        refl,
      )

  -- A key that only changes the state of the modifiers.
  handle_modifier :
      (shifted caps : Bool)
      → handle_scancode sc d
        ≡ ok (record d { shifted = shifted; caps = caps }, end_of_interrupt ∷ [])
      → Handled d sc (editing line)
  handle_modifier shifted caps e = (
    record d { shifted = shifted; caps = caps },
    end_of_interrupt ∷ [],
    e,
    record {
      reading = t.reading;
      rest = t.rest;
      split = t.split;
      len = t.len;
      room = t.room;
      fits = t.fits;
      small = t.small;
    },
    refl,
    refl,
  )

  handle_release : (bit_and sc 128 == 0) ≡ false → Handled d sc (editing line)
  unfolding handle_scancode
  handle_release a = elim (Bool-cases (sc == 170 || sc == 182)) [
    | inl shift ↦ handle_modifier false d.caps (rw (a, shift) refl)
    | inr other ↦ handle_modifier d.shifted d.caps (rw (a, other) refl)
  ]

  handle_press :
      sc < 128
      → (bit_and sc 128 == 0) ≡ true
      → Handled d sc (next d.shifted d.caps (d.buffer_size == length line) sc line)
  unfolding handle_scancode
  handle_press lt a =
      let press : ltb sc 128 ≡ true = ground (arith, lt) in
      let result = next d.shifted d.caps (d.buffer_size == length line) sc line in
      elim (Bool-cases (sc == 14 && ltb 0 d.input_len)) [
        | inl b ↦
            let b' = subst (λ n. (sc == 14 && ltb 0 n) ≡ true) t.len b in
            let e : result ≡ editing (take (length line - 1) line) = rw (press, b') refl in
            subst (Handled d sc) (sym e) (handle_backspace (ground (arith, b')) a b)
        | inr b ↦
            let b' = subst (λ n. (sc == 14 && ltb 0 n) ≡ false) t.len b in
            elim (Bool-cases (sc == 58)) [
              | inl c ↦
                  let e : result ≡ editing line = rw (press, b', c) refl in
                  subst (Handled d sc) (sym e)
                    (handle_modifier d.shifted (not d.caps) (rw (a, b, c) refl))
              | inr c ↦ elim (Bool-cases (sc == 42 || sc == 54)) [
                | inl g ↦
                    let e : result ≡ editing line = rw (press, b', c, g) refl in
                    subst (Handled d sc) (sym e)
                      (handle_modifier true d.caps (rw (a, b, c, g) refl))
                | inr g ↦ elim (Bool-cases (sc == 28 || d.buffer_size == d.input_len)) [
                  | inl f ↦
                      let f' = subst (λ n. (sc == 28 || d.buffer_size == n) ≡ true) t.len f in
                      let e : result ≡ done line = rw (press, b', c, g, f') refl in
                      subst (Handled d sc) (sym e) (handle_enter d line t sc a b c g f)
                  | inr f ↦
                      let f' = subst (λ n. (sc == 28 || d.buffer_size == n) ≡ false) t.len f in
                      let e : result ≡ editing (line ++ (typed d.shifted d.caps sc ∷ [])) =
                        rw (press, b', c, g, f') refl in
                      subst (Handled d sc) (sym e) (handle_typed d line t sc lt a b c g f)
                ]
              ]
            ]
      ]

-- While a line is read into a buffer with room for it and its terminator, every scan code is handled
-- without a fault and with one end of interrupt, and does to the line what the key says: a release
-- or a modifier nothing, backspace removes the last character, enter or a full buffer ends the line
-- with its terminator, and any other key adds its character.
pub handle_scancode-next :
    (d : KeyboardData) (line : List ℕ) (sc : ℕ)
    → Typing d line
    → sc < 256
    → Handled d sc (next d.shifted d.caps (d.buffer_size == length line) sc line)
handle_scancode-next d line sc t lt = elim (Bool-cases (ltb sc 128)) [
  | inl press ↦ handle_press d line t sc (ground (arith, press)) (release_bit sc lt ∙ press)
  | inr release ↦
      let e : next d.shifted d.caps (d.buffer_size == length line) sc line ≡ editing line =
        rw release refl in
      subst (Handled d sc) (sym e) (handle_release d line t sc (release_bit sc lt ∙ release))
]
