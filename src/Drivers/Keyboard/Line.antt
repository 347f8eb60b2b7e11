-- ===== src/Drivers/Keyboard/Line.antt =====
-- The line that a read collects: `keyboard_isr` as an editor of a line of text.
use potat_os.Prelude.{
  ℕ, suc, ◌+◌, ◌-◌, ◌%◌, ◌^◌, ◌<◌, ◌≤◌, ◌≡◌, refl, ap, sym, ◌∙◌, subst, Bool, true, false, not,
  ◌&&◌, ◌||◌, ◌==◌, ltb, if◌then◌else◌, every, every_at, arith, List, [], ◌∷◌, ◌++◌, append_assoc,
  length, length-append, take, ok, store, store-append, bit_and,
}
use potat_os.Drivers.Keyboard.{
  KeyboardData, Effect, end_of_interrupt, print, back, draw_cursor, with_input, finished,
  handle_scancode,
}
use potat_os.Drivers.Keyboard.Chars.{typed, key_ch-typed}

-- The line so far, while it is edited and when it is done.
pub data Line : Type 0 where
  editing done : List ℕ → Line

-- What a scan code does to the line; `full` says whether the line fills the buffer.
abbrev pub next : Bool → Bool → Bool → ℕ → List ℕ → Line
next shifted caps full scancode line =
    if not (ltb scancode 128)
    then editing line
    else if scancode == 14 && ltb 0 (length line)
    then editing (take (length line - 1) line)
    else if scancode == 58
    then editing line
    else if scancode == 42 || scancode == 54
    then editing line
    else if scancode == 28 || full
    then done line
    else editing (line ++ (typed shifted caps scancode ∷ []))

pub record Typing (d : KeyboardData) (line : List ℕ) : Type 0 where
  pub reading : d.currently_reading ≡ true
  pub rest : List ℕ
  pub split : d.current_buffer ≡ line ++ rest
  pub len : d.input_len ≡ length line
  pub room : length line ≤ d.buffer_size
  pub fits : d.buffer_size < length d.current_buffer
  pub small : d.buffer_size < 2 ^ 64

pub record Done (d : KeyboardData) (line : List ℕ) : Type 0 where
  pub stopped : d.currently_reading ≡ false
  pub rest : List ℕ
  pub split : d.current_buffer ≡ line ++ (0 ∷ rest)
  pub room : length line ≤ d.buffer_size

abbrev pub Matches : KeyboardData → Line → Type 0
Matches d (editing line) = Typing d line
Matches d (done line) = Done d line

abbrev pub acks : List Effect → ℕ
acks [] = 0
acks (end_of_interrupt ∷ es) = 1 + acks es
acks (draw_cursor ∷ es) = acks es
acks (print c ∷ es) = acks es
acks (back n ∷ es) = acks es

-- The scan code is handled, the buffer holds the line `l`, and the interrupt is ended once.
abbrev pub Handled : KeyboardData → ℕ → Line → Type 0
Handled d scancode l =
    (d' : KeyboardData) × (effects : List Effect) × (handle_scancode scancode d ≡ ok (d', effects))
    × Matches d' l
    × (acks effects ≡ 1)
    × (d'.buffer_size ≡ d.buffer_size)

table :
    every 256
      (λ c. not (bit_and c 128 == 0) && not (ltb c 128) || (bit_and c 128 == 0) && ltb c 128)
    ≡ true
table = refl

pub release_bit : (c : ℕ) → c < 256 → (bit_and c 128 == 0) ≡ ltb c 128
release_bit c lt = ground (
  arith,
  every_at (λ c. not (bit_and c 128 == 0) && not (ltb c 128) || (bit_and c 128 == 0) && ltb c 128)
      256 c lt table,
)

nonempty_rest :
    (line rest : List ℕ)
    → length line < length (line ++ rest)
    → (x : ℕ) × (xs : List ℕ) × (rest ≡ x ∷ xs)
nonempty_rest line [] lt = absurd (omega (arith, length-append line []))
nonempty_rest line (x ∷ xs) lt = (x, xs, refl)

pub last_entry :
    (line : List ℕ) → 0 < length line → (front : List ℕ) × (c : ℕ) × (line ≡ front ++ (c ∷ []))
last_entry [] h = absurd (omega arith)
last_entry (c ∷ []) h = ([], c, refl)
last_entry (c ∷ e ∷ line) h =
    let (front, last, eq) = last_entry (e ∷ line) (omega arith) in
    (c ∷ front, last, ap (λ l. c ∷ l) eq)

pub length-store_at : (xs ys : List ℕ) (x v : ℕ) → length (xs ++ (v ∷ ys)) ≡ length (xs ++ (x ∷ ys))
length-store_at [] ys x v = refl
length-store_at (a ∷ xs) ys x v = ap suc (length-store_at xs ys x v)

module _ (d : KeyboardData) (line : List ℕ) (t : Typing d line) (sc : ℕ) where
  -- A write behind the line, and what the buffer is then.
  write_behind :
      (v : ℕ)
      → (xs : List ℕ) × (store d.current_buffer d.input_len v ≡ ok (line ++ (v ∷ xs)))
        × (length (line ++ (v ∷ xs)) ≡ length d.current_buffer)
  write_behind v =
      let lt : length line < length (line ++ t.rest) =
        omega (arith, t.room, t.fits, ap length t.split) in
      let (x, xs, eq) = nonempty_rest line t.rest lt in
      let split : d.current_buffer ≡ line ++ (x ∷ xs) = t.split ∙ ap (λ r. line ++ r) eq in
      (
        xs,
        subst (λ b. store b d.input_len v ≡ ok (line ++ (v ∷ xs))) (sym split)
            (store-append line xs x v d.input_len t.len),
        length-store_at line xs x v ∙ ap length (sym split),
      )

  pub handle_enter :
      (bit_and sc 128 == 0) ≡ true
      → (sc == 14 && ltb 0 d.input_len) ≡ false
      → (sc == 58) ≡ false
      → (sc == 42 || sc == 54) ≡ false
      → (sc == 28 || d.buffer_size == d.input_len) ≡ true
      → Handled d sc (done line)
  unfolding handle_scancode
  handle_enter a b c e f =
      let (xs, stored, size) = write_behind 0 in
      (
        finished d (line ++ (0 ∷ xs)),
        print 32 ∷ back 8 ∷ end_of_interrupt ∷ [],
        rw (a, b, c, e, f, stored) refl,
        record { stopped = refl; rest = xs; split = refl; room = t.room },
        refl,
        refl,
      )

  pub handle_typed :
      sc < 128
      → (bit_and sc 128 == 0) ≡ true
      → (sc == 14 && ltb 0 d.input_len) ≡ false
      → (sc == 58) ≡ false
      → (sc == 42 || sc == 54) ≡ false
      → (sc == 28 || d.buffer_size == d.input_len) ≡ false
      → Handled d sc (editing (line ++ (typed d.shifted d.caps sc ∷ [])))
  unfolding handle_scancode
  handle_typed lt a b c e f =
      let ch = typed d.shifted d.caps sc in
      let (xs, stored, size) = write_behind ch in
      let not_full : (d.buffer_size == d.input_len) ≡ false = ground (arith, f) in
      let below : length line < d.buffer_size = ground (arith, not_full, t.len, t.room) in
      let more = length-append line (ch ∷ []) in
      (
        with_input d (line ++ (ch ∷ xs)) ((d.input_len + 1) % 2 ^ 64),
        print ch ∷ draw_cursor ∷ end_of_interrupt ∷ [],
        rw (a, b, c, e, f, key_ch-typed d.shifted d.caps sc lt, stored) refl,
        record {
          reading = t.reading;
          rest = xs;
          split = sym (append_assoc line (ch ∷ []) xs);
          len = omega (arith, t.len, below, t.small, more);
          room = omega (arith, below, more);
          fits = omega (arith, t.fits, size);
          small = t.small;
        },
        refl,
        refl,
      )
