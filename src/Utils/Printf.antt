-- ===== src/Utils/Printf.antt =====
-- printf_template of src/utils/printf.c: the format and the arguments, and what is written to the
-- console. A local array of `n` bytes is `locals n`. The lock and the frame buffer are left out.
pub mod Decimal
pub mod Tests
use potat_os.Prelude.{
  ℕ, ◌+◌, ◌%◌, Bool, true, false, ◌||◌, ◌==◌, if◌then◌else◌, List, [], ◌∷◌, ◌++◌, Run, ok, fault,
  ◌>>=◌, store,
}
use potat_os.Utils.Numbers.{uint64_to_string, uint64_to_hex_string, uint64_to_binary_string}

pub data Argument : Type 0 where
  number : ℕ → Argument
  text : List ℕ → Argument

-- A call of write_text, with the object that is written up to its terminator, or of write_character.
pub data Output : Type 0 where
  written : List ℕ → Output
  character : ℕ → Output

-- `va_arg`: an argument that is not there, or of another type, is undefined.
abbrev pub next_number : List Argument → Run (ℕ × List Argument)
next_number [] = fault
next_number (number n ∷ args) = ok (n, args)
next_number (text t ∷ args) = fault

abbrev pub next_text : List Argument → Run (List ℕ × List Argument)
next_text [] = fault
next_text (number n ∷ args) = fault
next_text (text t ∷ args) = ok (t, args)

module _ (locals : ℕ → List ℕ) where
  -- What stands behind a `%`.
  unfoldable pub directive : ℕ → List Argument → Run (List Output × List Argument)
  directive c args =
      if (c == b'd') || (c == b'i')
      then (do
        (n, rest) ← next_number args
        printed ← uint64_to_string n (locals 10)
        buffer ← store printed 9 0
        ok (written buffer ∷ [], rest))
      else if c == b'c'
      then (do (n, rest) ← next_number args; ok (character (n % 256) ∷ [], rest))
      else if c == b'x'
      then (do
        (n, rest) ← next_number args
        printed ← uint64_to_hex_string (locals 17) n (locals 20)
        bufferx ← store printed 19 0
        ok (written bufferx ∷ [], rest))
      else if c == b'b'
      then (do
        (n, rest) ← next_number args
        printed ← uint64_to_binary_string (locals 65) n (locals 65)
        bufferb ← store printed 64 0
        ok (written bufferb ∷ [], rest))
      else if c == b's'
      then (do (t, rest) ← next_text args; ok (written t ∷ [], rest))
      else ok ([], args)

  -- The loop over the format's characters in front of its terminator; a `%` at the end is followed by
  -- the terminator, which is no directive.
  unfoldable pub printf_template : List ℕ → List Argument → Run (List Output)
  printf_template [] args = ok []
  printf_template (c ∷ []) args = ok (if c == b'%' then [] else character c ∷ [])
  printf_template (c ∷ d ∷ format) args = elim (c == b'%') [
    | true ↦ do (out, rest) ← directive d args; outs ← printf_template format rest; ok (out ++ outs)
    | false ↦ do outs ← printf_template (d ∷ format) args; ok (character c ∷ outs)
  ]
