-- ===== src/Utils/Strings.antt =====
-- The byte and string functions of src/utils/string.c. A `char*` is the list of the bytes from
-- the pointer to the end of its object; an access past that end is a `fault`. Source and
-- destination of a copy are different objects. `rep movsb` and `rep stosb` copy and store upwards.
pub mod Compare
pub mod Edit
pub mod Octal
pub mod Tests
use potat_os.Prelude.{
  ℕ, zero, suc, ◌+◌, ◌-◌, ◌*◌, ◌%◌, ◌^◌, Bool, true, false, List, [], ◌∷◌, Run, ok, fault, checked,
  ◌>>=◌, ◌==◌, ltb, if◌then◌else◌, get_elem?, set,
}

strlen_loop : List ℕ → ℕ → Run ℕ
strlen_loop [] len = fault
strlen_loop (c ∷ cs) len = if c == 0 then ok len else strlen_loop cs (len + 1)

unfoldable pub strlen : List ℕ → Run ℕ
unfolding strlen_loop
strlen str = strlen_loop str 0

unfoldable pub memcpy : List ℕ → List ℕ → ℕ → Run (List ℕ)
memcpy dest from zero = ok dest
memcpy [] from (suc n) = fault
memcpy (d ∷ ds) [] (suc n) = fault
memcpy (d ∷ ds) (c ∷ cs) (suc n) = do rest ← memcpy ds cs n; ok (c ∷ rest)

-- `stosb` stores the low byte of the value.
unfoldable pub memset : List ℕ → ℕ → ℕ → Run (List ℕ)
memset array value zero = ok array
memset [] value (suc size) = fault
memset (d ∷ ds) value (suc size) = do rest ← memset ds value size; ok (value % 256 ∷ rest)

unfoldable pub memcmp : List ℕ → List ℕ → ℕ → Run Bool
memcmp str1 str2 zero = ok true
memcmp [] str2 (suc size) = fault
memcmp (x ∷ xs) [] (suc size) = fault
memcmp (x ∷ xs) (y ∷ ys) (suc size) = if x == y then memcmp xs ys size else ok false

-- The bit pattern of an `int` that a `size_t` is stored to, and the rounds of
-- `for (int c = 0; c < n; c++)`: none if the pattern is that of a negative number.
abbrev pub int_of : ℕ → ℕ
int_of n = n % 2 ^ 32

abbrev pub int_rounds : ℕ → ℕ
int_rounds n = if ltb n (2 ^ 31) then n else 0

strcmp_loop : ℕ → ℕ → List ℕ → List ℕ → Run Bool
strcmp_loop zero n str1 str2 = ok true
strcmp_loop (suc m) zero str1 str2 = ok true
strcmp_loop (suc m) (suc n) [] str2 = fault
strcmp_loop (suc m) (suc n) (x ∷ xs) [] = fault
strcmp_loop (suc m) (suc n) (x ∷ xs) (y ∷ ys) = if x == y then strcmp_loop m n xs ys else ok false

unfoldable pub strcmp : List ℕ → List ℕ → Run Bool
unfolding strlen strcmp_loop
strcmp str1 str2 = do
  len1 ← strlen str1
  len2 ← strlen str2
  if int_of len1 == int_of len2
      then strcmp_loop (int_rounds (int_of len1)) (int_rounds (int_of len2)) str1 str2
      else ok false

-- `str[0] = c`, then `str[1] = 0`.
append_here : List ℕ → ℕ → Run (List ℕ)
append_here [] c = fault
append_here (x ∷ []) c = fault
append_here (x ∷ y ∷ str) c = ok (c ∷ 0 ∷ str)

unfoldable pub add_char_to_string : List ℕ → ℕ → Run (List ℕ)
unfolding append_here
add_char_to_string [] c = fault
add_char_to_string (x ∷ xs) c =
    let rest = add_char_to_string xs c in
    if x == 0 then append_here (x ∷ xs) c else (do str ← rest; ok (x ∷ str))

remove_loop : ℕ → List ℕ → Run (List ℕ)
remove_loop zero str = ok str
remove_loop (suc i) str =
    let rest = remove_loop i str in
    do c ← checked (get_elem? str (suc i)); if c == 0 then rest else ok (set str (suc i) 0)

unfoldable pub remove_last_char : List ℕ → Run (List ℕ)
unfolding strlen remove_loop
remove_last_char str = do len ← strlen str; remove_loop (int_rounds (int_of len)) str

unfoldable pub strcpy : List ℕ → List ℕ → Run (List ℕ)
strcpy dest [] = fault
strcpy [] (c ∷ cs) = fault
strcpy (d ∷ ds) (c ∷ cs) =
    let rest = strcpy ds cs in if c == 0 then ok (0 ∷ ds) else (do str ← rest; ok (c ∷ str))

-- The contents of the static buffer.
unfoldable pub char_to_str : ℕ → List ℕ
char_to_str character = character ∷ 0 ∷ []

-- `*c - '0'` with a signed `char`, as the bit pattern of an `int`.
abbrev digit_value : ℕ → ℕ
digit_value c = (if ltb c 128 then c + 2 ^ 32 - 48 else c + 2 ^ 32 - 256 - 48) % 2 ^ 32

oct2bin_loop : ℕ → List ℕ → ℕ → Run ℕ
oct2bin_loop zero str n = ok n
oct2bin_loop (suc size) [] n = fault
oct2bin_loop (suc size) (c ∷ cs) n =
    oct2bin_loop size cs ((n * 8 % 2 ^ 32 + digit_value c) % 2 ^ 32)

-- The result is the bit pattern of an `int`, computed with wrap-around.
unfoldable pub oct2bin : List ℕ → ℕ → Run ℕ
unfolding oct2bin_loop
oct2bin str size = oct2bin_loop size str 0
