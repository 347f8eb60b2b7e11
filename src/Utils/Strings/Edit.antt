-- ===== src/Utils/Strings/Edit.antt =====
-- `ku_strcpy`, `ku_add_char_to_string`, `ku_removeLastChar`, `ku_memcpy` and `ku_memset`.
use potat_os.Prelude.{
  ℕ, zero, suc, ◌+◌, ◌≤◌, ◌<◌, ◌^◌, ◌%◌, ◌≡◌, refl, ◌≢◌, ap, sym, ◌∙◌, false, List, [], ◌∷◌, ◌++◌,
  append_assoc, arith, ok, fault, ◌==◌, length, length-append, take, drop, replicate, some,
  set-append_at, get_elem?, get_elem?-append_at,
}
use potat_os.Utils.Strings.{
  int_of, int_rounds, strlen, memcpy, memset, append_here, add_char_to_string, remove_loop,
  remove_last_char, strcpy,
}
use potat_os.Utils.Strings.Compare.{NoNul, strlen-length}

-- `ku_memcpy` of `n` bytes between objects that have them replaces the first `n` bytes of the
-- destination by those of the source and leaves the rest.
pub memcpy_lem :
    (dest from : List ℕ) (n : ℕ)
    → n ≤ length dest
    → n ≤ length from
    → memcpy dest from n ≡ ok (take n from ++ drop n dest)
unfolding memcpy
memcpy_lem dest from zero hd hf = refl
memcpy_lem [] from (suc n) hd hf = absurd (omega arith)
memcpy_lem (d ∷ ds) [] (suc n) hd hf = absurd (omega arith)
memcpy_lem (d ∷ ds) (c ∷ cs) (suc n) hd hf = rw (memcpy_lem ds cs n (omega arith) (omega arith))

-- `ku_memset` of `n` bytes of an object that has them stores the low byte of the value `n` times and
-- leaves the rest.
pub memset_lem :
    (array : List ℕ) (value n : ℕ)
    → n ≤ length array
    → memset array value n ≡ ok (replicate n (value % 256) ++ drop n array)
unfolding memset
memset_lem array value zero h = refl
memset_lem [] value (suc n) h = absurd (omega arith)
memset_lem (d ∷ ds) value (suc n) h = rw (memset_lem ds value n (omega arith))

-- `ku_strcpy` copies the string with its terminator when the destination has room for both, and
-- leaves the rest of the destination; when it has no room for both, it writes out of bounds.
pub strcpy_lem :
    (dest s r : List ℕ)
    → NoNul s
    → (length s < length dest → strcpy dest (s ++ 0 ∷ r) ≡ ok (s ++ 0 ∷ drop (suc (length s)) dest))
      × (length dest ≤ length s → strcpy dest (s ++ 0 ∷ r) ≡ fault)
unfolding strcpy
strcpy_lem [] [] r h = (λ p. absurd (omega arith), λ p. refl)
strcpy_lem [] (c ∷ s) r h = (λ p. absurd (omega arith), λ p. refl)
strcpy_lem (d ∷ ds) [] r h = (λ p. refl, λ p. absurd (omega arith))
strcpy_lem (d ∷ ds) (c ∷ s) r h =
    let rest = strcpy_lem ds s r h.1 in
    let more : (c == 0) ≡ false = ground (arith, h.0) in
    (λ p. rw (more, rest.0 (omega arith)), λ p. rw (more, rest.1 (omega arith)))

-- `ku_add_char_to_string` puts the character behind the C string and terminates it anew, when the
-- object has a byte behind the terminator.
pub add_char_lem :
    (s r : List ℕ) (x c : ℕ) → NoNul s → add_char_to_string (s ++ 0 ∷ x ∷ r) c ≡ ok (s ++ c ∷ 0 ∷ r)
unfolding add_char_to_string append_here
add_char_lem [] r x c h = refl
add_char_lem (y ∷ s) r x c h =
    let more : (y == 0) ≡ false = ground (arith, h.0) in rw (more, add_char_lem s r x c h.1)

-- The object ends at the terminator: the new terminator is written out of bounds.
pub add_char_full : (s : List ℕ) (c : ℕ) → NoNul s → add_char_to_string (s ++ 0 ∷ []) c ≡ fault
unfolding add_char_to_string append_here
add_char_full [] c h = refl
add_char_full (y ∷ s) c h =
    let more : (y == 0) ≡ false = ground (arith, h.0) in rw (more, add_char_full s c h.1)

NoNul-snoc : (s : List ℕ) (c : ℕ) → NoNul s → c ≢ 0 → NoNul (s ++ c ∷ [])
NoNul-snoc [] c hs hc = (hc, tt)
NoNul-snoc (x ∷ s) c hs hc = (hs.0, NoNul-snoc s c hs.1 hc)

get_elem?-append_next :
    (xs ys : List ℕ) (x y : ℕ) → get_elem? (xs ++ x ∷ y ∷ ys) (suc (length xs)) ≡ some y
get_elem?-append_next [] ys x y = refl
get_elem?-append_next (z ∷ xs) ys x y = get_elem?-append_next xs ys x y

-- The loop starts at the terminator and clears the character before it.
remove_loop_last :
    (y c : ℕ) (s r : List ℕ)
    → c ≢ 0
    → remove_loop (suc (suc (length s))) ((y ∷ s) ++ c ∷ 0 ∷ r) ≡ ok ((y ∷ s) ++ 0 ∷ 0 ∷ r)
unfolding remove_loop
remove_loop_last y c s r hc =
    let more : (c == 0) ≡ false = ground (arith, hc) in
    rw (
      get_elem?-append_next s r c 0,
      get_elem?-append_at s (0 ∷ r) c,
      more,
      set-append_at s (0 ∷ r) c 0,
    )

strlen_snoc :
    (s r : List ℕ) (c : ℕ) → NoNul s → c ≢ 0 → strlen (s ++ c ∷ 0 ∷ r) ≡ ok (suc (length s))
strlen_snoc s r c hs hc =
    ap strlen (sym (append_assoc s (c ∷ []) (0 ∷ r)))
    ∙ strlen-length (s ++ c ∷ []) r (NoNul-snoc s c hs hc)
    ∙ ap ok (omega (arith, length-append s (c ∷ [])))

int_rounds_small : (n : ℕ) → n < 2 ^ 31 → int_rounds (int_of n) ≡ n
int_rounds_small n h = ground arith

-- Of a string of two or more characters `ku_removeLastChar` removes the last one; a string of
-- one character, which its loop never reaches, it leaves as it is.
pub remove_last_char_lem :
    (s r : List ℕ) (y c : ℕ)
    → NoNul (y ∷ s)
    → c ≢ 0
    → length s + 2 < 2 ^ 31
    → (remove_last_char ((y ∷ s) ++ c ∷ 0 ∷ r) ≡ ok ((y ∷ s) ++ 0 ∷ 0 ∷ r))
      × (remove_last_char (c ∷ 0 ∷ r) ≡ ok (c ∷ 0 ∷ r))
unfolding remove_last_char
remove_last_char_lem s r y c hs hc fits = (
  rw (strlen_snoc (y ∷ s) r c hs hc, int_rounds_small (suc (suc (length s))) (omega arith))
      (remove_loop_last y c s r hc),
  rw (strlen_snoc [] r c tt hc) (unfold remove_loop in refl),
)
