-- ===== src/Utils/Printf/Decimal.antt =====
-- What printf_template makes of `%d`.
use potat_os.Prelude.{
  ℕ, zero, suc, ◌^◌, ◌<◌, ◌≤◌, ◌≡◌, refl, ◌≢◌, ap, ◌∙◌, arith, true, false, ◌==◌, List, [], ◌∷◌,
  ◌++◌, map, length, length-append, length-drop, drop, set, ◌||◌, ◌⊎◌, Run, ok, fault, halted,
  out_of_fuel, ◌>>=◌, store-set,
}
use potat_os.Utils.Numerals.{IsNumeral}
use potat_os.Utils.Numbers.Reversed.{dec_digit}
use potat_os.Utils.Numbers.Filled.{uint64_to_string-PrintsOrFaults}
use potat_os.Utils.Printf.{Argument, number, Output, written, character, directive, printf_template}

-- No `%`.
abbrev pub Plain : List ℕ → Type 0
Plain [] = Unit
Plain (c ∷ cs) = (c ≢ b'%') × Plain cs

set_behind :
    (xs ys : List ℕ) (i : ℕ)
    → length xs ≤ i
    → (r : List ℕ) × (set (xs ++ (0 ∷ ys)) i 0 ≡ xs ++ (0 ∷ r))
set_behind [] ys zero le = (ys, refl)
set_behind [] ys (suc i) le = (set ys i 0, refl)
set_behind (x ∷ xs) ys zero le = absurd (omega arith)
set_behind (x ∷ xs) ys (suc i) le =
    let (r, e) = set_behind xs ys i (omega arith) in (r, ap (λ l. x ∷ l) e)

-- The results of a run, changed in two steps.
then_same : (r : Run (List Output)) → r ≡ (r >>= λ outs. ok outs)
then_same (ok x) = refl
then_same fault = refl
then_same halted = refl
then_same out_of_fuel = refl

then_cons :
    (c : Output) (front : List Output) (r : Run (List Output))
    → ((r >>= λ outs. ok (front ++ outs)) >>= λ outs. ok (c ∷ outs))
      ≡ (r >>= λ outs. ok (c ∷ (front ++ outs)))
then_cons c front (ok x) = refl
then_cons c front fault = refl
then_cons c front halted = refl
then_cons c front out_of_fuel = refl

then_then :
    (front : List Output) (c : Output) (r : Run (List Output))
    → ((r >>= λ outs. ok ((c ∷ []) ++ outs)) >>= λ outs. ok (front ++ outs))
      ≡ (r >>= λ outs. ok (front ++ (c ∷ outs)))
then_then front c (ok x) = refl
then_then front c fault = refl
then_then front c halted = refl
then_then front c out_of_fuel = refl

plain_one :
    (locals : ℕ → List ℕ) (c d : ℕ) (format : List ℕ) (args : List Argument)
    → c ≢ b'%'
    → printf_template locals (c ∷ d ∷ format) args
      ≡ (printf_template locals (d ∷ format) args >>= λ outs. ok (character c ∷ outs))
unfolding printf_template
plain_one locals c d format args ne =
    let test : (c == b'%') ≡ false = ground (arith, ne) in rw (test, printf_template) refl

-- Plain characters are written one by one.
printf_template-Plain :
    (locals : ℕ → List ℕ) (plain : List ℕ) (d : ℕ) (format : List ℕ) (args : List Argument)
    → Plain plain
    → printf_template locals (plain ++ (d ∷ format)) args
      ≡ (printf_template locals (d ∷ format) args >>= λ outs. ok (map character plain ++ outs))
printf_template-Plain locals [] d format args plain =
    then_same (printf_template locals (d ∷ format) args)
printf_template-Plain locals (c ∷ []) d format args (ne, plain) =
    plain_one locals c d format args ne
printf_template-Plain locals (c ∷ e ∷ cs) d format args (ne, plain) =
    plain_one locals c e (cs ++ (d ∷ format)) args ne
    ∙ ap (λ r. r >>= λ outs. ok (character c ∷ outs))
        (printf_template-Plain locals (e ∷ cs) d format args plain)
    ∙ then_cons (character c) (map character (e ∷ cs)) (printf_template locals (d ∷ format) args)

-- printf_template of a format with `%d` or `%i` behind plain characters, with a number as its first
-- argument: when the number has fewer than ten decimal digits, the plain characters, a string of the
-- decimal numeral and what the rest of the format gives are written; when it has ten or more, the local
-- buffer is written out of bounds.
pub printf_template-uint64_to_string :
    (locals : ℕ → List ℕ) (plain : List ℕ) (d : ℕ) (format : List ℕ) (n : ℕ) (args : List Argument)
    → ((size : ℕ) → length (locals size) ≡ size)
    → Plain plain
    → (d ≡ b'd') ⊎ (d ≡ b'i')
    → n < 2 ^ 64
    → (out : List ℕ) × IsNumeral 10 dec_digit n out
      × (length out < 10
          → (r : List ℕ) × (printf_template locals (plain ++ (b'%' ∷ d ∷ format)) (number n ∷ args)
              ≡ (printf_template locals format args >>= λ outs.
                  ok (map character plain ++ (written (out ++ (0 ∷ r)) ∷ outs)))))
      × (10 ≤ length out
          → printf_template locals (plain ++ (b'%' ∷ d ∷ format)) (number n ∷ args) ≡ fault)
unfolding printf_template directive
printf_template-uint64_to_string locals plain d format n args sizes is_plain kind bound =
    let p = uint64_to_string-PrintsOrFaults n (locals 10) bound in
    let first = printf_template-Plain locals plain b'%' (d ∷ format) (number n ∷ args) is_plain in
    let test : ((d == b'd') || (d == b'i')) ≡ true = ground (arith, kind) in
    (
      p.out,
      p.numeral,
      (λ short.
          let printed = p.returns (omega (arith, sizes 10)) in
          let (r, stored) =
            set_behind p.out (drop (suc (length p.out)) (locals 10)) 9 (omega arith) in
          let object = p.out ++ (0 ∷ drop (suc (length p.out)) (locals 10)) in
          let room : 9 < length object = omega (
            arith,
            length-append p.out (0 ∷ drop (suc (length p.out)) (locals 10)),
            length-drop (suc (length p.out)) (locals 10),
            sizes 10,
          ) in
          (
            r,
            first
                ∙ rw (test, printed, store-set object 9 0 room, stored, printf_template)
                    (then_then (map character plain) (written (p.out ++ (0 ∷ r)))
                      (printf_template locals format args)),
          )),
      λ long. first ∙ rw (test, p.faults (omega (arith, sizes 10))) refl,
    )
