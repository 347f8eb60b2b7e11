-- ===== src/Utils/Reverse.antt =====
-- `ku_reverse` of src/utils/string.c.
use mathlib.Core.List.{reverse-cons}
use potat_os.Prelude.{
  ℕ, zero, suc, ◌+◌, ◌-◌, ◌<◌, ◌≡◌, refl, ap, sym, ◌∙◌, true, List, [], ◌∷◌, ◌++◌, reverse,
  append_assoc, reverse-append, arith, subst, some, if◌then◌else◌, Run, ok, out_of_fuel, checked,
  ◌>>=◌, ltb, length, length-append, get_elem?, set, get_elem?-append_at, set-append_at,
}

-- `stop` is `end + 1`, since `end` is -1 for an empty string: `start < end` is `start + 1 < stop`.
reverse_loop : ℕ → ℕ → ℕ → List ℕ → Run (List ℕ)
reverse_loop zero start stop str = out_of_fuel
reverse_loop (suc k) start stop str =
    let rest = do
      temp ← checked (get_elem? str start)
      last ← checked (get_elem? str (stop - 1))
      reverse_loop k (start + 1) (stop - 1) (set (set str start last) (stop - 1) temp)
    in if ltb (start + 1) stop then rest else ok str

unfoldable pub ku_reverse : List ℕ → ℕ → Run (List ℕ)
unfolding reverse_loop
ku_reverse str length = reverse_loop (length + 1) 0 length str

get_at : (xs ys : List ℕ) (x i : ℕ) → i ≡ length xs → get_elem? (xs ++ (x ∷ ys)) i ≡ some x
get_at xs ys x i e = rw e (get_elem?-append_at xs ys x)

set_at : (xs ys : List ℕ) (x v i : ℕ) → i ≡ length xs → set (xs ++ (x ∷ ys)) i v ≡ xs ++ (v ∷ ys)
set_at xs ys x v i e = rw e (set-append_at xs ys x v)

-- The last element of the middle part `x ∷ m ++ y ∷ []`, with its place in the buffer.
module _ (pre m post : List ℕ) (x y i : ℕ) (e : i ≡ length pre + length m + 1) where
  far_place : i ≡ length (pre ++ (x ∷ m))
  far_place = omega (arith, length-append pre (x ∷ m))

  get_far : get_elem? (pre ++ (x ∷ (m ++ (y ∷ post)))) i ≡ some y
  get_far =
      ap (λ l. get_elem? l i) (sym (append_assoc pre (x ∷ m) (y ∷ post)))
      ∙ get_at (pre ++ (x ∷ m)) post y i far_place

  set_far : (v : ℕ) → set (pre ++ (x ∷ (m ++ (y ∷ post)))) i v ≡ pre ++ (x ∷ (m ++ (v ∷ post)))
  set_far v =
      ap (λ l. set l i v) (sym (append_assoc pre (x ∷ m) (y ∷ post)))
      ∙ set_at (pre ++ (x ∷ m)) post y v i far_place
      ∙ append_assoc pre (x ∷ m) (v ∷ post)

-- One round exchanges the two ends of what is left.
reverse_step :
    (k start stop : ℕ) (pre m post : List ℕ) (x y : ℕ)
    → start ≡ length pre
    → stop ≡ length pre + length m + 2
    → reverse_loop (suc k) start stop (pre ++ (x ∷ (m ++ (y ∷ post))))
      ≡ reverse_loop k (start + 1) (stop - 1) (pre ++ (y ∷ (m ++ (x ∷ post))))
unfolding reverse_loop
reverse_step k start stop pre m post x y e f =
    let more : ltb (start + 1) stop ≡ true = ground arith in
    rw (
      more,
      get_at pre (m ++ (y ∷ post)) x start e,
      get_far pre m post x y (stop - 1) (omega arith),
      set_at pre (m ++ (y ∷ post)) x y start e,
      set_far pre m post y y (stop - 1) (omega arith) x,
    )

snoc_view : (z : ℕ) (zs : List ℕ) → (m : List ℕ) × (y : ℕ) × (z ∷ zs ≡ m ++ (y ∷ []))
snoc_view z [] = ([], z, refl)
snoc_view z (w ∷ zs) = let (m, y, e) = snoc_view w zs in (z ∷ m, y, ap (λ l. z ∷ l) e)

reverse_ends : (m : List ℕ) (x y : ℕ) → reverse (x ∷ (m ++ (y ∷ []))) ≡ y ∷ (reverse m ++ (x ∷ []))
reverse_ends m x y =
    reverse-cons x (m ++ (y ∷ [])) ∙ ap (λ l. l ++ (x ∷ [])) (reverse-append m (y ∷ []))

-- The round, and then the rest of the loop as a hypothesis.
reverse_round :
    (k start stop : ℕ) (pre m post : List ℕ) (x y : ℕ)
    → start ≡ length pre
    → stop ≡ length pre + length m + 2
    → reverse_loop k (start + 1) (stop - 1) ((pre ++ (y ∷ [])) ++ (m ++ (x ∷ post)))
      ≡ ok ((pre ++ (y ∷ [])) ++ (reverse m ++ (x ∷ post)))
    → reverse_loop (suc k) start stop (pre ++ ((x ∷ (m ++ (y ∷ []))) ++ post))
      ≡ ok (pre ++ (reverse (x ∷ (m ++ (y ∷ []))) ++ post))
reverse_round k start stop pre m post x y e f ih =
    ap (λ l. reverse_loop (suc k) start stop (pre ++ (x ∷ l))) (append_assoc m (y ∷ []) post)
    ∙ reverse_step k start stop pre m post x y e f
    ∙ ap (reverse_loop k (start + 1) (stop - 1)) (sym (append_assoc pre (y ∷ []) (m ++ (x ∷ post))))
    ∙ ih
    ∙ ap ok (
        append_assoc pre (y ∷ []) (reverse m ++ (x ∷ post))
        ∙ ap (λ l. pre ++ (y ∷ l)) (sym (append_assoc (reverse m) (x ∷ []) post))
        ∙ ap (λ l. pre ++ (l ++ post)) (sym (reverse_ends m x y)))

reverse_loop_lem :
    (k start stop : ℕ) (pre mid post : List ℕ)
    → start ≡ length pre
    → stop ≡ length pre + length mid
    → length mid < k
    → reverse_loop k start stop (pre ++ (mid ++ post)) ≡ ok (pre ++ (reverse mid ++ post))
reverse_loop_lem zero start stop pre mid post e f fuel = absurd (omega arith)
reverse_loop_lem (suc k) start stop pre [] post e f fuel = unfold reverse_loop in ground arith
reverse_loop_lem (suc k) start stop pre (x ∷ []) post e f fuel = unfold reverse_loop in ground arith
reverse_loop_lem (suc k) start stop pre (x ∷ z ∷ zs) post e f fuel =
    let (m, y, v) = snoc_view z zs in
    let size : suc (length zs) ≡ length m + 1 = ap length v ∙ length-append m (y ∷ []) in
    let ih =
      reverse_loop_lem k (start + 1) (stop - 1) (pre ++ (y ∷ [])) m (x ∷ post)
        (omega (arith, length-append pre (y ∷ []))) (omega (arith, length-append pre (y ∷ [])))
        (omega arith) in
    subst
      (λ t.
        reverse_loop (suc k) start stop (pre ++ ((x ∷ t) ++ post))
        ≡ ok (pre ++ (reverse (x ∷ t) ++ post)))
      (sym v) (reverse_round k start stop pre m post x y e (omega arith) ih)

-- `ku_reverse` turns the first `n` bytes of its object round in place and leaves the rest, for
-- every `n` up to the size of the object; it reads and writes nothing outside.
pub ku_reverse-reverse :
    (mid post : List ℕ) → ku_reverse (mid ++ post) (length mid) ≡ ok (reverse mid ++ post)
unfolding ku_reverse
ku_reverse-reverse mid post =
    reverse_loop_lem (length mid + 1) 0 (length mid) [] mid post refl (omega arith) (omega arith)
