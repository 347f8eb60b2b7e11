-- ===== src/Utils/Strings/Compare.antt =====
-- `ku_strlen`, `ku_strcmp` and `ku_memcmp`.
use potat_os.Prelude.{
  ℕ, zero, suc, ◌+◌, ◌≤◌, ◌<◌, ◌^◌, ◌≡◌, refl, ◌≢◌, ◌↔◌, ap, ◌∙◌, Bool, true, false, List, [], ◌∷◌,
  ◌++◌, arith, Run, ok, ◌==◌, Bool-cases, inl, inr, length, take,
}
use potat_os.Utils.Strings.{strlen_loop, strlen, memcmp, strcmp_loop, strcmp}

-- The characters of a C string: no zero byte among them.
abbrev pub NoNul : List ℕ → Type 0
NoNul [] = Unit
NoNul (x ∷ xs) = (x ≢ 0) × NoNul xs

strlen_loop_lem : (s r : List ℕ) (n : ℕ) → NoNul s → strlen_loop (s ++ 0 ∷ r) n ≡ ok (n + length s)
unfolding strlen_loop
strlen_loop_lem [] r n h = ap ok (omega arith)
strlen_loop_lem (x ∷ s) r n h = ground (arith, strlen_loop_lem s r (n + 1) h.1)

pub strlen-length : (s r : List ℕ) → NoNul s → strlen (s ++ 0 ∷ r) ≡ ok (length s)
unfolding strlen
strlen-length s r h = strlen_loop_lem s r 0 h ∙ ap ok (omega arith)

abbrev pub Decides : Run Bool → Type 0 → Type 0
Decides r P = (b : Bool) × (r ≡ ok b) × ((b ≡ true) ↔ P)

strcmp_loop_lem :
    (s t r q : List ℕ)
    → length s ≡ length t
    → Decides (strcmp_loop (length s) (length t) (s ++ r) (t ++ q)) (s ≡ t)
unfolding strcmp_loop
strcmp_loop_lem [] [] r q e = (true, refl, (λ _. refl, λ _. refl))
strcmp_loop_lem [] (y ∷ t) r q e = absurd (omega arith)
strcmp_loop_lem (x ∷ s) [] r q e = absurd (omega arith)
strcmp_loop_lem (x ∷ s) (y ∷ t) r q e = elim (Bool-cases (x == y)) [
  | inl same ↦
      let (b, runs, means) = strcmp_loop_lem s t r q (omega arith) in
      (b, rw same runs, (λ h. ground (arith, means.0 h), λ h. means.1 (cc)))
  | inr other ↦ (false, rw other, (λ h. cc, λ h. ground arith))
]

-- Strings of different lengths differ.
ne_of_lengths : (s t : List ℕ) → length s ≢ length t → s ≢ t
ne_of_lengths s t h e = h (ap length e)

-- On two C strings shorter than 2^31, whatever follows them in memory, `ku_strcmp` returns, and
-- returns `true` exactly when the strings are equal.
pub strcmp_decides :
    (s t r q : List ℕ)
    → NoNul s
    → NoNul t
    → length s < 2 ^ 31
    → length t < 2 ^ 31
    → Decides (strcmp (s ++ 0 ∷ r) (t ++ 0 ∷ q)) (s ≡ t)
unfolding strcmp
strcmp_decides s t r q hs ht ls lt =
    rw (strlen-length s r hs, strlen-length t q ht)
      (elim (Bool-cases (length s == length t)) [
        | inl same ↦
            let e : length s ≡ length t = ground arith in
            let (b, runs, means) = strcmp_loop_lem s t (0 ∷ r) (0 ∷ q) e in
            (b, ground (arith, runs), means)
        | inr other ↦
            (false, ground arith, (λ h. cc, λ h. absurd (ne_of_lengths s t (ground arith) h)))
      ])

-- When both objects have `size` bytes, `ku_memcmp` returns, and returns `true` exactly when the
-- first `size` bytes agree.
pub memcmp_decides :
    (xs ys : List ℕ) (size : ℕ)
    → size ≤ length xs
    → size ≤ length ys
    → Decides (memcmp xs ys size) (take size xs ≡ take size ys)
unfolding memcmp
memcmp_decides xs ys zero hx hy = (true, refl, (λ _. refl, λ _. refl))
memcmp_decides [] ys (suc size) hx hy = absurd (omega arith)
memcmp_decides (x ∷ xs) [] (suc size) hx hy = absurd (omega arith)
memcmp_decides (x ∷ xs) (y ∷ ys) (suc size) hx hy = elim (Bool-cases (x == y)) [
  | inl same ↦
      let (b, runs, means) = memcmp_decides xs ys size (omega arith) (omega arith) in
      (b, rw same runs, (λ h. ground (arith, means.0 h), λ h. means.1 (cc)))
  | inr other ↦ (false, rw other, (λ h. cc, λ h. ground arith))
]
