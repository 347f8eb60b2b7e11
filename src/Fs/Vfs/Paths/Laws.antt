-- ===== src/Fs/Vfs/Paths/Laws.antt =====
-- Completed paths.
use potat_os.Prelude.{
  ℕ, suc, ◌+◌, ◌≤◌, ◌≡◌, refl, ◌≢◌, ap, sym, ◌∙◌, subst, arith, true, false, ◌++◌, ◌==◌, List, [],
  ◌∷◌, append_assoc, length, length-append, length-drop, take, drop, take-length_append,
  drop-length_append, Run, ok, store,
}
use potat_os.Utils.Strings.{memcpy}
use potat_os.Utils.Strings.Compare.{NoNul, strlen-length}
use potat_os.Utils.Strings.Edit.{memcpy_lem}
use potat_os.Fs.Vfs.Paths.{has_drive, extend_path}

-- `malloc(n)` gives `n` bytes or more.
abbrev pub Allocates : (ℕ → List ℕ) → Type 0
Allocates alloc = (n : ℕ) → n ≤ length (alloc n)

-- `r` is the C string `s`, in whatever object.
abbrev pub IsString : Run (List ℕ) → List ℕ → Type 0
IsString r s = (rest : List ℕ) × (r ≡ ok (s ++ (0 ∷ rest)))

-- A copy of a string to the front of an object that has room for it.
memcpy-string :
    (object s r : List ℕ)
    → length s + 1 ≤ length object
    → (rest : List ℕ) × (memcpy object (s ++ (0 ∷ r)) (length s + 1) ≡ ok (s ++ (0 ∷ rest)))
memcpy-string object s r room = (
  drop (length s + 1) object,
  memcpy_lem object (s ++ (0 ∷ r)) (length s + 1) room (omega (arith, length-append s (0 ∷ r)))
      ∙ ap ok (
          ap (λ t. t ++ drop (length s + 1) object) (whole s (length s + 1) (omega arith))
          ∙ append_assoc s (0 ∷ []) (drop (length s + 1) object)),
)
  where
    whole : (s : List ℕ) (n : ℕ) → n ≡ suc (length s) → take n (s ++ (0 ∷ r)) ≡ s ++ (0 ∷ [])
    whole [] n e = rw e refl
    whole (c ∷ s) n e = rw e (ap (λ t. c ∷ t) (whole s (suc (length s)) refl))

two_bytes : (o : List ℕ) → 2 ≤ length o → (x : ℕ) × (y : ℕ) × (o' : List ℕ) × (o ≡ x ∷ y ∷ o')
two_bytes [] h = absurd (omega arith)
two_bytes (x ∷ []) h = absurd (omega arith)
two_bytes (x ∷ y ∷ o) h = (x, y, o, refl)

module _ (alloc : ℕ → List ℕ) (room : Allocates alloc) where
  extend_rooted :
      (d : ℕ) (cd p r : List ℕ)
      → NoNul (47 ∷ p)
      → has_drive (47 ∷ (p ++ (0 ∷ r))) ≡ ok false
      → IsString (extend_path alloc (d ∷ cd) (47 ∷ (p ++ (0 ∷ r)))) (d ∷ 58 ∷ 47 ∷ p)
  unfolding extend_path store
  extend_rooted d cd p r nonul bare =
      let len : ℕ = length (47 ∷ p) in
      let (x, y, o, e) = two_bytes (alloc (len + 3)) (omega (arith, room (len + 3))) in
      let (rest, copied) =
        memcpy-string o (47 ∷ p) r (omega (arith, room (len + 3), ap length e)) in
      (rest, rw (bare, strlen-length (47 ∷ p) r nonul, e, copied) refl)

  extend_relative :
      (cd q : List ℕ) (f : ℕ) (p r : List ℕ)
      → NoNul cd
      → NoNul (f ∷ p)
      → f ≢ 47
      → has_drive (f ∷ (p ++ (0 ∷ r))) ≡ ok false
      → IsString (extend_path alloc (cd ++ (0 ∷ q)) (f ∷ (p ++ (0 ∷ r)))) (cd ++ (f ∷ p))
  unfolding extend_path
  extend_relative cd q f p r nocd nonul rel bare =
      let len : ℕ = length (f ∷ p) in
      let o = alloc (length cd + len + 1) in
      let size = room (length cd + len + 1) in
      let other : (f == 47) ≡ false = ground (arith, rel) in
      let front =
        memcpy_lem o (cd ++ (0 ∷ q)) (length cd) (omega arith)
          (omega (arith, length-append cd (0 ∷ q)))
        ∙ ap ok (ap (λ t. t ++ drop (length cd) o) (take-length_append cd (0 ∷ q))) in
      let (rest, copied) =
        memcpy-string (drop (length cd) o) (f ∷ p) r (omega (arith, length-drop (length cd) o)) in
      (
        rest,
        rw
            (
              bare,
              strlen-length (f ∷ p) r nonul,
              other,
              strlen-length cd q nocd,
              front,
              drop-length_append cd (drop (length cd) o),
              copied,
              take-length_append cd (drop (length cd) o),
              append_assoc cd (f ∷ p) (0 ∷ rest),
            )
            refl,
      )

  -- A path is completed to a C string on every branch: one with a drive is kept; one that starts
  -- with a slash gets the drive of the current directory; any other is put behind the current
  -- directory.
  pub extend_path_lem :
      (d : ℕ) (cd q : List ℕ) (f : ℕ) (p r : List ℕ)
      → NoNul (d ∷ cd)
      → NoNul (f ∷ p)
      → (has_drive (f ∷ (p ++ (0 ∷ r))) ≡ ok true
          → IsString (extend_path alloc (d ∷ (cd ++ (0 ∷ q))) (f ∷ (p ++ (0 ∷ r)))) (f ∷ p))
        × (has_drive (f ∷ (p ++ (0 ∷ r))) ≡ ok false
            → f ≡ 47
            → IsString
                (extend_path alloc (d ∷ (cd ++ (0 ∷ q))) (f ∷ (p ++ (0 ∷ r))))
                (d ∷ 58 ∷ f ∷ p))
        × (has_drive (f ∷ (p ++ (0 ∷ r))) ≡ ok false
            → f ≢ 47
            → IsString
                (extend_path alloc (d ∷ (cd ++ (0 ∷ q))) (f ∷ (p ++ (0 ∷ r))))
                (d ∷ (cd ++ (f ∷ p))))
  unfolding extend_path
  extend_path_lem d cd q f p r nocd nonul = (
    λ full. (r, rw full refl),
    λ bare root.
        subst
          (λ f.
            NoNul (f ∷ p)
            → has_drive (f ∷ (p ++ (0 ∷ r))) ≡ ok false
            → IsString (extend_path alloc (d ∷ (cd ++ (0 ∷ q))) (f ∷ (p ++ (0 ∷ r))))
                (d ∷ 58 ∷ f ∷ p))
          (sym root) (extend_rooted d (cd ++ (0 ∷ q)) p r) nonul bare,
    λ bare rel. extend_relative (d ∷ cd) q f p r nocd nonul rel bare,
  )
