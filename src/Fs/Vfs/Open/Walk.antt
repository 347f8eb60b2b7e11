-- ===== src/Fs/Vfs/Open/Walk.antt =====
-- The walk of `open` along a path is a recursion on its components.
use potat_os.Prelude.{
  ℕ, zero, suc, ◌+◌, ◌<◌, ◌≡◌, refl, ◌≢◌, ap, ◌∙◌, subst, arith, false, ◌++◌, ◌==◌, List, [], ◌∷◌,
  append_assoc, length, length-append, Option, none, some, Run, ok, fault, halted, out_of_fuel,
  checked, ◌>>=◌, get_elem?,
}
use potat_os.Fs.Vfs.{FileSystem}
use potat_os.Fs.Vfs.Open.{or_null, enter_dir, enter_file, open_loop}
use potat_os.Fs.Vfs.Open.Components.{
  IsName, AreNames, join, cut_component-name, drop-cut, get_elem?-behind,
}

-- Two ways to go on that agree at every result.
pub bind_ext :
    {A B : Type 0} (m : Run A) {f g : A → Run B} → ((a : A) → f a ≡ g a) → (m >>= f) ≡ (m >>= g)
bind_ext (ok a) h = h a
bind_ext fault h = refl
bind_ext halted h = refl
bind_ext out_of_fuel h = refl

or_null_ext :
    {X S : Type 0} (o : Option ℕ) (s : S) {k k' : ℕ → Run (Option X × S)}
    → ((x : ℕ) → k x ≡ k' x)
    → or_null o s k ≡ or_null o s k'
or_null_ext none s h = refl
or_null_ext (some x) s h = h x

-- The loop reads a character that is no terminator.
pub head_char :
    (before d rest : List ℕ) (i : ℕ)
    → IsName d
    → i ≡ length before
    → (c : ℕ) × (checked (get_elem? (before ++ (d ++ (47 ∷ rest))) i) ≡ ok c) × (c ≢ 0)
head_char before [] rest i name e = (47, get_elem?-behind before 47 rest i e, omega arith)
head_char before (c ∷ d) rest i name e =
    (c, get_elem?-behind before c (d ++ (47 ∷ rest)) i e, name.0)

module _ {D S : Type 0} (fs : FileSystem D S) (flags mode : ℕ) (junk : List ℕ) where
  -- Each directory is entered, and then the last component, if there is one. The names are C strings
  -- in the copy of the path, with the rest of the path behind them.
  abbrev pub open_at : List (List ℕ) → List ℕ → ℕ → S → Run (Option (ℕ × List ℕ) × S)
  open_at [] [] obj s = ok (some (obj, 0 ∷ junk), s)
  open_at [] (c ∷ last) obj s = do
    (opened, s') ← enter_file fs flags mode obj (c ∷ (last ++ (0 ∷ junk))) s
    or_null opened s' (λ o. ok (some (o, c ∷ (last ++ (0 ∷ junk))), s'))
  open_at (d ∷ ds) last obj s = do
    (inner, s') ← enter_dir fs flags obj (d ++ (0 ∷ (join ds last ++ (0 ∷ junk)))) s
    or_null inner s' (λ o. open_at ds last o s')

  -- The loop of `open` over the rest of a path returns for every path, and does what the recursion
  -- on the components does; the path's length is fuel enough.
  pub open_loop-open_at :
      (ds : List (List ℕ)) (last before r : List ℕ) (fuel i obj : ℕ) (s : S)
      → AreNames ds
      → IsName last
      → i ≡ length before
      → length (join ds last) < fuel
      → open_loop fs fuel
          (before ++ (join ds last ++ (0 ∷ r)))
          flags
          mode
          i
          (join ds last ++ (0 ∷ junk))
          obj
          s
        ≡ open_at ds last obj s
  unfolding open_loop
  open_loop-open_at ds last before r zero i obj s hd hl e lt = absurd (omega arith)
  open_loop-open_at [] [] before r (suc fuel) i obj s hd hl e lt =
      rw (get_elem?-behind before 0 r i e) refl
  open_loop-open_at [] (c ∷ last) before r (suc fuel) i obj s hd hl e lt =
      let more : (c == 0) ≡ false = ground (arith, hl.0) in
      rw
        (
          get_elem?-behind before c (last ++ (0 ∷ r)) i e,
          more,
          cut_component-name (c ∷ last) 0 junk hl refl,
        )
        refl
  open_loop-open_at (d ∷ ds) last before r (suc fuel) i obj s hd hl e lt =
      let text = join ds last in
      let (c, read, ne) = head_char before d (text ++ (0 ∷ r)) i hd.0 e in
      let more : (c == 0) ≡ false = ground (arith, ne) in
      let moved : (before ++ (d ++ (47 ∷ []))) ++ (text ++ (0 ∷ r))
          ≡ before ++ (d ++ (47 ∷ (text ++ (0 ∷ r)))) =
        append_assoc before (d ++ (47 ∷ [])) (text ++ (0 ∷ r))
        ∙ ap (λ t. before ++ t) (append_assoc d (47 ∷ []) (text ++ (0 ∷ r))) in
      let size = length-append before (d ++ (47 ∷ [])) in
      let size' = length-append d (47 ∷ []) in
      let size'' = length-append d (47 ∷ text) in
      rw
        (
          append_assoc d (47 ∷ text) (0 ∷ r),
          append_assoc d (47 ∷ text) (0 ∷ junk),
          read,
          more,
          cut_component-name d 47 (text ++ (0 ∷ junk)) hd.0 refl,
          drop-cut d (text ++ (0 ∷ junk)),
        )
        (bind_ext (enter_dir fs flags obj (d ++ (0 ∷ (text ++ (0 ∷ junk)))) s) (λ x.
          or_null_ext x.0 x.1 (λ o.
            subst
              (λ p.
                open_loop fs fuel p flags mode (i + (length d + 1)) (text ++ (0 ∷ junk)) o x.1
                ≡ open_at ds last o x.1)
              moved
              (open_loop-open_at ds last (before ++ (d ++ (47 ∷ []))) r fuel (i + (length d + 1)) o
                x.1 hd.1 hl (omega arith) (omega arith)))))
