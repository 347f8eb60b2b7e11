-- ===== src/Fs/Vfs/Open/Whole.antt =====
-- `open` of a path with a drive.
use potat_os.Prelude.{
  ℕ, ◌+◌, ◌≡◌, refl, ap, ◌∙◌, subst, arith, false, ◌++◌, List, [], ◌∷◌, length, length-append,
  length-drop, drop, take-length_append, ok, fault, store, store_beyond,
}
use potat_os.Utils.Strings.{memcpy}
use potat_os.Utils.Strings.Compare.{NoNul, strlen-length}
use potat_os.Utils.Strings.Edit.{memcpy_lem}
use potat_os.Fs.Vfs.{Vfs, not_letter}
use potat_os.Fs.Vfs.Paths.{has_drive, extend_path}
use potat_os.Fs.Vfs.Open.{open_path}
use potat_os.Fs.Vfs.Open.Components.{IsName, AreNames, join}

NoNul-name : (d : List ℕ) → IsName d → NoNul d
NoNul-name [] n = tt
NoNul-name (c ∷ d) n = (n.0, NoNul-name d n.2)

NoNul-append : (s t : List ℕ) → NoNul s → NoNul t → NoNul (s ++ t)
NoNul-append [] t hs ht = ht
NoNul-append (c ∷ s) t hs ht = (hs.0, NoNul-append s t hs.1 ht)

pub NoNul-join :
    (ds : List (List ℕ)) (last : List ℕ) → AreNames ds → IsName last → NoNul (join ds last)
NoNul-join [] last hd hl = NoNul-name last hl
NoNul-join (d ∷ ds) last hd hl =
    NoNul-append d (47 ∷ join ds last) (NoNul-name d hd.0) (omega arith, NoNul-join ds last hd.1 hl)

module _ {D S : Type 0} (alloc : ℕ → List ℕ) (v : Vfs D S) where
  pub extend-full :
      (letter : ℕ) (text r : List ℕ)
      → NoNul (letter ∷ 58 ∷ 47 ∷ text)
      → extend_path alloc v.current_dir (letter ∷ 58 ∷ 47 ∷ (text ++ (0 ∷ r)))
        ≡ ok (letter ∷ 58 ∷ 47 ∷ (text ++ (0 ∷ r)))
  unfolding extend_path has_drive
  extend-full letter text r h = refl

  -- When the object is no longer than `malloc` was asked for, the terminator of the copy is written
  -- out of bounds, whatever the path with a drive is.
  pub open_path_overflow :
      (letter flags mode : ℕ) (ds : List (List ℕ)) (last r : List ℕ)
      → not_letter letter ≡ false
      → AreNames ds
      → IsName last
      → length (alloc (3 + length (join ds last))) ≡ 3 + length (join ds last)
      → open_path alloc (letter ∷ 58 ∷ 47 ∷ (join ds last ++ (0 ∷ r))) flags mode v ≡ fault
  unfolding open_path
  open_path_overflow letter flags mode ds last r up hd hl exact =
      let text : List ℕ = letter ∷ 58 ∷ 47 ∷ join ds last in
      let nonul : NoNul text =
        (ground (arith, up), (omega arith, (omega arith, NoNul-join ds last hd hl))) in
      let n = length text in
      let full : length (alloc n) ≡ n = subst (λ m. length (alloc m) ≡ m) (omega arith) exact in
      let copied : memcpy (alloc n) (text ++ (0 ∷ r)) n ≡ ok (text ++ drop n (alloc n)) =
        memcpy_lem (alloc n) (text ++ (0 ∷ r)) n (omega (arith, full))
          (omega (arith, length-append text (0 ∷ r)))
        ∙ ap ok (ap (λ t. t ++ drop n (alloc n)) (take-length_append text (0 ∷ r))) in
      let size = length-append text (drop n (alloc n)) in
      let over : store (text ++ drop n (alloc n)) n 0 ≡ fault =
        store_beyond (text ++ drop n (alloc n)) n 0
          (omega (arith, size, length-drop n (alloc n), full)) in
      rw (extend-full letter (join ds last) r nonul, up, strlen-length text r nonul, copied, over)
        refl
