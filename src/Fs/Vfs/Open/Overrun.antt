-- ===== src/Fs/Vfs/Open/Overrun.antt =====
-- `mkdir` of a path that does not end in a slash.
use potat_os.Prelude.{
  ℕ, zero, suc, ◌+◌, ◌<◌, ◌≤◌, ◌≡◌, refl, ap, sym, ◌∙◌, subst, arith, false, ◌||◌, ◌++◌, ◌==◌, List,
  [], ◌∷◌, append_assoc, length, length-append, drop, take, get_elem?, take-length_append,
  if◌then◌else◌, some, Run, ok, fault, halted, out_of_fuel, ◌>>=◌, checked, get_elem?-beyond,
}
use potat_os.Utils.Strings.{memcpy}
use potat_os.Utils.Strings.Compare.{NoNul, strlen-length}
use potat_os.Utils.Strings.Edit.{memcpy_lem}
use potat_os.Fs.Vfs.{FileSystem, Drive, Vfs, upper, not_letter, drive_of}
use potat_os.Fs.Vfs.Paths.{has_drive}
use potat_os.Fs.Vfs.Open.{cut_component, comp_len, make_dir, mkdir_loop, mkdir}
use potat_os.Fs.Vfs.Open.Components.{
  IsName, AreNames, join, cut_component-name, drop-cut, get_elem?-behind,
}
use potat_os.Fs.Vfs.Open.Walk.{bind_ext}
use potat_os.Fs.Vfs.Open.Whole.{NoNul-join, extend-full}

bind_assoc :
    {A B C : Type 0} (m : Run A) (f : A → Run B) (g : B → Run C)
    → ((m >>= f) >>= g) ≡ (m >>= (λ a. f a >>= g))
bind_assoc (ok a) f g = refl
bind_assoc fault f g = refl
bind_assoc halted f g = refl
bind_assoc out_of_fuel f g = refl

-- Names of at least one character.
abbrev pub AreFull : List (List ℕ) → Type 0
AreFull [] = Unit
AreFull ([] ∷ ds) = ⊥
AreFull ((c ∷ d) ∷ ds) = IsName (c ∷ d) × AreFull ds

AreFull-AreNames : (ds : List (List ℕ)) → AreFull ds → AreNames ds
AreFull-AreNames [] h = tt
AreFull-AreNames ([] ∷ ds) h = absurd h
AreFull-AreNames ((c ∷ d) ∷ ds) h = (h.0, AreFull-AreNames ds h.1)

join-append : (ds : List (List ℕ)) (last z : List ℕ) → join ds last ++ z ≡ join ds (last ++ z)
join-append [] last z = refl
join-append (d ∷ ds) last z =
    append_assoc d (47 ∷ join ds last) z ∙ ap (λ t. d ++ (47 ∷ t)) (join-append ds last z)

drop_all : (n : ℕ) (xs : List ℕ) → length xs ≡ n → drop n xs ≡ []
drop_all zero [] e = refl
drop_all zero (x ∷ xs) e = absurd (omega (arith, e))
drop_all (suc n) [] e = refl
drop_all (suc n) (x ∷ xs) e = drop_all n xs (omega (arith, e))

append_nil : (xs : List ℕ) → xs ++ [] ≡ xs
append_nil [] = refl
append_nil (x ∷ xs) = ap (λ l. x ∷ l) (append_nil xs)

length-join : (ds : List (List ℕ)) (last : List ℕ) → length (join ds []) ≤ length (join ds last)
length-join [] last = omega arith
length-join (d ∷ ds) last =
    let shorter = length-join ds last in
    let left = length-append d (47 ∷ join ds []) in
    let right = length-append d (47 ∷ join ds last) in omega (arith, shorter, left, right)

comp_len_fault : (d : List ℕ) → IsName d → comp_len d ≡ fault
unfolding comp_len
comp_len_fault [] name = refl
comp_len_fault (c ∷ d) name =
    let more : (c == 47 || c == 0) ≡ false = ground (arith, name.0, name.1) in
    rw (more, comp_len_fault d name.2) refl

module _ {D S X : Type 0} (fs : FileSystem D S) where
  -- One component: the directory is found, or made and found, and entered.
  abbrev pub enter : ℕ → List ℕ → S → (ℕ → S → Run X) → Run X
  enter obj name s k = do
    found ← fs.find_function obj name s
    (this_dir, s') ← (if found == 0 then make_dir fs obj name s else ok (found, s))
    inner ← fs.open_dir_function this_dir s'
    k inner s'

  -- Every component is entered, with what stands behind it in the copy, `rest` at its end.
  abbrev pub enter_all : List (List ℕ) → List ℕ → (ℕ → S → Run X) → ℕ → S → Run X
  enter_all [] rest k obj s = k obj s
  enter_all (d ∷ ds) rest k obj s = enter obj (d ++ (0 ∷ (join ds rest))) s (enter_all ds rest k)

  -- Until its last component, the loop enters one after the other.
  mkdir_loop-enter_all :
      (h : S → Run X) (k : ℕ → S → Run X) (behind rest : List ℕ)
      → ((before : List ℕ) (fuel i obj : ℕ) (s : S)
          → i ≡ length before
          → (mkdir_loop fs (suc (suc fuel)) (before ++ behind) i rest obj s >>= h) ≡ k obj s)
      → (ds : List (List ℕ)) (before : List ℕ) (fuel i obj : ℕ) (s : S) → AreFull ds
      → i ≡ length before
      → length (join ds []) + 1 < fuel
      → (mkdir_loop fs fuel (before ++ join ds behind) i (join ds rest) obj s >>= h)
        ≡ enter_all ds rest k obj s
  unfolding mkdir_loop
  mkdir_loop-enter_all h k behind rest end ds before zero i obj s hd e lt = absurd (omega arith)
  mkdir_loop-enter_all h k behind rest end [] before (suc zero) i obj s hd e lt =
      absurd (omega (arith, lt))
  mkdir_loop-enter_all h k behind rest end [] before (suc (suc fuel)) i obj s hd e lt =
      end before fuel i obj s e
  mkdir_loop-enter_all h k behind rest end ([] ∷ ds) before (suc fuel) i obj s hd e lt = absurd hd
  mkdir_loop-enter_all h k behind rest end ((c ∷ d) ∷ ds) before (suc fuel) i obj s hd e lt =
      let full : List ℕ = c ∷ d in
      let more : (c == 0) ≡ false = ground (arith, hd.0.0) in
      let read = get_elem?-behind before c (d ++ (47 ∷ join ds behind)) i e in
      let moved : (before ++ (full ++ (47 ∷ []))) ++ join ds behind
          ≡ before ++ (full ++ (47 ∷ join ds behind)) =
        append_assoc before (full ++ (47 ∷ [])) (join ds behind)
        ∙ ap (λ t. before ++ t) (append_assoc full (47 ∷ []) (join ds behind)) in
      let size = length-append before (full ++ (47 ∷ [])) in
      let size' = length-append full (47 ∷ []) in
      let size'' = length-append full (47 ∷ join ds []) in
      let name = full ++ (0 ∷ join ds rest) in
      let again : (inner : ℕ) (s' : S)
          → (mkdir_loop fs fuel (before ++ (full ++ (47 ∷ join ds behind))) (i + (length full + 1))
                (join ds rest) inner s'
              >>= h)
            ≡ enter_all ds rest k inner s' =
        λ inner s'.
          subst
            (λ p.
              (mkdir_loop fs fuel p (i + (length full + 1)) (join ds rest) inner s' >>= h)
              ≡ enter_all ds rest k inner s')
            moved
            (mkdir_loop-enter_all h k behind rest end ds (before ++ (full ++ (47 ∷ []))) fuel
              (i + (length full + 1)) inner s' hd.1 (omega arith) (omega arith)) in
      rw
        (
          read,
          more,
          cut_component-name full 47 (join ds rest) hd.0 refl,
          more,
          drop-cut full (join ds rest),
        )
        (bind_assoc (fs.find_function obj name s) _ h
          ∙ bind_ext (fs.find_function obj name s) (λ found.
            bind_assoc (if found == 0 then make_dir fs obj name s else ok (found, s)) _ h
            ∙ bind_ext (if found == 0 then make_dir fs obj name s else ok (found, s)) (λ x.
              bind_assoc (fs.open_dir_function x.0 x.1) _ h
              ∙ bind_ext (fs.open_dir_function x.0 x.1) (λ inner. again inner x.1))))

  -- Nothing stands behind the last component in the copy.
  last_unterminated :
      (h : S → Run X) (c : ℕ) (last before r : List ℕ) (fuel i obj : ℕ) (s : S)
      → IsName (c ∷ last)
      → i ≡ length before
      → (mkdir_loop fs (suc (suc fuel)) (before ++ ((c ∷ last) ++ (0 ∷ r))) i (c ∷ last) obj s
          >>= h)
        ≡ fault
  unfolding mkdir_loop cut_component
  last_unterminated h c last before r fuel i obj s name e =
      let more : (c == 0) ≡ false = ground (arith, name.0) in
      rw (get_elem?-behind before c (last ++ (0 ∷ r)) i e, more, comp_len_fault (c ∷ last) name)
        refl

  -- A zero byte happens to stand there, and nothing behind the path's terminator.
  last_terminated :
      (h : S → Run X) (c : ℕ) (last junk before : List ℕ) (fuel i obj : ℕ) (s : S)
      → IsName (c ∷ last)
      → i ≡ length before
      → (mkdir_loop fs
            (suc (suc fuel))
            (before ++ ((c ∷ last) ++ (0 ∷ [])))
            i
            ((c ∷ last) ++ (0 ∷ junk))
            obj
            s
          >>= h)
        ≡ enter obj ((c ∷ last) ++ (0 ∷ junk)) s (λ inner s'. fault)
  unfolding mkdir_loop
  last_terminated h c last junk before fuel i obj s name e =
      let more : (c == 0) ≡ false = ground (arith, name.0) in
      let size = length-append before ((c ∷ last) ++ (0 ∷ [])) in
      let size' = length-append (c ∷ last) (0 ∷ []) in
      let over : checked
            (get_elem? (before ++ ((c ∷ last) ++ (0 ∷ []))) (i + (length (c ∷ last) + 1)))
          ≡ fault =
        rw
          (get_elem?-beyond (before ++ ((c ∷ last) ++ (0 ∷ []))) (i + (length (c ∷ last) + 1))
            (omega arith))
          refl in
      let full = (c ∷ last) ++ (0 ∷ junk) in
      rw
        (
          get_elem?-behind before c (last ++ (0 ∷ [])) i e,
          more,
          cut_component-name (c ∷ last) 0 junk name refl,
          more,
          over,
        )
        (bind_assoc (fs.find_function obj full s) _ h
          ∙ bind_ext (fs.find_function obj full s) (λ found.
            bind_assoc (if found == 0 then make_dir fs obj full s else ok (found, s)) _ h
            ∙ bind_ext (if found == 0 then make_dir fs obj full s else ok (found, s))
                (λ x. bind_assoc (fs.open_dir_function x.0 x.1) _ h)))

module _ {D S : Type 0} (alloc : ℕ → List ℕ) (v : Vfs D S) where
  -- `mkdir` of a path with a drive is its loop, on a copy with `z` behind the text.
  mkdir-mkdir_loop :
      (letter root obj : ℕ) (drive : Drive D S) (fs : FileSystem D S) (text r z : List ℕ)
      → not_letter (upper letter) ≡ false
      → NoNul text
      → 3 + length text ≤ length (alloc (3 + length text))
      → drop (3 + length text) (alloc (3 + length text)) ≡ z
      → drive_of v (upper letter) ≡ ok drive
      → drive.fs ≡ some fs
      → fs.find_root_function drive.mem_offset v.disk ≡ ok root
      → fs.open_dir_function root v.disk ≡ ok obj
      → mkdir alloc (letter ∷ 58 ∷ 47 ∷ (text ++ (0 ∷ r))) v ≡ (
          mkdir_loop fs
            (3 + length text + 1)
            (letter ∷ 58 ∷ 47 ∷ (text ++ (0 ∷ r)))
            3
            (text ++ z)
            obj
            v.disk
          >>= λ disk. ok (0, record v { disk = disk }))
  unfolding mkdir has_drive
  mkdir-mkdir_loop letter root obj drive fs text r z up nonul room behind at has rooted opened =
      let whole : List ℕ = letter ∷ 58 ∷ 47 ∷ text in
      let nonul' : NoNul whole = (ground (arith, up), (omega arith, (omega arith, nonul))) in
      let n = 3 + length text in
      let size : length whole ≡ n = omega arith in
      let copied : memcpy (alloc n) (whole ++ (0 ∷ r)) n ≡ ok (whole ++ z) =
        memcpy_lem (alloc n) (whole ++ (0 ∷ r)) n room (omega (arith, length-append whole (0 ∷ r)))
        ∙ ap ok (
            ap (λ t. t ++ drop n (alloc n))
              (ap (λ k. take k (whole ++ (0 ∷ r))) (sym size) ∙ take-length_append whole (0 ∷ r))
            ∙ ap (λ t. whole ++ t) behind) in
      rw
        (
          extend-full alloc v letter text r nonul',
          up,
          strlen-length whole r nonul',
          size,
          copied,
          at,
          has,
          rooted,
          opened,
        )
        refl

  -- `mkdir` of a path with a drive that has a file system and a root, with names of at least one
  -- character and no slash behind the last: it finds, or makes and finds, and enters, the directories
  -- in front of the last one. If these calls of the file system return, it is then a fault when malloc
  -- gives as many bytes as it is asked for, as the copy of the path has no terminator. When
  -- the copy's object has a zero byte in that place, and the path's object ends with the terminator, the last
  -- directory is found, or made and found, and entered too; if these calls return, it is then a
  -- fault, as the byte behind the path's terminator is read.
  pub mkdir_overrun :
      (letter root obj c : ℕ) (drive : Drive D S) (fs : FileSystem D S) (ds : List (List ℕ))
      (last : List ℕ)
      → not_letter (upper letter) ≡ false
      → AreFull ds
      → IsName (c ∷ last)
      → drive_of v (upper letter) ≡ ok drive
      → drive.fs ≡ some fs
      → fs.find_root_function drive.mem_offset v.disk ≡ ok root
      → fs.open_dir_function root v.disk ≡ ok obj
      → ((r : List ℕ)
          → length (alloc (3 + length (join ds (c ∷ last)))) ≡ 3 + length (join ds (c ∷ last))
          → mkdir alloc (letter ∷ 58 ∷ 47 ∷ (join ds (c ∷ last) ++ (0 ∷ r))) v
            ≡ enter_all fs ds (c ∷ last) (λ o s. fault) obj v.disk)
        × ((junk : List ℕ)
            → 3 + length (join ds (c ∷ last)) ≤ length (alloc (3 + length (join ds (c ∷ last))))
            → drop (3 + length (join ds (c ∷ last))) (alloc (3 + length (join ds (c ∷ last))))
              ≡ 0 ∷ junk
            → mkdir alloc (letter ∷ 58 ∷ 47 ∷ (join ds (c ∷ last) ++ (0 ∷ []))) v
              ≡ enter_all fs ds
                  ((c ∷ last) ++ (0 ∷ junk))
                  (λ o s. enter fs o ((c ∷ last) ++ (0 ∷ junk)) s (λ inner s'. fault))
                  obj
                  v.disk)
  mkdir_overrun letter root obj c drive fs ds last up hd hl at has rooted opened =
      let full : List ℕ = c ∷ last in
      let text = join ds full in
      let nonul = NoNul-join ds full (AreFull-AreNames ds hd) hl in
      let h : S → Run (ℕ × Vfs D S) = λ disk. ok (0, record v { disk = disk }) in
      let longer = length-join ds full in
      (
        (λ r exact.
            let start =
              mkdir-mkdir_loop letter root obj drive fs text r [] up nonul (omega (arith, exact))
                (drop_all (3 + length text) (alloc (3 + length text)) exact) at has rooted opened in
            let walk =
              mkdir_loop-enter_all fs h (λ o s. fault) (full ++ (0 ∷ r)) full
                (λ before fuel i o s e. last_unterminated fs h c last before r fuel i o s hl e) ds
                (letter ∷ 58 ∷ 47 ∷ []) (3 + length text + 1) 3 obj v.disk hd refl
                (omega (arith, longer)) in
            start ∙ rw (append_nil text, join-append ds full (0 ∷ r)) walk),
        λ junk room zero_there.
            let start =
              mkdir-mkdir_loop letter root obj drive fs text [] (0 ∷ junk) up nonul room zero_there
                at has rooted opened in
            let walk =
              mkdir_loop-enter_all fs h
                (λ o s. enter fs o (full ++ (0 ∷ junk)) s (λ inner s'. fault)) (full ++ (0 ∷ []))
                (full ++ (0 ∷ junk))
                (λ before fuel i o s e. last_terminated fs h c last junk before fuel i o s hl e) ds
                (letter ∷ 58 ∷ 47 ∷ []) (3 + length text + 1) 3 obj v.disk hd refl
                (omega (arith, longer)) in
            start ∙ rw (join-append ds full (0 ∷ junk), join-append ds full (0 ∷ [])) walk,
      )
