-- ===== src/Fs/Vfs/Open/Components.antt =====
-- The components of a path.
use potat_os.Prelude.{
  ℕ, suc, ◌+◌, ◌≡◌, refl, ◌≢◌, ap, arith, true, false, ◌||◌, ◌++◌, ◌==◌, List, [], ◌∷◌, get_elem?,
  get_elem?-append_at, set-append_at, length, drop, ok, checked,
}
use potat_os.Fs.Vfs.Open.{comp_len, cut_component}

-- The characters of a name: neither a slash nor a zero byte.
abbrev pub IsName : List ℕ → Type 0
IsName [] = Unit
IsName (c ∷ cs) = (c ≢ 0) × (c ≢ 47) × IsName cs

abbrev pub AreNames : List (List ℕ) → Type 0
AreNames [] = Unit
AreNames (d ∷ ds) = IsName d × AreNames ds

-- The text of a path of directories with a last component, which may be empty.
abbrev pub join : List (List ℕ) → List ℕ → List ℕ
join [] last = last
join (d ∷ ds) last = d ++ (47 ∷ join ds last)

comp_len-length :
    (d : List ℕ) (e : ℕ) (rest : List ℕ)
    → IsName d
    → (e == 47 || e == 0) ≡ true
    → comp_len (d ++ (e ∷ rest)) ≡ ok (length d)
unfolding comp_len
comp_len-length [] e rest name stop = rw stop refl
comp_len-length (c ∷ d) e rest name stop =
    let more : (c == 47 || c == 0) ≡ false = ground (arith, name.0, name.1) in
    rw (more, comp_len-length d e rest name.2 stop) (ap ok (omega arith))

-- A component is cut where its slash or the path's end stands.
pub cut_component-name :
    (d : List ℕ) (e : ℕ) (rest : List ℕ)
    → IsName d
    → (e == 47 || e == 0) ≡ true
    → cut_component (d ++ (e ∷ rest)) ≡ ok (length d, e == 47, d ++ (0 ∷ rest))
unfolding cut_component
cut_component-name d e rest name stop =
    rw (comp_len-length d e rest name stop, get_elem?-append_at d rest e, set-append_at d rest e 0)
      refl

-- What stands behind the cut.
pub drop-cut : (d rest : List ℕ) → drop (length d + 1) (d ++ (0 ∷ rest)) ≡ rest
drop-cut d rest = go d (length d + 1) (omega arith)
  where
    go : (d : List ℕ) (n : ℕ) → n ≡ suc (length d) → drop n (d ++ (0 ∷ rest)) ≡ rest
    go [] n e = rw e refl
    go (c ∷ d) n e = rw e (go d (suc (length d)) refl)

-- A path that was read up to `i` reads on behind it.
pub get_elem?-behind :
    (before : List ℕ) (c : ℕ) (rest : List ℕ) (i : ℕ)
    → i ≡ length before
    → checked (get_elem? (before ++ (c ∷ rest)) i) ≡ ok c
get_elem?-behind before c rest i e = rw (e, get_elem?-append_at before rest c) refl
