-- ===== src/Tasks/Loader/Segments.antt =====
-- Which segments `first_loadable_segment` and `last_loadable_segment` choose.
use potat_os.Prelude.{
  ℕ, zero, suc, ◌+◌, ◌<◌, ◌≤◌, ◌≡◌, refl, sym, ◌∙◌, ap, subst, arith, Bool, true, false, Bool-cases,
  ◌⊎◌, inl, inr, ltb, ltb→lt, ◌||◌, List, [], ◌∷◌, get_elem?, some,
}
use mathlib.Core.Option.{some-injective}
use potat_os.Tasks.Loader.{
  ElfProgramHeader, loadable, Smallest, smaller, first_loop, first_loadable_segment, Largest,
  larger, last_loop, last_loadable_segment,
}

-- The segment at the index `k` is to be loaded, and is `h`.
abbrev pub LoadableAt : List ElfProgramHeader → ℕ → ElfProgramHeader → Type 0
LoadableAt hs k h = (get_elem? hs k ≡ some h) × (loadable h ≡ true)

abbrev pub AtOrAbove : ℕ → List ElfProgramHeader → Type 0
AtOrAbove a hs = (k : ℕ) (h : ElfProgramHeader) → LoadableAt hs k h → a ≤ h.virtual_address

abbrev pub AtOrBelow : ℕ → List ElfProgramHeader → Type 0
AtOrBelow a hs = (k : ℕ) (h : ElfProgramHeader) → LoadableAt hs k h → h.virtual_address ≤ a

-- A segment of the list, counted from `i`, has this index and address.
abbrev Found : List ElfProgramHeader → ℕ → ℕ → ℕ → Type 0
Found hs i index addr =
    (k : ℕ) × (h : ElfProgramHeader) × (index ≡ i + k)
    × LoadableAt hs k h
    × (h.virtual_address ≡ addr)

Found-cons :
    (g : ElfProgramHeader) (hs : List ElfProgramHeader) (i index addr : ℕ)
    → Found hs (i + 1) index addr
    → Found (g ∷ hs) i index addr
Found-cons g hs i index addr (k, h, at, there, same) = (suc k, h, omega (arith, at), there, same)

AtOrAbove-cons :
    (a : ℕ) (g : ElfProgramHeader) (hs : List ElfProgramHeader)
    → (loadable g ≡ true → a ≤ g.virtual_address)
    → AtOrAbove a hs
    → AtOrAbove a (g ∷ hs)
AtOrAbove-cons a g hs first rest zero h (at, is) =
    let same = some-injective _ _ at in
    subst (λ x. a ≤ x.virtual_address) same (first (ap loadable same ∙ is))
AtOrAbove-cons a g hs first rest (suc k) h there = rest k h there

abbrev at_index : ℕ → ElfProgramHeader → Smallest
at_index i g = record { index = i; addr = g.virtual_address; is_first_loadable = false }

smaller_cases :
    (i : ℕ) (g : ElfProgramHeader) (s : Smallest)
    → ((smaller i g s ≡ s)
        × (loadable g ≡ true → (s.is_first_loadable ≡ false) × (s.addr ≤ g.virtual_address)))
      ⊎ ((smaller i g s ≡ at_index i g)
          × (loadable g ≡ true)
          × (s.is_first_loadable ≡ false → g.virtual_address < s.addr))
smaller_cases i g s = elim (Bool-cases (loadable g)) [
  | inr other ↦ inl (rw other refl, λ is. ground (arith, other, is))
  | inl is ↦ elim (Bool-cases (ltb g.virtual_address s.addr || s.is_first_loadable)) [
    | inl less ↦ inr (
      rw (is, less) refl,
      is,
      λ found. less_of g.virtual_address s.addr s.is_first_loadable less found,
    )
    | inr more ↦
        inl (rw (is, more) refl, λ is. more_of g.virtual_address s.addr s.is_first_loadable more)
  ]
]
  where
    less_of : (a b : ℕ) (f : Bool) → (ltb a b || f) ≡ true → f ≡ false → a < b
    less_of a b f e other = ground arith

    more_of : (a b : ℕ) (f : Bool) → (ltb a b || f) ≡ false → (f ≡ false) × (b ≤ a)
    more_of a b f e = ground arith

-- What the loop over `hs` from `i` on leaves in `t`, when it starts with `s`.
abbrev Keeps : List ElfProgramHeader → ℕ → Smallest → Smallest → Type 0
Keeps hs i s t = (t.addr ≤ s.addr) × AtOrAbove t.addr hs × ((t ≡ s) ⊎ Found hs i t.index t.addr)

-- The loop leaves the lowest segment of `hs` in `t`.
abbrev Chooses : List ElfProgramHeader → ℕ → Smallest → Type 0
Chooses hs i t = AtOrAbove t.addr hs × Found hs i t.index t.addr

-- Behind a segment that it has just taken, the loop leaves the lowest one.
taken_first :
    (hs : List ElfProgramHeader) (i : ℕ) (g : ElfProgramHeader) (t : Smallest)
    → loadable g ≡ true
    → Keeps hs (i + 1) (at_index i g) t
    → Chooses (g ∷ hs) i t
taken_first hs i g t is (low, above, inl e) = (
  AtOrAbove-cons t.addr g hs (λ is. low) above,
  (
    0,
    g,
    ap (λ (x : Smallest). x.index) e ∙ omega arith,
    (refl, is),
    sym (ap (λ (x : Smallest). x.addr) e),
  ),
)
taken_first hs i g t is (low, above, inr f) =
    (AtOrAbove-cons t.addr g hs (λ is. low) above, Found-cons g hs i t.index t.addr f)

-- Once a segment was found, the loop keeps the smallest address.
first_loop-Keeps :
    (hs : List ElfProgramHeader) (i : ℕ) (s : Smallest)
    → s.is_first_loadable ≡ false
    → Keeps hs i s (first_loop hs i s)
unfolding first_loop
first_loop-Keeps [] i s found = (omega arith, (λ k h there. ground (arith, there.0)), inl refl)
first_loop-Keeps (g ∷ hs) i s found_before = elim (smaller_cases i g s) [
  | inl (same, above) ↦
      subst (λ x. Keeps (g ∷ hs) i s (first_loop hs (i + 1) x)) (sym same)
        (let ih = first_loop-Keeps hs (i + 1) s found_before in
          (
            ih.0,
            AtOrAbove-cons (first_loop hs (i + 1) s).addr g hs
                (λ is. let low = above is in omega (arith, ih.0, low.1)) ih.1,
            elim (ih.2) [
              | inl e ↦ inl e
              | inr f ↦ inr (
                  Found-cons g hs i (first_loop hs (i + 1) s).index (first_loop hs (i + 1) s).addr
                    f)
            ],
          ))
  | inr (new, is, below) ↦
      subst (λ x. Keeps (g ∷ hs) i s (first_loop hs (i + 1) x)) (sym new)
        (let (low, found) =
            taken_first hs i g (first_loop hs (i + 1) (at_index i g)) is
              (first_loop-Keeps hs (i + 1) (at_index i g) refl) in
          let less = below found_before in
          (omega (arith, low 0 g (refl, is), less), low, inr found))
]

-- Before that, it takes the first segment to be loaded.
first_loop-Found :
    (hs : List ElfProgramHeader) (i j : ℕ) (h : ElfProgramHeader) (s : Smallest)
    → s.is_first_loadable ≡ true
    → LoadableAt hs j h
    → Chooses hs i (first_loop hs i s)
unfolding first_loop
first_loop-Found [] i j h s start there = ground (arith, there.0)
first_loop-Found (g ∷ hs) i j h s start there = elim (smaller_cases i g s) [
  | inl (same, above) ↦
      let skipped : loadable g ≡ true → ⊥ = λ is. ground (arith, start, (above is).0) in
      subst (λ x. Chooses (g ∷ hs) i (first_loop hs (i + 1) x)) (sym same)
        (let (low, found) =
            later j there skipped (λ k at. first_loop-Found hs (i + 1) k h s start at) in
          (
            AtOrAbove-cons (first_loop hs (i + 1) s).addr g hs (λ is. absurd (skipped is)) low,
            Found-cons g hs i (first_loop hs (i + 1) s).index (first_loop hs (i + 1) s).addr found,
          ))
  | inr (new, is, below) ↦
      subst (λ x. Chooses (g ∷ hs) i (first_loop hs (i + 1) x)) (sym new)
        (taken_first hs i g (first_loop hs (i + 1) (at_index i g)) is
          (first_loop-Keeps hs (i + 1) (at_index i g) refl))
]
  where
    later :
        (j : ℕ)
        → LoadableAt (g ∷ hs) j h
        → (loadable g ≡ true → ⊥)
        → ((k : ℕ) → LoadableAt hs k h → Chooses hs (i + 1) (first_loop hs (i + 1) s))
        → Chooses hs (i + 1) (first_loop hs (i + 1) s)
    later zero (at, is) skipped rest = absurd (skipped (ap loadable (some-injective _ _ at) ∙ is))
    later (suc k) there skipped rest = rest k there

-- `first_loadable_segment` gives a segment to be loaded, with the lowest address of all, when there is
-- one to be loaded.
pub first_loadable_segment-AtOrAbove :
    (hs : List ElfProgramHeader) (j : ℕ) (h : ElfProgramHeader)
    → LoadableAt hs j h
    → (first : ElfProgramHeader) × LoadableAt hs (first_loadable_segment hs) first
      × AtOrAbove first.virtual_address hs
unfolding first_loadable_segment
first_loadable_segment-AtOrAbove hs j h there =
    let start : Smallest = record { index = 0; addr = 0; is_first_loadable = true } in
    let t = first_loop hs 0 start in
    let (low, (k, g, at, here, same)) = first_loop-Found hs 0 j h start refl there in
    (
      g,
      (ap (get_elem? hs) (at ∙ omega arith) ∙ here.0, here.1),
      subst (λ a. AtOrAbove a hs) (sym same) low,
    )

AtOrBelow-cons :
    (a : ℕ) (g : ElfProgramHeader) (hs : List ElfProgramHeader)
    → (loadable g ≡ true → g.virtual_address ≤ a)
    → AtOrBelow a hs
    → AtOrBelow a (g ∷ hs)
AtOrBelow-cons a g hs first rest zero h (at, is) =
    let same = some-injective _ _ at in
    subst (λ x. x.virtual_address ≤ a) same (first (ap loadable same ∙ is))
AtOrBelow-cons a g hs first rest (suc k) h there = rest k h there

larger_cases :
    (i : ℕ) (g : ElfProgramHeader) (s : Largest)
    → ((larger i g s ≡ s) × (loadable g ≡ true → g.virtual_address ≤ s.addr))
      ⊎ ((larger i g s ≡ record { index = i; addr = g.virtual_address })
          × (loadable g ≡ true)
          × (s.addr < g.virtual_address))
larger_cases i g s = elim (Bool-cases (loadable g)) [
  | inr other ↦ inl (rw other refl, λ is. ground (arith, other, is))
  | inl is ↦ elim (Bool-cases (ltb s.addr g.virtual_address)) [
    | inl more ↦ inr (rw (is, more) refl, is, ltb→lt s.addr g.virtual_address more)
    | inr less ↦ inl (rw (is, less) refl, λ is. ground (arith, less))
  ]
]

-- What the loop over `hs` from `i` on leaves in `t`, when it starts with `s`.
abbrev Raises : List ElfProgramHeader → ℕ → Largest → Largest → Type 0
Raises hs i s t = (s.addr ≤ t.addr) × AtOrBelow t.addr hs × ((t ≡ s) ⊎ Found hs i t.index t.addr)

last_loop-Raises :
    (hs : List ElfProgramHeader) (i : ℕ) (s : Largest) → Raises hs i s (last_loop hs i s)
unfolding last_loop
last_loop-Raises [] i s = (omega arith, (λ k h there. ground (arith, there.0)), inl refl)
last_loop-Raises (g ∷ hs) i s = elim (larger_cases i g s) [
  | inl (same, below) ↦
      subst (λ x. Raises (g ∷ hs) i s (last_loop hs (i + 1) x)) (sym same)
        (let ih = last_loop-Raises hs (i + 1) s in
          let t = last_loop hs (i + 1) s in
          (
            ih.0,
            AtOrBelow-cons t.addr g hs (λ is. let low = below is in omega (arith, ih.0, low)) ih.1,
            elim (ih.2) [ inl e ↦ inl e | inr f ↦ inr (Found-cons g hs i t.index t.addr f) ],
          ))
  | inr (new, is, less) ↦
      let s' : Largest = record { index = i; addr = g.virtual_address } in
      subst (λ x. Raises (g ∷ hs) i s (last_loop hs (i + 1) x)) (sym new)
        (let ih = last_loop-Raises hs (i + 1) s' in
          let t = last_loop hs (i + 1) s' in
          (
            omega (arith, ih.0, less),
            AtOrBelow-cons t.addr g hs (λ is. ih.0) ih.1,
            elim (ih.2) [
              | inl e ↦ inr (
                0,
                g,
                ap (λ (x : Largest). x.index) e ∙ omega arith,
                (refl, is),
                sym (ap (λ (x : Largest). x.addr) e),
              )
              | inr f ↦ inr (Found-cons g hs i t.index t.addr f)
            ],
          ))
]

-- `last_loadable_segment` gives a segment to be loaded, with the highest address of all, when there is
-- one to be loaded above the address 0.
pub last_loadable_segment-AtOrBelow :
    (hs : List ElfProgramHeader) (j : ℕ) (h : ElfProgramHeader)
    → LoadableAt hs j h
    → 0 < h.virtual_address
    → (last : ElfProgramHeader) × LoadableAt hs (last_loadable_segment hs) last
      × AtOrBelow last.virtual_address hs
unfolding last_loadable_segment
last_loadable_segment-AtOrBelow hs j h there above =
    let start : Largest = record { index = 0; addr = 0 } in
    let t = last_loop hs 0 start in
    let (up, high, which) = last_loop-Raises hs 0 start in
    elim which [
      | inl e ↦
          let zero_addr = ap (λ (x : Largest). x.addr) e in
          let over = high j h there in absurd (omega (arith, zero_addr, over, above))
      | inr (k, g, at, here, same) ↦ (
        g,
        (ap (get_elem? hs) (at ∙ omega arith) ∙ here.0, here.1),
        subst (λ a. AtOrBelow a hs) (sym same) high,
      )
    ]
