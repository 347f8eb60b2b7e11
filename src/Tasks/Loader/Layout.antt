-- ===== src/Tasks/Loader/Layout.antt =====
-- Executables whose segments are in order.
use potat_os.Prelude.{
  ℕ, zero, suc, ◌+◌, ◌^◌, ◌<◌, ◌≤◌, ◌≡◌, sym, ◌∙◌, ap, subst, arith, true, Bool-cases, inl, inr,
  if◌then◌else◌, List, [], ◌∷◌,
}
use mathlib.Core.Option.{some-injective}
use potat_os.Tasks.Loader.{ElfProgramHeader, loadable}
use potat_os.Tasks.Loader.Segments.{LoadableAt}

-- What an executable's segments must satisfy: those to be loaded have addresses in their order, from
-- `lo` on, do not overlap, are not empty in memory, have no more bytes in the file than in memory, lie
-- inside the file of `len` bytes, and end below 2^62. The code tests none of this.
abbrev pub Layout : ℕ → ℕ → List ElfProgramHeader → Type 0
Layout len lo [] = Unit
Layout len lo (h ∷ hs) =
    (loadable h ≡ true
      → (lo ≤ h.virtual_address)
        × (0 < h.size_in_memory)
        × (h.size_in_file ≤ h.size_in_memory)
        × (h.offset + h.size_in_file ≤ len)
        × (h.virtual_address + h.size_in_memory < 2 ^ 62))
    × Layout len (if loadable h then h.virtual_address + h.size_in_memory else lo) hs

-- In a layout, the segments are from `lo` on, and one with a higher address ends behind the others.
pub Layout-above :
    (len lo k : ℕ) (hs : List ElfProgramHeader) (h : ElfProgramHeader)
    → Layout len lo hs
    → LoadableAt hs k h
    → (lo ≤ h.virtual_address)
      × (0 < h.size_in_memory)
      × (h.virtual_address + h.size_in_memory < 2 ^ 62)
Layout-above len lo k [] h lay there = ground (arith, there.0)
Layout-above len lo zero (g ∷ hs) h lay (at, is) =
    let same = some-injective _ _ at in
    let here = lay.0 (ap loadable same ∙ is) in
    subst
      (λ x.
        (lo ≤ x.virtual_address)
        × (0 < x.size_in_memory)
        × (x.virtual_address + x.size_in_memory < 2 ^ 62))
      same (here.0, here.1, here.4)
Layout-above len lo (suc k) (g ∷ hs) h lay there = elim (Bool-cases (loadable g)) [
  | inr skip ↦
      Layout-above len lo k hs h
        (subst (λ b. Layout len (if b then g.virtual_address + g.size_in_memory else lo) hs) skip
          lay.1)
        there
  | inl is ↦
      let rest =
        Layout-above len (g.virtual_address + g.size_in_memory) k hs h
          (subst (λ b. Layout len (if b then g.virtual_address + g.size_in_memory else lo) hs) is
            lay.1)
          there in
      (omega (arith, rest.0, (lay.0 is).0), rest.1, rest.2)
]

pub Layout-end :
    (len lo k l : ℕ) (hs : List ElfProgramHeader) (h g : ElfProgramHeader)
    → Layout len lo hs
    → LoadableAt hs k h
    → LoadableAt hs l g
    → h.virtual_address ≤ g.virtual_address
    → h.virtual_address + h.size_in_memory ≤ g.virtual_address + g.size_in_memory
Layout-end len lo k l [] h g lay at at' le = ground (arith, at.0)
Layout-end len lo zero zero (x ∷ hs) h g lay at at' le =
    let same = sym (at.0) ∙ at'.0 in
    subst (λ y. h.virtual_address + h.size_in_memory ≤ y.virtual_address + y.size_in_memory)
      (some-injective _ _ same) (omega arith)
Layout-end len lo zero (suc l) (x ∷ hs) h g lay at at' le =
    let same = some-injective _ _ (at.0) in
    let is = ap loadable same ∙ at.1 in
    let above =
      Layout-above len (x.virtual_address + x.size_in_memory) l hs g
        (subst (λ b. Layout len (if b then x.virtual_address + x.size_in_memory else lo) hs) is
          lay.1)
        at' in
    let ends : x.virtual_address + x.size_in_memory ≡ h.virtual_address + h.size_in_memory =
      ap (λ (y : ElfProgramHeader). y.virtual_address + y.size_in_memory) same in
    omega (arith, above.0, ends)
Layout-end len lo (suc k) zero (x ∷ hs) h g lay at at' le =
    let same = some-injective _ _ (at'.0) in
    let is = ap loadable same ∙ at'.1 in
    let above =
      Layout-above len (x.virtual_address + x.size_in_memory) k hs h
        (subst (λ b. Layout len (if b then x.virtual_address + x.size_in_memory else lo) hs) is
          lay.1)
        at in
    let size = (lay.0 is).1 in
    let place : x.virtual_address ≡ g.virtual_address =
      ap (λ (y : ElfProgramHeader). y.virtual_address) same in
    absurd (omega (arith, above.0, size, place, le))
Layout-end len lo (suc k) (suc l) (x ∷ hs) h g lay at at' le =
    Layout-end len (if loadable x then x.virtual_address + x.size_in_memory else lo) k l hs h g
      lay.1 at at' le
