-- ===== src/Fs/Tempfs/Entries.antt =====
-- Chains of directory entries.
use potat_os.Prelude.{
  ℕ, ◌≡◌, refl, ◌≢◌, ap, sym, ◌∙◌, subst, List, [], ◌∷◌, ◌++◌, length, Option, none, some, ok,
  put_at, put_at-ne, deref-ok, held_ne,
}
use potat_os.Fs.Tempfs.{DirEntryNode, walk_entries}

-- An entry of a directory: where it stands and the inode it names.
pub record Cell : Type 0 where
  pub place : ℕ
  pub inode : ℕ

abbrev pub cell : ℕ → ℕ → Cell
cell p i = record { place = p; inode = i }

abbrev pub NotIn : ℕ → List Cell → Type 0
NotIn a [] = Unit
NotIn a (c ∷ cs) = (c.place ≢ a) × NotIn a cs

abbrev pub Apart : List Cell → Type 0
Apart [] = Unit
Apart (c ∷ cs) = NotIn c.place cs × Apart cs

-- The entries `cs` lead from the pointer `p` to the pointer `q`.
abbrev pub Leads : (ℕ → Option DirEntryNode) → ℕ → List Cell → ℕ → Type 0
Leads h p [] q = p ≡ q
Leads h p (c ∷ cs) q =
    (e : DirEntryNode) × (p ≡ c.place)
    × (c.place ≢ 0)
    × (h c.place ≡ some e)
    × (e.inode ≡ c.inode)
    × Leads h e.next_node cs q

pub NotIn-append : (a : ℕ) (xs ys : List Cell) → NotIn a xs → NotIn a ys → NotIn a (xs ++ ys)
NotIn-append a [] ys hx hy = hy
NotIn-append a (c ∷ xs) ys hx hy = (hx.0, NotIn-append a xs ys hx.1 hy)

pub Apart-snoc : (xs : List Cell) (c : Cell) → Apart xs → NotIn c.place xs → Apart (xs ++ (c ∷ []))
Apart-snoc [] c h out = (tt, tt)
Apart-snoc (x ∷ xs) c h out =
    (NotIn-append x.place xs (c ∷ []) h.0 ((λ e. out.0 (sym e)), tt), Apart-snoc xs c h.1 out.1)

pub Apart-last : (xs : List Cell) (c : Cell) → Apart (xs ++ (c ∷ [])) → NotIn c.place xs
Apart-last [] c h = tt
Apart-last (x ∷ xs) c h = ((λ e. last_ne xs h.0 e), Apart-last xs c h.1)
  where
    last_ne : (ys : List Cell) → NotIn x.place (ys ++ (c ∷ [])) → x.place ≡ c.place → ⊥
    last_ne [] n e = n.0 (sym e)
    last_ne (y ∷ ys) n e = last_ne ys n.1 e

module _ (h : ℕ → Option DirEntryNode) where
  pub Leads-put :
      (a : ℕ) (x : DirEntryNode) (p q : ℕ) (cs : List Cell)
      → NotIn a cs
      → Leads h p cs q
      → Leads (put_at h a x) p cs q
  Leads-put a x p q [] out l = l
  Leads-put a x p q (c ∷ cs) out (e, here, ne, holds, names, rest) = (
    e,
    here,
    ne,
    put_at-ne h a c.place x out.0 ∙ holds,
    names,
    Leads-put a x e.next_node q cs out.1 rest,
  )

  pub Leads-append :
      (p q r : ℕ) (xs ys : List Cell) → Leads h p xs q → Leads h q ys r → Leads h p (xs ++ ys) r
  Leads-append p q r [] ys l l' = subst (λ t. Leads h t ys r) (sym l) l'
  Leads-append p q r (c ∷ xs) ys (e, here, ne, holds, names, rest) l' =
      (e, here, ne, holds, names, Leads-append e.next_node q r xs ys rest l')

  pub NotIn-fresh : (a p q : ℕ) (cs : List Cell) → h a ≡ none → Leads h p cs q → NotIn a cs
  NotIn-fresh a p q [] unused l = tt
  NotIn-fresh a p q (c ∷ cs) unused (e, here, ne, holds, names, rest) =
      (held_ne h c.place a holds unused, NotIn-fresh a e.next_node q cs unused rest)

  -- The loop ends behind as many entries as it has rounds.
  pub walk_entries-Leads :
      (p q : ℕ) (cs : List Cell) → Leads h p cs q → walk_entries (length cs) h p ≡ ok q
  unfolding walk_entries
  walk_entries-Leads p q [] l = ap ok l
  walk_entries-Leads p q (c ∷ cs) (e, here, ne, holds, names, rest) =
      rw (here, deref-ok h c.place ne holds, walk_entries-Leads e.next_node q cs rest) refl

  pub first_nonnull : (p q : ℕ) (cs : List Cell) → Leads h p cs q → q ≢ 0 → p ≢ 0
  first_nonnull p q [] l ne e = ne (sym l ∙ e)
  first_nonnull p q (c ∷ cs) (e, here, ne, holds, names, rest) nq z = ne (sym here ∙ z)
