-- ===== src/Fs/Tempfs/Lookup.antt =====
-- `tempfs_find`, and what it finds once an entry was added.
use potat_os.Prelude.{
  ℕ, zero, suc, ◌+◌, ◌^◌, ◌<◌, ◌≤◌, ◌≡◌, refl, ◌≢◌, ap, ◌∙◌, arith, true, false, Bool, Bool-cases,
  inl, inr, ◌==◌, ◌↔◌, List, [], ◌∷◌, ◌++◌, length, length-append, drop, replicate, some,
  if◌then◌else◌, ok, deref, deref-ok, held_ne,
}
use potat_os.Utils.Strings.{strcmp}
use potat_os.Utils.Strings.Compare.{NoNul, strcmp_decides}
use potat_os.Fs.Tempfs.{Inode, DirEntryNode, Store, find_loop, find, mkfile}
use potat_os.Fs.Tempfs.Entries.{Cell, cell, Leads, Leads-append}
use potat_os.Fs.Tempfs.Directories.{Fresh, Directory, new_inode, addentry-Added}

-- The inode at `a` has the name `name`.
pub record IsNamed {D : Type 0} (s : Store D) (a : ℕ) (name : List ℕ) : Type 0 where
  pub inode : Inode D
  pub nonnull : a ≢ 0
  pub holds : s.inodes a ≡ some inode
  pub pad : List ℕ
  pub filename : inode.filename ≡ name ++ (0 ∷ pad)
  pub nonul : NoNul name
  pub short : length name < 20

-- The entries' names, in their order.
abbrev pub AreNamed : {D : Type 0} → Store D → List Cell → List (List ℕ) → Type 0
AreNamed s [] [] = Unit
AreNamed s [] (n ∷ ns) = ⊥
AreNamed s (c ∷ cs) [] = ⊥
AreNamed s (c ∷ cs) (n ∷ ns) = IsNamed s c.inode n × AreNamed s cs ns

-- `p` is the inode of the first entry with the name, or the null pointer if there is none.
pub data FirstNamed (name : List ℕ) : List Cell → List (List ℕ) → ℕ → Type 0 where
  here :
      (c : Cell) (cs : List Cell) (n : List ℕ) (ns : List (List ℕ))
      → n ≡ name
      → FirstNamed name (c ∷ cs) (n ∷ ns) c.inode
  later :
      (c : Cell) (cs : List Cell) (n : List ℕ) (ns : List (List ℕ)) (p : ℕ)
      → n ≢ name
      → FirstNamed name cs ns p
      → FirstNamed name (c ∷ cs) (n ∷ ns) p
  nowhere : FirstNamed name [] [] 0

module _ {D : Type 0} (s : Store D) (name r : List ℕ) (nonul : NoNul name)
    (short : length name < 2 ^ 31) where
  -- One round, at an entry whose inode has the name `n`.
  find_round :
      (fuel : ℕ) (c : Cell) (e : DirEntryNode) (n : List ℕ)
      → c.place ≢ 0
      → s.entries c.place ≡ some e
      → e.inode ≡ c.inode
      → IsNamed s c.inode n
      → (b : Bool) × (find_loop (suc fuel) (name ++ (0 ∷ r)) s c.place ≡ (
          if b
          then ok e.inode
          else if e.next_node == 0
          then ok 0
          else find_loop fuel (name ++ (0 ∷ r)) s e.next_node))
        × ((b ≡ true) ↔ (n ≡ name))
  unfolding find_loop
  find_round fuel c e n ne holds names i =
      let (b, runs, means) =
        strcmp_decides n name i.pad r i.nonul nonul (omega (arith, i.short)) short in
      let entry = deref-ok s.entries c.place ne holds in
      let inode : deref s.inodes e.inode ≡ ok i.inode =
        ap (deref s.inodes) names ∙ deref-ok s.inodes c.inode i.nonnull i.holds in
      let compared : strcmp i.inode.filename (name ++ (0 ∷ r)) ≡ ok b =
        ap (λ f. strcmp f (name ++ (0 ∷ r))) i.filename ∙ runs in
      (b, rw (entry, inode, compared) refl, means)

  find_loop-FirstNamed :
      (fuel p : ℕ) (c : Cell) (cs : List Cell) (n : List ℕ) (ns : List (List ℕ))
      → Leads s.entries p (c ∷ cs) 0
      → AreNamed s (c ∷ cs) (n ∷ ns)
      → length (c ∷ cs) ≤ fuel
      → (q : ℕ) × (find_loop fuel (name ++ (0 ∷ r)) s p ≡ ok q)
        × FirstNamed name (c ∷ cs) (n ∷ ns) q
  find_loop-FirstNamed zero p c cs n ns l named le = absurd (omega arith)
  find_loop-FirstNamed (suc fuel) p c [] n [] (e, start, ne, holds, names, ends) named le =
      let (b, round, means) = find_round fuel c e n ne holds names named.0 in
      elim (Bool-cases b) [
        | inl same ↦ (c.inode, rw (start, round, same, names) refl, here c [] n [] (means.0 same))
        | inr other ↦ (
          0,
          rw (start, round, other, ends) refl,
          later c [] n [] 0 (λ q. ground (arith, other, means.1 q)) nowhere,
        )
      ]
  find_loop-FirstNamed (suc fuel) p c [] n (n' ∷ ns) l named le = elim (named.1) [ ]
  find_loop-FirstNamed (suc fuel) p c (c' ∷ cs) n [] l named le = elim (named.1) [ ]
  find_loop-FirstNamed (suc fuel) p c (c' ∷ cs) n (n' ∷ ns) (e, start, ne, holds, names, rest) named
        le =
      let (b, round, means) = find_round fuel c e n ne holds names named.0 in
      let more : (e.next_node == 0) ≡ false = ground (arith, rest.1, rest.2) in
      elim (Bool-cases b) [
        | inl same ↦ (
          c.inode,
          rw (start, round, same, names) refl,
          here c (c' ∷ cs) n (n' ∷ ns) (means.0 same),
        )
        | inr other ↦
            let (q, runs, first) =
              find_loop-FirstNamed fuel e.next_node c' cs n' ns rest named.1 (omega arith) in
            (
              q,
              rw (start, round, other, more, runs) refl,
              later c (c' ∷ cs) n (n' ∷ ns) q (λ q. ground (arith, other, means.1 q)) first,
            )
      ]

  find_chain :
      (fuel p : ℕ) (cs : List Cell) (ns : List (List ℕ))
      → 0 < length cs
      → Leads s.entries p cs 0
      → AreNamed s cs ns
      → length cs ≤ fuel
      → (q : ℕ) × (find_loop fuel (name ++ (0 ∷ r)) s p ≡ ok q) × FirstNamed name cs ns q
  find_chain fuel p [] ns nonempty l named le = absurd (omega arith)
  find_chain fuel p (c ∷ cs) [] nonempty l named le = elim named [ ]
  find_chain fuel p (c ∷ cs) (n ∷ ns) nonempty l named le =
      find_loop-FirstNamed fuel p c cs n ns l named le

-- The whole chain of a directory, from its first entry to the null pointer.
Directory-Leads :
    {D : Type 0} (s : Store D) (dir : ℕ) (front : List Cell) (last : Cell)
    (d : Directory s dir front last)
    → Leads s.entries d.inode.first_node (front ++ (last ∷ [])) 0
Directory-Leads s dir front last d =
    Leads-append s.entries d.inode.first_node last.place 0 front (last ∷ []) d.leads
      (d.entry, refl, d.last_nonnull, d.last_holds, d.last_names, d.ends)

module _ {D : Type 0} (s : Store D) (dir : ℕ) (front : List Cell) (last : Cell)
    (d : Directory s dir front last) where
  -- `tempfs_find` in a directory returns the inode of the first entry with the name, and the null
  -- pointer when there is none, for names of fewer than 2^31 characters.
  pub find-FirstNamed :
      (ns : List (List ℕ)) (name r : List ℕ)
      → AreNamed s (front ++ (last ∷ [])) ns
      → length front < s.calls
      → NoNul name
      → length name < 2 ^ 31
      → (q : ℕ) × (find dir (name ++ (0 ∷ r)) s ≡ ok q)
        × FirstNamed name (front ++ (last ∷ [])) ns q
  unfolding find
  find-FirstNamed ns name r named few nonul short =
      let chain = Directory-Leads s dir front last d in
      let size = length-append front (last ∷ []) in
      let (q, runs, first) =
        find_chain s name r nonul short (s.calls + 1) d.inode.first_node (front ++ (last ∷ [])) ns
          (omega (arith, size)) chain named (omega (arith, size, few)) in
      (q, rw (deref-ok s.inodes dir d.nonnull d.holds, runs) refl, first)

AreNamed-kept :
    {D : Type 0} (s s' : Store D) (cs : List Cell) (ns : List (List ℕ))
    → ((c : ℕ) (n : List ℕ) → IsNamed s c n → IsNamed s' c n)
    → AreNamed s cs ns
    → AreNamed s' cs ns
AreNamed-kept s s' [] [] keep h = h
AreNamed-kept s s' [] (n ∷ ns) keep h = h
AreNamed-kept s s' (c ∷ cs) [] keep h = h
AreNamed-kept s s' (c ∷ cs) (n ∷ ns) keep h =
    (keep c.inode n h.0, AreNamed-kept s s' cs ns keep h.1)

AreNamed-snoc :
    {D : Type 0} (s : Store D) (cs : List Cell) (ns : List (List ℕ)) (c : Cell) (n : List ℕ)
    → AreNamed s cs ns
    → IsNamed s c.inode n
    → AreNamed s (cs ++ (c ∷ [])) (ns ++ (n ∷ []))
AreNamed-snoc s [] [] c n h i = (i, tt)
AreNamed-snoc s [] (m ∷ ns) c n h i = elim h [ ]
AreNamed-snoc s (d ∷ cs) [] c n h i = elim h [ ]
AreNamed-snoc s (d ∷ cs) (m ∷ ns) c n h i = (h.0, AreNamed-snoc s cs ns c n h.1 i)

padding :
    (name : List ℕ)
    → length name < 20
    → (pad : List ℕ) × (name ++ drop (length name) (replicate 20 0) ≡ name ++ (0 ∷ pad))
padding name short =
    let (pad, e) = cut (drop (length name) (replicate 20 0)) 20 (length name) short refl in
    (pad, ap (λ t. name ++ t) e)
  where
    cut :
        (t : List ℕ) (k n : ℕ) → n < k → t ≡ drop n (replicate k 0) → (pad : List ℕ) × (t ≡ 0 ∷ pad)
    cut t zero n lt e = absurd (omega arith)
    cut t (suc k) zero lt e = (replicate k 0, e)
    cut t (suc k) (suc n) lt e = cut t k n (omega arith) e

module _ {D : Type 0} (addr : ℕ → ℕ) (s : Store D) (f : Fresh addr s) (dir : ℕ) (front : List Cell)
    (last : Cell) (d : Directory s dir front last) (ns : List (List ℕ))
    (named : AreNamed s (front ++ (last ∷ [])) ns) where
  -- A file made in a directory with a name of fewer than 20 characters is a new entry behind the
  -- others, in a directory that is well-formed again: `tempfs_find` of any name of fewer than 2^31
  -- characters then gives the first entry with it among the old ones and the new one.
  pub mkfile-find :
      (name r : List ℕ)
      → NoNul name
      → length name < 20
      → length front + 1 < 2 ^ 64
      → length front + 1 < s.calls + 2
      → (s' : Store D) × (mkfile addr dir (name ++ (0 ∷ r)) s ≡ ok s')
        × Directory s' dir (front ++ (last ∷ [])) (cell (addr (s.calls + 1)) (addr s.calls))
        × ((wanted q : List ℕ)
            → NoNul wanted
            → length wanted < 2 ^ 31
            → (i : ℕ) × (find dir (wanted ++ (0 ∷ q)) s' ≡ ok i)
              × FirstNamed wanted
                  ((front ++ (last ∷ [])) ++ (cell (addr (s.calls + 1)) (addr s.calls) ∷ []))
                  (ns ++ (name ∷ []))
                  i)
  unfolding mkfile
  mkfile-find name r nonul short few less =
      let (s', runs, added) =
        addentry-Added addr s f dir front last d name r false nonul short few in
      let (pad, text) = padding name short in
      let new : IsNamed s' (addr s.calls) name = record {
        inode = new_inode name false;
        nonnull = f.nonnull s.calls;
        holds = added.named;
        pad = pad;
        filename = text;
        nonul = nonul;
        short = short;
      } in
      let size = length-append front (last ∷ []) in
      (
        s',
        rw runs refl,
        added.directory,
        λ wanted q nonul' short'.
            find-FirstNamed s' dir (front ++ (last ∷ [])) (cell (addr (s.calls + 1)) (addr s.calls))
              added.directory (ns ++ (name ∷ [])) wanted q
              (AreNamed-snoc s' (front ++ (last ∷ [])) ns (cell (addr (s.calls + 1)) (addr s.calls))
                name
                (AreNamed-kept s s' (front ++ (last ∷ [])) ns
                  (λ c n old.
                    let (i', holds, same) = added.filenames c old.inode old.holds (
                      held_ne s.inodes c (addr s.calls) old.holds
                        (f.no_inode s.calls (omega arith))) in
                    record {
                      inode = i';
                      nonnull = old.nonnull;
                      holds = holds;
                      pad = old.pad;
                      filename = same ∙ old.filename;
                      nonul = old.nonul;
                      short = old.short;
                    })
                  named)
                new)
              (omega (arith, added.called, size, less)) nonul' short',
      )
