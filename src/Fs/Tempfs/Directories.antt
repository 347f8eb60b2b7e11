-- ===== src/Fs/Tempfs/Directories.antt =====
-- A directory as the chain of its entries, and `tempfs_addentry`.
use potat_os.Prelude.{
  ℕ, ◌+◌, ◌%◌, ◌^◌, ◌<◌, ◌≤◌, ◌≡◌, refl, ◌≢◌, inl, inr, ap, sym, ◌∙◌, arith, false, Bool, ◌==◌,
  List, [], ◌∷◌, ◌++◌, length, length-append, drop, replicate, take-length_append, Option, none,
  some, ok, put_at, put_at_self, put_at-ne, deref-ok, held_ne, same_or_not,
}
use mathlib.Core.Option.{some-injective}
use potat_os.Utils.Strings.{memcpy}
use potat_os.Utils.Strings.Compare.{NoNul, strlen-length}
use potat_os.Utils.Strings.Edit.{memcpy_lem}
use potat_os.Fs.Tempfs.{
  Inode, DirEntryNode, Store, zero_inode, zero_entry, walk_entries, link_entry, addentry,
}
use potat_os.Fs.Tempfs.Entries.{
  Cell, cell, NotIn, Apart, Leads, NotIn-append, Apart-snoc, Apart-last, Leads-put, Leads-append,
  NotIn-fresh, walk_entries-Leads, first_nonnull,
}

-- The addresses that `malloc` is still to give are not null, all different and unused.
pub record Fresh {D : Type 0} (addr : ℕ → ℕ) (s : Store D) : Type 0 where
  pub nonnull : (n : ℕ) → addr n ≢ 0
  pub distinct : (n m : ℕ) → n ≢ m → addr n ≢ addr m
  pub no_inode : (n : ℕ) → s.calls ≤ n → s.inodes (addr n) ≡ none
  pub no_entry : (n : ℕ) → s.calls ≤ n → s.entries (addr n) ≡ none

-- The directory at `dir` has the entries `front` and, behind them, `last`; its count is one less.
pub record Directory {D : Type 0} (s : Store D) (dir : ℕ) (front : List Cell) (last : Cell)
    : Type 0 where
  pub inode : Inode D
  pub nonnull : dir ≢ 0
  pub holds : s.inodes dir ≡ some inode
  pub leads : Leads s.entries inode.first_node front last.place
  pub entry : DirEntryNode
  pub last_nonnull : last.place ≢ 0
  pub last_holds : s.entries last.place ≡ some entry
  pub last_names : entry.inode ≡ last.inode
  pub ends : entry.next_node ≡ 0
  pub count : inode.num_entries ≡ length front
  pub apart : Apart (front ++ (last ∷ []))

-- The inode that a new entry names.
abbrev pub new_inode : {D : Type 0} → List ℕ → Bool → Inode D
new_inode name is_dir = record zero_inode {
  filename = name ++ drop (length name) (replicate 20 0);
  is_dir = is_dir;
}

-- What adding an entry leaves.
pub record Added {D : Type 0} (addr : ℕ → ℕ) (s : Store D) (dir : ℕ) (front : List Cell)
    (last : Cell) (name : List ℕ) (is_dir : Bool) (s' : Store D) : Type 0 where
  pub directory : Directory s' dir (front ++ (last ∷ [])) (cell (addr (s.calls + 1)) (addr s.calls))
  pub named : s'.inodes (addr s.calls) ≡ some (new_inode name is_dir)
  pub kept : (a : ℕ) → a ≢ dir → a ≢ addr s.calls → s'.inodes a ≡ s.inodes a
  pub filenames :
      (a : ℕ) (i : Inode D)
      → s.inodes a ≡ some i
      → a ≢ addr s.calls
      → (i' : Inode D) × (s'.inodes a ≡ some i') × (i'.filename ≡ i.filename)
  pub fresh : Fresh addr s'
  pub called : s'.calls ≡ s.calls + 2

-- The chain with a new entry behind its last one.
chain_longer :
    (h : ℕ → Option DirEntryNode) (first : ℕ) (front : List Cell) (last : Cell)
    (entry z x : DirEntryNode) (e : ℕ)
    → Leads h first front last.place
    → last.place ≢ 0
    → h last.place ≡ some entry
    → entry.inode ≡ last.inode
    → Apart (front ++ (last ∷ []))
    → NotIn e front
    → last.place ≢ e
    → Leads
        (put_at (put_at (put_at h e z) last.place (record entry { next_node = e })) e x)
        first
        (front ++ (last ∷ []))
        e
chain_longer h first front last entry z x e leads ne holds names apart out other =
    let linked : DirEntryNode = record entry { next_node = e } in
    let h1 = put_at h e z in
    let h2 = put_at h1 last.place linked in
    let h3 = put_at h2 e x in
    let front3 = Leads-put h2 e x first last.place front out (
      Leads-put h1 last.place linked first last.place front (Apart-last front last apart)
        (Leads-put h e z first last.place front out leads)) in
    let last3 : h3 last.place ≡ some linked =
      put_at-ne h2 e last.place x other ∙ put_at_self h1 last.place linked in
    Leads-append h3 first last.place e front (last ∷ []) front3
      (linked, refl, ne, last3, names, refl)

-- A write that keeps the file name of an inode keeps those of all others.
put_at-filenames :
    {D : Type 0} (m m0 : ℕ → Option (Inode D)) (dir new : ℕ) (i x : Inode D)
    → m0 dir ≡ some i
    → x.filename ≡ i.filename
    → ((a : ℕ) → a ≢ new → m a ≡ m0 a)
    → (a : ℕ) (j : Inode D) → m0 a ≡ some j
    → a ≢ new
    → (j' : Inode D) × (put_at m dir x a ≡ some j') × (j'.filename ≡ j.filename)
put_at-filenames m m0 dir new i x old same others a j holds ne = elim (same_or_not a dir) [
  | inl q ↦
      let both : some i ≡ some j = sym old ∙ ap m0 (sym q) ∙ holds in
      (
        x,
        ap (put_at m dir x) q ∙ put_at_self m dir x,
        same ∙ ap (λ k. k.filename) (some-injective _ _ both),
      )
  | inr q ↦ (j, put_at-ne m dir a x q ∙ others a ne ∙ holds, refl)
]

module _ {D : Type 0} (addr : ℕ → ℕ) (s : Store D) (f : Fresh addr s) (dir : ℕ) (front : List Cell)
    (last : Cell) (d : Directory s dir front last) where
  -- Adding an entry with a name of fewer than 20 characters to a directory returns, puts the entry
  -- behind the others, and changes no other inode.
  pub addentry-Added :
      (name r : List ℕ) (is_dir : Bool)
      → NoNul name
      → length name < 20
      → length front + 1 < 2 ^ 64
      → (s' : Store D) × (addentry addr dir (name ++ (0 ∷ r)) is_dir s ≡ ok (addr s.calls, s'))
        × Added addr s dir front last name is_dir s'
  unfolding addentry link_entry
  addentry-Added name r is_dir nonul short few =
      let i = addr s.calls in
      let e = addr (s.calls + 1) in
      let i_apart : dir ≢ i = held_ne s.inodes dir i d.holds (f.no_inode s.calls (omega arith)) in
      let e_apart : last.place ≢ e =
        held_ne s.entries last.place e d.last_holds (f.no_entry (s.calls + 1) (omega arith)) in
      let e_out =
        NotIn-fresh s.entries e d.inode.first_node last.place front
          (f.no_entry (s.calls + 1) (omega arith)) d.leads in
      let inodes1 = put_at s.inodes i zero_inode in
      let entries1 = put_at s.entries e zero_entry in
      let linked_last : DirEntryNode = record (d.entry) { next_node = e } in
      let entries2 = put_at entries1 last.place linked_last in
      let inodes2 = put_at inodes1 i (new_inode name is_dir) in
      let entries3 = put_at entries2 e (record zero_entry { inode = i }) in
      let counted : Inode D = record (d.inode) {
        num_entries = (d.inode.num_entries + 1) % 2 ^ 64;
      } in
      let inodes3 = put_at inodes2 dir counted in
      let s' : Store D = record s { inodes = inodes3; entries = entries3; calls = s.calls + 2 } in
      let dir1 =
        deref-ok inodes1 dir d.nonnull (put_at-ne s.inodes i dir zero_inode i_apart ∙ d.holds) in
      let dir2 = deref-ok inodes2 dir d.nonnull (
        put_at-ne inodes1 i dir (new_inode name is_dir) i_apart
        ∙ put_at-ne s.inodes i dir zero_inode i_apart
        ∙ d.holds) in
      let nonempty =
        first_nonnull s.entries d.inode.first_node last.place front d.leads d.last_nonnull in
      let has : (d.inode.first_node == 0) ≡ false = ground (arith, nonempty) in
      let leads1 =
        Leads-put s.entries e zero_entry d.inode.first_node last.place front e_out d.leads in
      let walked : walk_entries d.inode.num_entries entries1 d.inode.first_node ≡ ok last.place =
        ap (λ n. walk_entries n entries1 d.inode.first_node) d.count
        ∙ walk_entries-Leads entries1 d.inode.first_node last.place front leads1 in
      let last1 =
        deref-ok entries1 last.place d.last_nonnull
          (put_at-ne s.entries e last.place zero_entry e_apart ∙ d.last_holds) in
      let copied : memcpy (replicate 20 0) (name ++ (0 ∷ r)) (length name)
          ≡ ok (name ++ drop (length name) (replicate 20 0)) =
        memcpy_lem (replicate 20 0) (name ++ (0 ∷ r)) (length name) (omega arith)
          (omega (arith, length-append name (0 ∷ r)))
        ∙ ap ok (
            ap (λ t. t ++ drop (length name) (replicate 20 0)) (take-length_append name (0 ∷ r))) in
      (
        s',
        rw (dir1, has, walked, last1, strlen-length name r nonul, copied, dir2) refl,
        record {
          directory = record {
            inode = counted;
            nonnull = d.nonnull;
            holds = put_at_self inodes2 dir counted;
            leads =
                chain_longer s.entries d.inode.first_node front last d.entry zero_entry
                  (record zero_entry { inode = i }) e d.leads d.last_nonnull d.last_holds
                  d.last_names d.apart e_out e_apart;
            entry = record zero_entry { inode = i };
            last_nonnull = f.nonnull (s.calls + 1);
            last_holds = put_at_self entries2 e (record zero_entry { inode = i });
            last_names = refl;
            ends = refl;
            count = omega (arith, d.count, length-append front (last ∷ []));
            apart =
                Apart-snoc (front ++ (last ∷ [])) (cell e i) d.apart
                  (NotIn-append e front (last ∷ []) e_out (e_apart, tt));
          };
          named =
              put_at-ne inodes2 dir i counted (λ q. i_apart (sym q))
              ∙ put_at_self inodes1 i (new_inode name is_dir);
          kept = λ a nd ni.
              put_at-ne inodes2 dir a counted nd
              ∙ put_at-ne inodes1 i a (new_inode name is_dir) ni
              ∙ put_at-ne s.inodes i a zero_inode ni;
          filenames = put_at-filenames inodes2 s.inodes dir i d.inode counted d.holds refl (λ a ni.
              put_at-ne inodes1 i a (new_inode name is_dir) ni
              ∙ put_at-ne s.inodes i a zero_inode ni);
          fresh = record {
            nonnull = f.nonnull;
            distinct = f.distinct;
            no_inode = λ n le.
                let unused = f.no_inode n (omega (arith, le)) in
                let ne = held_ne s.inodes dir (addr n) d.holds unused in
                let ni = f.distinct n s.calls (omega (arith, le)) in
                put_at-ne inodes2 dir (addr n) counted (λ q. ne (sym q))
                ∙ put_at-ne inodes1 i (addr n) (new_inode name is_dir) ni
                ∙ put_at-ne s.inodes i (addr n) zero_inode ni
                ∙ unused;
            no_entry = λ n le.
                let unused = f.no_entry n (omega (arith, le)) in
                let ne = held_ne s.entries last.place (addr n) d.last_holds unused in
                let ni = f.distinct n (s.calls + 1) (omega (arith, le)) in
                put_at-ne entries2 e (addr n) (record zero_entry { inode = i }) ni
                ∙ put_at-ne entries1 last.place (addr n) linked_last (λ q. ne (sym q))
                ∙ put_at-ne s.entries e (addr n) zero_entry ni
                ∙ unused;
          };
          called = refl;
        },
      )
