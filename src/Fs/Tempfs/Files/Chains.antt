-- ===== src/Fs/Tempfs/Files/Chains.antt =====
-- Chains of blocks, and the bytes that they hold.
use potat_os.Prelude.{
  ℕ, zero, suc, ◌+◌, ◌-◌, ◌^◌, ◌<◌, ◌≤◌, ◌≡◌, refl, ◌≢◌, ap, sym, ◌∙◌, arith, true, false, List, [],
  ◌∷◌, ◌++◌, append-nil, append_assoc, length, length-append, length-take, length-drop, take, drop,
  take-length_append, drop-length_append, Option, some, ◌⊎◌, inl, inr, ltb, ok, ◌==◌, not, ◌&&◌,
  put_at, put_at-ne, deref-ok,
}
use potat_os.Utils.Strings.Edit.{memcpy_lem}
use potat_os.Fs.Vfs.Paths.{memcpy_at}
use potat_os.Fs.Tempfs.{FileNode, data_size}
use potat_os.Fs.Tempfs.Files.{amount_to_copy, left_after, read_loop}

abbrev pub Nodes : Type 0
Nodes = ℕ → Option FileNode

abbrev pub NotAmong : ℕ → List ℕ → Type 0
NotAmong a [] = Unit
NotAmong a (c ∷ cs) = (a ≢ c) × NotAmong a cs

abbrev pub Distinct : List ℕ → Type 0
Distinct [] = Unit
Distinct (c ∷ cs) = NotAmong c cs × Distinct cs

-- The blocks at `cs` lead from the pointer `p` to the null pointer.
abbrev pub Blocks : Nodes → ℕ → List ℕ → Type 0
Blocks h p [] = p ≡ 0
Blocks h p (c ∷ cs) =
    (node : FileNode) × (p ≡ c)
    × (c ≢ 0)
    × (h c ≡ some node)
    × (length node.bytes ≡ data_size)
    × Blocks h node.next_node cs

-- The blocks from `p` on hold the first `n` bytes of `xs`.
pub data Stored (h : Nodes) : ℕ → List ℕ → ℕ → Type 0 where
  done : (p : ℕ) (xs : List ℕ) → Stored h p xs 0
  block :
      (p : ℕ) (xs : List ℕ) (n : ℕ) (node : FileNode)
      → p ≢ 0
      → h p ≡ some node
      → length node.bytes ≡ data_size
      → take (amount_to_copy n) node.bytes ≡ take (amount_to_copy n) xs
      → Stored h node.next_node (drop data_size xs) (n - data_size)
      → Stored h p xs n

pub Blocks-put_at :
    (h : Nodes) (a : ℕ) (x : FileNode) (p : ℕ) (cs : List ℕ)
    → NotAmong a cs
    → Blocks h p cs
    → Blocks (put_at h a x) p cs
Blocks-put_at h a x p [] out b = b
Blocks-put_at h a x p (c ∷ cs) out (node, start, ne, holds, size, rest) = (
  node,
  start,
  ne,
  put_at-ne h a c x (λ e. out.0 (sym e)) ∙ holds,
  size,
  Blocks-put_at h a x node.next_node cs out.1 rest,
)

take_nil : (n : ℕ) → take {A = ℕ} n [] ≡ []
take_nil zero = refl
take_nil (suc n) = refl

drop_nil : (n : ℕ) → drop {A = ℕ} n [] ≡ []
drop_nil zero = refl
drop_nil (suc n) = refl

take-drop_add : (a b n : ℕ) (xs : List ℕ) → n ≡ a + b → take n xs ≡ take a xs ++ take b (drop a xs)
take-drop_add a b n [] e = rw (take_nil n, take_nil a, drop_nil a, take_nil b) refl
take-drop_add zero b n (x ∷ xs) e = ap (λ k. take k (x ∷ xs)) (omega arith)
take-drop_add (suc a) b zero (x ∷ xs) e = absurd (omega arith)
take-drop_add (suc a) b (suc n) (x ∷ xs) e = rw (take-drop_add a b n xs (omega arith)) refl

drop-append_within : (a : ℕ) (xs ys : List ℕ) → a ≤ length xs → drop a (xs ++ ys) ≡ drop a xs ++ ys
drop-append_within zero xs ys le = refl
drop-append_within (suc a) [] ys le = absurd (omega arith)
drop-append_within (suc a) (x ∷ xs) ys le = drop-append_within a xs ys (omega arith)

pub drop_add : (a b : ℕ) (xs : List ℕ) → drop (a + b) xs ≡ drop b (drop a xs)
drop_add zero b xs = ap (λ k. drop k xs) (omega arith)
drop_add (suc a) b [] = drop_nil (suc a + b) ∙ sym (drop_nil b)
drop_add (suc a) b (x ∷ xs) =
    let next : suc a + b ≡ suc (a + b) = omega arith in
    ap (λ k. drop k (x ∷ xs)) next ∙ drop_add a b xs

take-take : (k n : ℕ) (xs : List ℕ) → k ≤ n → take k (take n xs) ≡ take k xs
take-take zero n xs le = refl
take-take (suc k) zero xs le = absurd (omega arith)
take-take (suc k) (suc n) [] le = refl
take-take (suc k) (suc n) (x ∷ xs) le = ap (λ t. x ∷ t) (take-take k n xs (omega arith))

-- What one round copies, and what is left.
amount_cases :
    (m : ℕ)
    → ((m ≤ data_size) × (amount_to_copy m ≡ m) × (m - data_size ≡ 0))
      ⊎ ((data_size < m) × (amount_to_copy m ≡ data_size) × (m ≡ data_size + (m - data_size)))
amount_cases m = ground arith

amount_mono : (m n : ℕ) → m ≤ n → amount_to_copy m ≤ amount_to_copy n
amount_mono m n le = ground arith

pub amount_le : (m : ℕ) → (amount_to_copy m ≤ m) × (amount_to_copy m ≤ data_size)
amount_le m = ground arith

take_round :
    (m : ℕ) (xs : List ℕ)
    → take (amount_to_copy m) xs ++ take (m - data_size) (drop data_size xs) ≡ take m xs
take_round m xs = elim (amount_cases m) [
  | inl few ↦ rw (few.1, few.2) (append-nil (take m xs))
  | inr more ↦ rw (more.1) (sym (take-drop_add data_size (m - data_size) m xs more.2))
]

copy_round :
    (pre old post bytes xs : List ℕ) (a i : ℕ)
    → i ≡ length pre
    → a ≤ length old
    → a ≤ length bytes
    → take a bytes ≡ take a xs
    → memcpy_at (pre ++ (old ++ post)) i bytes a ≡ ok ((pre ++ take a xs) ++ (drop a old ++ post))
copy_round pre old post bytes xs a i at fits full same =
    let copied = memcpy_lem (old ++ post) bytes a (omega (arith, length-append old post)) full in
    rw
      (
        at,
        drop-length_append pre (old ++ post),
        take-length_append pre (old ++ post),
        copied,
        same,
        drop-append_within a old post fits,
      )
      (ap ok (sym (append_assoc pre (take a xs) (drop a old ++ post))))

-- The loop of `tempfs_read`, with `m` bytes left to copy over `old`, behind the bytes `pre` that it
-- has copied.
pub read_loop-Stored :
    (h : Nodes) (max_len fuel i p left m n : ℕ) (xs pre old post : List ℕ)
    → Stored h p xs n
    → m ≤ n
    → m < fuel
    → length old ≡ m
    → (m ≡ 0 → max_len ≤ i)
    → (0 < m → (i ≡ length pre) × (left ≡ m) × (max_len ≡ i + m))
    → max_len < 2 ^ 64
    → read_loop h max_len fuel i p left (pre ++ (old ++ post)) ≡ ok (pre ++ (take m xs ++ post))
unfolding read_loop
read_loop-Stored h max_len zero i p left m n xs pre old post st le lt size ends goes small =
    absurd (omega arith)
read_loop-Stored h max_len (suc fuel) i p left zero n xs pre [] post st le lt size ends goes small =
    let over : ltb i max_len ≡ false = ground (arith, ends refl) in rw over refl
read_loop-Stored h max_len (suc fuel) i p left zero n xs pre (o ∷ old) post st le lt size ends goes
      small =
    absurd (omega arith)
read_loop-Stored h max_len (suc fuel) i _ left (suc m) _ _ pre old post (done p xs) le lt size ends
      goes small =
    absurd (omega arith)
read_loop-Stored h max_len (suc fuel) i _ left (suc m) _ _ pre old post
      (block p xs n node ne holds full all_same rest) le lt size ends goes small =
    let at = goes (omega arith) in
    let a = amount_to_copy (suc m) in
    let amount = amount_le (suc m) in
    let fewer = amount_mono (suc m) n le in
    let same : take a node.bytes ≡ take a xs =
      sym (take-take a (amount_to_copy n) node.bytes fewer)
      ∙ ap (take a) all_same
      ∙ take-take a (amount_to_copy n) xs fewer in
    let inside : (ltb i max_len && not (p == 0)) ≡ true = ground (arith, at.0, at.2, ne) in
    let copied =
      copy_round pre old post node.bytes xs a i at.0 (omega (arith, amount, size))
        (omega (arith, amount, full)) same in
    let room : length (take a xs) ≡ a =
      ap length (sym same) ∙ length-take a node.bytes (omega (arith, amount, full)) in
    let ih =
      read_loop-Stored h max_len fuel (i + data_size) node.next_node (left_after left)
        (suc m - data_size) (n - data_size) (drop data_size xs) (pre ++ take a xs) (drop a old) post
        rest (omega arith) (omega arith) (length-drop a old ∙ ground (arith, size))
        (λ e. omega (arith, e, at.2))
        (λ more.
          let full_block : a ≡ data_size = ground (arith, more) in
          (
            omega (arith, at.0, full_block, room, length-append pre (take a xs)),
            omega (arith, at.1, at.2, more, small),
            omega (arith, at.2, more),
          ))
        small in
    let amounts : amount_to_copy left ≡ a = ap amount_to_copy (at.1) in
    rw (inside, deref-ok h p ne holds, amounts, copied, ih)
      (ap ok (
        append_assoc pre (take a xs) (take (suc m - data_size) (drop data_size xs) ++ post)
        ∙ ap (λ t. pre ++ t)
            (sym (append_assoc (take a xs) (take (suc m - data_size) (drop data_size xs)) post)
              ∙ ap (λ t. t ++ post) (take_round (suc m) xs))))
