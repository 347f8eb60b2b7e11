-- ===== src/Tasks/Loader/Arguments.antt =====
-- The arguments that spawn, in src/tasks/spawn.c, leaves for a new task: the strings behind one another
-- from the start of a page, and behind them the pointers to them, words of 8 bytes.
use potat_os.Prelude.{
  ℕ, zero, suc, ◌+◌, ◌*◌, ◌/◌, ◌%◌, ◌^◌, ◌<◌, ◌≤◌, ◌≡◌, refl, ap, sym, ◌∙◌, subst, arith, inl, List,
  [], ◌∷◌, ◌++◌, length, length-append, get_elem?, some, Run, ok, ◌>>=◌,
}
use potat_os.Utils.Strings.{strlen}
use potat_os.Utils.Strings.Compare.{NoNul, strlen-length}
use potat_os.Mem.Pmm.{Memory}
use potat_os.Mem.Paging.Vmem.{copy_bytes, copy_bytes-Copied}

-- The first loop: `arg_size` behind the strings, and the memory.
pub copy_args : List (List ℕ) → ℕ → ℕ → Memory → Run (ℕ × Memory)
copy_args [] arg_page arg_size m = ok (arg_size, m)
copy_args (arg ∷ argv) arg_page arg_size m = do
  len ← strlen arg
  m' ← copy_bytes m (arg_page + arg_size) arg (len + 1)
  copy_args argv arg_page (arg_size + (len + 1)) m'

-- The first `n` bytes of a word in memory, and the word that `n` bytes are.
abbrev pub little_endian : ℕ → ℕ → List ℕ
little_endian zero w = []
little_endian (suc n) w = (w % 256) ∷ little_endian n (w / 256)

abbrev pub word : ℕ → Memory → ℕ → ℕ
word zero m a = 0
word (suc n) m a = m a + 256 * word n m (a + 1)

-- The second loop: the pointers are stored from `arg_page + arg_size` on.
pub store_pointers : List (List ℕ) → ℕ → ℕ → ℕ → ℕ → Memory → Run Memory
store_pointers [] arg_page arg_size i arg_size_hitherto m = ok m
store_pointers (arg ∷ argv) arg_page arg_size i arg_size_hitherto m = do
  m' ← copy_bytes m (arg_page + arg_size + i * 8) (little_endian 8 (arg_page + arg_size_hitherto)) 8
  len ← strlen arg
  store_pointers argv arg_page arg_size (i + 1) (arg_size_hitherto + (len + 1)) m'

-- Both loops: `arg_size`, where the pointers begin, and the memory.
unfoldable pub pass_args : List (List ℕ) → ℕ → Memory → Run (ℕ × Memory)
pass_args argv arg_page m = do
  (arg_size, m') ← copy_args argv arg_page 0 m
  m'' ← store_pointers argv arg_page arg_size 0 0 m'
  ok (arg_size, m'')

-- The arguments are C strings with these texts.
abbrev pub AreTexts : List (List ℕ) → List (List ℕ) → Type 0
AreTexts [] [] = Unit
AreTexts [] (t ∷ ts) = ⊥
AreTexts (a ∷ rest) [] = ⊥
AreTexts (a ∷ rest) (t ∷ ts) = ((r : List ℕ) × (a ≡ t ++ (0 ∷ r))) × NoNul t × AreTexts rest ts

-- The bytes that the texts take with their terminators.
abbrev pub text_bytes : List (List ℕ) → ℕ
text_bytes [] = 0
text_bytes (t ∷ ts) = length t + 1 + text_bytes ts

-- The texts are in memory behind one another, each with its terminator.
abbrev pub TextsAt : Memory → ℕ → List (List ℕ) → Type 0
TextsAt m a [] = Unit
TextsAt m a (t ∷ ts) =
    ((j b : ℕ) → get_elem? (t ++ (0 ∷ [])) j ≡ some b → m (a + j) ≡ b)
    × TextsAt m (a + (length t + 1)) ts

-- The words from `p` on are the addresses of texts that begin at `a`.
abbrev pub PointersAt : Memory → ℕ → ℕ → List (List ℕ) → Type 0
PointersAt m p a [] = Unit
PointersAt m p a (t ∷ ts) = (word 8 m p ≡ a) × PointersAt m (p + 8) (a + (length t + 1)) ts

-- No bits of a number are above its `n` lowest bytes.
abbrev Fits : ℕ → ℕ → Type 0
Fits zero w = w ≡ 0
Fits (suc n) w = Fits n (w / 256)

word-little_endian :
    (n w a : ℕ) (m : Memory)
    → Fits n w
    → ((j b : ℕ) → get_elem? (little_endian n w) j ≡ some b → m (a + j) ≡ b)
    → word n m a ≡ w
word-little_endian zero w a m fits there = omega (arith, fits)
word-little_endian (suc n) w a m fits there =
    let low : m (a + 0) ≡ w % 256 = there 0 (w % 256) refl in
    let here : a ≡ a + 0 = omega arith in
    let low' : m a ≡ w % 256 = ap m here ∙ low in
    let high =
      word-little_endian n (w / 256) (a + 1) m fits
        (λ j b at. subst (λ k. m k ≡ b) (omega arith) (there (suc j) b at)) in
    omega (arith, low', high)

word_kept :
    (n a : ℕ) (m m' : Memory)
    → ((k : ℕ) → a ≤ k → k < a + n → m' k ≡ m k)
    → word n m' a ≡ word n m a
word_kept zero a m m' same = refl
word_kept (suc n) a m m' same =
    let here = same a (omega arith) (omega arith) in
    let rest = word_kept n (a + 1) m m' (λ k from to. same k (omega arith) (omega arith)) in
    omega (arith, here, rest)

within : (t : List ℕ) (j b : ℕ) → get_elem? (t ++ (0 ∷ [])) j ≡ some b → j < length t + 1
within [] zero b e = omega arith
within [] (suc j) b e = absurd (ground (arith, e))
within (x ∷ t) zero b e = omega arith
within (x ∷ t) (suc j) b e = omega (arith, within t j b e)

longer :
    (t r : List ℕ) (j b : ℕ)
    → get_elem? (t ++ (0 ∷ [])) j ≡ some b
    → get_elem? (t ++ (0 ∷ r)) j ≡ some b
longer [] r zero b e = e
longer [] r (suc j) b e = absurd (ground (arith, e))
longer (x ∷ t) r zero b e = e
longer (x ∷ t) r (suc j) b e = longer t r j b e

texts_kept :
    (a : ℕ) (ts : List (List ℕ)) (m m' : Memory)
    → ((k : ℕ) → k < a + text_bytes ts → m' k ≡ m k)
    → TextsAt m a ts
    → TextsAt m' a ts
texts_kept a [] m m' same there = tt
texts_kept a (t ∷ ts) m m' same (here, there) = (
  (λ j b at. same (a + j) (omega (arith, within t j b at)) ∙ here j b at),
  texts_kept (a + (length t + 1)) ts m m' (λ k lt. same k (omega arith)) there,
)

within_list : (xs : List ℕ) (j b : ℕ) → get_elem? xs j ≡ some b → j < length xs
within_list [] j b at = absurd (ground (arith, at))
within_list (x ∷ xs) zero b at = omega arith
within_list (x ∷ xs) (suc j) b at = omega (arith, within_list xs j b at)

within_word : (w j b : ℕ) → get_elem? (little_endian 8 w) j ≡ some b → j < 8
within_word w j b at = within_list (little_endian 8 w) j b at

copy_args-TextsAt :
    (argv ts : List (List ℕ)) (arg_page arg_size a : ℕ) (m : Memory)
    → AreTexts argv ts
    → a ≡ arg_page + arg_size
    → (m' : Memory) × (copy_args argv arg_page arg_size m ≡ ok (arg_size + text_bytes ts, m'))
      × TextsAt m' a ts
      × ((k : ℕ) → k < a → m' k ≡ m k)
unfolding copy_args
copy_args-TextsAt [] [] arg_page arg_size a m are e =
    let none_more : arg_size ≡ arg_size + 0 = omega arith in
    (m, ap (λ n. ok (n, m)) none_more, tt, λ k lt. refl)
copy_args-TextsAt [] (t ∷ ts) arg_page arg_size a m are e = absurd are
copy_args-TextsAt (arg ∷ argv) [] arg_page arg_size a m are e = absurd are
copy_args-TextsAt (arg ∷ argv) (t ∷ ts) arg_page arg_size a m ((r, is), nonul, are) e =
    let len : strlen arg ≡ ok (length t) = ap strlen is ∙ strlen-length t r nonul in
    let size = ap length is ∙ length-append t (0 ∷ r) in
    let (m1, copied, c) =
      copy_bytes-Copied m (arg_page + arg_size) arg (length t + 1) (omega (arith, size)) in
    let (m', runs, there, below) =
      copy_args-TextsAt argv ts arg_page (arg_size + (length t + 1)) (a + (length t + 1)) m1 are
        (omega (arith, e)) in
    let sum : arg_size + (length t + 1) + text_bytes ts
        ≡ arg_size + (length t + 1 + text_bytes ts) =
      omega arith in
    (
      m',
      rw (len, copied) (runs ∙ ap (λ n. ok (n, m')) sum),
      (
        (λ j b at.
            let j_lt = within t j b at in
            let moved : a + j ≡ arg_page + arg_size + j = omega (arith, e) in
            below (a + j) (omega (arith, j_lt))
            ∙ ap m1 moved
            ∙ c.there j b j_lt (ap (λ (l : List ℕ). get_elem? l j) is ∙ longer t r j b at)),
        there,
      ),
      λ k lt. below k (omega arith) ∙ c.others k (inl (omega (arith, e))),
    )

store_pointers-PointersAt :
    (argv ts : List (List ℕ)) (arg_page arg_size i hitherto p a : ℕ) (m : Memory)
    → AreTexts argv ts
    → p ≡ arg_page + arg_size + i * 8
    → a ≡ arg_page + hitherto
    → a + text_bytes ts ≤ 2 ^ 64
    → (m' : Memory) × (store_pointers argv arg_page arg_size i hitherto m ≡ ok m')
      × PointersAt m' p a ts
      × ((k : ℕ) → k < p → m' k ≡ m k)
unfolding store_pointers
store_pointers-PointersAt [] [] arg_page arg_size i hitherto p a m are e e' small =
    (m, refl, tt, λ k lt. refl)
store_pointers-PointersAt [] (t ∷ ts) arg_page arg_size i hitherto p a m are e e' small = absurd are
store_pointers-PointersAt (arg ∷ argv) [] arg_page arg_size i hitherto p a m are e e' small =
    absurd are
store_pointers-PointersAt (arg ∷ argv) (t ∷ ts) arg_page arg_size i hitherto p a m
      ((r, is), nonul, are) e e' small =
    let len : strlen arg ≡ ok (length t) = ap strlen is ∙ strlen-length t r nonul in
    let pointer = arg_page + hitherto in
    let (m1, copied, c) =
      copy_bytes-Copied m (arg_page + arg_size + i * 8) (little_endian 8 pointer) 8 (omega arith) in
    let (m', runs, there, below) =
      store_pointers-PointersAt argv ts arg_page arg_size (i + 1) (hitherto + (length t + 1))
        (p + 8) (a + (length t + 1)) m1 are (omega (arith, e)) (omega (arith, e'))
        (omega (arith, small)) in
    let fits : Fits 8 pointer = omega (arith, small, e') in
    let stored : word 8 m1 (arg_page + arg_size + i * 8) ≡ pointer =
      word-little_endian 8 pointer (arg_page + arg_size + i * 8) m1 fits
        (λ j b at. c.there j b (within_word pointer j b at) at) in
    let here : word 8 m' p ≡ a =
      word_kept 8 p m1 m' (λ k from to. below k to) ∙ ap (word 8 m1) e ∙ stored ∙ sym e' in
    (
      m',
      rw (copied, len) runs,
      (here, there),
      λ k lt. below k (omega arith) ∙ c.others k (inl (omega (arith, e))),
    )

-- spawn's two loops return for every list of C strings that ends below 2^64, without regard to the page's
-- end, and leave in memory: from the start of the page on, each argument's text with its terminator, one
-- behind the other; and behind the last of them, one 8-byte word for each argument, which is the address,
-- in the kernel's mapping of the page, of that argument's text. No byte in front of the page changes.
pub pass_args-PointersAt :
    (argv ts : List (List ℕ)) (arg_page : ℕ) (m : Memory)
    → AreTexts argv ts
    → arg_page + text_bytes ts ≤ 2 ^ 64
    → (m' : Memory) × (pass_args argv arg_page m ≡ ok (text_bytes ts, m'))
      × TextsAt m' arg_page ts
      × PointersAt m' (arg_page + text_bytes ts) arg_page ts
      × ((a : ℕ) → a < arg_page → m' a ≡ m a)
unfolding pass_args
pass_args-PointersAt argv ts arg_page m are small =
    let (m1, copied, texts, before) =
      copy_args-TextsAt argv ts arg_page 0 arg_page m are (omega arith) in
    let (m2, stored, pointers, before') =
      store_pointers-PointersAt argv ts arg_page (text_bytes ts) 0 0 (arg_page + text_bytes ts)
        arg_page m1 are (omega arith) (omega arith) small in
    let sum : 0 + text_bytes ts ≡ text_bytes ts = omega arith in
    (
      m2,
      rw (copied, sum, stored) refl,
      texts_kept arg_page ts m1 m2 before' texts,
      pointers,
      λ a lt. before' a (omega arith) ∙ before a lt,
    )
