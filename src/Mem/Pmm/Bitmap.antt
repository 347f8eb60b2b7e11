-- ===== src/Mem/Pmm/Bitmap.antt =====
-- The bitmap: `allocate_page`, `allocate_pages` and `check_pages_avaliable`.
use potat_os.Prelude.{
  every, every_at, ℕ, zero, suc, ◌+◌, ◌/◌, ◌%◌, ◌<◌, ◌≤◌, ◌≡◌, refl, ap, ◌∙◌, Bool, true, false,
  ◌&&◌, arith, ◌==◌, ltb, leb, if◌then◌else◌, bit_and, bit_or, Bool-cases, inl, inr, ◌↔◌,
}
use potat_os.Prelude.Bits.{◌>>>◌}
use potat_os.Mem.Pmm.{Memory, or_value, allocate_page, allocate_pages, page_bit, check_loop}

-- One byte of the bitmap, with one of its bits set, read at any bit.
byte_ok : ℕ → ℕ → ℕ → Bool
byte_ok b c x =
    (bit_and (bit_or x (or_value b) >>> c) 1 == (if b == c then 1 else bit_and (x >>> c) 1))
    && ltb (bit_or x (or_value b)) 256

table : every 8 (λ b. every 8 (λ c. every 256 (byte_ok b c))) ≡ true
unfolding byte_ok
table = refl

byte_ok_lem : (b c x : ℕ) → b < 8 → c < 8 → x < 256 → byte_ok b c x ≡ true
byte_ok_lem b c x hb hc hx = every_at (byte_ok b c) 256 x hx (
    every_at (λ c. every 256 (byte_ok b c)) 8 c hc
      (every_at (λ b. every 8 (λ c. every 256 (byte_ok b c))) 8 b hb table))

-- Every byte of memory is a byte.
abbrev pub IsBytes : Memory → Type 0
IsBytes m = (a : ℕ) → m a < 256

set_bit :
    (b c x : ℕ)
    → b < 8
    → c < 8
    → x < 256
    → bit_and (bit_or x (or_value b) >>> c) 1 ≡ (if b == c then 1 else bit_and (x >>> c) 1)
unfolding byte_ok
set_bit b c x hb hc hx = ground (arith, byte_ok_lem b c x hb hc hx)

set_byte : (b x : ℕ) → b < 8 → x < 256 → bit_or x (or_value b) < 256
unfolding byte_ok
set_byte b x hb hx = ground (arith, byte_ok_lem b 0 x hb (omega arith) hx)

allocate_page-IsBytes : (s p : ℕ) (m : Memory) → IsBytes m → IsBytes (allocate_page s p m)
unfolding allocate_page
allocate_page-IsBytes s p m bytes a =
    ground (arith, set_byte (p % 8) (m a) (omega arith) (bytes a), bytes a)

page_bit-allocate_page :
    (s p q : ℕ) (m : Memory)
    → IsBytes m
    → page_bit (allocate_page s p m) s q ≡ (if p == q then 1 else page_bit m s q)
unfolding allocate_page
page_bit-allocate_page s p q m bytes = elim (Bool-cases (q / 8 == p / 8)) [
  | inl same ↦
      let here : (s + q / 8 == s + p / 8) ≡ true = ground (arith, same) in
      let bits = set_bit (p % 8) (q % 8) (m (s + q / 8)) (omega arith) (omega arith) (bytes _) in
      let eq : (p % 8 == q % 8) ≡ (p == q) = ground (arith, same) in rw (here, bits, eq) refl
  | inr other ↦
      let there : (s + q / 8 == s + p / 8) ≡ false = ground (arith, other) in
      let ne : (p == q) ≡ false = ground (arith, other) in rw (there, ne) refl
]

-- `q` is one of the `n` pages from `p` on.
abbrev pub in_run : ℕ → ℕ → ℕ → Bool
in_run p n q = leb p q && ltb q (p + n)

pub allocate_pages-IsBytes : (n s p : ℕ) (m : Memory) → IsBytes m → IsBytes (allocate_pages s p n m)
unfolding allocate_pages
allocate_pages-IsBytes zero s p m bytes = bytes
allocate_pages-IsBytes (suc n) s p m bytes =
    allocate_pages-IsBytes n s (p + 1) (allocate_page s p m) (allocate_page-IsBytes s p m bytes)

-- `allocate_pages` marks the pages of the run as used, and no bit of another page changes.
pub page_bit-allocate_pages :
    (n s p q : ℕ) (m : Memory)
    → IsBytes m
    → page_bit (allocate_pages s p n m) s q ≡ (if in_run p n q then 1 else page_bit m s q)
unfolding allocate_pages
page_bit-allocate_pages zero s p q m bytes = ground arith
page_bit-allocate_pages (suc n) s p q m bytes =
    let rest =
      page_bit-allocate_pages n s (p + 1) q (allocate_page s p m)
        (allocate_page-IsBytes s p m bytes) in
    let one = page_bit-allocate_page s p q m bytes in
    rest ∙ ap (λ b. if in_run (p + 1) n q then 1 else b) one ∙ both
  where
    both :
        (if in_run (p + 1) n q then 1 else (if p == q then 1 else page_bit m s q))
        ≡ (if in_run p (suc n) q then 1 else page_bit m s q)
    both = ground arith

-- The loop of `check_pages_avaliable` says whether no page of the run is marked.
pub check_loop_decides :
    (n p s : ℕ) (m : Memory)
    → (check_loop m s p n ≡ true) ↔ ((q : ℕ) → p ≤ q → q < p + n → page_bit m s q ≡ 0)
unfolding check_loop
check_loop_decides zero p s m = (λ h q lo hi. absurd (omega arith), λ h. refl)
check_loop_decides (suc n) p s m =
    let (to, from) = check_loop_decides n (p + 1) s m in
    (
      λ h q lo hi. elim (Bool-cases (q == p)) [
        | inl same ↦ ground (arith, h, same)
        | inr other ↦ to (ground (arith, h)) q (ground (arith, lo, other)) (omega arith)
      ],
      λ free.
          let first = free p (omega arith) (omega arith) in
          let others = from (λ q lo hi. free q (omega arith) (omega arith)) in
          rw (first, others) refl,
    )
