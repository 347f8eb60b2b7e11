-- ===== src/Mem/Paging/Vmem.antt =====
-- write_vmem and push_vmem of src/mem/paging.c: bytes that are put where a page tree maps them. The
-- page tables are not among the bytes that are written.
use potat_os.Prelude.{
  ℕ, zero, suc, ◌+◌, ◌-◌, ◌%◌, ◌<◌, ◌≤◌, ◌≡◌, refl, ◌≢◌, ap, sym, ◌∙◌, subst, arith, ◌⊎◌, inl, inr,
  Bool, true, false, ltb, ◌==◌, if◌then◌else◌, List, [], ◌∷◌, length, length-drop, drop, get_elem?,
  some, same_or_not, Run, ok, fault, halted, out_of_fuel, ◌>>=◌,
}
use mathlib.Core.Option.{some-injective}
use potat_os.Mem.Pmm.{Memory}
use potat_os.Mem.Paging.{Tables, unmapped, page_align_down, virt_to_phys}
use potat_os.Mem.Paging.Trees.{entry}
use potat_os.Mem.Paging.Translate.{page_number, translate, virt_to_phys-entry}

-- `ku_memcpy` into the memory.
pub copy_bytes : Memory → ℕ → List ℕ → ℕ → Run Memory
copy_bytes m dest from zero = ok m
copy_bytes m dest [] (suc n) = fault
copy_bytes m dest (b ∷ bs) (suc n) = copy_bytes (λ a. if a == dest then b else m a) (dest + 1) bs n

pub write_vmem : ℕ → ℕ → Tables → ℕ → ℕ → List ℕ → ℕ → Memory → Run Memory
write_vmem zero hhdm w pml4_addr virt_addr bytes len m = out_of_fuel
write_vmem (suc fuel) hhdm w pml4_addr virt_addr bytes len m =
    if len == 0
    then ok m
    else (let kernel_addr = virt_to_phys hhdm w pml4_addr virt_addr in
        let bytes_to_copy = if ltb len 4096 then len else 4096 in
        if kernel_addr == unmapped then halted else (do
          m' ← copy_bytes m (kernel_addr + hhdm) bytes bytes_to_copy
          write_vmem fuel hhdm w pml4_addr (virt_addr + bytes_to_copy) (drop bytes_to_copy bytes)
              (len - bytes_to_copy) m'))

unfoldable pub push_vmem : ℕ → ℕ → Tables → ℕ → ℕ → List ℕ → ℕ → Memory → Run Memory
push_vmem fuel hhdm w pml4_addr rsp bytes len m =
    write_vmem fuel hhdm w pml4_addr (rsp - len) bytes len m

-- `n` bytes stand from `dest` on, and no other byte has changed.
pub record Copied (m : Memory) (dest : ℕ) (from : List ℕ) (n : ℕ) (m' : Memory) : Type 0 where
  pub there : (j b : ℕ) → j < n → get_elem? from j ≡ some b → m' (dest + j) ≡ b
  pub others : (a : ℕ) → (a < dest) ⊎ (dest + n ≤ a) → m' a ≡ m a

pub copy_bytes-Copied :
    (m : Memory) (dest : ℕ) (from : List ℕ) (n : ℕ)
    → n ≤ length from
    → (m' : Memory) × (copy_bytes m dest from n ≡ ok m') × Copied m dest from n m'
unfolding copy_bytes
copy_bytes-Copied m dest from zero le =
    (m, refl, record { there = λ j b lt. absurd (omega arith); others = λ a out. refl })
copy_bytes-Copied m dest [] (suc n) le = absurd (omega arith)
copy_bytes-Copied m dest (b ∷ bs) (suc n) le =
    let first = λ (a : ℕ). if a == dest then b else m a in
    let (m', runs, c) = copy_bytes-Copied first (dest + 1) bs n (omega arith) in
    (
      m',
      runs,
      record {
        there = there m' c;
        others = λ a out. c.others a (omega arith) ∙ ground (arith, out);
      },
    )
  where
    there :
        (m' : Memory)
        → Copied (λ a. if a == dest then b else m a) (dest + 1) bs n m'
        → (j d : ℕ) → j < suc n
        → get_elem? (b ∷ bs) j ≡ some d
        → m' (dest + j) ≡ d
    there m' c zero d lt at =
        let e : dest + 0 ≡ dest = omega arith in
        ap m' e ∙ c.others dest (omega arith) ∙ ground arith ∙ some-injective _ _ at
    there m' c (suc j) d lt at =
        let e : dest + suc j ≡ dest + 1 + j = omega arith in ap m' e ∙ c.there j d (omega arith) at

get_elem?-drop : (n k : ℕ) (xs : List ℕ) → get_elem? (drop n xs) k ≡ get_elem? xs (n + k)
get_elem?-drop zero k xs = let e : k ≡ 0 + k = omega arith in ap (get_elem? xs) e
get_elem?-drop (suc n) k [] = refl
get_elem?-drop (suc n) k (x ∷ xs) =
    let e : suc (n + k) ≡ suc n + k = omega arith in
    get_elem?-drop n k xs ∙ ap (get_elem? (x ∷ xs)) e

write_vmem_end :
    (fuel hhdm : ℕ) (w : Tables) (t virt len : ℕ) (bytes : List ℕ) (m : Memory)
    → 0 < fuel
    → len ≡ 0
    → write_vmem fuel hhdm w t virt bytes len m ≡ ok m
unfolding write_vmem
write_vmem_end zero hhdm w t virt len bytes m pos e = absurd (omega arith)
write_vmem_end (suc fuel) hhdm w t virt len bytes m pos e =
    let test : (len == 0) ≡ true = ground (arith, e) in rw test refl

module _ (hhdm : ℕ) (w : Tables) (t : ℕ) where
  -- Inside of a page that is mapped, virt_to_phys goes up with the address.
  pub virt_to_phys_page :
      (virt k : ℕ)
      → virt % 4096 ≡ 0
      → k < 4096
      → entry hhdm 3 w t (page_number virt) ≢ 0
      → (virt_to_phys hhdm w t (virt + k) ≡ virt_to_phys hhdm w t virt + k)
        × (virt_to_phys hhdm w t virt ≢ unmapped)
  virt_to_phys_page virt k aligned lt there =
      let same : page_number (virt + k) ≡ page_number virt = omega arith in
      let e = entry hhdm 3 w t (page_number virt) in
      let test : (e == 0) ≡ false = ground (arith, there) in
      let here : virt_to_phys hhdm w t virt ≡ page_align_down e =
        virt_to_phys-entry hhdm w t virt
        ∙ ap (λ (b : Bool). if b then unmapped else page_align_down e + virt % 4096) test
        ∙ omega arith in
      let above : virt_to_phys hhdm w t (virt + k) ≡ page_align_down e + k =
        virt_to_phys-entry hhdm w t (virt + k)
        ∙ ap (λ (x : ℕ). translate (entry hhdm 3 w t x) (virt + k)) same
        ∙ ap (λ (b : Bool). if b then unmapped else page_align_down e + (virt + k) % 4096) test
        ∙ omega arith in
      (omega (arith, here, above), omega (arith, here))

  -- One round of write_vmem.
  write_vmem_round :
      (fuel virt len n : ℕ) (bytes : List ℕ) (m : Memory)
      → 0 < len
      → n ≡ (if ltb len 4096 then len else 4096)
      → virt_to_phys hhdm w t virt ≢ unmapped
      → n ≤ length bytes
      → (m' : Memory) × (write_vmem (suc fuel) hhdm w t virt bytes len m
          ≡ write_vmem fuel hhdm w t (virt + n) (drop n bytes) (len - n) m')
        × Copied m (virt_to_phys hhdm w t virt + hhdm) bytes n m'
  unfolding write_vmem
  write_vmem_round fuel virt len n bytes m pos size ne enough =
      let test : (len == 0) ≡ false = ground (arith, pos) in
      let mapped : (virt_to_phys hhdm w t virt == unmapped) ≡ false = ground (arith, ne) in
      let (m', runs, c) = copy_bytes-Copied m (virt_to_phys hhdm w t virt + hhdm) bytes n enough in
      (m', rw (test, mapped, sym size, runs) refl, c)

  -- The bytes are found where the page tree maps their addresses, and no other byte has changed.
  pub record Found (virt : ℕ) (bytes : List ℕ) (len : ℕ) (m m' : Memory) : Type 0 where
    pub there :
        (k b : ℕ)
        → k < len
        → get_elem? bytes k ≡ some b
        → m' (virt_to_phys hhdm w t (virt + k) + hhdm) ≡ b
    pub others :
        (a : ℕ) → ((k : ℕ) → k < len → a ≢ virt_to_phys hhdm w t (virt + k) + hhdm) → m' a ≡ m a

  Found-none :
      (virt : ℕ) (bytes : List ℕ) (len : ℕ) (m : Memory) → len ≡ 0 → Found virt bytes len m m
  Found-none virt bytes len m e = record {
    there = λ k b k_lt. absurd (omega (arith, e));
    others = λ a out. refl;
  }

  -- The bytes of a page and those behind it.
  Found-behind :
      (virt n len : ℕ) (bytes : List ℕ) (m m1 m' : Memory)
      → n ≤ len
      → ((k : ℕ) → k < n → virt_to_phys hhdm w t (virt + k) ≡ virt_to_phys hhdm w t virt + k)
      → ((j k : ℕ)
          → j < len
          → k < len
          → virt_to_phys hhdm w t (virt + j) ≡ virt_to_phys hhdm w t (virt + k)
          → j ≡ k)
      → Copied m (virt_to_phys hhdm w t virt + hhdm) bytes n m1
      → Found (virt + n) (drop n bytes) (len - n) m1 m'
      → Found virt bytes len m m'
  Found-behind virt n len bytes m m1 m' le at different c f = record {
    there = there;
    others = others;
  }
    where
      phys : ℕ → ℕ
      phys k = virt_to_phys hhdm w t (virt + k)

      behind :
          (k : ℕ) → virt_to_phys hhdm w t (virt + n + k) ≡ virt_to_phys hhdm w t (virt + (n + k))
      behind k = let e : virt + n + k ≡ virt + (n + k) = omega arith in ap (virt_to_phys hhdm w t) e

      others :
          (a : ℕ) → ((k : ℕ) → k < len → a ≢ virt_to_phys hhdm w t (virt + k) + hhdm) → m' a ≡ m a
      others a out =
          let start = virt_to_phys hhdm w t virt + hhdm in
          let side : (a < start) ⊎ (start + n ≤ a) ⊎ ((start ≤ a) × (a < start + n)) =
            omega arith in
          f.others a (λ k lt e. out (n + k) (omega arith) (omega (arith, e, behind k)))
          ∙ elim side [
            | inl h ↦ c.others a (inl h)
            | inr (inl h) ↦ c.others a (inr h)
            | inr (inr (h, h')) ↦
                absurd (out (a - start) (omega arith) (omega (arith, at (a - start) (omega arith))))
          ]

      there :
          (k b : ℕ)
          → k < len
          → get_elem? bytes k ≡ some b
          → m' (virt_to_phys hhdm w t (virt + k) + hhdm) ≡ b
      there k b lt is = elim (same_or_not (n - k) 0) [
        | inl z ↦
            let e : n + (k - n) ≡ k = omega arith in
            let place : virt_to_phys hhdm w t (virt + k) + hhdm
                ≡ virt_to_phys hhdm w t (virt + n + (k - n)) + hhdm =
              omega (arith, behind (k - n), ap (λ (x : ℕ). virt_to_phys hhdm w t (virt + x)) e) in
            ap m' place
            ∙ f.there (k - n) b (omega arith)
                (get_elem?-drop n (k - n) bytes ∙ ap (get_elem? bytes) e ∙ is)
        | inr short ↦
            let place : virt_to_phys hhdm w t (virt + k) + hhdm
                ≡ virt_to_phys hhdm w t virt + hhdm + k =
              omega (arith, at k (omega arith)) in
            f.others (virt_to_phys hhdm w t (virt + k) + hhdm)
              (λ j j_lt e. clash k j (omega arith) lt j_lt (omega (arith, e, behind j)))
            ∙ ap m1 place
            ∙ c.there k b (omega arith) is
      ]
        where
          clash :
              (k j : ℕ)
              → k < n
              → k < len
              → j < len - n
              → virt_to_phys hhdm w t (virt + k) ≡ virt_to_phys hhdm w t (virt + (n + j))
              → ⊥
          clash k j k_lt lt j_lt e =
              let same = different k (n + j) lt (omega arith) e in absurd (omega arith)

  -- The statement of the theorem below, at one amount of fuel.
  abbrev Writes : ℕ → Type 0
  Writes fuel =
      (virt len : ℕ) (bytes : List ℕ) (m : Memory)
      → virt % 4096 ≡ 0
      → len < fuel
      → len ≤ length bytes
      → ((k : ℕ) → k < len → entry hhdm 3 w t (page_number (virt + k)) ≢ 0)
      → ((j k : ℕ)
          → j < len
          → k < len
          → virt_to_phys hhdm w t (virt + j) ≡ virt_to_phys hhdm w t (virt + k)
          → j ≡ k)
      → (m' : Memory) × (write_vmem fuel hhdm w t virt bytes len m ≡ ok m')
        × Found virt bytes len m m'

  -- write_vmem from the start of a page, of no more bytes than the data has, with all their pages mapped
  -- and no two of their addresses mapped to the same, returns with fuel for one round more than there
  -- are bytes, puts each of the bytes where virt_to_phys finds its address and changes no other byte.
  pub write_vmem-Found :
      (fuel virt len : ℕ) (bytes : List ℕ) (m : Memory)
      → virt % 4096 ≡ 0
      → len < fuel
      → len ≤ length bytes
      → ((k : ℕ) → k < len → entry hhdm 3 w t (page_number (virt + k)) ≢ 0)
      → ((j k : ℕ)
          → j < len
          → k < len
          → virt_to_phys hhdm w t (virt + j) ≡ virt_to_phys hhdm w t (virt + k)
          → j ≡ k)
      → (m' : Memory) × (write_vmem fuel hhdm w t virt bytes len m ≡ ok m')
        × Found virt bytes len m m'
  write_vmem-Found zero virt len bytes m aligned lt enough mapped different = absurd (omega arith)
  write_vmem-Found (suc fuel) virt zero bytes m aligned lt enough mapped different = (
    m,
    write_vmem_end (suc fuel) hhdm w t virt 0 bytes m (omega arith) refl,
    Found-none virt bytes 0 m refl,
  )
  write_vmem-Found (suc fuel) virt (suc l) bytes m aligned lt enough mapped different =
      let len = suc l in
      let n = if ltb len 4096 then len else 4096 in
      let small : (n ≤ len) × (n ≤ 4096) × (0 < n) × ((len ≤ n) ⊎ (n ≡ 4096)) = ground arith in
      let start : entry hhdm 3 w t (page_number virt) ≢ 0 =
        subst (λ x. entry hhdm 3 w t (page_number x) ≢ 0) (omega arith) (mapped 0 (omega arith)) in
      let at : (k : ℕ) → k < n → virt_to_phys hhdm w t (virt + k) ≡ virt_to_phys hhdm w t virt + k =
        λ k k_lt. (virt_to_phys_page virt k aligned (omega (arith, small)) start).0 in
      let (m1, round, c) =
        write_vmem_round fuel virt len n bytes m (omega arith) refl
          (virt_to_phys_page virt 0 aligned (omega arith) start).1 (omega (arith, small)) in
      let (m', runs, found) = behind (write_vmem-Found fuel) m1 n small in
      (
        m',
        round ∙ runs,
        Found-behind virt n len bytes m m1 m' (omega (arith, small)) at different c found,
      )
    where
      behind :
          Writes fuel
          → (m1 : Memory) (n : ℕ) → (n ≤ suc l) × (n ≤ 4096) × (0 < n) × ((suc l ≤ n) ⊎ (n ≡ 4096))
          → (m' : Memory) × (write_vmem fuel hhdm w t (virt + n) (drop n bytes) (suc l - n) m1
              ≡ ok m')
            × Found (virt + n) (drop n bytes) (suc l - n) m1 m'
      behind ih m1 n (a, b, pos, inl all) = (
        m1,
        write_vmem_end fuel hhdm w t (virt + n) (suc l - n) (drop n bytes) m1 (omega arith)
            (omega arith),
        Found-none (virt + n) (drop n bytes) (suc l - n) m1 (omega arith),
      )
      behind ih m1 n (a, b, pos, inr page) =
          ih (virt + n) (suc l - n) (drop n bytes) m1 (omega arith) (omega arith)
            (omega (arith, length-drop n bytes))
            (λ k k_lt.
              subst (λ x. entry hhdm 3 w t (page_number x) ≢ 0) (omega arith)
                (mapped (n + k) (omega arith)))
            (λ j k j_lt k_lt e.
              let e' =
                different (n + j) (n + k) (omega arith) (omega arith) (step j ∙ e ∙ sym (step k)) in
              omega arith)
        where
          step :
              (k : ℕ)
              → virt_to_phys hhdm w t (virt + (n + k)) ≡ virt_to_phys hhdm w t (virt + n + k)
          step k =
              let e : virt + (n + k) ≡ virt + n + k = omega arith in ap (virt_to_phys hhdm w t) e

  -- From any address that is mapped, write_vmem of between 1 and 4096 bytes that the data has returns
  -- with fuel for two rounds and puts them behind one another from where the first address is mapped
  -- on, wherever the page tree maps the next page.
  pub write_vmem-Copied :
      (fuel virt len : ℕ) (bytes : List ℕ) (m : Memory)
      → 0 < len
      → len ≤ 4096
      → 1 < fuel
      → len ≤ length bytes
      → virt_to_phys hhdm w t virt ≢ unmapped
      → (m' : Memory) × (write_vmem fuel hhdm w t virt bytes len m ≡ ok m')
        × Copied m (virt_to_phys hhdm w t virt + hhdm) bytes len m'
  write_vmem-Copied zero virt len bytes m pos le many enough ne = absurd (omega arith)
  write_vmem-Copied (suc fuel) virt len bytes m pos le many enough ne =
      let (m', runs, c) =
        write_vmem_round fuel virt len len bytes m pos (ground (arith, le)) ne enough in
      (
        m',
        runs
            ∙ write_vmem_end fuel hhdm w t (virt + len) (len - len) (drop len bytes) m'
                (omega arith) (omega arith),
        c,
      )
