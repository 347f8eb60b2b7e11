-- ===== src/Mem/Pmm/Search.antt =====
-- `check_pages_avaliable` and the loops that search one section.
use potat_os.Prelude.{
  ℕ, zero, suc, ◌+◌, ◌-◌, ◌*◌, ◌%◌, ◌^◌, ◌<◌, ◌≤◌, ◌≡◌, refl, ap, subst, true, arith, ltb, Option,
  none, some, Bool-cases, inl, inr, ◌↔◌,
}
use potat_os.Mem.Pmm.{
  MemmapEntry, usable, Memory, page_bit, check_loop, max_bitmap_bytes, check_pages_avaliable,
  find_bit, find_byte,
}
use potat_os.Mem.Pmm.Bitmap.{check_loop_decides}

-- The `num` pages from `page` on lie in the part of the section that its bitmap covers, and none of
-- them is marked as used.
pub record Free (m : Memory) (hhdm : ℕ) (entry : MemmapEntry) (reserved num page : ℕ) : Type 0 where
  pub is_usable : entry.type ≡ usable
  pub inside : page + num ≤ max_bitmap_bytes entry reserved * 8
  pub unmarked : (q : ℕ) → page ≤ q → q < page + num → page_bit m (entry.base + hhdm) q ≡ 0

module _ (m : Memory) (hhdm : ℕ) (entry : MemmapEntry) (num reserved : ℕ) where
  -- When the page numbers do not wrap around, `check_pages_avaliable` answers true exactly for the
  -- free runs of pages of a usable section.
  pub check_pages_avaliable_decides :
      (page : ℕ)
      → page + num < 2 ^ 64
      → (check_pages_avaliable m hhdm entry page num reserved ≡ true)
        ↔ Free m hhdm entry reserved num page
  unfolding check_pages_avaliable
  check_pages_avaliable_decides page fits =
      let (to, from) = check_loop_decides num page (entry.base + hhdm) m in
      let top : (page + num) % 2 ^ 64 ≡ page + num = omega arith in
      let loop : check_loop m (entry.base + hhdm) page ((page + num) % 2 ^ 64 - page)
          ≡ check_loop m (entry.base + hhdm) page num =
        ap (check_loop m (entry.base + hhdm) page) (omega arith) in
      (
        λ h. record {
          is_usable = ground (arith, h);
          inside = ground (arith, h, top);
          unmarked = to (ground (arith, h, loop));
        },
        λ f. ground (arith, f.is_usable, f.inside, top, loop, from f.unmarked),
      )

  abbrev pub NoneFree : ℕ → ℕ → Type 0
  NoneFree lo hi = (q : ℕ) → lo ≤ q → q < hi → ¬ Free m hhdm entry reserved num q

  -- `r` is the first page of the `n` from `lo` on at which the run is free, if there is one.
  pub data FirstFit (r : Option ℕ) (lo n : ℕ) : Type 0 where
    found :
        (page : ℕ)
        → r ≡ some page
        → lo ≤ page
        → Free m hhdm entry reserved num page
        → NoneFree lo page
        → FirstFit r lo n
    nowhere : r ≡ none → NoneFree lo (lo + n) → FirstFit r lo n

  NoneFree-join :
      {lo mid mid' hi hi' : ℕ}
      → NoneFree lo mid
      → NoneFree mid' hi
      → mid' ≤ mid
      → hi' ≤ hi
      → NoneFree lo hi'
  NoneFree-join {mid} low high meet fits q lo hi = elim (Bool-cases (ltb q mid)) [
    | inl before ↦ low q lo (ground (arith, before))
    | inr after ↦ high q (ground (arith, after, meet)) (omega arith)
  ]

  find_bit-FirstFit :
      (rounds byte bit : ℕ)
      → bit + byte * 8 + rounds + num < 2 ^ 64
      → FirstFit (find_bit m hhdm entry num reserved byte bit rounds) (bit + byte * 8) rounds
  unfolding find_bit
  find_bit-FirstFit zero byte bit fits = nowhere refl (λ q lo hi. absurd (omega arith))
  find_bit-FirstFit (suc rounds) byte bit fits =
      let page = bit + byte * 8 in
      let (to, from) = check_pages_avaliable_decides page (omega arith) in
      elim (Bool-cases (check_pages_avaliable m hhdm entry page num reserved)) [
        | inl free ↦
            found page (rw free refl) (omega arith) (to free) (λ q lo hi. absurd (omega arith))
        | inr taken ↦
            let here : NoneFree page (page + 1) = λ q lo hi f.
              let same : q ≡ page = omega arith in
              ground (arith, taken, from (subst (Free m hhdm entry reserved num) same f)) in
            elim (find_bit-FirstFit rounds byte (bit + 1) (omega arith)) [
              | found p e lo f before ↦
                  found p (rw taken e) (omega arith) f
                    (NoneFree-join here before (omega arith) (omega arith))
              | nowhere e above ↦
                  nowhere (rw taken e) (NoneFree-join here above (omega arith) (omega arith))
            ]
      ]

  pub find_byte-FirstFit :
      (rounds byte : ℕ)
      → (byte + rounds) * 8 + num < 2 ^ 64
      → FirstFit (find_byte m hhdm entry num reserved byte rounds) (byte * 8) (rounds * 8)
  unfolding find_byte
  find_byte-FirstFit zero byte fits = nowhere refl (λ q lo hi. absurd (omega arith))
  find_byte-FirstFit (suc rounds) byte fits =
      elim (subst (λ lo. FirstFit (find_bit m hhdm entry num reserved byte 0 8) lo 8) (omega arith)
        (find_bit-FirstFit 8 byte 0 (omega arith))) [
          | found p e lo f before ↦ found p (rw e refl) lo f before
          | nowhere e above ↦ elim (find_byte-FirstFit rounds (byte + 1) (omega arith)) [
            | found p e' lo f before ↦
                found p (rw (e, e') refl) (omega arith) f
                  (NoneFree-join above before (omega arith) (omega arith))
            | nowhere e' above' ↦
                nowhere (rw (e, e') refl) (NoneFree-join above above' (omega arith) (omega arith))
          ]
        ]
