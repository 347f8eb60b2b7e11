-- ===== src/Mem/Pmm/Reserved.antt =====
-- `get_bitmap_reserved`.
use potat_os.Prelude.{ℕ, zero, suc, ◌/◌, ◌^◌, ◌<◌, ◌≤◌, ◌≡◌, refl, ◌⊎◌, arith, ok, out_of_fuel}
use potat_os.Mem.Pmm.{MemmapEntry, reserved_loop, get_bitmap_reserved}

-- A section of between 1 and 32768 whole pages gets one page for its bitmap, at once. For a section
-- with no whole page or with more than 32768, the loop never ends: no amount of fuel is enough.
pub get_bitmap_reserved_lem :
    (fuel : ℕ) (entry : MemmapEntry)
    → entry.length < 2 ^ 64
    → (1 ≤ entry.length / 4096
        → entry.length / 4096 ≤ 32768
        → get_bitmap_reserved (suc fuel) entry ≡ ok 4096)
      × ((entry.length / 4096 ≡ 0) ⊎ (32768 < entry.length / 4096)
          → get_bitmap_reserved fuel entry ≡ out_of_fuel)
unfolding get_bitmap_reserved reserved_loop
get_bitmap_reserved_lem fuel entry fits = (λ low high. ground arith, λ bad. loops fuel bad)
  where
    loops :
        (n : ℕ)
        → (entry.length / 4096 ≡ 0) ⊎ (32768 < entry.length / 4096)
        → reserved_loop n 1 entry ≡ out_of_fuel
    loops zero bad = refl
    loops (suc n) bad = ground (arith, loops n bad, bad)
