-- ===== src/Mem/Pmm/Tests.antt =====
-- Runs of the allocator, and its theorems at a memory map of two sections.
use potat_os.Prelude.{
  zero, suc, ◌+◌, ◌*◌, ◌/◌, ◌<◌, ◌≤◌, ◌≡◌, refl, ap, subst, ◌⊎◌, arith, inl, none, List, [], ◌∷◌,
  ok, out_of_fuel,
}
use mathlib.Core.Option.{some-injective}
use potat_os.Mem.Pmm.{
  MemmapEntry, usable, Pmm, allocate_page, allocate_pages, check_loop, check_pages_avaliable,
  find_bit, find_byte, reserved_loop, get_bitmap_reserved, take_pages, find_section, kmalloc,
}
use potat_os.Mem.Pmm.Reserved.{get_bitmap_reserved_lem}
use potat_os.Mem.Pmm.Bitmap.{IsBytes}
use potat_os.Mem.Pmm.Taken.{IsSized}
use potat_os.Mem.Pmm.Kmalloc.{AreSized, Allocates, kmalloc-Allocates}
use potat_os.Mem.Pmm.Apart.{Disjoint, kmalloc-kmalloc_apart}

-- A section of 65 pages that can be used, and one that cannot.
abbrev low : MemmapEntry
low = record { base = 4096; length = 65 * 4096; type = usable }

abbrev firmware : MemmapEntry
firmware = record { base = 1048576; length = 8192; type = 1 }

abbrev sections : List MemmapEntry
sections = low ∷ firmware ∷ []

abbrev start : Pmm
start = record {
  entries = sections;
  hhdm = 16777216;
  memory = λ _. 0;
  last_freed_page = none;
  last_freed_section = none;
  last_freed_num_pages = 0;
  total_memory_allocated = 0;
}

start-IsBytes : IsBytes start.memory
start-IsBytes a = omega arith

sections-AreSized : AreSized sections
sections-AreSized zero e at is_usable =
    subst IsSized (some-injective _ _ at)
      (record { fits = omega arith; low = omega arith; high = omega arith })
sections-AreSized (suc zero) e at is_usable =
    let not_usable = ap (λ (d : MemmapEntry). d.type) (some-injective _ _ at) in
    absurd (ground (arith, not_usable, is_usable))
sections-AreSized (suc (suc i)) e at is_usable = absurd (ground (arith, at))

sections-Disjoint : Disjoint sections
sections-Disjoint zero (suc zero) d e lt at at' =
    let first = some-injective _ _ at in
    let other = some-injective _ _ at' in
    inl (
      omega (
        arith,
        ap (λ (s : MemmapEntry). s.base) first,
        ap (λ (s : MemmapEntry). s.length) first,
        ap (λ (s : MemmapEntry). s.base) other,
      ))
sections-Disjoint zero zero d e lt at at' = absurd (omega arith)
sections-Disjoint zero (suc (suc j)) d e lt at at' = absurd (ground (arith, at'))
sections-Disjoint (suc i) zero d e lt at at' = absurd (omega arith)
sections-Disjoint (suc zero) (suc zero) d e lt at at' = absurd (omega arith)
sections-Disjoint (suc zero) (suc (suc j)) d e lt at at' = absurd (ground (arith, at'))
sections-Disjoint (suc (suc i)) (suc j) d e lt at at' = absurd (ground (arith, at))

get_bitmap_reserved_lem_example :
    (1 ≤ low.length / 4096 → low.length / 4096 ≤ 32768 → get_bitmap_reserved 1 low ≡ ok 4096)
    × ((low.length / 4096 ≡ 0) ⊎ (32768 < low.length / 4096)
        → get_bitmap_reserved 0 low ≡ out_of_fuel)
get_bitmap_reserved_lem_example = get_bitmap_reserved_lem 0 low (omega arith)

kmalloc-Allocates_example : Allocates start 2 sections (kmalloc 2 start)
kmalloc-Allocates_example =
    kmalloc-Allocates start 2 start-IsBytes sections-AreSized refl (omega arith) (omega arith)

abbrev after : Pmm
after = (take_pages start low 2 4096 0).1

first_block : kmalloc 2 start ≡ ok (8192, after)
unfolding kmalloc find_section find_byte find_bit check_pages_avaliable check_loop
    get_bitmap_reserved reserved_loop
first_block = refl

second_block : kmalloc 3 after ≡ ok (16384, (take_pages after low 3 4096 2).1)
unfolding kmalloc find_section find_byte find_bit check_pages_avaliable check_loop allocate_pages
    allocate_page get_bitmap_reserved reserved_loop
second_block = refl

kmalloc-kmalloc_apart_example : (8192 + 2 * 4096 ≤ 16384) ⊎ (16384 + 3 * 4096 ≤ 8192)
kmalloc-kmalloc_apart_example =
    kmalloc-kmalloc_apart start after (take_pages after low 3 4096 2).1 2 3 8192 16384 start-IsBytes
      sections-AreSized sections-Disjoint refl (omega arith) (omega arith) (omega arith)
      (omega arith) first_block second_block
