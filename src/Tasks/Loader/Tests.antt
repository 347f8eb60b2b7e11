-- ===== src/Tasks/Loader/Tests.antt =====
-- The loader on a concrete file: runs, and witnesses of the theorems.
use potat_os.Prelude.{
  ◌<◌, ℕ, ◌≡◌, ◌*◌, length-replicate, refl, arith, true, List, [], ◌∷◌, ok, replicate,
}
use potat_os.Utils.Strings.{memcmp}
use potat_os.Mem.Pmm.{Memory}
use potat_os.Tasks.Loader.Arguments.{pass_args, TextsAt, PointersAt, pass_args-PointersAt}
use potat_os.Tasks.Loader.{
  ElfProgramHeader, validate_elf, first_loadable_segment, last_loadable_segment, first_loop,
  last_loop, load_image,
}
use potat_os.Tasks.Loader.Segments.{LoadableAt, AtOrAbove}
use potat_os.Tasks.Loader.Image.{Loaded, load_image-Loaded}

abbrev note : ElfProgramHeader
note = record { type = 4; offset = 0; virtual_address = 0; size_in_file = 9; size_in_memory = 9 }

abbrev text : ElfProgramHeader
text = record { type = 1; offset = 0; virtual_address = 4096; size_in_file = 3; size_in_memory = 3 }

abbrev data_segment : ElfProgramHeader
data_segment = record {
  type = 1;
  offset = 3;
  virtual_address = 8192;
  size_in_file = 1;
  size_in_memory = 8;
}

abbrev headers : List ElfProgramHeader
headers = note ∷ text ∷ data_segment ∷ []

abbrev file_bytes : List ℕ
file_bytes = 7 ∷ 8 ∷ 9 ∷ 5 ∷ []

abbrev zero_pages : ℕ → List ℕ
zero_pages n = replicate (n * 4096) 0

load_image-Loaded_example :
    (first : ElfProgramHeader) × (pages : List ℕ) × (load_image zero_pages file_bytes headers
      ≡ ok pages)
    × LoadableAt headers (first_loadable_segment headers) first
    × AtOrAbove first.virtual_address headers
    × Loaded file_bytes first.virtual_address headers pages
load_image-Loaded_example =
    load_image-Loaded zero_pages file_bytes headers 1 text
      (λ n. length-replicate {A = ℕ} (n * 4096) 0) (refl, refl) (omega arith)
      (
        (λ is. ground (arith, is)),
        (
          (λ is. (omega arith, omega arith, omega arith, omega arith, omega arith)),
          ((λ is. (omega arith, omega arith, omega arith, omega arith, omega arith)), tt),
        ),
      )

-- The lowest and the highest segment, whatever their order.
chosen : first_loadable_segment (data_segment ∷ note ∷ text ∷ []) ≡ 2
unfolding first_loadable_segment first_loop
chosen = refl

chosen_last : last_loadable_segment (data_segment ∷ note ∷ text ∷ []) ≡ 0
unfolding last_loadable_segment last_loop
chosen_last = refl

validates :
    validate_elf
      (record { id = 127 ∷ b'E' ∷ b'L' ∷ b'F' ∷ 2 ∷ 1 ∷ replicate 10 0; machine_type = 62 })
    ≡ ok true
unfolding validate_elf memcmp
validates = refl

-- Two arguments.
abbrev two_args : List (List ℕ)
two_args = (b'l' ∷ b's' ∷ 0 ∷ []) ∷ (b'R' ∷ 0 ∷ 9 ∷ []) ∷ []

abbrev two_texts : List (List ℕ)
two_texts = (b'l' ∷ b's' ∷ []) ∷ (b'R' ∷ []) ∷ []

pass_args-PointersAt_example :
    (m' : Memory) × (pass_args two_args 4096 (λ a. 0) ≡ ok (5, m'))
    × TextsAt m' 4096 two_texts
    × PointersAt m' 4101 4096 two_texts
    × ((a : ℕ) → a < 4096 → m' a ≡ 0)
pass_args-PointersAt_example =
    pass_args-PointersAt two_args two_texts 4096 (λ a. 0)
      (([], refl), (ground arith, (ground arith, tt)), ((9 ∷ [], refl), (ground arith, tt), tt))
      (omega arith)
