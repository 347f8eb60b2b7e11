-- ===== src/Fs/Ustar/Names.antt =====
-- The name of an unpacked file.
use potat_os.Prelude.{
  ℕ, suc, ◌+◌, ◌%◌, ◌≤◌, ◌≡◌, refl, ◌≢◌, arith, true, false, ◌==◌, List, [], ◌∷◌, ◌++◌, length,
  length-append, length-drop, length-take, length-set, length-replicate, replicate, take, drop, set,
  get_elem?, some, ok, fault, store-set, store_beyond,
}
use potat_os.Utils.Strings.{memcmp, oct2bin}
use potat_os.Utils.Strings.Compare.{NoNul, strlen-length}
use potat_os.Utils.Strings.Edit.{memset_lem, memcpy_lem}
use potat_os.Fs.Vfs.{Vfs}
use potat_os.Fs.Ustar.{new_name, unpack_file, unpack_ustar}

-- The terminator of the path is written out of bounds when malloc gives no byte more than it is asked for.
new_name_fault :
    (alloc : ℕ → List ℕ) (drive_char : ℕ) (name r : List ℕ)
    → ((n : ℕ) → length (alloc n) ≡ n)
    → NoNul name
    → new_name alloc drive_char (name ++ (0 ∷ r)) ≡ fault
unfolding new_name
new_name_fault alloc drive_char name r exact nonul =
    let n = length name in
    let archive = name ++ (0 ∷ r) in
    let c0 = replicate (n + 4) (0 % 256) ++ drop (n + 4) (alloc (n + 4)) in
    let c1 = set c0 0 drive_char in
    let c2 = set c1 1 b':' in
    let c3 = set c2 2 b'/' in
    let l0 : length c0 ≡ n + 4 = omega (
      arith,
      exact (n + 4),
      length-append (replicate (n + 4) (0 % 256)) (drop (n + 4) (alloc (n + 4))),
      length-replicate {A = ℕ} (n + 4) (0 % 256),
      length-drop (n + 4) (alloc (n + 4)),
    ) in
    let l1 : length c1 ≡ n + 4 = omega (arith, l0, length-set c0 0 drive_char) in
    let l2 : length c2 ≡ n + 4 = omega (arith, l1, length-set c1 1 b':') in
    let l3 : length c3 ≡ n + 4 = omega (arith, l2, length-set c2 2 b'/') in
    let behind : length (drop 3 c3) ≡ n + 1 = omega (arith, l3, length-drop 3 c3) in
    let enough : n ≤ length archive = omega (arith, length-append name (0 ∷ r)) in
    let copied = memcpy_lem (drop 3 c3) archive n (omega (arith, behind)) enough in
    let whole = take 3 c3 ++ (take n archive ++ drop n (drop 3 c3)) in
    let size : length whole ≤ n + 4 = omega (
      arith,
      length-append (take 3 c3) (take n archive ++ drop n (drop 3 c3)),
      length-take 3 c3 (omega (arith, l3)),
      length-append (take n archive) (drop n (drop 3 c3)),
      length-take n archive enough,
      length-drop n (drop 3 c3),
      behind,
    ) in
    rw
      (
        strlen-length name r nonul,
        memset_lem (alloc (n + 4)) 0 (n + 4) (omega (arith, exact (n + 4))),
        store-set c0 0 drive_char (omega (arith, l0)),
        store-set c1 1 b':' (omega (arith, l1)),
        store-set c2 2 b'/' (omega (arith, l2)),
        copied,
        store_beyond whole (n + 4) 0 size,
      )
      refl

other_test : (a b : ℕ) → a ≢ b → (a == b) ≡ false
other_test a b ne = ground (arith, ne)

-- At a header of a file whose name ends in its object, with malloc giving as many bytes as it is asked
-- for, unpack_ustar writes the terminator of the file's path out of bounds.
pub unpack_ustar_overflow :
    {D S : Type 0} (alloc : ℕ → List ℕ) (drive_char fuel : ℕ) (name r : List ℕ) (v : Vfs D S)
    (filesize type : ℕ)
    → ((n : ℕ) → length (alloc n) ≡ n)
    → NoNul name
    → memcmp (drop 257 (name ++ (0 ∷ r))) (b'u' ∷ b's' ∷ b't' ∷ b'a' ∷ b'r' ∷ 0 ∷ []) 5 ≡ ok true
    → oct2bin (drop 124 (name ++ (0 ∷ r))) 11 ≡ ok filesize
    → get_elem? (name ++ (0 ∷ r)) 156 ≡ some type
    → type ≢ b'5'
    → unpack_ustar alloc drive_char (suc fuel) (name ++ (0 ∷ r)) v ≡ fault
unfolding unpack_ustar unpack_file
unpack_ustar_overflow alloc drive_char fuel name r v filesize type exact nonul magic octal kind
      is_file =
    let test = other_test type b'5' is_file in
    rw (magic, octal, kind, test, new_name_fault alloc drive_char name r exact nonul) refl
