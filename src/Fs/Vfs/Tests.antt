-- ===== src/Fs/Vfs/Tests.antt =====
-- The virtual file system over a chain of directories: object 1 is the root, an object below the
-- count in the state is a directory with the next one in it under every name.
use potat_os.Prelude.{
  ℕ, zero, suc, ◌+◌, ◌≤◌, ◌≡◌, refl, ◌≢◌, ap, arith, true, false, ltb, List, [], ◌∷◌, ◌++◌, length,
  length-replicate, take, drop, replicate, if◌then◌else◌, ok, fault,
}
use potat_os.Fs.Vfs.{FileSystem, File, Vfs, no_drive}
use potat_os.Fs.Vfs.Paths.{has_drive, extend_path}
use potat_os.Fs.Vfs.Paths.Laws.{Allocates, IsString, extend_path_lem}
use potat_os.Fs.Vfs.Drives.{mounted}
use potat_os.Fs.Vfs.Files.{ReadsBack}
use potat_os.Fs.Vfs.Open.{open_path, make_dir, mkdir}
use potat_os.Fs.Vfs.Open.Components.{join}
use potat_os.Fs.Vfs.Open.Whole.{open_path_overflow}
use potat_os.Fs.Vfs.Open.Overrun.{enter, enter_all, mkdir_overrun}

abbrev chain : FileSystem (Unit {0}) ℕ
chain = record {
  fs_id = 0;
  find_function = λ obj name s. ok (if ltb obj s then obj + 1 else 0);
  find_root_function = λ fs s. ok 1;
  open_dir_function = λ obj s. ok obj;
  open_file_function = λ obj mode s. ok (obj, s);
  mkdir_function = λ obj name s. ok (s + 1);
  mkfile_function = λ obj name s. ok (s + 1);
  close_function = λ obj s. ok s;
  write_function = λ obj buffer size s. ok (0, s);
  read_function = λ obj buffer size s. ok (0, buffer, s);
  length_function = λ obj s. ok 0;
  tempfs_create_device = λ obj name ops s. ok (s + 1);
}

-- One file, whose contents are the state.
abbrev slate : FileSystem (Unit {0}) (List ℕ)
slate = record {
  fs_id = 0;
  find_function = λ obj name s. ok 1;
  find_root_function = λ fs s. ok 1;
  open_dir_function = λ obj s. ok obj;
  open_file_function = λ obj mode s. ok (obj, s);
  mkdir_function = λ obj name s. ok s;
  mkfile_function = λ obj name s. ok s;
  close_function = λ obj s. ok s;
  write_function = λ obj buffer size s. ok (0, take size buffer);
  read_function = λ obj out n s. ok (0, take n s ++ drop n out, s);
  length_function = λ obj s. ok (length s);
  tempfs_create_device = λ obj name ops s. ok s;
}

take-take : (n m : ℕ) (xs : List ℕ) → n ≤ m → take n (take m xs) ≡ take n xs
take-take zero m xs h = refl
take-take (suc n) zero xs h = absurd (omega arith)
take-take (suc n) (suc m) [] h = refl
take-take (suc n) (suc m) (x ∷ xs) h = ap (λ l. x ∷ l) (take-take n m xs (omega arith))

slate-ReadsBack : ReadsBack slate 1 [] 2
slate-ReadsBack = record {
  write_read = λ buffer size few fits. (
    take size buffer,
    refl,
    λ out n le le'.
        ap (λ l. ok (0, l ++ drop n out, take size buffer)) (take-take n size buffer le),
  );
}

abbrev alloc : ℕ → List ℕ
alloc n = replicate (n + 1) 7

alloc-Allocates : Allocates alloc
alloc-Allocates n = omega (arith, length-replicate {A = ℕ} (n + 1) 7)

abbrev exact : ℕ → List ℕ
exact n = replicate n 7

-- Drive A holds the chain.
abbrev kernel : Vfs (Unit {0}) ℕ
kernel = record {
  filesystems = chain ∷ [];
  drives = mounted chain true 0 0 0 ∷ replicate 25 no_drive;
  current_dir = b'A' ∷ b':' ∷ b'/' ∷ 0 ∷ [];
  disk = 2;
  console = [];
}

abbrev desk : Vfs (Unit {0}) (List ℕ)
desk = record {
  filesystems = slate ∷ [];
  drives = mounted slate true 0 0 0 ∷ [];
  current_dir = b'A' ∷ b':' ∷ b'/' ∷ 0 ∷ [];
  disk = [];
  console = [];
}

abbrev names : List (List ℕ)
names = (b'a' ∷ []) ∷ (b'b' ∷ b'c' ∷ []) ∷ []

abbrev letter_x : ℕ
letter_x = b'x'

extend_path_lem_example :
    (has_drive (letter_x ∷ 0 ∷ []) ≡ ok true
      → IsString
          (extend_path alloc (b'A' ∷ b':' ∷ b'/' ∷ 0 ∷ []) (letter_x ∷ 0 ∷ []))
          (letter_x ∷ []))
    × (has_drive (letter_x ∷ 0 ∷ []) ≡ ok false
        → letter_x ≡ 47
        → IsString
            (extend_path alloc (b'A' ∷ b':' ∷ b'/' ∷ 0 ∷ []) (letter_x ∷ 0 ∷ []))
            (b'A' ∷ 58 ∷ letter_x ∷ []))
    × (has_drive (letter_x ∷ 0 ∷ []) ≡ ok false
        → letter_x ≢ 47
        → IsString
            (extend_path alloc (b'A' ∷ b':' ∷ b'/' ∷ 0 ∷ []) (letter_x ∷ 0 ∷ []))
            (b'A' ∷ b':' ∷ b'/' ∷ letter_x ∷ []))
extend_path_lem_example =
    extend_path_lem alloc alloc-Allocates b'A' (b':' ∷ b'/' ∷ []) [] letter_x [] [] (omega arith)
      (omega arith)

open_path_overflow_example :
    open_path exact (b'A' ∷ 58 ∷ 47 ∷ (join names (b'f' ∷ []) ++ (0 ∷ []))) 2 3 kernel ≡ fault
open_path_overflow_example =
    open_path_overflow exact kernel b'A' 2 3 names (b'f' ∷ []) [] refl (omega arith) (omega arith)
      (omega arith)

mkdir_overrun_example :
    ((r : List ℕ)
      → length (exact (3 + length (join names (b'd' ∷ [])))) ≡ 3 + length (join names (b'd' ∷ []))
      → mkdir exact (b'A' ∷ 58 ∷ 47 ∷ (join names (b'd' ∷ []) ++ (0 ∷ r))) kernel
        ≡ enter_all chain names (b'd' ∷ []) (λ o s. fault) 1 2)
    × ((junk : List ℕ)
        → 3 + length (join names (b'd' ∷ [])) ≤ length (exact (3 + length (join names (b'd' ∷ []))))
        → drop (3 + length (join names (b'd' ∷ []))) (exact (3 + length (join names (b'd' ∷ []))))
          ≡ 0 ∷ junk
        → mkdir exact (b'A' ∷ 58 ∷ 47 ∷ (join names (b'd' ∷ []) ++ (0 ∷ []))) kernel
          ≡ enter_all chain names
              (b'd' ∷ 0 ∷ junk)
              (λ o s. enter chain o (b'd' ∷ 0 ∷ junk) s (λ inner s'. fault))
              1
              2)
mkdir_overrun_example =
    mkdir_overrun exact kernel b'A' 1 1 b'd' (mounted chain true 0 0 0) chain names [] refl
      (omega arith) (omega arith) refl refl refl refl

-- The first directory is there, the other one is made.
makes_second : enter_all {X = ℕ × ℕ} chain names (b'd' ∷ []) (λ o s. ok (o, s)) 1 2 ≡ ok (3, 3)
unfolding make_dir
makes_second = refl

abbrev note : File
note = record { present = true; ftype = 1; drive_char = b'A'; mode = 3; private = 1 }
