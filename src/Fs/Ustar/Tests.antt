-- ===== src/Fs/Ustar/Tests.antt =====
-- A header of one file: the witness of the theorem.
use potat_os.Prelude.{ℕ, ◌≡◌, refl, arith, List, [], ◌∷◌, ◌++◌, replicate, length-replicate, fault}
use potat_os.Utils.Strings.{memcmp, oct2bin}
use potat_os.Fs.Vfs.{Vfs}
use potat_os.Fs.Ustar.{unpack_ustar}
use potat_os.Fs.Ustar.Names.{unpack_ustar_overflow}

-- The header behind the name and its terminator, up to the magic; the size and the type are zeros.
abbrev header : List ℕ
header = replicate 255 b'0' ++ (b'u' ∷ b's' ∷ b't' ∷ b'a' ∷ b'r' ∷ [])

abbrev drives : Vfs (Unit {0}) ℕ
drives = record { filesystems = []; drives = []; current_dir = []; disk = 0; console = [] }

unpack_ustar_overflow_example :
    unpack_ustar (λ n. replicate n 7) b'R' 1 ((b'a' ∷ []) ++ (0 ∷ header)) drives ≡ fault
unfolding memcmp oct2bin
unpack_ustar_overflow_example =
    unpack_ustar_overflow (λ n. replicate n 7) b'R' 0 (b'a' ∷ []) header drives 0 b'0'
      (λ n. length-replicate {A = ℕ} n 7) (ground arith, tt) refl refl refl (omega arith)
