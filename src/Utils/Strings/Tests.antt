-- ===== src/Utils/Strings/Tests.antt =====
-- Runs of the string functions, and their theorems at concrete strings.
use potat_os.Prelude.{ℕ, ◌∷◌, [], ◌++◌, List, ◌≡◌, refl, ok, fault, false}
use potat_os.Utils.Strings.{strlen, memset, strcmp, char_to_str, oct2bin}

-- "R:/" and "R:".
abbrev root : List ℕ
root = b'R' ∷ b':' ∷ b'/' ∷ []

abbrev letter : List ℕ
letter = b'R' ∷ b':' ∷ []

runs :
    (strlen (root ++ (0 ∷ 7 ∷ [])) ≡ ok 3)
    × (strlen root ≡ fault)
    × (strcmp (root ++ (0 ∷ [])) (letter ++ (0 ∷ [])) ≡ ok false)
    × (memset (1 ∷ 2 ∷ 3 ∷ []) 0x1ff 2 ≡ ok (255 ∷ 255 ∷ 3 ∷ []))
    × (oct2bin (b'1' ∷ b'7' ∷ []) 2 ≡ ok 15)
    × (char_to_str 65 ≡ 65 ∷ 0 ∷ [])
unfolding strlen strcmp memset oct2bin char_to_str
runs = (refl, refl, refl, refl, refl, refl)
