-- ===== src/Fs/Vfs/Open/Mkdir.antt =====
-- The walk of `mkdir`.
use potat_os.Prelude.{ℕ, ◌++◌, ◌==◌, List, [], ◌∷◌, if◌then◌else◌, Run, ok, ◌>>=◌}
use potat_os.Fs.Vfs.{FileSystem}
use potat_os.Fs.Vfs.Open.{make_dir}
use potat_os.Fs.Vfs.Open.Components.{join}

module _ {D S : Type 0} (fs : FileSystem D S) (junk : List ℕ) where
  -- Each directory is found, or made and found, and entered; an empty name ends the walk.
  abbrev pub mkdir_at : List (List ℕ) → ℕ → S → Run S
  mkdir_at [] obj s = ok s
  mkdir_at ([] ∷ ds) obj s = ok s
  mkdir_at ((c ∷ d) ∷ ds) obj s = do
    let name = (c ∷ d) ++ (0 ∷ (join ds [] ++ junk))
    found ← fs.find_function obj name s
    (this_dir, s') ← (if found == 0 then make_dir fs obj name s else ok (found, s))
    inner ← fs.open_dir_function this_dir s'
    mkdir_at ds inner s'
