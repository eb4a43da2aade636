-- ===== src/Pkg/Spk/Tests.antt =====
-- A package without files, and one whose version runs over the array for the record.
use stellares_os.Common.{◌≡◌, refl, true, false, List, ℕ, [], ◌∷◌, ◌++◌, replicate, codes}
use stellares_os.Pkg.Spk.{le32, header, paths_overflow, overflows, record_name}
use stellares_os.Libc.Str.{c_str}

abbrev bytes_of : List ℕ → List ℕ
bytes_of text = codes "STPK" ++ (1 ∷ 0 ∷ 0 ∷ 0 ∷ []) ++ codes "demo" ++ replicate 44 0 ++ text

fits : overflows (bytes_of (codes "1.0" ++ replicate 257 0)) ≡ false
unfolding overflows paths_overflow header le32 c_str record_name
fits = refl

runs_over : overflows (bytes_of (replicate 130 49 ++ replicate 130 0)) ≡ true
unfolding overflows paths_overflow header le32 c_str record_name
runs_over = refl
