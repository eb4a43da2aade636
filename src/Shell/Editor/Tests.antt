-- ===== src/Shell/Editor/Tests.antt =====
-- A text of two lines, saved and loaded.
use stellares_os.Common.{ℕ, ◌≡◌, List, [], ◌∷◌, ◌++◌, arith, All}
use stellares_os.Shell.Editor.File.{serialize, parse, IsLine}
use stellares_os.Shell.Editor.Text.{parse-serialize}

abbrev text : List (List ℕ)
text = (97 ∷ 98 ∷ []) ∷ (99 ∷ []) ∷ []

text-IsLine : All IsLine text
text-IsLine = (
  (
    (
      ((λ e. absurd (omega arith)), (λ e. absurd (omega arith))),
      (((λ e. absurd (omega arith)), (λ e. absurd (omega arith))), tt),
    ),
    omega arith,
  ),
  (((((λ e. absurd (omega arith)), (λ e. absurd (omega arith))), tt), omega arith), tt),
)

parse-serialize_example : parse (serialize text 0) [] 0 ≡ text ++ ([] ∷ [])
parse-serialize_example = parse-serialize text text-IsLine (omega arith) (omega arith)
