-- ===== src/Shell/Editor/Text.antt =====
-- What shell/editor.c loads of the text that it saves.
use mathlib.Core.List.{append-nil, append_assoc}
use stellares_os.Common.{
  ℕ, ◌+◌, ◌≤◌, ◌<◌, ◌≡◌, List, [], ◌∷◌, ◌++◌, arith, length, length-append, All,
}
use stellares_os.Shell.Editor.File.{serialize, parse, IsPlain, IsLine, text_size}

parse-line :
    (l s acc : List ℕ) (n : ℕ)
    → n < 64
    → All IsPlain l
    → length acc + length l ≤ 127
    → parse (l ++ (10 ∷ s)) acc n ≡ (acc ++ l) ∷ parse s [] (n + 1)
unfolding parse
parse-line [] s acc n h p k = ground (arith, append-nil acc)
parse-line (c ∷ l) s acc n h p k = ground (
  arith,
  p,
  append_assoc acc (c ∷ []) l,
  length-append acc (c ∷ []),
  parse-line l s (acc ++ (c ∷ [])) n h p.1,
)

parse-serialize_from :
    (ls : List (List ℕ)) (used n : ℕ)
    → All IsLine ls
    → used + text_size ls < 4094
    → n + length ls < 64
    → parse (serialize ls used) [] n ≡ ls ++ ([] ∷ [])
unfolding serialize parse
parse-serialize_from [] used n h k m = ground arith
parse-serialize_from (l ∷ ls) used n h k m = ground (
  arith,
  h,
  parse-line l (serialize ls (used + length l + 1)) [] n (omega arith) h.0.0 (omega (arith, h.0.1)),
  parse-serialize_from ls (used + length l + 1) (n + 1) h.1 (omega arith) (omega arith),
)

-- A text of fewer than 64 lines without line breaks or zeros, none longer than 127 bytes, and shorter
-- than 4094 bytes with its line breaks, is loaded line by line as it was saved, with one more line that
-- is empty.
pub parse-serialize :
    (ls : List (List ℕ))
    → All IsLine ls
    → text_size ls < 4094
    → length ls < 64
    → parse (serialize ls 0) [] 0 ≡ ls ++ ([] ∷ [])
parse-serialize ls h k m = parse-serialize_from ls 0 0 h (omega arith) (omega arith)
