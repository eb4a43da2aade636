-- ===== src/Shell/Editor/File.antt =====
-- `ed_save` and `ed_load` of shell/editor.c: the text of the lines and back.
use stellares_os.Common.{
  ℕ, ◌+◌, ◌≤◌, ◌≢◌, Bool, true, false, ◌||◌, Option, none, some, List, [], ◌∷◌, ◌++◌, ltb, leb,
  ◌==◌, if◌then◌else◌, length, All, set,
}
use stellares_os.Fs.Ram.{Nodes, find, create, write}

-- The loop of `ed_save` over the lines that are left: a line that does not fit ends it.
unfoldable pub serialize : List (List ℕ) → ℕ → List ℕ
serialize [] used = []
serialize (l ∷ ls) used =
    let rest = l ++ (10 ∷ serialize ls (used + length l + 1)) in
    if ltb used 4094 then (if leb 4095 (used + length l + 1) then [] else rest) else []

-- `ramfs_find` and else `ramfs_create`, in the root.
unfoldable pub open_file : Nodes → List ℕ → Option ℕ × Nodes
open_file ns filename = elim (find ns 0 filename) [
  | some c ↦ (some c, ns)
  | none ↦ create ns 0 filename
]

unfoldable pub write_lines : Option ℕ × Nodes → List ℕ → Nodes
write_lines (none, ns) text = ns
write_lines (some i, ns) text = (write ns i text (length text)).1

pub is_open : Option ℕ × Nodes → Bool
is_open (none, ns) = false
is_open (some i, ns) = true

-- The loop of `ed_load` over the bytes that are left, with the line so far and the count of lines: a
-- line break or a zero ends a line, and the end of the bytes reads as a zero.
unfoldable pub parse : List ℕ → List ℕ → ℕ → List (List ℕ)
parse [] line n = if ltb n 64 then line ∷ [] else []
parse (c ∷ s) line n =
    let next = line ∷ parse s [] (n + 1) in
    let more = parse s (if ltb (length line) 127 then line ++ (c ∷ []) else line) n in
    if ltb n 64 then (if c == 10 || c == 0 then next else more) else []

pub store_lines : List (List ℕ) → List (List ℕ) → ℕ → List (List ℕ)
store_lines ls [] i = ls
store_lines ls (t ∷ ts) i = store_lines (set ls i t) ts (i + 1)

pub load_lines : List (List ℕ) → List ℕ → List (List ℕ)
unfolding store_lines parse
load_lines ls bytes = store_lines ls (parse bytes [] 0) 0

pub loaded_count : List ℕ → ℕ
unfolding parse
loaded_count bytes = length (parse bytes [] 0)

-- A line of the editor: short enough for its buffer, without line breaks or zeros.
abbrev pub IsPlain : ℕ → Type 0
IsPlain c = (c ≢ 10) × (c ≢ 0)

abbrev pub IsLine : List ℕ → Type 0
IsLine l = All IsPlain l × (length l ≤ 127)

abbrev pub text_size : List (List ℕ) → ℕ
text_size [] = 0
text_size (l ∷ ls) = length l + 1 + text_size ls
