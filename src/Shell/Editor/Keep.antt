-- ===== src/Shell/Editor/Keep.antt =====
-- The editor of shell/editor.c and the tree in memory.
use stellares_os.Common.{
  ℕ, inl, inr, ◌&&◌, ◌||◌, Option, none, some, List, ◌==◌, length, Option-cases, Bool-cases, take,
}
use stellares_os.Fs.Ram.{Nodes, find}
use stellares_os.Fs.Ram.Dirs.{IsTree, create-IsTree_other, write-IsTree}
use stellares_os.Shell.Editor.File.{open_file, write_lines, serialize}
use stellares_os.Shell.Editor.{Editor, ed_save, run_key}

open_file-IsTree :
    (ns : Nodes) (p : ℕ) (name : List ℕ) → IsTree ns p → IsTree (open_file ns name).1 p
unfolding open_file
open_file-IsTree ns p name h = elim (Option-cases (find ns 0 name)) [
  | inl e ↦ rw (e, open_file) (create-IsTree_other ns p 0 name h h.valid.root)
  | inr (c, e) ↦ rw (e, open_file) h
]

write_lines-IsTree :
    (r : Option ℕ × Nodes) (p : ℕ) (text : List ℕ) → IsTree r.1 p → IsTree (write_lines r text) p
unfolding write_lines
write_lines-IsTree (none, ns) p text h = h
write_lines-IsTree (some i, ns) p text h = write-IsTree ns p i text (length text) h

-- A key of the editor, with or without a save, keeps the tree and its directories.
pub run_key-IsTree :
    (c answer : ℕ) (e : Editor) (ns : Nodes) (p : ℕ)
    → IsTree ns p
    → IsTree (run_key c answer e ns).1 p
unfolding run_key ed_save
run_key-IsTree c answer e ns p h =
    let saved =
      write_lines-IsTree (open_file ns e.filename) p (serialize (take e.nlines e.lines) 0)
        (open_file-IsTree ns p e.filename h) in
    elim (Bool-cases (c == 19 || c == 0x10B)) [
      | inl a ↦ rw (a, run_key) saved
      | inr a ↦ elim (Bool-cases (c == 17 || c == 27)) [
        | inl q ↦ elim (Bool-cases (e.dirty && (answer == 115 || answer == 83))) [
          | inl d ↦ rw (a, q, d, run_key) saved
          | inr d ↦ rw (a, q, d, run_key) h
        ]
        | inr q ↦ rw (a, q, run_key) h
      ]
    ]
