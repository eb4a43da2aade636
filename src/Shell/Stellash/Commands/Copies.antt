-- ===== src/Shell/Stellash/Commands/Copies.antt =====
-- Copies that `cp` of shell/stellash.c makes.
use stellares_os.Common.{ℕ, ◌≡◌, ap, ◌∙◌, some, List, ltb, if◌then◌else◌}
use stellares_os.Libc.Str.{strlen}
use stellares_os.Fs.Ram.{file, Nodes, node_at}
use stellares_os.Fs.Ram.Contents.{write_size, write_length_zero, read_empty}
use stellares_os.Shell.Stellash.Commands.{copy_to}

-- The copy of an empty file is not empty: it takes what the stack holds up to the first zero, at most 4096
-- bytes, as the length 0 asks `ramfs_write` to measure its buffer, which was never written.
pub copy_to_empty :
    (ns : Nodes) (src dst : ℕ) (old : List ℕ)
    → (node_at ns src).type ≡ file
    → (node_at ns src).size ≡ 0
    → (node_at ns dst).type ≡ file
    → (node_at (copy_to src (some dst) old ns) dst).size
      ≡ (if ltb 4096 (strlen old) then 4096 else strlen old)
unfolding copy_to
copy_to_empty ns src dst old s z d =
    let r = read_empty ns src old 4096 s z in
    rw (ap (λ t. t.0) r, ap (λ t. t.1) r, copy_to)
      (write_size ns dst old 0 d ∙ write_length_zero old)
