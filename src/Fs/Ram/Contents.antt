-- ===== src/Fs/Ram/Contents.antt =====
-- What a file of fs/ramfs.c holds: `ramfs_write` and `ramfs_read`.
use stellares_os.Common.{
  ℕ, ◌<◌, ◌≤◌, ◌≡◌, refl, ap, ◌∙◌, some, List, ◌++◌, arith, length, length-set, ◌==◌, ltb,
  if◌then◌else◌, take, drop, set, subst, Has,
}
use stellares_os.Libc.Str.{memcpy, strlen}
use stellares_os.Libc.Str.Copy.{memcpy-memcpy}
use stellares_os.Fs.Ram.{file, dir, Node, Nodes, node_at, write, write_length, read, read_length}
use stellares_os.Fs.Ram.Invariant.{IsValid, IsChild, in_table, node_at-set}

-- The number of bytes that a transfer of `len` bytes moves, where `most` are there.
abbrev pub clip : ℕ → ℕ → ℕ
clip len most = if ltb most len then most else len

module _ (ns : Nodes) (f : ℕ) (buf : List ℕ) (len : ℕ) (is_f : (node_at ns f).type ≡ file) where
  pub written : Node
  written =
      let n = write_length buf len in
      record (node_at ns f) { bytes = memcpy (node_at ns f).bytes buf n; size = n }

  write_lem : write ns f buf len ≡ (some (write_length buf len), set ns f written)
  unfolding write written
  write_lem = rw is_f

  pub node_at-write :
      (j : ℕ) → node_at (write ns f buf len).1 j ≡ (if f == j then written else node_at ns j)
  node_at-write j = rw write_lem (node_at-set ns f j written (in_table ns f (λ e. cc)))

  pub write_size : (node_at (write ns f buf len).1 f).size ≡ write_length buf len
  unfolding written
  write_size = ground (arith, node_at-write f)

  kids_kept : (i : ℕ) → (node_at (write ns f buf len).1 i).children ≡ (node_at ns i).children
  unfolding written
  kids_kept i =
      ground (arith, node_at-write i, (λ (e : f ≡ i). ap (λ k. (node_at ns k).children) e))

  IsChild-kept : (i c : ℕ) → IsChild ns i c → IsChild (write ns f buf len).1 i c
  unfolding written
  IsChild-kept i c k =
      let q = λ (e : f ≡ c). ap (λ k. node_at ns k) e in
      record {
        inside = k.inside;
        not_root = k.not_root;
        in_use = ground (arith, node_at-write c, k.in_use, is_f);
        linked = ground (arith, node_at-write c, k.linked, q);
      }

  pub write_dir :
      (i : ℕ) → (node_at ns i).type ≡ dir → (node_at (write ns f buf len).1 i).type ≡ dir
  unfolding written
  write_dir i e =
      ground (arith, node_at-write i, e, (λ (q : f ≡ i). ap (λ k. (node_at ns k).type) q), is_f)

  -- Writing keeps the tree well formed.
  pub write-IsValid : IsValid ns → IsValid (write ns f buf len).1
  unfolding written
  write-IsValid v = record {
    slots = rw write_lem (length-set ns f _ ∙ v.slots);
    root =
        ground
          (arith, node_at-write 0, v.root, (λ (e : f ≡ 0). ap (λ k. (node_at ns k).type) e), is_f);
    leaves = λ i h. rw (kids_kept i) (v.leaves i (λ e. h (write_dir i e)));
    room = λ i. rw (kids_kept i) (v.room i);
    children = λ i c h. IsChild-kept i c (v.children i c (subst (Has c) (kids_kept i) h));
    distinct = λ i. rw (kids_kept i) (v.distinct i);
  }

read_lem :
    (ns : Nodes) (f : ℕ) (g : Node) (out : List ℕ) (k : ℕ)
    → node_at ns f ≡ g
    → g.type ≡ file
    → read ns f out k ≡ (some (clip k g.size), memcpy out g.bytes (clip k g.size))
unfolding read read_length
read_lem ns f g out k e is_f = rw (e, is_f)

write_length-clip : (buf : List ℕ) (len : ℕ) → 0 < len → write_length buf len ≡ clip len 4096
unfolding write_length
write_length-clip buf len h = ground arith

-- What is written is read back: a write of `len` bytes and then a read of `k` bytes return the first
-- bytes that were written, as many as the file can hold and the reader asks for, and leave the rest
-- of the reader's buffer alone.
pub read-write :
    (ns : Nodes) (f : ℕ) (buf : List ℕ) (len : ℕ) (out : List ℕ) (k : ℕ)
    → (node_at ns f).type ≡ file
    → length (node_at ns f).bytes ≡ 4096
    → 0 < len
    → len ≤ length buf
    → let m = clip k (clip len 4096) in
      m ≤ length out → read (write ns f buf len).1 f out k ≡ (some m, take m buf ++ drop m out)
unfolding written
read-write ns f buf len out k is_f sized pos fits room =
    let g = written ns f buf len is_f in
    let n : ℕ = clip len 4096 in
    read_lem (write ns f buf len).1 f g out k (node_at-write ns f buf len is_f f ∙ ground arith)
      is_f
    ∙ rw (
      write_length-clip buf len pos,
      memcpy-memcpy out (node_at ns f).bytes buf (clip k n) n (ground arith) (ground arith)
          (ground arith) room,
    )

pub write_length_zero :
    (buf : List ℕ) → write_length buf 0 ≡ (if ltb 4096 (strlen buf) then 4096 else strlen buf)
unfolding write_length
write_length_zero buf = refl

-- A read of an empty file leaves the buffer alone.
pub read_empty :
    (ns : Nodes) (f : ℕ) (out : List ℕ) (k : ℕ)
    → (node_at ns f).type ≡ file
    → (node_at ns f).size ≡ 0
    → read ns f out k ≡ (some 0, out)
unfolding memcpy
read_empty ns f out k is_f e =
    let none_read : clip k (node_at ns f).size ≡ 0 = rw e (ground arith) in
    read_lem ns f (node_at ns f) out k refl is_f ∙ rw none_read
