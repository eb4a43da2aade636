-- ===== src/Kernel/Syscall/Files.antt =====
-- What the descriptors of kernel/syscall.c let a program see.
use stellares_os.Common.{
  ℕ, zero, suc, ◌+◌, ◌-◌, ◌%◌, ◌^◌, ◌≤◌, ◌<◌, ◌≡◌, refl, ap, sym, ◌∙◌, inl, inr, false, some, List,
  [], ◌∷◌, arith, ltb, if◌then◌else◌, length, set, get_or, get_or-set_self, Bool-cases, drop,
}
use stellares_os.Fs.Ram.{Nodes, node_at}
use stellares_os.Kernel.Syscall.{
  Fd, fd_at, closed, fd_alloc_from, fd_alloc, read_node, least, avail,
}

get_or-drop : (n i : ℕ) (fds : List Fd) → fd_at (drop n fds) i ≡ fd_at fds (n + i)
get_or-drop zero i fds = ap (fd_at fds) (omega arith)
get_or-drop (suc n) i [] = refl
get_or-drop (suc n) i (d ∷ fds) =
    let e : suc n + i ≡ suc (n + i) = omega arith in
    get_or-drop n i fds ∙ ap (fd_at (d ∷ fds)) (sym e)

fd_alloc_from-some :
    (fds : List Fd) (i n : ℕ)
    → fd_alloc_from fds i ≡ some n
    → (k : ℕ) × (n ≡ i + k) × (k < length fds) × ((fd_at fds k).used ≡ false)
unfolding fd_alloc_from
fd_alloc_from-some [] i n h = cc
fd_alloc_from-some (d ∷ fds) i n h = elim (Bool-cases d.used) [
  | inl e ↦
      let (k, p, q, r) = fd_alloc_from-some fds (i + 1) n (rw e at h) in
      (suc k, omega arith, omega arith, r)
  | inr e ↦ (0, ground arith, omega arith, e)
]

-- A descriptor that `fd_alloc` gives is none of the first three, lies in the table, and was closed.
pub fd_alloc-closed :
    (fds : List Fd) (n : ℕ)
    → length fds ≡ 16
    → fd_alloc fds ≡ some n
    → (3 ≤ n) × (n < 16) × ((fd_at fds n).used ≡ false)
unfolding fd_alloc
fd_alloc-closed fds n size h =
    let (k, p, q, r) = fd_alloc_from-some (drop 3 fds) 3 n h in
    let e : n ≡ 3 + k = omega arith in
    (
      omega arith,
      omega (arith, length-drop fds size),
      rw e (ap (λ d. d.used) (sym (get_or-drop 3 k fds)) ∙ r),
    )
  where
    length-drop : (ds : List Fd) → length ds ≡ 16 → length (drop 3 ds) ≡ 13
    length-drop [] z = absurd (omega arith)
    length-drop (a ∷ []) z = absurd (omega arith)
    length-drop (a ∷ b ∷ []) z = absurd (omega arith)
    length-drop (a ∷ b ∷ c ∷ ds) z = omega arith

-- A read behind the end of a file, as after another descriptor truncated it, is not cut off at the end:
-- it reports the whole count, as long as that is less than 2 ^ 32 minus the distance.
pub read_past_end :
    (f fd : ℕ) (buf : List ℕ) (count : ℕ) (fds : List Fd) (ns : Nodes)
    → (node_at ns f).size < (fd_at fds fd).offset
    → (fd_at fds fd).offset < 2 ^ 32
    → count < 2 ^ 32 - ((fd_at fds fd).offset - (node_at ns f).size)
    → (read_node f fd buf count fds ns).0 ≡ count
unfolding read_node
read_past_end f fd buf count fds ns h k l = ground arith

-- A read within a file reports the bytes that are left, or the count if that is less, and moves the
-- offset of the descriptor by as many, never behind the end.
pub read_within :
    (f fd : ℕ) (buf : List ℕ) (count : ℕ) (fds : List Fd) (ns : Nodes)
    → fd < length fds
    → (fd_at fds fd).offset ≤ (node_at ns f).size
    → (node_at ns f).size < 2 ^ 32
    → let r = read_node f fd buf count fds ns in
      let left = (node_at ns f).size - (fd_at fds fd).offset in
      (r.0 ≡ (if ltb count left then count else left))
      × ((fd_at r.2 fd).offset ≡ (fd_at fds fd).offset + r.0)
      × ((fd_at r.2 fd).offset ≤ (node_at ns f).size)
unfolding read_node
read_within f fd buf count fds ns inside h k =
    let d = fd_at fds fd in
    let n : ℕ = least count (avail (node_at ns f) d) in
    let moved =
      get_or-set_self fds fd (record d { offset = (d.offset + n) % 2 ^ 32 }) closed inside in
    let at : (get_or (set fds fd (record d { offset = (d.offset + n) % 2 ^ 32 })) fd closed).offset
        ≡ d.offset + n =
      ap (λ e. e.offset) moved ∙ ground arith in
    (ground arith, at, rw at (ground arith))
