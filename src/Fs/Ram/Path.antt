-- ===== src/Fs/Ram/Path.antt =====
-- Absolute paths of fs/ramfs.c: `ramfs_abs_path` prints what `ramfs_resolve` reads.
use mathlib.Core.List.{append_assoc, append-nil}
use stellares_os.Common.{
  ℕ, zero, suc, ◌≤◌, ◌<◌, ◌≡◌, ◌≢◌, refl, ap, sym, ◌∙◌, false, Option, some, List, [], ◌∷◌, ◌++◌,
  arith, length, length-append, All, str_eq, str_eq_ne, str_eq_refl, subst, Option-cases, inl, inr,
}
use stellares_os.Libc.Token.{is_delim}
use stellares_os.Libc.Token.Laws.{join, IsPart, tokens-join_tail}
use stellares_os.Fs.Ram.{
  Nodes, node_at, find, step, walk, filled, resolve, strip_slash, climb, abs_path, slash,
}

-- A name that a path can hold: not empty, without `/`, of at most 62 bytes, and neither `.`
-- nor `..`.
pub record IsName (t : List ℕ) : Type 0 where
  pub part : IsPart slash t
  pub short : length t ≤ 62
  pub no_dot : str_eq t (46 ∷ []) ≡ false
  pub no_dots : str_eq t (46 ∷ 46 ∷ []) ≡ false

-- Node `i` lies below the root at the names `ps`, each found in the directory before it, with the
-- links back to the root in order.
pub data Located (ns : Nodes) : ℕ → List (List ℕ) → Type 0 where
  at_root : Located ns 0 []
  below :
      {p c : ℕ} {ps qs : List (List ℕ)}
      → Located ns p ps
      → c ≢ 0
      → (node_at ns c).parent ≡ some p
      → find ns p (node_at ns c).name ≡ some c
      → qs ≡ ps ++ ((node_at ns c).name ∷ [])
      → Located ns c qs

All-snoc :
    (ps : List (List ℕ)) (t : List ℕ) → All IsName (ps ++ (t ∷ [])) → All IsName ps × IsName t
All-snoc [] t h = (tt, h.0)
All-snoc (p ∷ ps) t h = let q = All-snoc ps t h.1 in ((h.0, q.0), q.1)

some_eq : (i n : ℕ) → Path (Option ℕ) (some i) (some n) → i ≡ n
some_eq i n e = cc

walk-snoc :
    (ns : Nodes) (a p c : ℕ) (ps : List (List ℕ)) (t : List ℕ)
    → walk ns a ps ≡ some p
    → step ns p t ≡ some c
    → walk ns a (ps ++ (t ∷ [])) ≡ some c
unfolding walk
walk-snoc ns a p c [] t h e = ground (arith, h, ap (λ k. step ns k t) (some_eq a p h), e)
walk-snoc ns a p c (q ∷ ps) t h e = elim (Option-cases (step ns a q)) [
  | inl g ↦ cc g
  | inr (b, g) ↦ rw (g, walk) (walk-snoc ns b p c ps t (rw (g, walk) at h) e)
]

step-name : (ns : Nodes) (p : ℕ) (t : List ℕ) → IsName t → step ns p t ≡ find ns p t
unfolding step
step-name ns p t h = rw (h.no_dot, h.no_dots)

walk-Located :
    (ns : Nodes) {i : ℕ} {ps : List (List ℕ)}
    → Located ns i ps
    → All IsName ps
    → walk ns 0 ps ≡ some i
unfolding walk
walk-Located ns at_root h = refl
walk-Located ns (below {p = p} {c = c} {ps = ps} l ne up f e) h =
    let names = All-snoc ps (node_at ns c).name (subst (All IsName) e h) in
    rw e (
      walk-snoc ns 0 p c ps (node_at ns c).name (walk-Located ns l names.0)
        (step-name ns p (node_at ns c).name names.1 ∙ f))

filled_short : (n : ℕ) (t rest : List ℕ) → length t < n → filled n t rest ≡ t
unfolding filled
filled_short n t rest l = ground arith

climb-above :
    (rest : ℕ → List ℕ) (ns : Nodes) (k c p : ℕ) (acc : List (List ℕ))
    → c ≢ 0
    → (node_at ns c).parent ≡ some p
    → IsName (node_at ns c).name
    → climb rest ns (suc k) (some c) acc ≡ climb rest ns k (some p) ((node_at ns c).name ∷ acc)
unfolding climb
climb-above rest ns k c p acc ne up name =
    let fits = filled_short 63 (node_at ns c).name (rest (suc k)) (omega (arith, name.short)) in
    ground (arith, ne, up, fits)

All-IsPart : (ps : List (List ℕ)) → All IsName ps → All (IsPart slash) ps
All-IsPart [] h = tt
All-IsPart (p ∷ ps) h = (h.0.part, All-IsPart ps h.1)

climb-Located :
    (rest : ℕ → List ℕ) (ns : Nodes) {i : ℕ} {ps : List (List ℕ)} (k : ℕ) (acc : List (List ℕ))
    → Located ns i ps
    → All IsName ps
    → length ps ≤ k
    → climb rest ns k (some i) acc ≡ ps ++ acc
unfolding climb
climb-Located rest ns zero acc at_root h r = refl
climb-Located rest ns (suc k) acc at_root h r = refl
climb-Located rest ns zero acc (below {c = c} {ps = ps} l ne up f e) h r =
    absurd (omega (arith, ap length e, length-append ps ((node_at ns c).name ∷ [])))
climb-Located rest ns (suc k) acc (below {p = p} {c = c} {ps = ps} l ne up f e) h r =
    let name = (node_at ns c).name in
    let names = All-snoc ps name (subst (All IsName) e h) in
    let shorter : length ps ≤ k = omega (arith, ap length e, length-append ps (name ∷ [])) in
    climb-above rest ns k c p acc ne up names.1
    ∙ climb-Located rest ns k (name ∷ acc) l names.0 shorter
    ∙ sym (append_assoc ps (name ∷ []) acc)
    ∙ ap (λ t. t ++ acc) (sym e)

-- The text of a path of named parts is read part by part.
resolve-join :
    (rest : List ℕ) (ns : Nodes) (p : List ℕ) (ps : List (List ℕ))
    → All IsName (p ∷ ps)
    → length (join 47 (p ∷ ps)) ≤ 255
    → resolve rest ns (join 47 (p ∷ ps)) ≡ walk ns 0 (p ∷ ps)
unfolding resolve join strip_slash is_delim
resolve-join rest ns p ps h r = rw (
  str_eq_ne (47 ∷ (p ++ join 47 ps)) slash not_slash,
  filled_short 255 (p ++ join 47 ps) rest (omega (arith, r)),
  tokens-join_tail slash 47 p ps refl h.0.part (All-IsPart ps h.1),
)
  where
    front_empty : (xs ys : List ℕ) → xs ++ ys ≡ [] → xs ≡ []
    front_empty [] ys e = refl
    front_empty (x ∷ xs) ys e = cc

    not_slash : 47 ∷ (p ++ join 47 ps) ≢ slash
    not_slash e = h.0.part.0 (front_empty p (join 47 ps) (ground (arith, e)))

resolve-root : (rest : List ℕ) (ns : Nodes) → resolve rest ns slash ≡ some 0
unfolding resolve
resolve-root rest ns = rw (str_eq_refl slash)

not_root : (ns : Nodes) {i : ℕ} {p : List ℕ} {ps : List (List ℕ)} → Located ns i (p ∷ ps) → i ≢ 0
not_root ns (below l ne up f e) = ne

root_only : (ns : Nodes) {i : ℕ} {ps : List (List ℕ)} → Located ns i ps → ps ≡ [] → i ≡ 0
root_only ns at_root e = refl
root_only ns (below {c = c} {ps = ps} l ne up f q) e =
    absurd (omega (arith, ap length q, ap length e, length-append ps ((node_at ns c).name ∷ [])))

abs_path-root : (rest : ℕ → List ℕ) (ns : Nodes) → abs_path rest ns (some 0) ≡ slash
unfolding abs_path
abs_path-root rest ns = refl

abs_path-join :
    (rest : ℕ → List ℕ) (ns : Nodes) (i : ℕ) (p : List ℕ) (ps : List (List ℕ))
    → i ≢ 0
    → climb rest ns 16 (some i) [] ≡ p ∷ ps
    → abs_path rest ns (some i) ≡ join 47 (p ∷ ps)
unfolding abs_path join
abs_path-join rest ns i p ps ne e =
    ground (arith, ne, ap (join 47) e, str_eq_ne (join 47 (p ∷ ps)) [] (λ q. cc))

-- A node's absolute path resolves to that node, if its depth is at most 16, its path has at most 255 bytes, and its
-- names can stand in a path and have at most 62 bytes, whatever the stack holds behind the arrays.
pub resolve-abs_path :
    (rest : ℕ → List ℕ) (rest' : List ℕ) (ns : Nodes) (i : ℕ) (ps : List (List ℕ))
    → Located ns i ps
    → All IsName ps
    → length ps ≤ 16
    → length (join 47 ps) ≤ 255
    → resolve rest' ns (abs_path rest ns (some i)) ≡ some i
resolve-abs_path rest rest' ns i [] l h deep long =
    rw (root_only ns l refl, abs_path-root rest ns) (resolve-root rest' ns)
resolve-abs_path rest rest' ns i (p ∷ ps) l h deep long =
    rw
      (abs_path-join rest ns i p ps (not_root ns l)
        (climb-Located rest ns 16 [] l h deep ∙ append-nil (p ∷ ps)))
      (resolve-join rest' ns p ps h long ∙ walk-Located ns l h)
