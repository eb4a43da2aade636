-- ===== src/Fs/Ram.antt =====
-- fs/ramfs.c: the tree of files in memory. A node pointer is the index of its slot in `nodes`, the
-- null pointer is `none`, and `root_node` is slot 0. A name is the string that its field holds, and
-- `children` are the first `nchildren` entries of the array of that name.
pub mod Invariant
pub mod Link
pub mod Lookup
pub mod Contents
pub mod Delete
pub mod Faults
pub mod Dirs
pub mod Path
pub mod Init
mod Tests
use stellares_os.Common.{
  ℕ, zero, suc, ◌+◌, Bool, true, false, ◌&&◌, Option, none, some, List, [], ◌∷◌, ◌++◌, ltb, leb,
  ◌==◌, if◌then◌else◌, get_or, set, take, drop, replicate, length, str_eq, min,
}
use stellares_os.Libc.Str.{c_str, memcpy, strlen}
use stellares_os.Libc.Token.{tokens}
use stellares_os.Libc.Token.Laws.{join}

pub data NodeType : Type 0 where
  free file dir : NodeType

abbrev pub is_free : NodeType → Bool
is_free free = true
is_free _ = false

abbrev pub is_file : NodeType → Bool
is_file file = true
is_file _ = false

abbrev pub is_dir : NodeType → Bool
is_dir dir = true
is_dir _ = false

pub record Node : Type 0 where
  pub type : NodeType
  pub name : List ℕ
  pub size : ℕ
  pub bytes : List ℕ
  pub parent : Option ℕ
  pub children : List ℕ

abbrev pub Nodes : Type 0
Nodes = List Node

abbrev pub max_nodes : ℕ
max_nodes = 128

abbrev pub max_children : ℕ
max_children = 32

abbrev pub data_max : ℕ
data_max = 4096

-- What a read outside the table would be: no node.
abbrev pub no_node : Node
no_node = record { type = free; name = []; size = 0; bytes = []; parent = none; children = [] }

abbrev pub node_at : Nodes → ℕ → Node
node_at ns i = get_or ns i no_node

pub alloc_from : Nodes → ℕ → Option ℕ
alloc_from [] i = none
alloc_from (n ∷ ns) i = if is_free n.type then some i else alloc_from ns (i + 1)

pub alloc_node : Nodes → Option ℕ
alloc_node ns = alloc_from ns 0

pub find_child : Nodes → List ℕ → List ℕ → Option ℕ
find_child ns [] name = none
find_child ns (c ∷ cs) name =
    if str_eq (node_at ns c).name name then some c else find_child ns cs name

pub find : Nodes → ℕ → List ℕ → Option ℕ
find ns d name =
    if is_dir (node_at ns d).type then find_child ns (node_at ns d).children name else none

-- `..`: the root is its own parent.
pub go_up : Nodes → ℕ → ℕ
go_up ns cur = elim (node_at ns cur).parent [ none ↦ cur | some p ↦ p ]

-- One round of the loop of `ramfs_resolve`; the two comparisons are with "." and "..".
pub step : Nodes → ℕ → List ℕ → Option ℕ
unfolding go_up
step ns cur tok =
    if str_eq tok (46 ∷ [])
    then some cur
    else if str_eq tok (46 ∷ 46 ∷ [])
    then some (go_up ns cur)
    else find ns cur tok

pub walk : Nodes → ℕ → List (List ℕ) → Option ℕ
walk ns cur [] = some cur
walk ns cur (t ∷ ts) = elim (step ns cur t) [ none ↦ none | some c ↦ walk ns c ts ]

abbrev pub slash : List ℕ
slash = 47 ∷ []

-- `path[0] == '/' ? path + 1 : path`
pub strip_slash : List ℕ → List ℕ
strip_slash [] = []
strip_slash (c ∷ s) = if c == 47 then s else c ∷ s

-- The string in a local array of `n + 1` bytes behind `strncpy(buf, text, n)`: where the text has `n` bytes or more
-- the last byte is not set, and the string goes on with what the stack holds from there, `rest`.
pub filled : ℕ → List ℕ → List ℕ → List ℕ
filled n text rest = if ltb (length text) n then text else take n text ++ c_str rest

-- `rest` is what the stack holds at the last byte of `buf` and behind it.
pub resolve : List ℕ → Nodes → List ℕ → Option ℕ
unfolding strip_slash filled
resolve rest ns path =
    if str_eq path slash
    then some 0
    else walk ns 0 (tokens slash (filled 255 (strip_slash path) rest))

-- `parent->children[parent->nchildren++] = n`, behind the writes to the fields of `n`.
pub link : Nodes → ℕ → ℕ → Node → Nodes
link ns p n node =
    let ns' = set ns n node in
    let parent = node_at ns' p in
    set ns' p (record parent { children = parent.children ++ (n ∷ []) })

-- The node that `alloc_node` gave keeps its bytes.
pub new_dir : Node → ℕ → List ℕ → Node
new_dir old p name = record old {
  type = dir;
  name = take 63 name;
  parent = some p;
  children = [];
  size = 0;
}

-- `ramfs_create` does not set `nchildren`.
pub new_file : Node → ℕ → List ℕ → Node
new_file old p name = record old { type = file; name = take 63 name; parent = some p; size = 0 }

pub mkdir : Nodes → ℕ → List ℕ → Option ℕ × Nodes
unfolding new_dir
mkdir ns p name =
    if leb max_children (length (node_at ns p).children)
    then (none, ns)
    else elim (find ns p name) [
      | some c ↦ (none, ns)
      | none ↦ elim (alloc_node ns) [
        | none ↦ (none, ns)
        | some n ↦ (some n, link ns p n (new_dir (node_at ns n) p name))
      ]
    ]

pub create : Nodes → ℕ → List ℕ → Option ℕ × Nodes
unfolding new_file
create ns p name =
    if leb max_children (length (node_at ns p).children)
    then (none, ns)
    else elim (find ns p name) [
      | some c ↦ (some c, ns)
      | none ↦ elim (alloc_node ns) [
        | none ↦ (none, ns)
        | some n ↦ (some n, link ns p n (new_file (node_at ns n) p name))
      ]
    ]

-- A length of 0 asks for `strlen(data)`; the rest is cut off at 4096 bytes.
pub write_length : List ℕ → ℕ → ℕ
write_length buf len =
    let n = if len == 0 then strlen buf else len in if ltb data_max n then data_max else n

-- `none` is the return value -1.
pub write : Nodes → ℕ → List ℕ → ℕ → Option ℕ × Nodes
write ns f buf len =
    if is_file (node_at ns f).type
    then (let n = write_length buf len in
        let node = node_at ns f in
        (some n, set ns f (record node { bytes = memcpy node.bytes buf n; size = n })))
    else (none, ns)

pub read_length : Node → ℕ → ℕ
read_length n len = if ltb n.size len then n.size else len

-- The count and the caller's buffer.
pub read : Nodes → ℕ → List ℕ → ℕ → Option ℕ × List ℕ
read ns f buf len =
    if is_file (node_at ns f).type
    then (let node = node_at ns f in
        let n = read_length node len in (some n, memcpy buf node.bytes n))
    else (none, buf)

-- 0, -1 and -2.
pub data Deleted : Type 0 where
  done missing not_empty : Deleted

-- The children behind the first one of this name move up by one.
pub remove_named : Nodes → List ℕ → List ℕ → List ℕ
remove_named ns [] name = []
remove_named ns (c ∷ cs) name =
    if str_eq (node_at ns c).name name then cs else c ∷ remove_named ns cs name

pub busy : Node → Bool
busy n = is_dir n.type && ltb 0 (length n.children)

pub unlink : Nodes → ℕ → ℕ → List ℕ → Nodes
unlink ns p c name =
    let ns' = set ns c (record (node_at ns c) { type = free }) in
    let parent = node_at ns' p in
    set ns' p (record parent { children = remove_named ns parent.children name })

-- The parent's type is not looked at.
pub delete : Nodes → ℕ → List ℕ → Deleted × Nodes
unfolding busy
delete ns p name = elim (find_child ns (node_at ns p).children name) [
  | none ↦ (missing, ns)
  | some c ↦ if busy (node_at ns c) then (not_empty, ns) else (done, unlink ns p c name)
]

-- The names from the root's child down to the node, sixteen of them at most. `rest k` is what the stack holds at the
-- last byte of the `k`th array from the end of `parts`, and behind it.
pub climb : (ℕ → List ℕ) → Nodes → ℕ → Option ℕ → List (List ℕ) → List (List ℕ)
unfolding filled
climb rest ns zero cur parts = parts
climb rest ns (suc k) none parts = parts
climb rest ns (suc k) (some i) parts =
    let name = filled 63 (node_at ns i).name (rest (suc k)) in
    let above = climb rest ns k (node_at ns i).parent (name ∷ parts) in
    if i == 0 then parts else above

pub abs_path : (ℕ → List ℕ) → Nodes → Option ℕ → List ℕ
abs_path rest ns none = slash
abs_path rest ns (some i) =
    let out = join 47 (climb rest ns 16 (some i) []) in
    if i == 0 then slash else if str_eq out [] then slash else out

-- The fields that `ramfs_init` resets.
pub reset : Node → Node
reset n = record n { type = free; name = []; size = 0; parent = none; children = [] }

pub reset_all : Nodes → Nodes
unfolding reset
reset_all [] = []
reset_all (n ∷ ns) = reset n ∷ reset_all ns

pub with_root : Nodes → Nodes
unfolding reset_all
with_root ns =
    let ns' = reset_all ns in
    set ns' 0 (record (node_at ns' 0) { type = dir; name = slash; parent = some 0 })
