-- ===== src/Fs/Ram/Tests.antt =====
-- fs/ramfs.c on small trees.
use stellares_os.Common.{
  ℕ, ◌≤◌, ◌≡◌, ◌≢◌, refl, none, some, List, [], ◌∷◌, ◌++◌, arith, length, length-replicate, take,
  drop, replicate, All, str_eq,
}
use stellares_os.Libc.Token.{is_delim}
use stellares_os.Libc.Token.Laws.{join}
use stellares_os.Fs.Ram.{
  file, dir, Nodes, no_node, node_at, done, alloc_from, alloc_node, find_child, find, resolve,
  new_file, link, mkdir, create, write, read, delete, abs_path, reset, reset_all, with_root,
}
use stellares_os.Fs.Ram.Invariant.{IsValid}
use stellares_os.Fs.Ram.Link.{create-IsValid}
use stellares_os.Fs.Ram.Lookup.{IsBound, mkdir-IsBound, create_long}
use stellares_os.Fs.Ram.Contents.{clip, read-write}
use stellares_os.Fs.Ram.Faults.{create_in_file}
use stellares_os.Fs.Ram.Delete.{delete-IsValid, IsGone, delete_lem}
use stellares_os.Fs.Ram.Path.{IsName, Located, at_root, below, resolve-abs_path}
use stellares_os.Fs.Ram.Init.{with_root-IsValid}

abbrev raw : Nodes
raw = replicate 128 no_node

-- The tree that holds the root only.
abbrev bare : Nodes
bare = with_root raw

bare-IsValid : IsValid bare
bare-IsValid = with_root-IsValid raw refl

bare_root : (node_at bare 0).type ≡ dir
bare_root = bare-IsValid.root

abbrev name : List ℕ
name = 97 ∷ 98 ∷ []

-- The root and the file `ab`.
abbrev one : Nodes
one = (create bare 0 name).1

one-IsValid : IsValid one
one-IsValid = create-IsValid bare 0 bare-IsValid bare_root name

mkdir_one : (mkdir bare 0 name).0 ≡ some 1
unfolding mkdir find find_child alloc_node alloc_from with_root reset_all reset
mkdir_one = refl

create_one : (create bare 0 name).0 ≡ some 1
unfolding create find find_child alloc_node alloc_from with_root reset_all reset
create_one = refl

mkdir-IsBound_example : IsBound bare (mkdir bare 0 name).1 0 name 1
mkdir-IsBound_example = mkdir-IsBound bare 0 name 1 bare-IsValid bare_root (omega arith) mkdir_one

abbrev long_name : List ℕ
long_name = replicate 64 97

not_there : find bare 0 long_name ≡ none
unfolding find find_child with_root reset_all reset
not_there = refl

create_long_one : (create bare 0 long_name).0 ≡ some 1
unfolding create find find_child alloc_node alloc_from with_root reset_all reset
create_long_one = refl

create_long_example : find (create bare 0 long_name).1 0 long_name ≡ none
create_long_example =
    create_long bare 0 long_name 1 bare-IsValid bare_root (omega arith) not_there create_long_one

one-file : (node_at one 1).type ≡ file
unfolding create find find_child alloc_node alloc_from with_root reset_all reset link new_file
one-file = refl

one_next : alloc_node one ≡ some 2
unfolding create find find_child alloc_node alloc_from with_root reset_all reset link new_file
one_next = refl

create_in_file_example : ¬ IsValid (create one 1 name).1
create_in_file_example = create_in_file one 1 2 name one-IsValid one-file one_next

abbrev one_file_only : Nodes
one_file_only = record no_node { type = file; bytes = replicate 4096 0 } ∷ []

abbrev out : List ℕ
out = 9 ∷ 9 ∷ 9 ∷ []

read-write_example :
    let m = clip 3 (clip 2 4096) in
    read (write one_file_only 0 name 2).1 0 out 3 ≡ (some m, take m name ++ drop m out)
read-write_example =
    read-write one_file_only 0 name 2 out 3 refl (length-replicate {A = ℕ} 4096 0) (omega arith)
      (omega arith) (omega arith)

delete-IsValid_example : IsValid (delete one 0 name).1
delete-IsValid_example = delete-IsValid one 0 name one-IsValid

delete_lem_example :
    ((delete one 0 name).0 ≡ done → (c : ℕ) × IsGone one (delete one 0 name).1 0 name c)
    × ((delete one 0 name).0 ≢ done → (delete one 0 name).1 ≡ one)
delete_lem_example = delete_lem one 0 name one-IsValid

abbrev small : Nodes
small =
    record no_node { type = dir; name = 47 ∷ []; parent = some 0; children = 1 ∷ [] }
    ∷ record no_node { type = dir; name = name; parent = some 0; children = 2 ∷ [] }
    ∷ record no_node { type = file; name = 99 ∷ []; parent = some 1 }
    ∷ []

small-Located : Located small 2 (name ∷ (99 ∷ []) ∷ [])
unfolding find find_child str_eq
small-Located = below (below at_root (λ e. cc) refl refl refl) (λ e. cc) refl refl refl

small-IsName : All IsName (name ∷ (99 ∷ []) ∷ [])
unfolding is_delim str_eq
small-IsName = (
  record {
    part = ((λ e. cc), (refl, (refl, tt)));
    short = omega arith;
    no_dot = refl;
    no_dots = refl;
  },
  (
    record { part = ((λ e. cc), (refl, tt)); short = omega arith; no_dot = refl; no_dots = refl },
    tt,
  ),
)

small_length : length (join 47 (name ∷ (99 ∷ []) ∷ [])) ≤ 255
unfolding join
small_length = omega arith

resolve-abs_path_example : resolve (1 ∷ []) small (abs_path (λ k. k ∷ []) small (some 2)) ≡ some 2
resolve-abs_path_example =
    resolve-abs_path (λ k. k ∷ []) (1 ∷ []) small 2 (name ∷ (99 ∷ []) ∷ []) small-Located
      small-IsName (omega arith) small_length
