-- ===== src/Fs/Disk/Table/Search.antt =====
-- The searches of fs/diskfs.c in the inode table.
use stellares_os.Common.{
  ℕ, zero, suc, ◌+◌, ◌<◌, ◌≡◌, ◌≢◌, refl, ap, sym, ◌∙◌, inl, inr, Bool, true, false, none, some,
  List, [], ◌∷◌, arith, length, set, get_or, get_or-set_self, length-set, replicate, if◌then◌else◌,
  Bool-cases,
}
use stellares_os.Fs.Disk.Table.{
  Inode, inode_at, in_use, is_named, find_inode_from, find_inode, alloc_inode_from, alloc_inode,
  mark_slots, first_unmarked, alloc_slot,
}

-- No entry of the table has this name.
abbrev pub Unnamed : List ℕ → List Inode → Type 0
Unnamed name is = (j : ℕ) → is_named name (inode_at is j) ≡ false

-- Entry `i` is the first of this name.
pub record IsFirst (name : List ℕ) (is : List Inode) (i : ℕ) : Type 0 where
  pub inside : i < length is
  pub named : is_named name (inode_at is i) ≡ true
  pub before : (j : ℕ) → j < i → is_named name (inode_at is j) ≡ false

find_inode_from-none :
    (name : List ℕ) (is : List Inode) (k : ℕ) → find_inode_from name is k ≡ none → Unnamed name is
unfolding find_inode_from
find_inode_from-none name [] k h j = refl
find_inode_from-none name (x ∷ is) k h zero = ground arith
find_inode_from-none name (x ∷ is) k h (suc j) =
    find_inode_from-none name is (k + 1) (ground arith) j

find_inode_from-some :
    (name : List ℕ) (is : List Inode) (k n : ℕ)
    → find_inode_from name is k ≡ some n
    → (i : ℕ) × (n ≡ k + i) × IsFirst name is i
unfolding find_inode_from
find_inode_from-some name [] k n h = cc
find_inode_from-some name (x ∷ is) k n h = elim (Bool-cases (is_named name x)) [
  | inl e ↦ (
    0,
    ground arith,
    record { inside = omega arith; named = e; before = λ j l. absurd (omega arith) },
  )
  | inr e ↦
      let (i, p, f) = find_inode_from-some name is (k + 1) n (rw (e, find_inode_from) at h) in
      (
        suc i,
        omega arith,
        record { inside = omega (arith, f.inside); named = f.named; before = λ j. earlier i e f j },
      )
]
  where
    earlier :
        (i : ℕ)
        → is_named name x ≡ false
        → IsFirst name is i
        → (j : ℕ) → j < suc i
        → is_named name (inode_at (x ∷ is) j) ≡ false
    earlier i e f zero l = e
    earlier i e f (suc j) l = f.before j (omega arith)

first-find_inode_from :
    (name : List ℕ) (is : List Inode) (k i : ℕ)
    → IsFirst name is i
    → find_inode_from name is k ≡ some (k + i)
unfolding find_inode_from
first-find_inode_from name [] k i f = absurd (omega (arith, f.inside))
first-find_inode_from name (x ∷ is) k zero f = rw f.named (ap some (omega arith))
first-find_inode_from name (x ∷ is) k (suc i) f = rw (f.before 0 (omega arith)) (
    first-find_inode_from name is (k + 1) i (record {
      inside = omega (arith, f.inside);
      named = f.named;
      before = λ j l. f.before (suc j) (omega arith);
    })
    ∙ ap some (omega arith))

-- `find_inode` returns the first entry in use that has the name, or reports that there is none.
pub find_inode-none :
    (name : List ℕ) (is : List Inode) → find_inode name is ≡ none → Unnamed name is
unfolding find_inode
find_inode-none name is h = find_inode_from-none name is 0 h

pub find_inode-some :
    (name : List ℕ) (is : List Inode) (i : ℕ) → find_inode name is ≡ some i → IsFirst name is i
unfolding find_inode
find_inode-some name is i h =
    let (j, p, f) = find_inode_from-some name is 0 i h in let e : j ≡ i = omega arith in rw (← e) f

pub first-find_inode :
    (name : List ℕ) (is : List Inode) (i : ℕ) → IsFirst name is i → find_inode name is ≡ some i
unfolding find_inode
first-find_inode name is i f = first-find_inode_from name is 0 i f ∙ ap some (omega arith)

alloc_inode_from-some :
    (is : List Inode) (k n : ℕ)
    → alloc_inode_from is k ≡ some n
    → (i : ℕ) × (n ≡ k + i) × (i < length is) × (in_use (inode_at is i) ≡ false)
unfolding alloc_inode_from
alloc_inode_from-some [] k n h = cc
alloc_inode_from-some (x ∷ is) k n h = elim (Bool-cases (in_use x)) [
  | inr e ↦ (0, ground arith, omega arith, e)
  | inl e ↦
      let (i, p, q, r) = alloc_inode_from-some is (k + 1) n (rw (e, alloc_inode_from) at h) in
      (suc i, omega arith, omega arith, r)
]

pub alloc_inode-some :
    (is : List Inode) (i : ℕ)
    → alloc_inode is ≡ some i
    → (i < length is) × (in_use (inode_at is i) ≡ false)
unfolding alloc_inode
alloc_inode-some is i h =
    let (j, p, q, r) = alloc_inode_from-some is 0 i h in
    let e : i ≡ j = omega arith in (omega arith, rw e r)

abbrev marked : List Bool → ℕ → Bool
marked ms s = get_or ms s false

abbrev mark : List Bool → Inode → List Bool
mark ms i = if in_use i then set ms i.slot true else ms

length-mark : (ms : List Bool) (i : Inode) → length (mark ms i) ≡ length ms
length-mark ms i = elim (Bool-cases (in_use i)) [
  | inl e ↦ rw e (length-set ms i.slot true)
  | inr e ↦ rw e
]

marked-set : (ms : List Bool) (j s : ℕ) → marked ms s ≡ true → marked (set ms j true) s ≡ true
marked-set [] j s h = h
marked-set (m ∷ ms) zero zero h = refl
marked-set (m ∷ ms) zero (suc s) h = h
marked-set (m ∷ ms) (suc j) zero h = h
marked-set (m ∷ ms) (suc j) (suc s) h = marked-set ms j s h

marked-mark :
    (ms : List Bool) (i : Inode) (s : ℕ) → marked ms s ≡ true → marked (mark ms i) s ≡ true
marked-mark ms i s h = elim (Bool-cases (in_use i)) [
  | inl e ↦ rw e (marked-set ms i.slot s h)
  | inr e ↦ rw e h
]

length-mark_slots : (ms : List Bool) (is : List Inode) → length (mark_slots ms is) ≡ length ms
unfolding mark_slots
length-mark_slots ms [] = refl
length-mark_slots ms (i ∷ is) = length-mark_slots (mark ms i) is ∙ length-mark ms i

first_unmarked-some :
    (ms : List Bool) (k n : ℕ)
    → first_unmarked ms k ≡ some n
    → (s : ℕ) × (n ≡ k + s) × (s < length ms) × (marked ms s ≡ false)
unfolding first_unmarked
first_unmarked-some [] k n h = cc
first_unmarked-some (m ∷ ms) k n h = elim (Bool-cases m) [
  | inr e ↦ (0, ground arith, omega arith, e)
  | inl e ↦
      let (i, p, q, r) = first_unmarked-some ms (k + 1) n (rw (e, first_unmarked) at h) in
      (suc i, omega arith, omega arith, r)
]

-- A mark is not taken back.
marks_stay :
    (ms : List Bool) (is : List Inode) (s : ℕ)
    → marked ms s ≡ true
    → marked (mark_slots ms is) s ≡ true
unfolding mark_slots
marks_stay ms [] s h = h
marks_stay ms (i ∷ is) s h = marks_stay (mark ms i) is s (marked-mark ms i s h)

slot_marked :
    (ms : List Bool) (is : List Inode) (j : ℕ)
    → in_use (inode_at is j) ≡ true
    → (inode_at is j).slot < length ms
    → marked (mark_slots ms is) (inode_at is j).slot ≡ true
unfolding mark_slots
slot_marked ms [] j u l = cc
slot_marked ms (i ∷ is) zero u l =
    marks_stay (mark ms i) is i.slot (rw u (get_or-set_self ms i.slot true false l))
slot_marked ms (i ∷ is) (suc j) u l =
    slot_marked (mark ms i) is j u (omega (arith, l, length-mark ms i))

-- A slot that `alloc_slot` returns is one of the 32, and no inode in use has it.
pub alloc_slot-fresh :
    (is : List Inode) (s : ℕ)
    → alloc_slot is ≡ some s
    → (s < 32) × ((j : ℕ) → in_use (inode_at is j) ≡ true → (inode_at is j).slot ≢ s)
unfolding alloc_slot
alloc_slot-fresh is s h =
    let (t, p, q, r) = first_unmarked-some (mark_slots (replicate 32 false) is) 0 s h in
    let e : s ≡ t = omega arith in
    let in_range : s < 32 = omega (arith, q, length-mark_slots (replicate 32 false) is) in
    (in_range, λ j u k. clash t (sym e) r in_range j u k)
  where
    clash :
        (t : ℕ)
        → t ≡ s
        → marked (mark_slots (replicate 32 false) is) t ≡ false
        → s < 32
        → (j : ℕ) → in_use (inode_at is j) ≡ true
        → (inode_at is j).slot ≡ s
        → ⊥
    clash t e r hs j u k =
        let m = slot_marked (replicate 32 false) is j u (omega (arith, k)) in
        let m' : marked (mark_slots (replicate 32 false) is) t ≡ true = rw (e, ← k) m in cc
