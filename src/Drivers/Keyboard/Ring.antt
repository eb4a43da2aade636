-- ===== src/Drivers/Keyboard/Ring.antt =====
-- The ring of drivers/keyboard.c as a queue: what was pushed first is polled first.
use stellares_os.Common.{
  ℕ, zero, suc, ◌+◌, ◌-◌, ◌%◌, ◌<◌, ◌≡◌, ap, ap₂, ◌∙◌, inl, inr, false, Option, none, some, List,
  [], ◌∷◌, ◌++◌, arith, ◌==◌, if◌then◌else◌, length, set, get_or, get_or-set, Bool-cases,
  ne-of-false, ==_iff,
}
use stellares_os.Drivers.Keyboard.{Keyboard, push, poll}

pub record IsValid (k : Keyboard) : Type 0 where
  pub size : length k.buf ≡ 256
  pub head_range : k.head < 256
  pub tail_range : k.tail < 256

-- The number of keys that wait.
abbrev pub waiting : Keyboard → ℕ
waiting k = (k.head + 256 - k.tail) % 256

-- `n` entries from index `i` on, going round.
unfoldable pub entries : List ℕ → ℕ → ℕ → List ℕ
entries buf i zero = []
entries buf i (suc n) = get_or buf i 0 ∷ entries buf ((i + 1) % 256) n

-- The keys that wait, the oldest first.
abbrev pub queue : Keyboard → List ℕ
queue k = entries k.buf k.tail (waiting k)

entries-set :
    (buf : List ℕ) (i n c : ℕ)
    → length buf ≡ 256
    → i < 256
    → n < 256
    → entries (set buf ((i + n) % 256) c) i (suc n) ≡ entries buf i n ++ (c ∷ [])
unfolding entries
entries-set buf i zero c h hi hn = ground (arith, get_or-set buf ((i + 0) % 256) i c 0)
entries-set buf i (suc n) c h hi hn =
    let j : (i + suc n) % 256 ≡ ((i + 1) % 256 + n) % 256 = omega arith in
    let first : get_or (set buf ((i + suc n) % 256) c) i 0 ≡ get_or buf i 0 =
      ground (arith, get_or-set buf ((i + suc n) % 256) i c 0) in
    ap₂ ◌∷◌ first (
      ap (λ m. entries (set buf m c) ((i + 1) % 256) (suc n)) j
      ∙ entries-set buf ((i + 1) % 256) n c h (omega arith) (omega arith))

-- A key that is pushed waits behind the others, unless 255 keys wait already: then it is dropped.
pub queue-push :
    (c : ℕ) (k : Keyboard)
    → IsValid k
    → queue (push c k) ≡ (if waiting k == 255 then queue k else queue k ++ (c ∷ []))
unfolding push
queue-push c k v = elim (Bool-cases ((k.head + 1) % 256 == k.tail)) [
  | inl e ↦
      let full : waiting k ≡ 255 =
        omega (arith, v.head_range, v.tail_range, (==_iff ((k.head + 1) % 256) k.tail).0 e) in
      rw (e, full)
  | inr e ↦
      let ne = ne-of-false ((k.head + 1) % 256) k.tail e in
      let room : (waiting k == 255) ≡ false = ground (arith, v, ne) in
      let more : ((k.head + 1) % 256 + 256 - k.tail) % 256 ≡ suc (waiting k) =
        ground (arith, v, ne) in
      let at : k.head ≡ (k.tail + waiting k) % 256 = ground (arith, v) in
      rw (e, room, more)
        (ap (λ j. entries (set k.buf j c) k.tail (suc (waiting k))) at
          ∙ entries-set k.buf k.tail (waiting k) c v.size v.tail_range (omega arith))
]

abbrev pub front : List ℕ → Option ℕ
front [] = none
front (c ∷ cs) = some c

abbrev pub behind : List ℕ → List ℕ
behind [] = []
behind (c ∷ cs) = cs

-- A poll takes the key that has waited longest, and -1 when none waits.
pub poll_lem :
    (k : Keyboard)
    → IsValid k
    → ((poll k).0 ≡ front (queue k)) × (queue (poll k).1 ≡ behind (queue k))
unfolding poll entries
poll_lem k v = elim (Bool-cases (k.head == k.tail)) [
  | inl e ↦
      let none_waits : waiting k ≡ 0 =
        omega (arith, v.head_range, v.tail_range, (==_iff k.head k.tail).0 e) in
      (rw (e, none_waits), rw (e, none_waits))
  | inr e ↦
      let ne = ne-of-false k.head k.tail e in
      let less : waiting k ≡ suc ((k.head + 256 - (k.tail + 1) % 256) % 256) =
        ground (arith, v, ne) in
      (rw (e, less), rw (e, less))
]
