-- ===== src/Drivers/Keyboard.antt =====
-- drivers/keyboard.c: the ring of 256 key codes and the interrupt handler that fills it. The scan
-- code that the handler reads from its port is an argument.
pub mod Ring
mod Tests
use stellares_os.Common.{
  ℕ, zero, suc, ◌+◌, ◌%◌, Bool, true, false, ◌||◌, not, Option, none, some, List, [], ◌∷◌, ◌++◌,
  ltb, leb, ◌==◌, if◌then◌else◌, set, get_or, replicate, length, codes,
}

pub record Keyboard : Type 0 where
  pub buf : List ℕ
  pub head : ℕ
  pub tail : ℕ
  pub shift : Bool
  pub ext : Bool

abbrev sc_norm : List ℕ
sc_norm =
    0 ∷ 27 ∷ codes "1234567890-="
    ++ (8 ∷ 9 ∷ codes "qwertyuiop[]")
    ++ (10 ∷ 0 ∷ codes "asdfghjkl;'`")
    ++ (0 ∷ codes "\\zxcvbnm,./")
    ++ (0 ∷ 42 ∷ 0 ∷ 32 ∷ [])

abbrev sc_shft : List ℕ
sc_shft =
    0 ∷ 27 ∷ codes "!@#$%^&*()_+"
    ++ (8 ∷ 9 ∷ codes "QWERTYUIOP{}")
    ++ (10 ∷ 0 ∷ codes "ASDFGHJKL:\"~")
    ++ (0 ∷ codes "|ZXCVBNM<>?")
    ++ (0 ∷ 42 ∷ 0 ∷ 32 ∷ [])

-- A full ring drops the key.
pub push : ℕ → Keyboard → Keyboard
push c k =
    let n = (k.head + 1) % 256 in
    if n == k.tail then k else record k { buf = set k.buf k.head c; head = n }

-- `none` is -1.
pub poll : Keyboard → Option ℕ × Keyboard
poll k =
    if k.head == k.tail
    then (none, k)
    else (some (get_or k.buf k.tail 0), record k { tail = (k.tail + 1) % 256 })

pub flush : Keyboard → Keyboard
flush k = record k { head = 0; tail = 0 }

pub init : Keyboard → Keyboard
init k = record k { buf = replicate 256 0 }

-- The arrows, which follow the byte 0xE0.
pub extended : ℕ → Keyboard → Keyboard
extended sc k =
    if sc == 0x48
    then push 0x100 k
    else if sc == 0x50
    then push 0x101 k
    else if sc == 0x4B
    then push 0x102 k
    else if sc == 0x4D
    then push 0x103 k
    else k

-- `char c = shift ? sc_shft[sc] : sc_norm[sc]; if (c) push(c)`
pub plain : ℕ → Keyboard → Keyboard
plain sc k =
    let c = get_or (if k.shift then sc_shft else sc_norm) sc 0 in
    if ltb sc 58 then (if c == 0 then k else push c k) else k

pub pressed : ℕ → Keyboard → Keyboard
unfolding plain
pressed sc k =
    if sc == 0x3B
    then push 0x10A k
    else if sc == 0x3C
    then push 0x10B k
    else if sc == 0x3D
    then push 0x10C k
    else if sc == 0x3E
    then push 0x10D k
    else if sc == 0x3F
    then push 0x10E k
    else plain sc k

pub handler : ℕ → Keyboard → Keyboard
unfolding extended pressed
handler byte k =
    let released = leb 128 (byte % 256) in
    let sc = byte % 128 in
    if byte == 0xE0
    then record k { ext = true }
    else if k.ext
    then (let k' = record k { ext = false } in if released then k' else extended sc k')
    else if sc == 0x2A || sc == 0x36
    then record k { shift = not released }
    else if released
    then k
    else pressed sc k
