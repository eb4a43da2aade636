-- ===== src/Kernel/Login.antt =====
-- kernel/login.c: the users' file and the login. A text is its bytes without the terminator, a field
-- the string that it holds, and the file is read and written by fs/diskfs.c. Drawing, and the pauses,
-- change no state.
pub mod Check
pub mod Lines
pub mod Loaded
pub mod Typed
mod Tests
use stellares_os.Common.{
  ℕ, zero, suc, ◌+◌, ◌-◌, ◌*◌, ◌%◌, ◌^◌, Bool, true, false, ◌&&◌, ◌||◌, Option, none, some, List,
  [], ◌∷◌, ◌++◌, ltb, leb, ◌==◌, if◌then◌else◌, take, replicate, length, str_eq, codes,
}
use stellares_os.Libc.Str.{c_str}
use stellares_os.Libc.Token.{strtok}
use stellares_os.Libc.Number.{atoi, digits_rev}
use stellares_os.Fs.Device.{BlockDevice}
use stellares_os.Fs.Disk.{State, read_file, write_file}
use mathlib.Core.List.{reverse}

-- `passwd_entry_t`
pub record User : Type 0 where
  pub name : List ℕ
  pub pass : List ℕ
  pub home : List ℕ

-- `user_t`
pub record Account : Type 0 where
  pub username : List ℕ
  pub home : List ℕ

unfoldable pub hash_from : ℕ → List ℕ → ℕ
hash_from h [] = h
hash_from h (c ∷ s) = hash_from ((h * 33 + c % 256) % 2 ^ 32) s

unfoldable pub hash_pass : List ℕ → ℕ
unfolding hash_from
hash_pass s = hash_from 5381 s

-- `itoa_u`; its loop is that of `itoa` in base 10.
pub itoa_u : ℕ → List ℕ
itoa_u v = if v == 0 then 48 ∷ [] else reverse (digits_rev 32 10 v)

-- `while (*p && *p != '\n' && len < 127)`, by the room that is left: the bytes of the line, and what
-- follows, behind the line break if there is one.
pub line_of : ℕ → List ℕ → List ℕ
line_of zero s = []
line_of (suc room) [] = []
line_of (suc room) (c ∷ s) = if c == 10 then [] else c ∷ line_of room s

abbrev skip_break : List ℕ → List ℕ
skip_break [] = []
skip_break (c ∷ s) = if c == 10 then s else c ∷ s

pub after_line : ℕ → List ℕ → List ℕ
after_line zero s = skip_break s
after_line (suc room) [] = []
after_line (suc room) (c ∷ s) = if c == 10 then s else after_line room s

abbrev colon : List ℕ
colon = 58 ∷ []

-- The third token, the home directory, is optional.
pub with_home : List ℕ → List ℕ → Option (List ℕ) × Option (List ℕ) → Option User
with_home name pass (none, p) =
    some (record { name = take 31 name; pass = take 31 pass; home = 47 ∷ [] })
with_home name pass (some t, p) =
    some (record { name = take 31 name; pass = take 31 pass; home = take 63 t })

pub with_pass : List ℕ → Option (List ℕ) × Option (List ℕ) → Option User
unfolding with_home
with_pass name (none, p) = none
with_pass name (some t, p) = with_home name t (strtok none colon p)

pub with_name : Option (List ℕ) × Option (List ℕ) → Option User
unfolding with_pass
with_name (none, p) = none
with_name (some t, p) = with_pass t (strtok none colon p)

-- A line without a second token makes no user.
pub parse_line : List ℕ → Option User
unfolding with_name
parse_line line = with_name (strtok (some line) colon none)

-- `while (*p && nusers < MAX_USERS)`, with fuel for the lines and the users that still fit.
pub parse_lines : ℕ → ℕ → List ℕ → List User
unfolding parse_line line_of after_line
parse_lines zero room s = []
parse_lines (suc f) room [] = []
parse_lines (suc f) zero (c ∷ s) = []
parse_lines (suc f) (suc room) (c ∷ s) =
    let line = line_of 127 (c ∷ s) in
    let next = after_line 127 (c ∷ s) in
    let skipped = parse_lines f (suc room) next in
    let kept = parse_lines f room next in
    elim (parse_line line) [ none ↦ skipped | some u ↦ u ∷ kept ]

-- Every line takes a byte.
pub parse_passwd : List ℕ → List User
unfolding parse_lines
parse_passwd buf = parse_lines (suc (length buf)) 8 (c_str buf)

pub default_passwd : List ℕ
unfolding hash_pass itoa_u
default_passwd =
    codes "root:"
    ++ (itoa_u (hash_pass (codes "toor"))
        ++ (codes ":/\n"
            ++ (codes "stella:" ++ (itoa_u (hash_pass (codes "1234")) ++ codes ":/home/stella\n"))))

-- The first user with this name whose stored number is the hash.
pub find_user : List User → List ℕ → ℕ → Option User
find_user [] name h = none
find_user (u ∷ us) name h =
    if str_eq u.name name && atoi u.pass == h then some u else find_user us name h

abbrev pub guest : Account
guest = record { username = codes "guest"; home = codes "/tmp" }

-- The loop of `read_input` over the keys that come: the text and the keys behind it, or `none` while no line break
-- has come.
pub read_input : List ℕ → ℕ → List ℕ → Option (List ℕ × List ℕ)
read_input buf max' [] = none
read_input buf max' (c ∷ keys) =
    let shorter = read_input (take (length buf - 1) buf) max' keys in
    let longer = read_input (buf ++ (c ∷ [])) max' keys in
    let same = read_input buf max' keys in
    if c == 10 || c == 13
    then some (buf, keys)
    else if c == 8
    then shorter
    else if (leb 32 c && ltb c 127) && ltb (length buf) (max' - 1)
    then longer
    else same

abbrev account_of : User → Account
account_of u = record { username = take 31 u.name; home = take 63 u.home }

-- One round of the loop of `login_screen`: a login, or the count of failed attempts.
pub attempt : List User → List ℕ × List ℕ → Option Account
unfolding find_user hash_pass
attempt us (name, password) = elim (find_user us name (hash_pass password)) [
  | none ↦ none
  | some u ↦ some (account_of u)
]

-- The loop of `login_screen` over the keys, with the rounds that are left: the account, the return value (0, or 1
-- for a guest), and the keys behind. `none` while more keys are awaited.
pub login_from : ℕ → List User → ℕ → List ℕ → Option (Account × ℕ × List ℕ)
unfolding attempt read_input
login_from zero us attempts keys = none
login_from (suc n) us attempts keys = elim (read_input [] 30 keys) [
  | none ↦ none
  | some (name, keys1) ↦ elim (read_input [] 30 keys1) [
    | none ↦ none
    | some (password, rest) ↦
        let again = login_from n us (attempts + 1) rest in
        elim (attempt us (name, password)) [
          | some a ↦ some (a, 0, rest)
          | none ↦ if leb 3 (attempts + 1) then some (guest, 1, rest) else again
        ]
  ]
]

-- There are three rounds at most.
pub login_screen : List User → List ℕ → Option (Account × ℕ × List ℕ)
unfolding login_from
login_screen us keys = login_from 3 us 0 keys

abbrev positive : Option ℕ → Bool
positive none = false
positive (some n) = ltb 0 n

abbrev loaded : Option ℕ × List ℕ → Option (List User)
loaded (none, buf) = some []
loaded (some n, buf) = if ltb 0 n then some (parse_passwd (take n buf)) else some []

module _ (b : BlockDevice) where
  -- `none` is -1; the users, none of whom is there before the call, and the file system.
  pub login_init : State b → Option (List User) × State b
  unfolding default_passwd
  login_init s =
      if s.fs_ready
      then (let buf = replicate 512 0 in
          let file = codes "passwd" in
          let first = read_file b file buf 511 s in
          let s' = (write_file b file default_passwd (length default_passwd) s).1 in
          if positive first.0
          then (loaded first, s)
          else (loaded (read_file b file buf 511 s'), s'))
      else (none, s)
