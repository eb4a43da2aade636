-- ===== src/Kernel/Installer.antt =====
-- kernel/installer.c: the assistant that sets the system up. A buffer is its bytes, `keys` are the keys that
-- `keyboard_getchar` returns from here on, and `none` stands for a wait for more of them. What is drawn, and the
-- pauses, change no state of it.
pub mod Fields
pub mod Accounts
pub mod Installed
pub mod Typed
pub mod FirstRun
pub mod Names
pub mod Checked
pub mod Left
pub mod Fuel
mod Tests
use stellares_os.Common.{
  ℕ, zero, suc, ◌+◌, ◌-◌, ◌*◌, ◌%◌, ◌^◌, Bool, true, false, ◌&&◌, ◌||◌, Option, none, some, List,
  [], ◌∷◌, ◌++◌, ltb, leb, ◌==◌, if◌then◌else◌, set, length, str_eq, codes,
}
use stellares_os.Libc.Str.{c_str, strlen, strcpy}
use stellares_os.Libc.Number.{digits_rev}
use stellares_os.Fs.Device.{BlockDevice}
use stellares_os.Fs.Disk.{State, format, write_file, exists}
use mathlib.Core.List.{reverse}

-- `install_config_t`: 32, 32 and 64 bytes in the source's order; `timezone` is never used.
pub record Config : Type 0 where
  pub hostname : List ℕ
  pub username : List ℕ
  pub password : List ℕ

-- The loop of `read_field` over the keys, from the length `len` on: whether the line break ended it (a return
-- value other than -1), the buffer, and the keys behind. The escape key writes no terminator.
pub field_keys : ℕ → List ℕ → ℕ → List ℕ → Option (Bool × List ℕ × List ℕ)
field_keys maxlen buf len [] = none
field_keys maxlen buf len (c ∷ keys) =
    let shorter =
      field_keys maxlen (if ltb 0 len then set buf (len - 1) 0 else buf) (len - 1) keys in
    let longer = field_keys maxlen (set buf len c) (len + 1) keys in
    let same = field_keys maxlen buf len keys in
    if c == 10 || c == 13
    then some (true, set buf len 0, keys)
    else if c == 27
    then some (false, buf, keys)
    else if c == 8
    then shorter
    else if (leb 32 c && ltb c 127) && ltb len (maxlen - 1)
    then longer
    else same

pub read_field : ℕ → List ℕ → List ℕ → Option (Bool × List ℕ × List ℕ)
unfolding field_keys
read_field maxlen buf keys = field_keys maxlen buf (strlen buf) keys

pub hash_rest : ℕ → List ℕ → ℕ
hash_rest h [] = h
hash_rest h (c ∷ s) = hash_rest ((h * 33 + c % 256) % 2 ^ 32) s

pub hash_str : List ℕ → ℕ
unfolding hash_rest
hash_str s = hash_rest 5381 s

-- Its loop is that of `itoa` in base 10.
pub u32toa : ℕ → List ℕ
u32toa v = if v == 0 then 48 ∷ [] else reverse (digits_rev 32 10 v)

pub is_lower : ℕ → Bool
is_lower c = leb 97 c && leb c 122

pub is_upper : ℕ → Bool
is_upper c = leb 65 c && leb c 90

pub is_numeral : ℕ → Bool
is_numeral c = leb 48 c && leb c 57

pub host_char : ℕ → Bool
unfolding is_lower is_upper is_numeral
host_char c = ((is_lower c || is_upper c) || is_numeral c) || c == 45

unfoldable pub user_char : ℕ → Bool
unfolding is_lower is_numeral
user_char c = (is_lower c || is_numeral c) || c == 95

-- The loops that validate a name: `ok`.
pub all_chars : (ℕ → Bool) → List ℕ → Bool
all_chars p [] = true
all_chars p (c ∷ s) = p c && all_chars p s

-- `if (strlen(buf) == 0) strcpy(buf, fallback)`
pub or_default : List ℕ → List ℕ → List ℕ
or_default fallback buf = if strlen buf == 0 then strcpy buf fallback else buf

-- The loop of `screen_hostname`, with fuel: the buffer, and the keys behind. Each round uses a key.
pub screen_hostname : ℕ → List ℕ → List ℕ → Option (List ℕ × List ℕ)
screen_hostname zero host keys = none
screen_hostname (suc f) host keys = elim (read_field 30 host keys) [
  | none ↦ none
  | some (entered, buf, rest) ↦
      let host' = or_default (codes "stellares") buf in
      let again = screen_hostname f host' rest in
      if all_chars host_char (c_str host') then some (host', rest) else again
]

-- The first loop of `screen_user`: the escape key gives the name `stella`.
pub ask_user : ℕ → List ℕ → List ℕ → Option (List ℕ × List ℕ)
ask_user zero user keys = none
ask_user (suc f) user keys = elim (read_field 30 user keys) [
  | none ↦ none
  | some (entered, buf, rest) ↦
      let user' =
        or_default (codes "stella") (if entered then buf else strcpy buf (codes "stella")) in
      let again = ask_user f user' rest in
      if all_chars user_char (c_str user') then some (user', rest) else again
]

-- The second loop of `screen_user`, over `cfg->password` and `pass2`. The results of the two calls of
-- `read_field` are not looked at, so that the escape key ends a field as the line break does.
pub ask_password : ℕ → List ℕ → List ℕ → List ℕ → Option (List ℕ × List ℕ)
ask_password zero password pass2 keys = none
ask_password (suc f) password pass2 keys = elim (read_field 62 (strcpy password []) keys) [
  | none ↦ none
  | some (_, password', behind) ↦ elim (read_field 62 (strcpy pass2 []) behind) [
    | none ↦ none
    | some (_, pass2', rest) ↦
        let again = ask_password f password' pass2' rest in
        if ltb (strlen password') 4
        then again
        else if str_eq (c_str password') (c_str pass2')
        then some (password', rest)
        else again
  ]
]

pub screen_confirm : List ℕ → Option (Bool × List ℕ)
screen_confirm [] = none
screen_confirm (c ∷ keys) =
    let other = screen_confirm keys in
    if c == 10 || c == 13 then some (true, keys) else if c == 27 then some (false, keys) else other

-- The three screens in order, and what the person confirms. `old` is what the array `pass2` holds before.
pub ask_all : List ℕ → Config → List ℕ → Option (Bool × Config × List ℕ)
ask_all old cfg keys = elim (screen_hostname (suc (length keys)) cfg.hostname keys) [
  | none ↦ none
  | some (host, keys1) ↦ elim (ask_user (suc (length keys1)) cfg.username keys1) [
    | none ↦ none
    | some (user, keys2) ↦ elim (ask_password (suc (length keys2)) cfg.password old keys2) [
      | none ↦ none
      | some (password, keys3) ↦ elim (screen_confirm keys3) [
        | none ↦ none
        | some (confirmed, rest) ↦
            some (confirmed, record { hostname = host; username = user; password = password }, rest)
      ]
    ]
  ]
]

-- The loop of `installer_run`, with fuel: one round more than there are keys is enough. `old i` is what the array
-- `pass2` of round `i` holds before.
pub configure : ℕ → (ℕ → List ℕ) → Config → List ℕ → Option (Config × List ℕ)
configure zero old cfg keys = none
configure (suc f) old cfg keys = elim (ask_all (old 0) cfg keys) [
  | none ↦ none
  | some (confirmed, cfg', rest) ↦
      let again = configure f (λ i. old (i + 1)) cfg' rest in
      if confirmed then some (cfg', rest) else again
]

-- `installed`, `passwd`, `README` and `homepath`
pub flag_text : Config → List ℕ
flag_text cfg = codes "hostname=" ++ (c_str cfg.hostname ++ codes "\n")

pub passwd_text : Config → List ℕ
unfolding hash_str u32toa
passwd_text cfg =
    codes "root:"
    ++ (u32toa (hash_str (codes "toor"))
        ++ (codes ":/\n"
            ++ (c_str cfg.username
                ++ (codes ":"
                    ++ (u32toa (hash_str (c_str cfg.password))
                        ++ (codes ":/home/" ++ (c_str cfg.username ++ codes "\n")))))))

pub readme_text : Config → List ℕ
readme_text cfg =
    codes "Bem-vindo ao StellaresOS, "
    ++ (c_str cfg.username
        ++ (codes "!\n\n"
            ++ (codes "Seus arquivos sao salvos no disco automaticamente.\n"
                ++ codes "Digite 'help' para ver os comandos disponiveis.\n")))

pub homepath_text : Config → List ℕ
homepath_text cfg = codes "/home/" ++ (c_str cfg.username ++ codes "\n")

module _ (b : BlockDevice) where
  -- No result of the file system is looked at.
  pub screen_installing : Config → State b → State b
  screen_installing cfg s =
      let put = λ (name text : List ℕ) (t : State b). (write_file b name text (length text) t).1 in
      let s1 = put (codes "installed") (flag_text cfg) (format b s).1 in
      let s2 = put (codes "passwd") (passwd_text cfg) s1 in
      let s3 = put (codes "README") (readme_text cfg) s2 in
      put (codes "homepath") (homepath_text cfg) s3

  -- The configuration behind the return value 0, or `none` for -1; the first key leaves the welcome screen.
  -- `cfg` is what the caller's structure holds before.
  pub installer_run :
      (ℕ → List ℕ) → Config → List ℕ → State b → Option (Option Config × List ℕ × State b)
  installer_run old cfg keys s =
      if s.fs_ready
      then (if exists b (codes "installed") s then some (none, keys, s) else elim keys [
        | [] ↦ none
        | k ∷ rest ↦
            elim (configure (suc (length rest)) old
              (record {
                hostname = strcpy cfg.hostname (codes "stellares");
                username = strcpy cfg.username [];
                password = strcpy cfg.password [];
              })
              rest) [
                | none ↦ none
                | some (cfg', behind) ↦ some (some cfg', behind, screen_installing cfg' s)
              ]
      ])
      else some (none, keys, s)
