-- ===== src/Kernel/Installer/FirstRun.antt =====
-- A first start of kernel/installer.c, from the first screen to the login of kernel/login.c behind it.
use stellares_os.Common.{
  ℕ, suc, ◌≤◌, ◌<◌, ◌≡◌, ◌≢◌, refl, ap, sym, ◌∙◌, true, false, some, List, [], ◌∷◌, ◌++◌, arith,
  length, drop, codes, subst,
}
use stellares_os.Libc.Str.{c_str, strcpy}
use stellares_os.Libc.Str.Copy.{length-strcpy, c_str-strcpy}
use stellares_os.Fs.Device.{BlockDevice, IsReliable}
use stellares_os.Fs.Disk.{State, exists}
use stellares_os.Kernel.Login.{login_init, login_screen}
use stellares_os.Kernel.Login.Typed.{IsLogin, login_keys, login_screen-typed}
use stellares_os.Kernel.Installer.{
  Config, screen_hostname, ask_user, ask_password, screen_confirm, ask_all, configure,
  screen_installing, installer_run,
}
use stellares_os.Kernel.Installer.Fields.{typed_buf, c_str-typed_buf}
use stellares_os.Kernel.Installer.Accounts.{IsName}
use stellares_os.Kernel.Installer.Installed.{users_of, installing-login}
use stellares_os.Kernel.Installer.Typed.{
  IsPassword, typed_keys, strcpy-nil, length-drop_one, name-IsTyped, screen_hostname-default,
  ask_user-typed, ask_password-typed,
}

-- The arrays of a structure `install_config_t`.
pub record IsConfig (cfg : Config) : Type 0 where
  pub host_size : length cfg.hostname ≡ 32
  pub user_size : length cfg.username ≡ 32
  pub password_size : length cfg.password ≡ 64

stellares-text : c_str (codes "stellares") ≡ codes "stellares"
unfolding c_str
stellares-text = refl

unfoldable pub cleared : Config → Config
cleared cfg = record {
  hostname = strcpy cfg.hostname (codes "stellares");
  username = strcpy cfg.username [];
  password = strcpy cfg.password [];
}

-- The screens in order, from what each of them gives.
ask_all-screens :
    (old : List ℕ) (cfg : Config) (keys host keys1 user keys2 password keys3 rest : List ℕ)
    → screen_hostname (suc (length keys)) cfg.hostname keys ≡ some (host, keys1)
    → ask_user (suc (length keys1)) cfg.username keys1 ≡ some (user, keys2)
    → ask_password (suc (length keys2)) cfg.password old keys2 ≡ some (password, keys3)
    → screen_confirm keys3 ≡ some (true, rest)
    → ask_all old cfg keys
      ≡ some (true, record { hostname = host; username = user; password = password }, rest)
unfolding ask_all
ask_all-screens old cfg keys host keys1 user keys2 password keys3 rest e0 e1 e2 e3 =
    rw (e0, ask_all, e1, e2, e3) refl

configure-confirmed :
    (f : ℕ) (old : ℕ → List ℕ) (cfg cfg' : Config) (keys rest : List ℕ)
    → ask_all (old 0) cfg keys ≡ some (true, cfg', rest)
    → configure (suc f) old cfg keys ≡ some (cfg', rest)
unfolding configure
configure-confirmed f old cfg cfg' keys rest e = rw (e, configure) refl

confirm-enter : (keys : List ℕ) → screen_confirm (10 ∷ keys) ≡ some (true, keys)
unfolding screen_confirm
confirm-enter keys = refl

-- What the login can be given.
name-IsLogin :
    (name password : List ℕ)
    → IsName name
    → IsPassword password
    → length password ≤ 29
    → IsLogin (name, password)
name-IsLogin name password n p l = record {
  name_chars = name-IsTyped name n.chars;
  name_short = n.short;
  password_chars = p.chars;
  password_short = l;
}

-- One round of the screens.
record IsTypedConfig (name password : List ℕ) (cfg : Config) : Type 0 where
  user_lem : c_str cfg.username ≡ name
  password_lem : c_str cfg.password ≡ password

abbrev keys_from_host : List ℕ → List ℕ → List ℕ → List ℕ
keys_from_host name password rest =
    10 ∷ (name ++ (10 ∷ (password ++ (10 ∷ (password ++ (10 ∷ 10 ∷ rest))))))

configure-typed :
    (f : ℕ) (old : ℕ → List ℕ) (cfg : Config) (name password rest : List ℕ)
    → IsConfig cfg
    → length (old 0) ≡ 64
    → IsName name
    → IsPassword password
    → (cfg' : Config) × (configure (suc f) old (cleared cfg) (keys_from_host name password rest)
        ≡ some (cfg', rest))
      × IsTypedConfig name password cfg'
unfolding cleared
configure-typed f old cfg name password rest v l n p =
    let keys3 = 10 ∷ rest in
    let keys2 = password ++ (10 ∷ (password ++ (10 ∷ keys3))) in
    let keys1 = name ++ (10 ∷ keys2) in
    let junk = drop 1 cfg.username in
    let host0 = strcpy cfg.hostname (codes "stellares") in
    let here : c_str host0 ≡ codes "stellares" =
      c_str-strcpy cfg.hostname (codes "stellares") (
        subst (λ t. length t < length cfg.hostname) (sym stellares-text)
          (omega (arith, v.host_size)))
      ∙ stellares-text in
    let (host, r0) = screen_hostname-default (length (10 ∷ keys1)) host0 keys1 here in
    let word = typed_buf (drop 1 (strcpy cfg.password [])) password in
    let r1 =
      ap (λ u. ask_user (suc (length keys1)) u keys1)
        (strcpy-nil cfg.username (omega (arith, v.user_size)))
      ∙ ask_user-typed (length keys1) name junk keys2 n
          (length-drop_one cfg.username 31 v.user_size) in
    let r2 =
      ask_password-typed (length keys2) password (strcpy cfg.password []) (old 0) keys3 p
        (length-strcpy cfg.password [] ∙ v.password_size) l in
    let cfg' : Config = record {
      hostname = host;
      username = typed_buf junk name;
      password = word;
    } in
    (
      cfg',
      configure-confirmed f old (cleared cfg) cfg' (10 ∷ keys1) rest (
          ask_all-screens (old 0) (cleared cfg) (10 ∷ keys1) host keys1 (typed_buf junk name) keys2
            word keys3 rest r0 r1 r2 (confirm-enter rest)),
      record {
        user_lem = c_str-typed_buf junk name (name-IsTyped name n.chars);
        password_lem = c_str-typed_buf (drop 1 (strcpy cfg.password [])) password p.chars;
      },
    )

module _ (b : BlockDevice) (works : IsReliable b) where
  run-configured :
      (old : ℕ → List ℕ) (cfg cfg' : Config) (k : ℕ) (keys rest : List ℕ) (s : State b)
      → s.fs_ready ≡ true
      → exists b (codes "installed") s ≡ false
      → configure (suc (length keys)) old (cleared cfg) keys ≡ some (cfg', rest)
      → installer_run b old cfg (k ∷ keys) s ≡ some (some cfg', rest, screen_installing b cfg' s)
  unfolding installer_run cleared
  run-configured old cfg cfg' k keys rest s on absent e = simp (on, absent, e)

  -- The login behind an installation loads two users, and lets the new one in at the first round in which the name
  -- and the password are typed.
  abbrev pub LogsIn : List ℕ → List ℕ → State b → Type 0
  LogsIn name password t =
      (login_init b t ≡ (some (users_of name password), t))
      × ((rest : List ℕ)
          → login_screen (users_of name password) (login_keys (name, password) rest)
            ≡ some (record { username = name; home = codes "/home/" ++ name }, 0, rest))

  pub installed-LogsIn :
      (cfg : Config) (s : State b)
      → length s.behind_super ≡ 4
      → IsName (c_str cfg.username)
      → codes "root" ≢ c_str cfg.username
      → IsLogin (c_str cfg.username, c_str cfg.password)
      → LogsIn (c_str cfg.username) (c_str cfg.password) (screen_installing b cfg s)
  installed-LogsIn cfg s h n ne l =
      let name = c_str cfg.username in
      let password = c_str cfg.password in
      let (loads, fits) = installing-login b works cfg s h n ne in
      (loads, λ rest. login_screen-typed (users_of name password) (name, password) rest _ l fits)

  installing-LogsIn :
      (cfg : Config) (name password : List ℕ) (s : State b)
      → length s.behind_super ≡ 4
      → IsTypedConfig name password cfg
      → IsName name
      → codes "root" ≢ name
      → IsLogin (name, password)
      → LogsIn name password (screen_installing b cfg s)
  installing-LogsIn cfg name password s h c n ne l =
      let t = screen_installing b cfg s in
      let u = sym c.user_lem in
      subst (λ x. LogsIn x password t) c.user_lem
        (subst (λ x. LogsIn (c_str cfg.username) x t) c.password_lem
          (installed-LogsIn cfg s h (subst IsName u n) (λ e. ne (e ∙ c.user_lem))
            (subst (λ x. IsLogin (x, c_str cfg.password)) u
              (subst (λ x. IsLogin (name, x)) (sym c.password_lem) l))))

  -- On a disk that works, with a file system that is ready and not installed: a person who leaves the first
  -- screen, keeps the host name, types a name (1 to 29 lower-case letters, digits and underscores, not `root`)
  -- and twice a password of 4 to 29 printable characters, and confirms, has the system installed, whatever
  -- memory held before; the login then loads two users, and accepts this name and password with the account of
  -- that name and its home below `/home`.
  pub installer_run-login :
      (old : ℕ → List ℕ) (cfg : Config) (k : ℕ) (name password rest : List ℕ) (s : State b)
      → s.fs_ready ≡ true
      → exists b (codes "installed") s ≡ false
      → length s.behind_super ≡ 4
      → IsConfig cfg
      → ((i : ℕ) → length (old i) ≡ 64)
      → IsName name
      → codes "root" ≢ name
      → IsPassword password
      → length password ≤ 29
      → (cfg' : Config) × (t : State b) × (installer_run b old cfg
            (typed_keys k name password rest)
            s
          ≡ some (some cfg', rest, t))
        × (c_str cfg'.username ≡ name)
        × LogsIn name password t
  unfolding typed_keys
  installer_run-login old cfg k name password rest s on absent h v lo n ne p short =
      let keys = keys_from_host name password rest in
      let (cfg', r, c) = configure-typed (length keys) old cfg name password rest v (lo 0) n p in
      (
        cfg',
        screen_installing b cfg' s,
        run-configured old cfg cfg' k keys rest s on absent r,
        c.user_lem,
        installing-LogsIn cfg' name password s h c n ne (name-IsLogin name password n p short),
      )
