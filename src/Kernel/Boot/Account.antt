-- ===== src/Kernel/Boot/Account.antt =====
-- The account that kernel/kernel.c starts the shell for, behind an installation.
use stellares_os.Common.{
  ℕ, ◌+◌, ◌≤◌, ◌≡◌, ◌≢◌, refl, ap, ◌∙◌, true, false, some, List, [], ◌∷◌, ◌++◌, arith, length,
  codes,
}
use stellares_os.Libc.Str.{c_str, strcpy}
use stellares_os.Libc.Str.Copy.{c_str-strcpy, strncpy_short, length-strcpy}
use stellares_os.Fs.Device.{BlockDevice, IsReliable}
use stellares_os.Fs.Disk.{State, exists}
use stellares_os.Kernel.Installer.{Config, installer_run}
use stellares_os.Kernel.Installer.Accounts.{IsName}
use stellares_os.Kernel.Installer.Typed.{IsPassword, typed_keys}
use stellares_os.Kernel.Installer.FirstRun.{IsConfig, LogsIn, installer_run-login}
use stellares_os.Kernel.Login.{User, login_init}
use stellares_os.Kernel.Boot.{CurrentUser, default_user, installed_user, choose_user}

c_str-ended : (s r : List ℕ) → c_str (c_str s ++ (0 ∷ r)) ≡ c_str s
unfolding c_str
c_str-ended [] r = refl
c_str-ended (c ∷ s) r = ground (arith, c_str-ended s r)

c_str-c_str : (s : List ℕ) → c_str (c_str s) ≡ c_str s
unfolding c_str
c_str-c_str [] = refl
c_str-c_str (c ∷ s) = ground (arith, c_str-c_str s)

c_str-home : (s : List ℕ) → c_str (codes "/home/" ++ c_str s) ≡ codes "/home/" ++ c_str s
unfolding c_str
c_str-home s = ap (λ t. codes "/home/" ++ t) (c_str-c_str s)

-- The user's record holds the account of the name `name`.
pub record IsAccount (name : List ℕ) (u : CurrentUser) : Type 0 where
  pub user_lem : c_str u.username ≡ name
  pub home_lem : c_str u.home ≡ codes "/home/" ++ name

installed_user-IsAccount :
    (cfg : Config) (name : List ℕ) (u : CurrentUser)
    → length u.username ≡ 32
    → length u.home ≡ 64
    → c_str cfg.username ≡ name
    → length name ≤ 29
    → IsAccount name (installed_user cfg (default_user u))
unfolding installed_user
installed_user-IsAccount cfg name u l m e n =
    let size = ap length e in
    let user = strcpy u.username (codes "stella") in
    let home = strcpy u.home (47 ∷ []) in
    let room = length-strcpy u.username (codes "stella") in
    let room' = length-strcpy u.home (47 ∷ []) in
    let text = c_str-home cfg.username in
    let count : length (codes "/home/" ++ c_str cfg.username) ≡ 6 + length (c_str cfg.username) =
      omega arith in
    let count' = ap length text in
    record {
      user_lem =
          ap c_str (strncpy_short user cfg.username 31 (omega arith) (omega arith))
          ∙ (c_str-ended cfg.username _ ∙ e);
      home_lem =
          c_str-strcpy home (codes "/home/" ++ c_str cfg.username) (omega arith)
          ∙ (text ∙ ap (λ t. codes "/home/" ++ t) e);
    }

module _ (b : BlockDevice) (works : IsReliable b) where
  choose-installed :
      (old : ℕ → List ℕ) (cfg cfg' : Config) (users : List User) (keys rest : List ℕ)
      (s t : State b) (u : CurrentUser)
      → s.fs_ready ≡ true
      → installer_run b old cfg keys s ≡ some (some cfg', rest, t)
      → choose_user b old cfg true users keys s u
        ≡ some (installed_user cfg' (default_user u), (login_init b t).1)
  unfolding choose_user installed_user
  choose-installed old cfg cfg' users keys rest s t u on e = simp (on, e)

  -- On a disk that works, that is detected and ready and not installed, whatever the arrays held before: a person
  -- who leaves the first screen, keeps the host name, types a name (1 to 29 lower-case letters, digits and
  -- underscores, not `root`) and twice a password of 4 to 29 printable characters, and confirms, enters the shell
  -- as a user of that name with a home of that name below `/home`; and on the disk that is left the login
  -- accepts that name and password with the same account.
  pub choose_user-installed :
      (old : ℕ → List ℕ) (cfg : Config) (users : List User) (k : ℕ) (name password rest : List ℕ)
      (s : State b) (u : CurrentUser)
      → s.fs_ready ≡ true
      → exists b (codes "installed") s ≡ false
      → length s.behind_super ≡ 4
      → IsConfig cfg
      → ((i : ℕ) → length (old i) ≡ 64)
      → length u.username ≡ 32
      → length u.home ≡ 64
      → IsName name
      → codes "root" ≢ name
      → IsPassword password
      → length password ≤ 29
      → (u' : CurrentUser) × (t : State b) × (choose_user b old cfg true users
            (typed_keys k name password rest)
            s
            u
          ≡ some (u', t))
        × IsAccount name u'
        × LogsIn b works name password t
  choose_user-installed old cfg users k name password rest s u on absent h v lo l m n ne p short =
      let (cfg', t, e, same, logs) =
        installer_run-login b works old cfg k name password rest s on absent h v lo n ne p short in
      (
        installed_user cfg' (default_user u),
        t,
        choose-installed old cfg cfg' users (typed_keys k name password rest) rest s t u on e
            ∙ ap (λ r. some (installed_user cfg' (default_user u), r.1)) logs.0,
        installed_user-IsAccount cfg' name u l m same n.short,
        logs,
      )
