-- ===== src/Kernel/Installer/Checked.antt =====
-- What kernel/installer.c has checked when it ends, whatever is typed.
use stellares_os.Common.{
  ℕ, ◌≤◌, ◌≡◌, Bool, true, none, some, Option, List, if◌then◌else◌, length, All,
}
use stellares_os.Libc.Str.{c_str, strlen}
use stellares_os.Fs.Device.{BlockDevice}
use stellares_os.Fs.Disk.{State}
use stellares_os.Kernel.Installer.{Config, host_char}
use stellares_os.Kernel.Installer.Accounts.{IsName}

IsHost : List ℕ × List ℕ → Type 0
IsHost (host, rest) = All (λ c. host_char c ≡ true) (c_str host)

IsLong : List ℕ × List ℕ → Type 0
IsLong (password, rest) = 4 ≤ strlen password

-- What is checked of a configuration.
pub record IsChecked (cfg : Config) : Type 0 where
  pub host : All (λ c. host_char c ≡ true) (c_str cfg.hostname)
  pub user : IsName (c_str cfg.username)
  pub user_size : length cfg.username ≡ 32
  pub password : 4 ≤ strlen cfg.password

IsAnswered : Bool × Config × List ℕ → Type 0
IsAnswered (confirmed, cfg, rest) = IsChecked cfg

IsConfigured : Config × List ℕ → Type 0
IsConfigured (cfg, rest) = IsChecked cfg

module _ (b : BlockDevice) where
  -- The branches of `installer_run` behind the first key.
  abbrev outcome :
      Bool
      → Bool
      → Option (Config × List ℕ)
      → List ℕ
      → State b
      → (Config → State b)
      → Option (Option Config × List ℕ × State b)
  outcome ready there r keys s f =
      if ready
      then (if there
          then some (none, keys, s)
          else elim r [ none ↦ none | some (cfg, behind) ↦ some (some cfg, behind, f cfg) ])
      else some (none, keys, s)
