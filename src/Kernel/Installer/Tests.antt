-- ===== src/Kernel/Installer/Tests.antt =====
-- The installer on a device that is an array of bytes: a person named `ana` with the password `lua42`.
use stellares_os.Common.{ℕ, ◌≡◌, ◌≢◌, refl, false, some, List, [], ◌∷◌, arith, replicate, codes}
use stellares_os.Libc.Str.{c_str}
use stellares_os.Fs.Device.Memory.{memory, memory-IsReliable}
use stellares_os.Fs.Disk.{State, format, exists}
use stellares_os.Fs.Disk.Table.{fresh_super}
use stellares_os.Fs.Disk.Fresh.{IsFormatted, format-IsFormatted, format-absent}
use stellares_os.Kernel.Installer.{Config, user_char, installer_run}
use stellares_os.Kernel.Installer.Accounts.{IsName}
use stellares_os.Kernel.Installer.Typed.{IsPassword, typed_keys}
use stellares_os.Kernel.Installer.FirstRun.{IsConfig, LogsIn, installer_run-login}

abbrev blank : State memory
blank = record {
  behind_super = 1 ∷ 2 ∷ 3 ∷ 4 ∷ [];
  super = fresh_super;
  inodes = [];
  fs_ready = false;
  disk = λ a. 0;
}

abbrev disk : State memory
disk = (format memory blank).1

disk-IsFormatted : IsFormatted memory memory-IsReliable (format memory blank)
disk-IsFormatted = format-IsFormatted memory memory-IsReliable blank refl

abbrev arrays : Config
arrays = record { hostname = replicate 32 0; username = replicate 32 7; password = replicate 64 9 }

arrays-IsConfig : IsConfig arrays
arrays-IsConfig = record { host_size = refl; user_size = refl; password_size = refl }

abbrev name : List ℕ
name = codes "ana"

abbrev password : List ℕ
password = codes "lua42"

name-IsName : IsName name
unfolding user_char
name-IsName = record { chars = (refl, (refl, (refl, tt))); present = λ e. cc; short = omega arith }

password-IsPassword : IsPassword password
password-IsPassword = record { chars = omega arith; least = omega arith; most = omega arith }

name-ne-root : codes "root" ≢ name
name-ne-root e = cc

abbrev old : ℕ → List ℕ
old i = replicate 64 5

abbrev FirstRun : Type 0
FirstRun =
    (cfg' : Config) × (t : State memory) × (installer_run memory old arrays
        (typed_keys 13 name password []) disk
      ≡ some (some cfg', [], t))
    × (c_str cfg'.username ≡ name)
    × LogsIn memory memory-IsReliable name password t

disk-absent : exists memory (codes "installed") disk ≡ false
disk-absent = format-absent memory memory-IsReliable blank (codes "installed") refl

abbrev run : FirstRun
run =
    installer_run-login memory memory-IsReliable old arrays 13 name password [] disk
      disk-IsFormatted.ready disk-absent disk-IsFormatted.valid.behind arrays-IsConfig (λ i. refl)
      name-IsName name-ne-root password-IsPassword (omega arith)

installer_run-login_example : FirstRun
installer_run-login_example =
    installer_run-login memory memory-IsReliable old arrays 13 name password [] disk
      disk-IsFormatted.ready disk-absent disk-IsFormatted.valid.behind arrays-IsConfig (λ i. refl)
      name-IsName name-ne-root password-IsPassword (omega arith)

abbrev installed_config : Config
installed_config = run.0

abbrev installed_disk : State memory
installed_disk = run.1
