-- ===== src/Kernel/Boot/Tests.antt =====
-- A start with 32 megabytes and a device that is an array of bytes.
use stellares_os.Common.{
  ℕ, ◌≡◌, refl, true, false, none, some, List, [], ◌∷◌, arith, replicate, codes,
}
use stellares_os.Fs.Device.Memory.{memory, memory-IsReliable}
use stellares_os.Fs.Disk.{State, format}
use stellares_os.Fs.Disk.Table.{fresh_super}
use stellares_os.Fs.Disk.Fresh.{IsFormatted, format-IsFormatted, format-absent}
use stellares_os.Kernel.Frames.{Frames, alloc}
use stellares_os.Kernel.Installer.{Config, user_char}
use stellares_os.Kernel.Installer.Accounts.{IsName}
use stellares_os.Kernel.Installer.Typed.{IsPassword, typed_keys}
use stellares_os.Kernel.Installer.FirstRun.{IsConfig, LogsIn}
use stellares_os.Kernel.Boot.{CurrentUser, heap_start, memory_kb, boot_frames, choose_user}
use stellares_os.Kernel.Boot.Free.{IsBooted, boot_frames-IsBooted, alloc-boot_frames}
use stellares_os.Kernel.Boot.Account.{IsAccount, choose_user-installed}

abbrev off : Frames
off = record { bits = []; total = 0; used = 0 }

-- Without a record of the boot loader there are 32 megabytes; with one, its number is taken.
memory_kb-none : memory_kb 0x2BADB002 none ≡ 32768
unfolding memory_kb
memory_kb-none = refl

memory_kb-some : memory_kb 0x2BADB002 (some (3, 130048)) ≡ 131072
unfolding memory_kb
memory_kb-some = refl

boot_frames-IsBooted_example : IsBooted 8192 (boot_frames 32768 off)
boot_frames-IsBooted_example = boot_frames-IsBooted 32768 off (omega arith) (omega arith)

alloc-boot_frames_example : (alloc (boot_frames 32768 off)).0 ≡ heap_start
alloc-boot_frames_example = alloc-boot_frames 32768 off (omega arith) (omega arith)

abbrev blank : State memory
blank = record {
  behind_super = 1 ∷ 2 ∷ 3 ∷ 4 ∷ [];
  super = fresh_super;
  inodes = [];
  fs_ready = false;
  disk = λ a. 0;
}

abbrev disk : State memory
disk = (format memory blank).1

disk-IsFormatted : IsFormatted memory memory-IsReliable (format memory blank)
disk-IsFormatted = format-IsFormatted memory memory-IsReliable blank refl

abbrev arrays : Config
arrays = record { hostname = replicate 32 0; username = replicate 32 7; password = replicate 64 9 }

arrays-IsConfig : IsConfig arrays
arrays-IsConfig = record { host_size = refl; user_size = refl; password_size = refl }

abbrev user : CurrentUser
user = record { username = replicate 32 1; home = replicate 64 2 }

abbrev name : List ℕ
name = codes "ana"

abbrev password : List ℕ
password = codes "lua42"

name-IsName : IsName name
unfolding user_char
name-IsName = record { chars = (refl, (refl, (refl, tt))); present = λ e. cc; short = omega arith }

password-IsPassword : IsPassword password
password-IsPassword = record { chars = omega arith; least = omega arith; most = omega arith }

choose_user-installed_example :
    (u : CurrentUser) × (t : State memory) × (choose_user memory
        (λ i. replicate 64 5)
        arrays
        true
        []
        (typed_keys 13 name password [])
        disk
        user
      ≡ some (u, t))
    × IsAccount name u
    × LogsIn memory memory-IsReliable name password t
choose_user-installed_example =
    choose_user-installed memory memory-IsReliable (λ i. replicate 64 5) arrays [] 13 name password
      [] disk user disk-IsFormatted.ready
      (format-absent memory memory-IsReliable blank (codes "installed") refl)
      disk-IsFormatted.valid.behind arrays-IsConfig (λ i. refl) refl refl name-IsName (λ e. cc)
      password-IsPassword (omega arith)
