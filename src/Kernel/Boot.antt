-- ===== src/Kernel/Boot.antt =====
-- kernel/kernel.c: the memory that the kernel starts with, the boot log, and the account that the shell is
-- started for. `magic`, `flags` and `mem_upper` are what the boot loader hands over; `none` is the null pointer.
pub mod Free
pub mod Account
mod Tests
use stellares_os.Common.{
  ℕ, ◌+◌, ◌-◌, ◌*◌, ◌%◌, ◌^◌, Bool, ◌&&◌, Option, none, some, List, [], ◌∷◌, ◌++◌, ltb, ◌==◌,
  if◌then◌else◌, codes,
}
use stellares_os.Libc.Str.{c_str, strcpy, strncpy}
use stellares_os.Libc.Number.{itoa}
use stellares_os.Fs.Device.{BlockDevice}
use stellares_os.Fs.Disk.{State}
use stellares_os.Kernel.Frames.{Frames, init, mark_free, mark_used}
use stellares_os.Kernel.Installer.{Config, installer_run}
use stellares_os.Kernel.Login as Login
use stellares_os.Kernel.Login.{User, login_init, login_screen}
use stellares_os.Drivers.Vga.{Screen, color, clear, fill_row, puts_at, draw_hline}

abbrev pub heap_start : ℕ
heap_start = 0x00400000

-- The multiboot record: `flags` and `mem_upper`.
pub memory_kb : ℕ → Option (ℕ × ℕ) → ℕ
memory_kb magic none = 32768
memory_kb magic (some (flags, upper)) =
    if magic == 0x2BADB002 && flags % 2 == 1 then (upper + 1024) % 2 ^ 32 else 32768

-- The three calls of kernel/pmm.c.
pub boot_frames : ℕ → Frames → Frames
boot_frames kb s =
    let s1 = init (if ltb 1024 kb then kb - 1024 else 0) s in
    let s2 = mark_free 0x00100000 ((kb + 2 ^ 32 - 1024) % 2 ^ 32 * 1024 % 2 ^ 32) s1 in
    mark_used 0 heap_start s2

-- `blog`, with `brow`; the serial line is not kept.
pub blog : Bool → List ℕ → ℕ × Screen → ℕ × Screen
blog ok msg (row, scr) =
    let s1 = puts_at 2 row (codes " [") (color 8 0) scr in
    let s2 =
      puts_at 4 row (if ok then codes "OK" else codes "--") (if ok then color 10 0 else color 14 0)
        s1 in
    (row + 1, puts_at 8 row msg (color 7 0) (puts_at 6 row (codes "] ") (color 8 0) s2))

pub draw_header : Screen → Screen
draw_header scr =
    let hdr = color 15 1 in
    let s1 = fill_row 0 32 hdr (clear (color 7 0) scr) in
    let s2 = puts_at 14 0 (codes "v0.1") hdr (puts_at 2 0 (codes "StellaresOS") (color 14 1) s1) in
    let s3 = puts_at 19 0 (codes "|") (color 8 1) s2 in
    let s4 = puts_at 21 0 (codes "Microkernel x86") (color 11 1) s3 in
    let s5 = puts_at 37 0 (codes "|") (color 8 1) s4 in
    let s6 = puts_at 39 0 (codes "Inicializando...") hdr s5 in
    puts_at 2 2 (codes "Boot Log:") (color 14 0) (draw_hline 1 0 80 0xCD (color 3 0) s6)

-- The line of the log about the memory.
pub memory_text : ℕ → List ℕ
memory_text kb = codes "RAM: " ++ (itoa kb 10 ++ codes " KB")

-- `user_t`, as the bytes of its arrays.
pub record CurrentUser : Type 0 where
  pub username : List ℕ
  pub home : List ℕ

abbrev pub default_user : CurrentUser → CurrentUser
default_user u = record {
  username = strcpy u.username (codes "stella");
  home = strcpy u.home (47 ∷ []);
}

-- The account behind an installation.
pub installed_user : Config → CurrentUser → CurrentUser
installed_user cfg u = record {
  username = strncpy u.username cfg.username 31;
  home = strcpy u.home (codes "/home/" ++ c_str cfg.username);
}

-- What `login_screen` leaves in the record, with its return value.
pub entered_user : Login.Account × ℕ → CurrentUser → CurrentUser
entered_user (a, v) u =
    if v == 0
    then record { username = strncpy u.username a.username 31; home = strncpy u.home a.home 63 }
    else record { username = strcpy u.username a.username; home = strcpy u.home a.home }

-- The user that the shell is started for: `detected` is `ata_detect()`, and `users` are those that are loaded. `old`
-- and `cfg` are what the stack holds before. The users that `login_init` loads again behind an installation are
-- not looked at here; it can write to the disk.
module _ (b : BlockDevice) where
  pub choose_user :
      (ℕ → List ℕ)
      → Config
      → Bool
      → List User
      → List ℕ
      → State b
      → CurrentUser
      → Option (CurrentUser × State b)
  unfolding entered_user installed_user
  choose_user old cfg detected users keys s u =
      let u1 = default_user u in
      if detected && s.fs_ready
      then elim (installer_run b old cfg keys s) [
        | none ↦ none
        | some (some cfg', rest, t) ↦ some (installed_user cfg' u1, (login_init b t).1)
        | some (none, rest, t) ↦ elim (login_screen users rest) [
          | none ↦ none
          | some (a, v, behind) ↦ some (entered_user (a, v) u1, t)
        ]
      ]
      else some (u1, s)
