-- ===== src/Shell/Stellash.antt =====
-- shell/stellash.c: the shell. A record holds its static variables and what its commands change: both file
-- systems, the scheduler and the screen; `pit_seconds()` is the field `seconds`. A local array has the room
-- that its text needs.
pub mod Input
pub mod Commands
pub mod Home
pub mod Show
pub mod Info
pub mod Line
pub mod Execute
mod Tests
use stellares_os.Common.{
  ℕ, zero, suc, ◌+◌, ◌-◌, Bool, true, false, Option, none, some, List, [], ◌∷◌, ◌++◌, ◌==◌,
  if◌then◌else◌, get_or, take, codes, str_eq,
}
use stellares_os.Libc.Str.{strlen, first}
use stellares_os.Libc.Number.{itoa}
use stellares_os.Libc.Token.{tokens}
use stellares_os.Fs.Device.{BlockDevice}
use stellares_os.Fs.Disk.{State}
use stellares_os.Fs.Ram.{Nodes, resolve}
use stellares_os.Kernel.Sched.{Sched}
use stellares_os.Drivers.Vga.{Screen, color, puts, puts_at, set_attr, fill_row}
use stellares_os.Drivers.Vga.Printf.{Arg, vga_printf}

pub record Shell (b : BlockDevice) : Type 0 where
  pub logged_user : List ℕ
  pub logged_home : List ℕ
  pub cwd_node : ℕ
  pub cwd_path : List ℕ
  pub hist : List (List ℕ)
  pub hist_n : ℕ
  pub hist_p : ℕ
  pub input : List ℕ
  pub ilen : ℕ
  pub nodes : Nodes
  pub disk : State b
  pub sched : Sched
  pub screen : Screen
  pub seconds : ℕ
  pub unset : ℕ → List ℕ

-- `A_TEXT`, `A_ERR` and so on.
abbrev pub a_text : ℕ
a_text = color 7 0

abbrev pub a_err : ℕ
a_err = color 12 0

abbrev pub a_ok : ℕ
a_ok = color 10 0

abbrev pub a_dim : ℕ
a_dim = color 8 0

abbrev pub a_title : ℕ
a_title = color 15 1

module _ {b : BlockDevice} where
  pub on_screen : (Screen → Screen) → Shell b → Shell b
  on_screen f s = record s { screen = f s.screen }

  pub draw_titlebar : Shell b → Shell b
  unfolding on_screen
  draw_titlebar s =
      let ul = codes "uptime: " ++ itoa s.seconds 10 ++ codes "s " in
      on_screen
        (λ scr.
          let s1 = puts_at 1 0 (codes " StellaresOS") (color 14 1) (fill_row 0 32 a_title scr) in
          let s2 = puts_at 13 0 (codes " v0.1 ") a_title s1 in
          let s3 = puts_at 19 0 (codes "|") (color 8 1) s2 in
          let s4 = puts_at 21 0 (codes "Stellash") (color 11 1) s3 in
          let s5 = puts_at 29 0 (codes "|") (color 8 1) s4 in
          let s6 = puts_at 31 0 (codes "RamFS") (color 10 1) s5 in
          let s7 =
            if b.detect s.disk.disk
            then puts_at 38 0 (codes "ATA") (color 14 1) (puts_at 36 0 (codes "|") (color 8 1) s6)
            else s6 in
          puts_at (80 - strlen ul) 0 ul a_title s7)
        s

  pub print_prompt : Shell b → Shell b
  unfolding draw_titlebar
  print_prompt s =
      on_screen
        (λ scr.
          let s1 = puts s.logged_user (set_attr (color 11 0) scr) in
          let s2 = puts (codes "@") (set_attr (color 15 0) s1) in
          let s3 = puts (codes "stellaresos") (set_attr (color 11 0) s2) in
          let s4 = puts (codes ":") (set_attr (color 8 0) s3) in
          let s5 = puts s.cwd_path (set_attr (color 10 0) s4) in
          set_attr a_text (puts (codes "$ ") (set_attr (color 13 0) s5)))
        (draw_titlebar s)

  -- Messages in a colour of their own.
  pub tell : ℕ → List ℕ → Shell b → Shell b
  unfolding on_screen
  tell a text s = on_screen (λ scr. set_attr a_text (puts text (set_attr a scr))) s

  pub say : ℕ → List ℕ → List Arg → Shell b → Shell b
  unfolding on_screen
  say a fmt args s = on_screen (λ scr. set_attr a_text (vga_printf fmt args (set_attr a scr))) s

-- `parse`: sixteen arguments at most.
unfoldable pub parse : List ℕ → List (List ℕ)
parse line = take 16 (tokens (32 ∷ 9 ∷ []) line)

-- A path that does not start at the root is one below the current directory.
pub full_path : List ℕ → List ℕ → List ℕ
full_path cwd arg =
    if first arg == 47 then arg else if str_eq cwd (47 ∷ []) then 47 ∷ arg else cwd ++ (47 ∷ arg)

pub resolve_arg : {b : BlockDevice} → List ℕ → Shell b → Option ℕ
resolve_arg arg s = resolve (s.unset 0) s.nodes (full_path s.cwd_path arg)
