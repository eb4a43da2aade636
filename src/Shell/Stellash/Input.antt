-- ===== src/Shell/Stellash/Input.antt =====
-- `readline` and the history of shell/stellash.c.
pub mod Bounds
use stellares_os.Common.{
  ℕ, zero, suc, ◌+◌, ◌-◌, ◌%◌, Bool, true, false, ◌&&◌, ◌||◌, List, [], ◌∷◌, ltb, leb, ◌==◌,
  if◌then◌else◌, get_or, set, codes,
}
use stellares_os.Libc.Str.{strlen, strncpy, first}
use stellares_os.Fs.Device.{BlockDevice}
use stellares_os.Drivers.Vga.{Screen, putchar, puts, clear, set_cursor}
use stellares_os.Shell.Stellash.{Shell, a_text, on_screen, draw_titlebar, print_prompt}

-- `while (ilen-- > 0) vga_putchar('\b')`
pub erase : ℕ → Screen → Screen
erase zero scr = scr
erase (suc n) scr = erase n (putchar 8 scr)

module _ {b : BlockDevice} where
  unfoldable pub hist_push : List ℕ → Shell b → Shell b
  hist_push l s =
      if first l == 0
      then s
      else (let slot = s.hist_n % 20 in
          record s {
            hist = set s.hist slot (strncpy (get_or s.hist slot []) l 511);
            hist_n = s.hist_n + 1;
            hist_p = s.hist_n + 1;
          })

  -- The line `i` of the history takes the place of the input.
  pub recall : ℕ → Shell b → Shell b
  unfolding erase
  recall i s =
      let text = strncpy s.input (get_or s.hist (i % 20) []) 511 in
      record s {
        hist_p = i;
        input = text;
        ilen = strlen text;
        screen = puts text (erase s.ilen s.screen);
      }

  pub forget : Shell b → Shell b
  forget s =
      let text = set s.input 0 0 in
      record s {
        hist_p = s.hist_n;
        input = text;
        ilen = strlen text;
        screen = puts text (erase s.ilen s.screen);
      }

  pub ctrl_l : Shell b → Shell b
  ctrl_l s =
      let s1 = draw_titlebar (on_screen (clear a_text) s) in
      record (print_prompt (on_screen (set_cursor 0 1) s1)) { ilen = 0 }

  -- One key, and whether the line is complete.
  pub read_key : ℕ → Shell b → Bool × Shell b
  unfolding recall forget ctrl_l
  read_key c s =
      if c == 10 || c == 13
      then (true, record s { input = set s.input s.ilen 0; screen = putchar 10 s.screen })
      else if c == 8
      then (if ltb 0 s.ilen
          then (
            false,
            record s {
              input = set s.input (s.ilen - 1) 0;
              ilen = s.ilen - 1;
              screen = putchar 8 s.screen;
            },
          )
          else (false, s))
      else if c == 3
      then (
        true,
        record s { input = set s.input 0 0; ilen = 0; screen = puts (codes "^C\n") s.screen },
      )
      else if c == 12
      then (false, ctrl_l s)
      else if c == 0x100
      then (false, if ltb 0 s.hist_p && ltb 0 s.hist_n then recall (s.hist_p - 1) s else s)
      else if c == 0x101
      then (false, if ltb (s.hist_p + 1) s.hist_n then recall (s.hist_p + 1) s else forget s)
      else if leb 32 c && ltb c 256 && ltb s.ilen 511
      then (
        false,
        record s {
          input = set (set s.input s.ilen c) (s.ilen + 1) 0;
          ilen = s.ilen + 1;
          screen = putchar c s.screen;
        },
      )
      else (false, s)

  -- The keys in the order of their arrival; `readline` waits while there are none.
  pub read_keys : List ℕ → Bool × Shell b → Bool × Shell b
  read_keys [] r = r
  read_keys (c ∷ cs) (over, s) = read_keys cs (if over then (true, s) else read_key c s)

  pub readline : List ℕ → Shell b → Bool × Shell b
  readline cs s =
      read_keys cs (false, record s { ilen = 0; input = set s.input 0 0; hist_p = s.hist_n })
