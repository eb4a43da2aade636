-- ===== src/Drivers/Vga.antt =====
-- drivers/vga.c: the text screen. A column, a row or a length is the bit pattern of its `int`, so a
-- negative one is 2 ^ 31 or more; `cells` is the video memory. The ports that move the blinking cursor
-- get the position that `col` and `row` hold.
pub mod Bounds
pub mod Printf
mod Tests
use stellares_os.Common.{
  ℕ, zero, suc, ◌+◌, ◌-◌, ◌*◌, ◌/◌, ◌%◌, ◌^◌, Bool, true, false, ◌||◌, List, [], ◌∷◌, ◌++◌, ltb,
  leb, ◌==◌, if◌then◌else◌, set, take, drop, replicate,
}

pub record Screen : Type 0 where
  pub cells : List ℕ
  pub col : ℕ
  pub row : ℕ
  pub attr : ℕ

-- `VGA_ENTRY`
abbrev pub entry : ℕ → ℕ → ℕ
entry ch a = a % 256 * 256 + ch % 256

-- `VGA_ATTR`
abbrev pub color : ℕ → ℕ → ℕ
color fg bg = (bg * 16 + fg % 16) % 256

pub set_cursor : ℕ → ℕ → Screen → Screen
set_cursor c r s = record s { col = c; row = r }

pub clear : ℕ → Screen → Screen
unfolding set_cursor
clear a s = set_cursor 0 0 (record s { cells = replicate 2000 (entry 32 a) })

pub init : Screen → Screen
unfolding clear
init s = clear (color 7 0) (record s { attr = color 7 0 })

pub set_attr : ℕ → Screen → Screen
set_attr a s = record s { attr = a }

pub set_color : ℕ → ℕ → Screen → Screen
set_color fg bg s = record s { attr = color fg bg }

pub putchar_at : ℕ → ℕ → ℕ → ℕ → Screen → Screen
putchar_at c r ch a s =
    if leb 80 c || leb 25 r then s else record s { cells = set s.cells (r * 80 + c) (entry ch a) }

-- `while (*s && c < VGA_COLS)`: a negative column goes on.
pub puts_at : ℕ → ℕ → List ℕ → ℕ → Screen → Screen
puts_at c r [] a s = s
puts_at c r (x ∷ text) a s =
    let more = puts_at ((c + 1) % 2 ^ 32) r text a (putchar_at c r x a s) in
    if x == 0 then s else if ltb c 80 || leb (2 ^ 31) c then more else s

-- `vga_draw_hline(r, c, l, ch, a)`, with `l` rounds.
pub draw_hline : ℕ → ℕ → ℕ → ℕ → ℕ → Screen → Screen
draw_hline r c zero ch a s = s
draw_hline r c (suc l) ch a s = draw_hline r ((c + 1) % 2 ^ 32) l ch a (putchar_at c r ch a s)

pub fill_row : ℕ → ℕ → ℕ → Screen → Screen
fill_row r ch a s = draw_hline r 0 80 ch a s

-- Each row takes the cells of the row below, and the last one is cleared.
pub scroll : Screen → Screen
scroll s = record s {
  cells = take 1920 (drop 80 s.cells) ++ replicate 80 (entry 32 s.attr);
  row = 24;
}

-- The column is at the end of the row: to the next one.
abbrev wrap : Screen → Screen
wrap s = if leb 80 s.col then record s { col = 0; row = s.row + 1 } else s

-- The part of `vga_putchar` before the scrolling.
pub place : ℕ → Screen → Screen
unfolding putchar_at
place ch s =
    if ch == 10
    then record s { col = 0; row = s.row + 1 }
    else if ch == 13
    then record s { col = 0 }
    else if ch == 8
    then (if ltb 0 s.col
        then putchar_at (s.col - 1) s.row 32 s.attr (record s { col = s.col - 1 })
        else s)
    else if ch == 9
    then wrap (record s { col = (s.col + 8) / 8 * 8 })
    else (let t = putchar_at s.col s.row ch s.attr s in wrap (record t { col = t.col + 1 }))

pub putchar : ℕ → Screen → Screen
unfolding scroll place set_cursor
putchar ch s =
    let t = place ch s in let u = if leb 25 t.row then scroll t else t in set_cursor u.col u.row u

pub puts : List ℕ → Screen → Screen
puts [] s = s
puts (x ∷ text) s = let more = puts text (putchar x s) in if x == 0 then s else more

-- The loops of `vga_draw_box`: the two horizontal sides, the two vertical ones, and the inside.
pub box_sides : ℕ → ℕ → ℕ → ℕ → ℕ → ℕ → Screen → Screen
box_sides zero i x y h a s = s
box_sides (suc n) i x y h a s =
    box_sides n (i + 1) x y h a
      (putchar_at (x + i) (y + h - 1) 0xC4 a (putchar_at (x + i) y 0xC4 a s))

pub box_ends : ℕ → ℕ → ℕ → ℕ → ℕ → ℕ → Screen → Screen
box_ends zero i x y w a s = s
box_ends (suc n) i x y w a s =
    box_ends n (i + 1) x y w a
      (putchar_at (x + w - 1) (y + i) 0xB3 a (putchar_at x (y + i) 0xB3 a s))

pub box_inside : ℕ → ℕ → ℕ → ℕ → ℕ → Screen → Screen
box_inside zero r x w a s = s
box_inside (suc n) r x w a s = box_inside n (r + 1) x w a (draw_hline r (x + 1) (w - 2) 32 a s)

-- For `x`, `y`, `w` and `h` that are not negative, and `w` and `h` not 0.
pub draw_box : ℕ → ℕ → ℕ → ℕ → ℕ → Screen → Screen
unfolding box_sides box_ends box_inside
draw_box x y w h a s =
    let s1 = putchar_at (x + w - 1) y 0xBF a (putchar_at x y 0xDA a s) in
    let s2 = putchar_at (x + w - 1) (y + h - 1) 0xD9 a (putchar_at x (y + h - 1) 0xC0 a s1) in
    box_inside (h - 2) (y + 1) x w a (box_ends (h - 2) 1 x y w a (box_sides (w - 2) 1 x y h a s2))

-- `vga_puts_padded`, and the padding on the left of `vga_printf`.
pub spaces : ℕ → Screen → Screen
spaces zero s = s
spaces (suc n) s = spaces n (putchar 32 s)
