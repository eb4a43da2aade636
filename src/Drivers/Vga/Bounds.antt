-- ===== src/Drivers/Vga/Bounds.antt =====
-- drivers/vga.c never leaves the screen: the cursor and the video memory.
use stellares_os.Common.{
  ℕ, zero, suc, ◌+◌, ◌-◌, ◌*◌, ◌≤◌, ◌<◌, ◌≡◌, refl, ap, inl, inr, List, [], ◌∷◌, ◌++◌, arith, leb,
  if◌then◌else◌, length, length-set, length-append, length-replicate, take, drop, replicate,
  Bool-cases,
}
use stellares_os.Drivers.Vga.{
  Screen, entry, color, set_cursor, clear, init, putchar_at, scroll, place, putchar, puts,
}

-- 2000 cells, and the cursor on one of them.
pub record IsValid (s : Screen) : Type 0 where
  pub size : length s.cells ≡ 2000
  pub col_range : s.col < 80
  pub row_range : s.row < 25

length-drop_add : (n : ℕ) (xs : List ℕ) → n ≤ length xs → length (drop n xs) + n ≡ length xs
length-drop_add zero xs h = omega arith
length-drop_add (suc n) [] h = absurd (omega arith)
length-drop_add (suc n) (x ∷ xs) h = omega (arith, length-drop_add n xs (omega arith))

length-take_le : (n : ℕ) (xs : List ℕ) → n ≤ length xs → length (take n xs) ≡ n
length-take_le zero xs h = refl
length-take_le (suc n) [] h = absurd (omega arith)
length-take_le (suc n) (x ∷ xs) h = ap suc (length-take_le n xs (omega arith))

length-scrolled :
    (xs : List ℕ) (b : ℕ)
    → length xs ≡ 2000
    → length (take 1920 (drop 80 xs) ++ replicate 80 b) ≡ 2000
length-scrolled xs b h =
    let kept =
      length-take_le 1920 (drop 80 xs) (omega (arith, length-drop_add 80 xs (omega arith))) in
    omega (
      arith,
      kept,
      length-append (take 1920 (drop 80 xs)) (replicate 80 b),
      length-replicate {A = ℕ} 80 b,
    )

-- Before the scrolling the cursor may stand one row below the screen.
record IsPlaced (s : Screen) : Type 0 where
  pub size : length s.cells ≡ 2000
  pub col_range : s.col < 80
  pub row_range : s.row ≤ 25

place-IsPlaced : (ch : ℕ) (s : Screen) → IsValid s → IsPlaced (place ch s)
unfolding place putchar_at
place-IsPlaced ch s v = record {
  size = ground (
    arith,
    v,
    length-set s.cells (s.row * 80 + (s.col - 1)) (entry 32 s.attr),
    length-set s.cells (s.row * 80 + s.col) (entry ch s.attr),
  );
  col_range = ground (arith, v);
  row_range = ground (arith, v);
}

settled-IsValid :
    (t : Screen)
    → IsPlaced t
    → IsValid (let u = if leb 25 t.row then scroll t else t in set_cursor u.col u.row u)
unfolding scroll set_cursor
settled-IsValid t p = elim (Bool-cases (leb 25 t.row)) [
  | inl e ↦ rw e record {
    size = length-scrolled t.cells (entry 32 t.attr) p.size;
    col_range = p.col_range;
    row_range = omega arith;
  }
  | inr e ↦ rw e record { size = p.size; col_range = p.col_range; row_range = ground arith }
]

-- `vga_putchar` keeps the 2000 cells and the cursor on the screen, whatever the byte.
pub putchar-IsValid : (ch : ℕ) (s : Screen) → IsValid s → IsValid (putchar ch s)
unfolding putchar
putchar-IsValid ch s v = settled-IsValid (place ch s) (place-IsPlaced ch s v)

-- `vga_puts` keeps the 2000 cells and the cursor on the screen, whatever the text.
pub puts-IsValid : (text : List ℕ) (s : Screen) → IsValid s → IsValid (puts text s)
unfolding puts
puts-IsValid [] s v = v
puts-IsValid (x ∷ text) s v =
    ground (arith, v, puts-IsValid text (putchar x s) (putchar-IsValid x s v))

-- `vga_init` leaves a well-formed screen, whatever the variables held.
pub init-IsValid : (s : Screen) → IsValid (init s)
unfolding init clear set_cursor
init-IsValid s = record {
  size = length-replicate {A = ℕ} 2000 (entry 32 (color 7 0));
  col_range = omega arith;
  row_range = omega arith;
}
