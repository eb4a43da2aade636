-- ===== src/Drivers/Vga/Printf.antt =====
-- `vga_printf` of drivers/vga.c: the format is read byte by byte, and the variable arguments are a list.
use stellares_os.Common.{
  ℕ, ◌+◌, ◌-◌, ◌*◌, ◌%◌, ◌^◌, ◌≡◌, refl, Bool, true, false, ◌&&◌, ◌||◌, Option, none, some, List,
  [], ◌∷◌, ◌++◌, leb, ◌==◌, if◌then◌else◌, codes, ap, ◌∙◌, arith,
}
use stellares_os.Libc.Str.{strlen}
use stellares_os.Libc.Number.{itoa, int_to_hex}
use stellares_os.Drivers.Vga.{Screen, putchar, puts, spaces}

-- An argument is a number, by its 32 bits, or a string; the null pointer is `none`.
pub data Arg : Type 0 where
  num : ℕ → Arg
  str : Option (List ℕ) → Arg

-- Where the loop stands: in the text, behind `%`, in the width, or behind the terminator.
pub data Mode : Type 0 where
  text percent stopped : Mode
  width : Bool → ℕ → Mode

pub record Format : Type 0 where
  pub mode : Mode
  pub args : List Arg
  pub screen : Screen

-- `va_arg`. The source relies on arguments that fit the format; others read as 0 and as "".
pub number : List Arg → ℕ
number (num v ∷ args) = v
number _ = 0

pub string : List Arg → List ℕ
string (str (some s) ∷ args) = s
string (str none ∷ args) = codes "(null)"
string _ = []

abbrev tail : List Arg → List Arg
tail [] = []
tail (a ∷ args) = args

-- A text in its width, on the left or on the right.
pub padded : Bool → ℕ → List ℕ → Screen → Screen
padded left w s scr =
    if left then spaces (w - strlen s) (puts s scr) else puts s (spaces (w - strlen s) scr)

-- The `switch`.
pub convert : Bool → ℕ → ℕ → List Arg → Screen → List Arg × Screen
unfolding number string padded
convert left w c args scr =
    if c == 100 || c == 105 || c == 117
    then (tail args, padded left w (itoa (number args) 10) scr)
    else if c == 120 || c == 88
    then (tail args, puts (int_to_hex (number args)) scr)
    else if c == 115
    then (tail args, padded left w (string args) scr)
    else if c == 99
    then (tail args, putchar (number args % 256) scr)
    else if c == 37
    then (args, putchar 37 scr)
    else (args, putchar c (putchar 37 scr))

-- The end of the format in the middle of a conversion is one more byte, 0.
pub converted : Bool → ℕ → ℕ → Format → Format
converted left w c f =
    let (args, scr) = convert left w c f.args f.screen in
    record { mode = if c == 0 then stopped else text; args = args; screen = scr }

abbrev is_digit : ℕ → Bool
is_digit c = leb 48 c && leb c 57

-- One byte of the format.
pub format_char : ℕ → Format → Format
unfolding converted
format_char c f = elim f.mode [
  | stopped ↦ f
  | text ↦
      if c == 0
      then record f { mode = stopped }
      else if c == 37
      then record f { mode = percent }
      else record f { screen = putchar c f.screen }
  | percent ↦
      if c == 45
      then record f { mode = width true 0 }
      else if is_digit c
      then record f { mode = width false (c - 48) }
      else converted false 0 c f
  | width left w ↦
      if is_digit c
      then record f { mode = width left ((w * 10 + (c - 48)) % 2 ^ 32) }
      else converted left w c f
]

pub format_all : List ℕ → Format → Format
format_all [] f = format_char 0 f
format_all (c ∷ fmt) f = format_all fmt (format_char c f)

pub vga_printf : List ℕ → List Arg → Screen → Screen
vga_printf fmt args s = (format_all fmt (record { mode = text; args = args; screen = s })).screen

-- A text that is printed as it is: no `%`, and no terminator inside.
abbrev pub IsText : List ℕ → Type 0
IsText [] = Unit
IsText (c ∷ s) = (((c == 37) ≡ false) × ((c == 0) ≡ false)) × IsText s

format_all-append :
    (s fmt : List ℕ) (args : List Arg) (scr : Screen)
    → IsText s
    → format_all (s ++ fmt) (record { mode = text; args = args; screen = scr })
      ≡ format_all fmt (record { mode = text; args = args; screen = puts s scr })
unfolding format_all format_char puts
format_all-append [] fmt args scr h = refl
format_all-append (c ∷ s) fmt args scr h =
    rw (h.0.0, h.0.1, format_all, puts) (format_all-append s fmt args (putchar c scr) h.1)

vga_printf-puts :
    (s : List ℕ) (args : List Arg) (scr : Screen)
    → IsText s
    → (format_all s (record { mode = text; args = args; screen = scr })).screen ≡ puts s scr
unfolding format_all format_char puts
vga_printf-puts [] args scr h = refl
vga_printf-puts (c ∷ s) args scr h =
    rw (h.0.0, h.0.1, format_all, puts) (vga_printf-puts s args (putchar c scr) h.1)

padded_zero : (s : List ℕ) (scr : Screen) → padded false 0 s scr ≡ puts s scr
unfolding padded spaces
padded_zero s scr = let none_left : 0 - strlen s ≡ 0 = omega arith in rw none_left

format_all-string :
    (after : List ℕ) (s : Option (List ℕ)) (args : List Arg) (scr : Screen)
    → format_all (37 ∷ 115 ∷ after) (record { mode = text; args = str s ∷ args; screen = scr })
      ≡ format_all after
          (record { mode = text; args = args; screen = puts (string (str s ∷ [])) scr })
unfolding format_all format_char converted convert string
format_all-string after none args scr =
    ap (λ t. format_all after (record { mode = text; args = args; screen = t }))
      (padded_zero (codes "(null)") scr)
format_all-string after (some s) args scr =
    ap (λ t. format_all after (record { mode = text; args = args; screen = t })) (padded_zero s scr)

-- A format of a text, `%s` and a text prints the first text, the string and the second text, one after the
-- other, as `vga_puts` does; a null string prints "(null)".
pub vga_printf-string :
    (before after : List ℕ) (s : Option (List ℕ)) (args : List Arg) (scr : Screen)
    → IsText before
    → IsText after
    → vga_printf (before ++ (37 ∷ 115 ∷ after)) (str s ∷ args) scr
      ≡ puts after (puts (string (str s ∷ [])) (puts before scr))
unfolding vga_printf
vga_printf-string before after s args scr h k =
    ap (λ f. f.screen)
      (format_all-append before (37 ∷ 115 ∷ after) (str s ∷ args) scr h
        ∙ format_all-string after s args (puts before scr))
    ∙ vga_printf-puts after args (puts (string (str s ∷ [])) (puts before scr)) k
