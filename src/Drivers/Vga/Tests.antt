-- ===== src/Drivers/Vga/Tests.antt =====
-- A text on the screen that `vga_init` leaves.
use stellares_os.Common.{[], ◌∷◌}
use stellares_os.Drivers.Vga.{Screen, init, puts}
use stellares_os.Drivers.Vga.Bounds.{IsValid, init-IsValid, puts-IsValid}

abbrev off : Screen
off = record { cells = []; col = 99; row = 99; attr = 0 }

puts-IsValid_example : IsValid (puts (72 ∷ 105 ∷ 10 ∷ 33 ∷ []) (init off))
puts-IsValid_example = puts-IsValid (72 ∷ 105 ∷ 10 ∷ 33 ∷ []) (init off) (init-IsValid off)
