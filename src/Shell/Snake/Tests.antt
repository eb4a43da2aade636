-- ===== src/Shell/Snake/Tests.antt =====
-- The first moves of a game.
use stellares_os.Common.{[], arith, true}
use stellares_os.Shell.Snake.{Game, start, move}
use stellares_os.Shell.Snake.Board.{IsInside, IsValid, move-IsValid, start-IsValid}

-- The static variables before the first game.
abbrev zeros : Game
zeros = record {
  body = [];
  dx = 1;
  dy = 0;
  ndx = 1;
  ndy = 0;
  food = record { x = 0; y = 0 };
  score = 0;
  alive = true;
  rng_state = 12345;
  last_move = 0;
  speed = 150;
}

zeros-IsInside : IsInside (zeros.food)
zeros-IsInside = record { x_range = omega arith; y_range = omega arith }

move-IsValid_example : IsValid (move (start 1000 zeros))
move-IsValid_example = move-IsValid (start 1000 zeros) (start-IsValid 1000 zeros zeros-IsInside)
