-- ===== src/Shell/Snake.antt =====
-- shell/snake.c: the game. An `int` is its bit pattern, so -1 is 2 ^ 32 - 1; `body` is the part of the
-- array below `slen`. Drawing reads the state and changes none of it.
pub mod Board
mod Tests
use stellares_os.Common.{
  ℕ, zero, suc, ◌+◌, ◌-◌, ◌*◌, ◌/◌, ◌%◌, ◌^◌, Bool, true, false, ◌&&◌, ◌||◌, not, Option, none,
  some, List, [], ◌∷◌, ltb, leb, ◌==◌, if◌then◌else◌, take, length,
}

pub record Point : Type 0 where
  pub x : ℕ
  pub y : ℕ

pub record Game : Type 0 where
  pub body : List Point
  pub dx : ℕ
  pub dy : ℕ
  pub ndx : ℕ
  pub ndy : ℕ
  pub food : Point
  pub score : ℕ
  pub alive : Bool
  pub rng_state : ℕ
  pub last_move : ℕ
  pub speed : ℕ

abbrev pub minus_one : ℕ
minus_one = 4294967295

pub rng : ℕ → ℕ
rng state = (state * 1664525 + 1013904223) % 2 ^ 32

pub is_on : List Point → ℕ → ℕ → Bool
is_on [] x y = false
is_on (p ∷ ps) x y = if p.x == x && p.y == y then true else is_on ps x y

-- By the count of tries left.
pub place_food : ℕ → Game → Game
unfolding rng
place_food zero g = g
place_food (suc tries) g =
    let r1 = rng g.rng_state in
    let r2 = rng r1 in
    let fx = r1 % 38 in
    let fy = r2 % 20 in
    let g' = record g { rng_state = r2 } in
    let again = place_food tries g' in
    if is_on g.body fx fy then again else record g' { food = record { x = fx; y = fy } }

-- The state before the loop of `snake_run`; the food keeps its place where no try finds one.
pub start : ℕ → Game → Game
unfolding place_food
start now g =
    record (place_food 200 (record g {
      body = record { x = 19; y = 10 } ∷ record { x = 18; y = 10 } ∷ record { x = 17; y = 10 } ∷ [];
      dx = 1;
      dy = 0;
      ndx = 1;
      ndy = 0;
      score = 0;
      alive = true;
      rng_state = (now + 12345) % 2 ^ 32;
    })) { last_move = now; speed = 150 }

abbrev aim : ℕ → ℕ → Game → Game
aim x y g = record g { ndx = x; ndy = y }

-- The arrows, one behind the other; the direction that is under way does not change here.
pub turn : ℕ → Game → Game
turn c g =
    if c == 0x100 && g.dy == 0
    then aim 0 minus_one g
    else if c == 0x101 && g.dy == 0
    then aim 0 1 g
    else if c == 0x102 && g.dx == 0
    then aim minus_one 0 g
    else if c == 0x103 && g.dx == 0
    then aim 1 0 g
    else g

abbrev pub head_of : List Point → Point
head_of [] = record { x = 0; y = 0 }
head_of (p ∷ ps) = p

abbrev pub behind : List Point → List Point
behind [] = []
behind (p ∷ ps) = ps

-- The loops that move the points up by one; then point 0 is set.
pub advance : Point → List Point → List Point
advance p body = p ∷ take (length body - 1) body

-- A snake of 200 points does not grow, and its body stays.
pub grow : Point → List Point → List Point
grow p body = if ltb (length body) 200 then p ∷ body else p ∷ behind body

pub faster : ℕ → ℕ → ℕ
faster speed score = if ltb 60 speed && score % 50 == 0 then speed - 10 else speed

-- The points that `place_food` looks at: point 0 is set behind it, so it is the old head.
pub eat : Point → Game → Game
unfolding grow faster place_food
eat p g =
    let score' = g.score + 10 in
    let fed = place_food 200 (record g {
      body = if ltb (length g.body) 200 then head_of g.body ∷ g.body else g.body;
      score = score';
      speed = faster g.speed score';
    }) in
    record fed { body = grow p g.body }

-- A move, behind the test of the time.
pub move : Game → Game
unfolding eat advance is_on
move g0 =
    let g = record g0 { dx = g0.ndx; dy = g0.ndy } in
    let nx = ((head_of g.body).x + g.dx) % 2 ^ 32 in
    let ny = ((head_of g.body).y + g.dy) % 2 ^ 32 in
    let p : Point = record { x = nx; y = ny } in
    if leb 38 nx || leb 20 ny
    then record g { alive = false }
    else if is_on (behind g.body) nx ny
    then record g { alive = false }
    else if nx == g.food.x && ny == g.food.y
    then eat p g
    else record g { body = advance p g.body }

-- One round of the loop with the key that `keyboard_poll` gave, if any; `none` is the way out by `q`.
pub round : Option ℕ → ℕ → Game → Option Game
unfolding turn move
round key now g =
    let c : ℕ = elim key [ none ↦ minus_one | some k ↦ k ] in
    let g' = turn c g in
    if c == 113 || c == 81
    then none
    else if ltb ((now + 2 ^ 32 - g'.last_move) % 2 ^ 32) g'.speed
    then some g'
    else some (move (record g' { last_move = now }))
