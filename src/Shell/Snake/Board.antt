-- ===== src/Shell/Snake/Board.antt =====
-- The game of shell/snake.c stays on its board and in its array.
use stellares_os.Common.{
  ℕ, zero, suc, ◌+◌, ◌-◌, ◌%◌, ◌^◌, ◌≤◌, ◌<◌, ◌≡◌, refl, inl, inr, false, ◌&&◌, ◌||◌, List, [], ◌∷◌,
  arith, ltb, leb, ◌==◌, take, length, length-take, All, Bool-cases,
}
use stellares_os.Shell.Snake.{
  Point, Game, rng, is_on, place_food, start, head_of, behind, advance, grow, eat, move,
}

pub record IsInside (p : Point) : Type 0 where
  pub x_range : p.x < 38
  pub y_range : p.y < 20

-- The snake has a head, fits its array, and lies on the board like the food.
pub record IsValid (g : Game) : Type 0 where
  pub some_body : 0 < length g.body
  pub room : length g.body ≤ 200
  pub inside : All IsInside g.body
  pub food_inside : IsInside g.food

-- What `place_food` may change.
record IsFed (g t : Game) : Type 0 where
  pub same_body : t.body ≡ g.body
  pub food_inside : IsInside t.food

place_food-IsFed : (n : ℕ) (g : Game) → IsInside g.food → IsFed g (place_food n g)
unfolding place_food
place_food-IsFed zero g h = record { same_body = refl; food_inside = h }
place_food-IsFed (suc n) g h =
    let r1 = rng g.rng_state in
    let r2 = rng r1 in
    elim (Bool-cases (is_on g.body (r1 % 38) (r2 % 20))) [
      | inl e ↦
          let later = place_food-IsFed n (record g { rng_state = r2 }) h in
          rw e record { same_body = later.same_body; food_inside = later.food_inside }
      | inr e ↦ rw e record {
        same_body = refl;
        food_inside = record { x_range = omega arith; y_range = omega arith };
      }
    ]

All-take : (n : ℕ) (ps : List Point) → All IsInside ps → All IsInside (take n ps)
All-take zero ps h = tt
All-take (suc n) [] h = tt
All-take (suc n) (p ∷ ps) h = (h.0, All-take n ps h.1)

length-advance :
    (p : Point) (body : List Point) → 0 < length body → length (advance p body) ≡ length body
unfolding advance
length-advance p [] h = absurd (omega arith)
length-advance p (q ∷ body) h = omega (arith, length-take (length (q ∷ body) - 1) (q ∷ body))

All-grow :
    (p : Point) (body : List Point) → IsInside p → All IsInside body → All IsInside (grow p body)
unfolding grow
All-grow p body h hs = elim (Bool-cases (ltb (length body) 200)) [
  | inl e ↦ rw e (h, hs)
  | inr e ↦ rw e (h, All-behind body hs)
]
  where
    All-behind : (ps : List Point) → All IsInside ps → All IsInside (behind ps)
    All-behind [] k = tt
    All-behind (q ∷ ps) k = k.1

length-grow :
    (p : Point) (body : List Point)
    → length body ≤ 200
    → (0 < length (grow p body)) × (length (grow p body) ≤ 200)
unfolding grow
length-grow p [] h = (omega arith, omega arith)
length-grow p (q ∷ body) h = (ground arith, ground arith)

eat-IsValid : (p : Point) (g : Game) → IsInside p → IsValid g → IsValid (eat p g)
unfolding eat
eat-IsValid p g h v = record {
  some_body = (length-grow p g.body v.room).0;
  room = (length-grow p g.body v.room).1;
  inside = All-grow p g.body h v.inside;
  food_inside = (place_food-IsFed 200 _ v.food_inside).food_inside;
}

moved-IsValid :
    (p : Point) (g : Game) → IsInside p → IsValid g → IsValid (record g { body = advance p g.body })
unfolding advance
moved-IsValid p g h v = record {
  some_body = omega (arith, v.some_body, length-advance p g.body v.some_body);
  room = omega (arith, v.room, length-advance p g.body v.some_body);
  inside = (h, All-take (length g.body - 1) g.body v.inside);
  food_inside = v.food_inside;
}

move_cases {ℓ} :
    (P : Game → Type ℓ) (g0 : Game)
    → P (record g0 { dx = g0.ndx; dy = g0.ndy; alive = false })
    → ((p : Point) → IsInside p → P (eat p (record g0 { dx = g0.ndx; dy = g0.ndy })))
    → ((p : Point)
        → IsInside p
        → P (record g0 { dx = g0.ndx; dy = g0.ndy; body = advance p g0.body }))
    → P (move g0)
unfolding move
move_cases P g0 dies eats moves =
    let nx = ((head_of g0.body).x + g0.ndx) % 2 ^ 32 in
    let ny = ((head_of g0.body).y + g0.ndy) % 2 ^ 32 in
    elim (Bool-cases (leb 38 nx || leb 20 ny)) [
      | inl e ↦ rw e dies
      | inr e ↦
          let inside : IsInside (record { x = nx; y = ny }) = record {
            x_range = in_x nx ny e;
            y_range = in_y nx ny e;
          } in
          elim (Bool-cases (is_on (behind g0.body) nx ny)) [
            | inl f ↦ rw (e, f) dies
            | inr f ↦ elim (Bool-cases (nx == g0.food.x && ny == g0.food.y)) [
              | inl k ↦ rw (e, f, k) (eats (record { x = nx; y = ny }) inside)
              | inr k ↦ rw (e, f, k) (moves (record { x = nx; y = ny }) inside)
            ]
          ]
    ]
  where
    in_x : (a b : ℕ) → (leb 38 a || leb 20 b) ≡ false → a < 38
    in_x a b e = ground arith

    in_y : (a b : ℕ) → (leb 38 a || leb 20 b) ≡ false → b < 20
    in_y a b e = ground arith

-- A move keeps every point of the snake and the food on the board, and the snake within its array, also
-- where it eats or dies.
pub move-IsValid : (g : Game) → IsValid g → IsValid (move g)
move-IsValid g v =
    move_cases IsValid g
      (record {
        some_body = v.some_body;
        room = v.room;
        inside = v.inside;
        food_inside = v.food_inside;
      })
      (λ p h. eat-IsValid p _ h (record {
        some_body = v.some_body;
        room = v.room;
        inside = v.inside;
        food_inside = v.food_inside;
      }))
      (λ p h.
        let w = moved-IsValid p g h v in
        record {
          some_body = w.some_body;
          room = w.room;
          inside = w.inside;
          food_inside = w.food_inside;
        })

-- The game that `snake_run` starts is well formed, if the food of the last one was on the board.
pub start-IsValid : (now : ℕ) (g : Game) → IsInside g.food → IsValid (start now g)
unfolding start
start-IsValid now g h =
    let f = place_food-IsFed 200 _ h in
    record {
      some_body = rw f.same_body (omega arith);
      room = rw f.same_body (omega arith);
      inside = rw f.same_body (
        record { x_range = omega arith; y_range = omega arith },
        (
          record { x_range = omega arith; y_range = omega arith },
          (record { x_range = omega arith; y_range = omega arith }, tt),
        ),
      );
      food_inside = f.food_inside;
    }
