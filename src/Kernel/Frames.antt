-- ===== src/Kernel/Frames.antt =====
-- kernel/pmm.c: the bitmap of the page frames, as one test for each frame. Addresses and counts are
-- 32-bit numbers.
pub mod Count
pub mod Marks
pub mod Used
mod Tests
use stellares_os.Common.{
  ℕ, zero, suc, ◌+◌, ◌-◌, ◌*◌, ◌/◌, ◌%◌, ◌^◌, Bool, true, false, ◌&&◌, List, [], ◌∷◌, ltb, leb,
  ◌==◌, if◌then◌else◌, set, get_or, replicate, Option, none, some,
}

abbrev pub max_frames : ℕ
max_frames = 262144

pub record Frames : Type 0 where
  pub bits : List Bool
  pub total : ℕ
  pub used : ℕ

abbrev decrement : ℕ → ℕ
decrement n = (n + 2 ^ 32 - 1) % 2 ^ 32

-- All frames are taken until they are marked free.
unfoldable pub init : ℕ → Frames → Frames
init kb s =
    let n = (1024 + kb) % 2 ^ 32 / 4 in
    let t = if ltb max_frames n then max_frames else n in
    record { bits = replicate max_frames true; total = t; used = t }

-- `TST`
abbrev pub is_taken : List Bool → ℕ → Bool
is_taken bits f = get_or bits f false

pub free_frame : ℕ → Frames → Frames
free_frame f s =
    if is_taken s.bits f then record s { bits = set s.bits f false; used = decrement s.used } else s

pub take_frame : ℕ → Frames → Frames
take_frame f s =
    if is_taken s.bits f
    then s
    else record s { bits = set s.bits f true; used = (s.used + 1) % 2 ^ 32 }

-- `for (i = 0; i < c && f + i < total; i++)`, by the count of rounds left and the frame.
pub each : (ℕ → Frames → Frames) → ℕ → ℕ → Frames → Frames
each act zero f s = s
each act (suc c) f s = let rest = each act c (f + 1) (act f s) in if ltb f s.total then rest else s

abbrev pub frames_of : ℕ → ℕ
frames_of size = (size + 4095) % 2 ^ 32 / 4096

unfoldable pub mark_free : ℕ → ℕ → Frames → Frames
unfolding each free_frame
mark_free a size s = each free_frame (frames_of size) (a / 4096) s

unfoldable pub mark_used : ℕ → ℕ → Frames → Frames
unfolding each take_frame
mark_used a size s = each take_frame (frames_of size) (a / 4096) s

-- The first free frame among the first `total / 32` words of the map. (A word without a free bit is
-- passed over, which changes nothing.)
unfoldable pub first_free : List Bool → ℕ → ℕ → Option ℕ
first_free bits zero f = none
first_free [] (suc n) f = none
first_free (b ∷ bits) (suc n) f = if b then first_free bits n (f + 1) else some f

-- The address, or 0.
unfoldable pub alloc : Frames → ℕ × Frames
unfolding first_free
alloc s = elim (first_free s.bits (s.total / 32 * 32) 0) [
  | none ↦ (0, s)
  | some f ↦
      (f * 4096 % 2 ^ 32, record s { bits = set s.bits f true; used = (s.used + 1) % 2 ^ 32 })
]

pub free : ℕ → Frames → Frames
unfolding free_frame
free a s = free_frame (a / 4096) s

pub free_kb : Frames → ℕ
free_kb s = (s.total + 2 ^ 32 - s.used) % 2 ^ 32 * 4 % 2 ^ 32

pub total_kb : Frames → ℕ
total_kb s = s.total * 4 % 2 ^ 32
