-- ===== src/Kernel/Frames/Tests.antt =====
-- The frames of a small map.
use stellares_os.Common.{ℕ, ◌≢◌, true, false, ◌∷◌, replicate, arith}
use stellares_os.Kernel.Frames.{Frames, first_free, alloc}
use stellares_os.Kernel.Frames.Count.{IsTaken, alloc-IsTaken}

abbrev small : Frames
small = record { bits = true ∷ replicate 31 false; total = 32; used = 1 }

small-alloc : (alloc small).0 ≢ 0
unfolding alloc first_free
small-alloc e = absurd (omega arith)

alloc-IsTaken_example : (f : ℕ) × IsTaken small (alloc small).1 (alloc small).0 f
alloc-IsTaken_example = alloc-IsTaken small (omega arith) small-alloc
