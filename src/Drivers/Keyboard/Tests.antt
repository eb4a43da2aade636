-- ===== src/Drivers/Keyboard/Tests.antt =====
-- Two keys in the ring.
use stellares_os.Common.{◌≡◌, refl, [], ◌∷◌, ◌++◌, arith, ◌==◌, if◌then◌else◌, replicate, false}
use stellares_os.Drivers.Keyboard.{Keyboard, push, poll}
use stellares_os.Drivers.Keyboard.Ring.{
  IsValid, waiting, queue, queue-push, front, behind, poll_lem,
}

-- Key 65 waits, and the next one goes round to index 0.
abbrev keys : Keyboard
keys = record { buf = replicate 256 65; head = 255; tail = 254; shift = false; ext = false }

keys-IsValid : IsValid keys
keys-IsValid = record { size = refl; head_range = omega arith; tail_range = omega arith }

queue-push_example :
    queue (push 66 keys) ≡ (if waiting keys == 255 then queue keys else queue keys ++ (66 ∷ []))
queue-push_example = queue-push 66 keys keys-IsValid

poll_lem_example :
    ((poll keys).0 ≡ front (queue keys)) × (queue (poll keys).1 ≡ behind (queue keys))
poll_lem_example = poll_lem keys keys-IsValid
