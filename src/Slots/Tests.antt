-- ===== src/Slots/Tests.antt =====
-- Runs of the pool of operations/slots.py.
use repowatch.Prelude.{◌≡◌, refl, true, false, List, [], ◌∷◌, arith}
use repowatch.Slots.{check, warm, Slots, new, available}
use repowatch.Slots.Tasks.{Event, spawn, run, finish, cancel, resized, steps}
use repowatch.Slots.Bounds.{IsBounded, fresh, pool-IsBounded, check-available}
use repowatch.Slots.Wakeup.{waiting_not_available}

abbrev two_slots : Slots
two_slots = record { size = 2; checks = 0; warms = 0; changed = true }

-- Two tasks warm the cache: the second waits for the first.
abbrev two_warm : List Event
two_warm = spawn warm ∷ spawn warm ∷ run 0 ∷ run 1 ∷ []

-- Then the first ends, a check starts, and the pool grows.
abbrev busy : List Event
busy =
    spawn warm
    ∷ spawn warm
    ∷ run 0
    ∷ run 1
    ∷ spawn check
    ∷ run 2
    ∷ finish 0
    ∷ run 1
    ∷ cancel 2
    ∷ resized 3
    ∷ []

pool-IsBounded_example : IsBounded 3 (steps (fresh two_slots) busy)
unfolding new
pool-IsBounded_example = pool-IsBounded 3 2 two_slots busy refl (omega arith) (ground arith)

waiting_not_available_example : available (steps (fresh two_slots) two_warm).slots warm ≡ false
unfolding new steps
waiting_not_available_example = waiting_not_available 2 two_slots two_warm 1 warm refl refl

check-available_example : available (steps (fresh two_slots) two_warm).slots check ≡ true
unfolding new steps
check-available_example = check-available 2 two_slots two_warm refl (ground arith) refl refl
