-- ===== src/Slots.antt =====
-- operations/slots.py: `RepoSlots`, the pool that bounds index checks and cache warming.
pub mod Tests
pub mod Tasks
pub mod Bounds
pub mod Wakeup
use repowatch.Prelude.{
  ℕ, ◌+◌, ◌-◌, ◌/◌, max, Bool, true, false, Option, none, some, if◌then◌else◌, ltb, leb, nat_eq,
}

pub data Kind : Type 0 where
  check warm : Kind

-- `_active` is the pair of counters, `_changed` the event's flag.
pub record Slots : Type 0 where
  pub size : ℕ
  pub checks : ℕ
  pub warms : ℕ
  pub changed : Bool

-- `none` is the ValueError. A size that is the current one leaves the event alone.
unfoldable pub resize : ℕ → Slots → Option Slots
resize n s =
    if ltb n 1
    then none
    else if nat_eq n s.size
    then some s
    else some (record s { size = n; changed = true })

unfoldable pub new : ℕ → Option Slots
unfolding resize
new n = resize n (record { size = 0; checks = 0; warms = 0; changed = false })

abbrev pub active : Slots → Kind → ℕ
active s check = s.checks
active s warm = s.warms

-- What one phase may hold: warming leaves a quarter, rounded up, to the checks.
abbrev pub limit : ℕ → Kind → ℕ
limit size check = size
limit size warm = max 1 (size - (size + 3) / 4)

unfoldable pub available : Slots → Kind → Bool
available s k =
    if leb (max 2 s.size) (s.checks + s.warms) then false else ltb (active s k) (limit s.size k)

abbrev pub acquire : Kind → Slots → Slots
acquire check s = record s { checks = s.checks + 1 }
acquire warm s = record s { warms = s.warms + 1 }

-- The `finally` of `_hold`: the slot is given back and the event is set.
abbrev pub release : Kind → Slots → Slots
release check s = record s { checks = s.checks - 1; changed = true }
release warm s = record s { warms = s.warms - 1; changed = true }
