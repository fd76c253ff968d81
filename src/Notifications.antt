-- ===== src/Notifications.antt =====
-- notifications.py and storage/notifications.py: failure streaks, the alerts about them, and the
-- delivery of one webhook.
pub mod Tests
pub mod Delivery
pub mod Streaks
pub mod Rows
use repowatch.Prelude.{
  ℕ, ◌+◌, String, Bool, true, false, not, ◌&&◌, ◌||◌, Option, none, some, List, [], ◌∷◌,
  if◌then◌else◌, ltb, ◌==◌, text_keys, pair_keys, Assoc, lookup, insert, remove, contains,
}

-- A row of failure_state; the key is the repository and the kind of failure.
pub record Failure : Type 0 where
  pub consecutive_failures : ℕ
  pub last_error : String
  pub last_failure_at : ℕ
  pub notified : Bool

abbrev pub Table : Type 0
Table = Assoc (String × String) Failure

abbrev pub bumped : ℕ → String → Option Failure → Failure
bumped now message none = record {
  consecutive_failures = 1;
  last_error = message;
  last_failure_at = now;
  notified = false;
}
bumped now message (some f) = record f {
  consecutive_failures = f.consecutive_failures + 1;
  last_error = message;
  last_failure_at = now;
}

-- The new row is the answer too: its counter and its flag.
unfoldable pub bump_failure : ℕ → String × String → String → Table → Table × Failure
bump_failure now key message t = let f = bumped now message (lookup key t) in (insert key f t, f)

unfoldable pub mark_failure_notified : String × String → Table → Table
mark_failure_notified key t = elim (lookup key t) [
  | none ↦ t
  | some f ↦ insert key (record f { notified = true }) t
]

unfoldable pub reset_failure : String × String → Table → Table × Bool
reset_failure key t = elim (lookup key t) [
  | none ↦ (t, false)
  | some f ↦ (remove key t, f.notified)
]

pub record Config : Type 0 where
  pub notify_webhook_url : Option String
  pub notify_events : List String
  pub notify_after_failures : ℕ

abbrev pub has_url : Option String → Bool
has_url none = false
has_url (some url) = not (url == "")

unfoldable pub enabled : Config → String → Bool
enabled c event = has_url c.notify_webhook_url && contains event c.notify_events

-- A webhook that was tried.
pub record Notice : Type 0 where
  pub event : String
  pub key : String × String

pub record World : Type 0 where
  pub table : Table
  pub sent : List Notice

-- `delivered` is what `_send` would answer. The event is tried only if it is enabled.
unfoldable pub emit : Config → String → String × String → Bool → World → World × Bool
unfolding enabled
emit c event key delivered w =
    if enabled c event
    then (record w { sent = (record { event = event; key = key }) ∷ w.sent }, delivered)
    else (w, false)

abbrev pub alert : Config → String × String → Bool → World → World
alert c key delivered w =
    let (w', sent) = emit c "repository.failing" key delivered w in
    if sent then (record w' { table = mark_failure_notified key w'.table }) else w'

unfoldable pub record_failure : Config → ℕ → String × String → String → Bool → World → World
unfolding bump_failure enabled emit mark_failure_notified
record_failure c now key message delivered w =
    let (t, f) = bump_failure now key message w.table in
    let w' = record w { table = t } in
    if not (enabled c "repository.failing")
      || f.notified
      || ltb f.consecutive_failures c.notify_after_failures
    then w'
    else alert c key delivered w'

unfoldable pub record_success : Config → String × String → Bool → World → World
unfolding reset_failure enabled emit
record_success c key delivered w =
    let (t, was_notified) = reset_failure key w.table in
    let w' = record w { table = t } in
    if not was_notified || not (enabled c "repository.recovered")
    then w'
    else (emit c "repository.recovered" key delivered w').0
