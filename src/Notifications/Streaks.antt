-- ===== src/Notifications/Streaks.antt =====
-- The failure streaks of notifications.py over any history of failures and successes.
use repowatch.Prelude.{
  ℕ, ◌+◌, ◌≤◌, ◌≡◌, refl, ap, ◌∙◌, String, Bool, true, false, not, ◌&&◌, ◌||◌, Option, none, some,
  List, [], ◌∷◌, arith, if◌then◌else◌, ltb, ◌==◌, text_keys, pair_keys, lookup, insert,
  lookup-insert, lookup-remove, Option-cases, Bool-cases, inl, inr, both_eq_iff, beq_refl, All,
}
use repowatch.Notifications.{
  Failure, Config, Notice, World, enabled, bumped, record_failure, record_success,
}

pub data Event : Type 0 where
  failure : (now : ℕ) (key : String × String) (message : String) (delivered : Bool) → Event
  success : (key : String × String) (delivered : Bool) → Event

unfoldable pub step : Config → World → Event → World
step c w (failure now key message delivered) = record_failure c now key message delivered w
step c w (success key delivered) = record_success c key delivered w

unfoldable pub run : Config → World → List Event → World
unfolding step
run c w [] = w
run c w (e ∷ es) = run c (step c w e) es

-- The counter of a key, where no row is no failure; and its flag.
abbrev pub count_of : Option Failure → ℕ
count_of none = 0
count_of (some f) = f.consecutive_failures

abbrev pub flag_of : Option Failure → Bool
flag_of none = false
flag_of (some f) = f.notified

abbrev pub row : String × String → World → Option Failure
row key w = lookup key w.table

-- The specification: failures in a row, by the history alone.
abbrev pub streak : String × String → ℕ → List Event → ℕ
streak key n [] = n
streak key n (failure now j message delivered ∷ es) = streak key (if j == key then n + 1 else n) es
streak key n (success j delivered ∷ es) = streak key (if j == key then 0 else n) es

abbrev next_count : String × String → ℕ → Event → ℕ
next_count key n (failure now j message delivered) = if j == key then n + 1 else n
next_count key n (success j delivered) = if j == key then 0 else n

-- A failure is reported if its event is on, the streak is long enough and not reported yet.
abbrev reports : Config → Failure → Bool
reports c f = not (
    not (enabled c "repository.failing")
    || f.notified
    || ltb f.consecutive_failures c.notify_after_failures)

abbrev after_failure : Config → ℕ → String → Bool → Option Failure → Failure
after_failure c now message delivered o =
    let f = bumped now message o in record f { notified = f.notified || (reports c f && delivered) }

row-failure :
    (c : Config) (now : ℕ) (j key : String × String) (message : String) (delivered : Bool)
    (w : World)
    → row key (record_failure c now j message delivered w)
      ≡ (if j == key then some (after_failure c now message delivered (row j w)) else row key w)
unfolding record_failure
row-failure c now j key message delivered w =
    let f = bumped now message (row j w) in
    let t = insert j f w.table in
    elim (Bool-cases (reports c f && delivered)) [
      | inl r ↦ ground (
        arith,
        lookup-insert j key f w.table,
        lookup-insert j j f w.table,
        beq_refl j,
        lookup-insert j key (record f { notified = true }) t,
      )
      | inr r ↦ ground (arith, lookup-insert j key f w.table)
    ]

row-success :
    (c : Config) (j key : String × String) (delivered : Bool) (w : World)
    → row key (record_success c j delivered w) ≡ (if j == key then none else row key w)
unfolding record_success
row-success c j key delivered w = elim (Option-cases (lookup j w.table)) [
  | inl e ↦ ground (arith, both_eq_iff j key)
  | inr (f, e) ↦ ground (arith, lookup-remove j key w.table)
]

-- Whatever webhooks are on and delivered, the stored counter of every key is the number of its
-- failures since its last success, counted on from what was stored at the start.
pub run-streak :
    (c : Config) (es : List Event) (key : String × String) (w : World)
    → count_of (row key (run c w es)) ≡ streak key (count_of (row key w)) es
unfolding run
run-streak c [] key w = refl
run-streak c (failure now j message delivered ∷ es) key w =
    run-streak c es key (record_failure c now j message delivered w)
    ∙ ap (λ n. streak key n es)
        (ground (arith, row-failure c now j key message delivered w, both_eq_iff j key))
run-streak c (success j delivered ∷ es) key w =
    run-streak c es key (record_success c j delivered w)
    ∙ ap (λ n. streak key n es) (ground (arith, row-success c j key delivered w))

-- How many alerts about a key were tried.
abbrev pub alerts : String × String → List Notice → ℕ
alerts key [] = 0
alerts key (n ∷ ns) =
    (if n.event == "repository.failing" && n.key == key then 1 else 0) + alerts key ns

abbrev pub IsNotSuccess : String × String → Event → Type 0
IsNotSuccess key (failure now j message delivered) = Unit
IsNotSuccess key (success j delivered) = (j == key) ≡ false

alerts-failure :
    (c : Config) (now : ℕ) (j key : String × String) (message : String) (delivered : Bool)
    (w : World)
    → flag_of (row key w) ≡ true
    → alerts key (record_failure c now j message delivered w).sent ≡ alerts key w.sent
unfolding record_failure
alerts-failure c now j key message delivered w h = elim (Bool-cases (j == key)) [
  | inl same ↦ ground (arith, both_eq_iff j key)
  | inr other ↦ ground arith
]

alerts-success :
    (c : Config) (j key : String × String) (delivered : Bool) (w : World)
    → alerts key (record_success c j delivered w).sent ≡ alerts key w.sent
unfolding record_success
alerts-success c j key delivered w = ground arith

-- Once the alert of a streak has been delivered, no further alert about that key is tried while
-- the key does not succeed, and it stays marked.
pub run_quiet :
    (c : Config) (es : List Event) (key : String × String) (w : World)
    → flag_of (row key w) ≡ true
    → All (IsNotSuccess key) es
    → (alerts key (run c w es).sent ≡ alerts key w.sent) × (flag_of (row key (run c w es)) ≡ true)
unfolding run
run_quiet c [] key w h a = (refl, h)
run_quiet c (failure now j message delivered ∷ es) key w h a =
    let rest =
      run_quiet c es key (record_failure c now j message delivered w)
        (ground (arith, row-failure c now j key message delivered w, both_eq_iff j key)) a.1 in
    (rest.0 ∙ alerts-failure c now j key message delivered w h, rest.1)
run_quiet c (success j delivered ∷ es) key w h a =
    let rest =
      run_quiet c es key (record_success c j delivered w)
        (ground (arith, row-success c j key delivered w, a.0)) a.1 in
    (rest.0 ∙ alerts-success c j key delivered w, rest.1)

-- A failure whose event is on and whose unreported streak reaches the threshold tries one alert,
-- and the streak counts as reported exactly if the webhook was delivered.
pub failure-alerts :
    (c : Config) (now : ℕ) (key : String × String) (message : String) (delivered : Bool) (w : World)
    → enabled c "repository.failing" ≡ true
    → flag_of (row key w) ≡ false
    → c.notify_after_failures ≤ count_of (row key w) + 1
    → (alerts key (record_failure c now key message delivered w).sent ≡ alerts key w.sent + 1)
      × (flag_of (row key (record_failure c now key message delivered w)) ≡ delivered)
failure-alerts c now key message delivered w on unreported enough =
    let f = bumped now message (row key w) in
    (
      unfold record_failure in ground (arith, beq_refl key),
      ground (arith, row-failure c now key key message delivered w, beq_refl key),
    )
