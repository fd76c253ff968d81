-- ===== src/Bandwidth/Schedule/Taken.antt =====
-- What bandwidth.py knows of the minutes of the week after it has accepted one window.
use repowatch.Prelude.{
  ℕ, ◌+◌, ◌*◌, ◌≤◌, ◌<◌, ◌≡◌, refl, String, Bool, true, false, some, List, [], ◌∷◌, ◌++◌, arith, ok,
  Bool-cases, Option-cases, inl, inr, eq_iff,
}
use repowatch.Bandwidth.Schedule.{
  Window, days_of, day_index, has_text, minute, duration, week, has_minute, minutes_from, meets,
  within, add_days, check_window, on_days,
}
use repowatch.Bandwidth.Schedule.Minutes.{
  minute-lt, duration_bounds, has_minute-append, minutes_from-within, meets-false,
}

pub day_index-lt : (d : String) {i : ℕ} → day_index d ≡ some i → i < 7
unfolding day_index
day_index-lt d h = ground arith

abbrev Accepts : ℕ → List String → ℕ → ℕ → Type 0
Accepts p ds start n = on_days p ds start n ≡ ok true

-- What the acceptance of one window says: its minutes were free, and are taken now.
pub record Taken (p : ℕ) (ds : List String) (start n : ℕ) (before after : List ℕ) : Type 0 where
  pub kept : has_minute p before ≡ true → has_minute p after ≡ true
  pub taken : on_days p ds start n ≡ ok true → has_minute p after ≡ true
  pub free : has_minute p before ≡ true → on_days p ds start n ≡ ok false
  pub decided : (b : Bool) × (on_days p ds start n ≡ ok b)
  pub found :
      (d : String) (i : ℕ)
      → has_text d ds ≡ true
      → day_index d ≡ some i
      → within (i * 1440 + start) n p ≡ true
      → on_days p ds start n ≡ ok true

module _ (p : ℕ) (d : String) (ds : List String) (start n i : ℕ) (before after : List ℕ) where
  abbrev first_day : List ℕ
  first_day = minutes_from (i * 1440 + start) n

  add_day-Taken :
      day_index d ≡ some i
      → has_minute p first_day ≡ within (i * 1440 + start) n p
      → meets first_day before ≡ false
      → Taken p ds start n (first_day ++ before) after
      → Taken p (d ∷ ds) start n before after
  unfolding on_days has_text
  add_day-Taken e same m t = record {
    kept = λ k. ground (arith, has_minute-append p first_day before, t.kept);
    taken = λ k. ground (arith, has_minute-append p first_day before, t.kept, t.taken);
    free = λ k.
        ground
          (arith, has_minute-append p first_day before, meets-false p first_day before m, t.free);
    decided = elim (Bool-cases (within (i * 1440 + start) n p)) [
      | inl hit ↦ (true, ground arith)
      | inr miss ↦ (t.decided.0, ground (arith, t.decided.1))
    ];
    found = λ c j named at hit. ground (arith, eq_iff d c, t.found c j);
  }

pub add_days-Taken :
    (p : ℕ) (ds : List String) (start n : ℕ) (before : List ℕ) {after : List ℕ}
    → p < week
    → start < 1440
    → n ≤ 1440
    → add_days ds start n before ≡ ok after
    → Taken p ds start n before after
unfolding add_days on_days has_text
add_days-Taken p [] start n before hp hs hn h = record {
  kept = λ k. ground arith;
  taken = λ k. cc;
  free = λ k. refl;
  decided = (false, refl);
  found = λ d i t. cc;
}
add_days-Taken p (d ∷ ds) start n before {after} hp hs hn h = elim (Option-cases (day_index d)) [
  | inl e ↦ absurd (ground arith)
  | inr (i, e) ↦
      let slots = minutes_from (i * 1440 + start) n in
      add_day-Taken p d ds start n i before after e
        (minutes_from-within (i * 1440 + start) p n (omega (arith, day_index-lt d e)) hp hn)
        (ground arith) (add_days-Taken p ds start n (slots ++ before) hp hs hn (ground arith))
]

-- An accepted window, with the times that it states.
pub record Read (p : ℕ) (w : Window) (before after : List ℕ) : Type 0 where
  pub start : ℕ
  pub stop : ℕ
  pub start_is : minute false w.start ≡ ok start
  pub stop_is : minute true w.stop ≡ ok stop
  pub day : Taken p (days_of w) start (duration start stop) before after

check_window_parts :
    (w : Window) (before : List ℕ) {after : List ℕ}
    → check_window w before ≡ ok after
    → (start : ℕ) × (stop : ℕ) × (minute false w.start ≡ ok start)
      × (minute true w.stop ≡ ok stop)
      × (add_days (days_of w) start (duration start stop) before ≡ ok after)
unfolding check_window
check_window_parts w before h = ground arith

pub check_window-Read :
    (p : ℕ) (w : Window) (before : List ℕ) {after : List ℕ}
    → p < week
    → check_window w before ≡ ok after
    → Read p w before after
check_window-Read p w before hp h =
    let (start, stop, e, f, added) = check_window_parts w before h in
    record {
      start = start;
      stop = stop;
      start_is = e;
      stop_is = f;
      day =
          add_days-Taken p (days_of w) start (duration start stop) before hp (minute-lt w.start e)
            (duration_bounds start stop).1 added;
    }
