-- ===== src/Bandwidth/Tests.antt =====
-- Schedules and turns of bandwidth.py.
use repowatch.Prelude.{
  ℕ, ◌*◌, ◌-◌, ◌≤◌, ◌≡◌, ◌≢◌, refl, String, Bool, false, none, some, List, [], ◌∷◌, arith, ok,
  Assoc, lookup, insert,
}
use repowatch.Bandwidth.Schedule.{
  Window, LocalTime, minute, clock, duration, day_index, has_text, valid_days, validate_limit,
  add_days, minutes_from, check_window, check_windows, validate_schedule, scheduled_limit, on_days,
  limit_in, position_of,
}
use repowatch.Bandwidth.Schedule.Minutes.{clock_text, minute-clock_text}
use repowatch.Bandwidth.Schedule.Unique.{Covers, scheduled_limit-Covers}
use repowatch.Bandwidth.Bucket.{Bucket, take}
use repowatch.Bandwidth.Budget.{Request, Budget, Round, serve, step}
use repowatch.Bandwidth.Budget.Serve.{SpentBy, SpentBy-serve}
use repowatch.Bandwidth.Budget.Total.{step-ne-none}
use repowatch.Bandwidth.Budget.Rate.{Event, arrive, turn, cancel, run, fresh, served-le}

-- A window of two minutes over midnight, and one of a minute.
abbrev night : Window
night = record {
  days = some ("sun" ∷ []);
  start = clock_text 23 59;
  stop = clock_text 0 1;
  limit = some 5000;
}

abbrev noon : Window
noon = record {
  days = some ("mon" ∷ []);
  start = clock_text 12 0;
  stop = clock_text 12 1;
  limit = some 9000;
}

abbrev monday : ℕ → ℕ → LocalTime
monday h m = record { weekday = 0; hour = h; minute_of = m }

abbrev any_zone : String → Bool
any_zone z = false

night_ends_monday : Covers night (position_of (monday 0 0))
unfolding duration day_index has_text minute clock
night_ends_monday = record {
  start = 1439;
  stop = 1;
  start_is = refl;
  stop_is = refl;
  day = "sun";
  index = 6;
  named = refl;
  indexed = refl;
  offset = 1;
  inside = omega arith;
  at = refl;
}

scheduled_limit-Covers_example :
    scheduled_limit (some 100) (noon ∷ night ∷ []) (monday 0 0) ≡ ok (some 5000)
unfolding validate_schedule check_windows check_window validate_limit valid_days minute add_days
    minutes_from duration
scheduled_limit-Covers_example =
    scheduled_limit-Covers any_zone "UTC" (some 100) (noon ∷ []) [] night (monday 0 0)
      (ground arith) refl night_ends_monday

noon_ends : ¬ Covers noon (position_of (monday 13 0))
unfolding validate_schedule check_windows check_window validate_limit valid_days minute add_days
    minutes_from duration scheduled_limit limit_in on_days
noon_ends c =
    let covered =
      scheduled_limit-Covers any_zone "UTC" none [] [] noon (monday 13 0) (ground arith) refl c in
    let computed : scheduled_limit none (noon ∷ []) (monday 13 0) ≡ ok none = refl in cc

minute-clock_text_example : minute false (clock_text 9 30) ≡ ok 570
minute-clock_text_example = minute-clock_text false 9 30 (omega arith) (omega arith)

abbrev bucket : Bucket
bucket = record { updated = 5; rate = some 10; credit = some 700 }

abbrev waiting : List Request
waiting =
    record { repo_id = "main"; remaining = 600; fallback_limit = none }
    ∷ record { repo_id = "main"; remaining = 300; fallback_limit = none }
    ∷ []

abbrev buckets : Assoc String Bucket
buckets = ("main", bucket) ∷ []

abbrev budget : Budget
budget = record { requests = waiting; common = some bucket; buckets = buckets }

-- The first request is served, the second gets what is left.
abbrev served : Round
served = record {
  left = record { repo_id = "main"; remaining = 200; fallback_limit = none } ∷ [];
  common = record bucket { credit = some 0 };
  buckets = ("main", record bucket { credit = some 0 }) ∷ [];
}

SpentBy-serve_example : SpentBy "main" bucket waiting served
unfolding serve lookup insert take
SpentBy-serve_example = SpentBy-serve "main" waiting bucket buckets bucket refl refl

step-ne-none_example : step (some 10) [] 6 budget ≢ none
step-ne-none_example = step-ne-none (some 10) [] 6 budget

abbrev downloads : List Event
downloads =
    arrive (record { repo_id = "main"; remaining = 600; fallback_limit = some 4 })
    ∷ turn 0 []
    ∷ turn 50 []
    ∷ arrive (record { repo_id = "other"; remaining = 90; fallback_limit = none })
    ∷ cancel 0
    ∷ turn 70 []
    ∷ []

served-le_example :
    (3 ≤ (run 10 (fresh 3) downloads).now)
    × ((run 10 (fresh 3) downloads).served ≤ ((run 10 (fresh 3) downloads).now - 3) * 10)
served-le_example = served-le 10 3 downloads
