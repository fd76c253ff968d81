-- ===== src/Bandwidth/Schedule.antt =====
-- bandwidth.py: `minute`, `validate_limit`, `validate_schedule` and `scheduled_limit`. A limit is a
-- number of bytes a second. Texts are lists of code points.
pub mod Minutes
pub mod Taken
pub mod Unique
use Prim.Native.Char.{code}
use Prim.Native.String
use repowatch.Prelude.{
  ℕ, zero, suc, ◌+◌, ◌-◌, ◌*◌, ◌%◌, String, Bool, true, false, not, ◌&&◌, ◌||◌, Option, none, some,
  List, [], ◌∷◌, ◌++◌, map, if◌then◌else◌, ltb, leb, nat_eq, ◌==◌, text_keys, length, Result, ok,
  err, ◌>>=◌, ◌>>◌, raise_if,
}

pub data Invalid : Type 0 where
  bad_limit bad_time bad_zone too_many bad_days equal_times overlap : Invalid

-- `None` is no limit. A number has to be positive; the numbers of the model are finite.
unfoldable pub validate_limit : Option ℕ → Result Invalid (Unit {0})
validate_limit none = ok tt
validate_limit (some n) = raise_if (not (ltb 0 n)) bad_limit

abbrev pub is_digit : ℕ → Bool
is_digit c = leb b'0' c && leb c b'9'

abbrev pub two : ℕ → ℕ → ℕ
two a b = (a - b'0') * 10 + (b - b'0')

abbrev pub is_midnight_end : ℕ → ℕ → ℕ → ℕ → ℕ → Bool
is_midnight_end a b c d e =
    nat_eq a b'2' && nat_eq b b'4' && nat_eq c b':' && nat_eq d b'0' && nat_eq e b'0'

unfoldable pub clock : Bool → ℕ → ℕ → ℕ → ℕ → ℕ → Result Invalid ℕ
clock at_end a b c d e = if at_end && is_midnight_end a b c d e then ok 1440 else do
  raise_if (not (nat_eq c b':')) bad_time
  raise_if (not (is_digit a && is_digit b && (is_digit d && is_digit e))) bad_time
  raise_if (ltb 23 (two a b) || ltb 59 (two d e)) bad_time
  ok (two a b * 60 + two d e)

-- The flag is the keyword `end`: only an end may be 24:00.
unfoldable pub minute : Bool → List ℕ → Result Invalid ℕ
unfolding clock
minute at_end (a ∷ b ∷ c ∷ d ∷ e ∷ []) = clock at_end a b c d e
minute at_end _ = err bad_time

pub record Window : Type 0 where
  pub days : Option (List String)
  pub start : List ℕ
  pub stop : List ℕ
  pub limit : Option ℕ

abbrev pub all_days : List String
all_days = "mon" ∷ "tue" ∷ "wed" ∷ "thu" ∷ "fri" ∷ "sat" ∷ "sun" ∷ []

-- `DAYS.index(day)`.
unfoldable pub day_index : String → Option ℕ
day_index d =
    if d == "mon"
    then some 0
    else if d == "tue"
    then some 1
    else if d == "wed"
    then some 2
    else if d == "thu"
    then some 3
    else if d == "fri"
    then some 4
    else if d == "sat"
    then some 5
    else if d == "sun"
    then some 6
    else none

-- `window.get('days', DAYS)`.
abbrev pub days_of : Window → List String
days_of w = elim w.days [ none ↦ all_days | some ds ↦ ds ]

unfoldable pub has_text : String → List String → Bool
has_text d [] = false
has_text d (x ∷ xs) = x == d || has_text d xs

unfoldable pub valid_days : List String → Bool
unfolding has_text day_index
valid_days [] = true
valid_days (d ∷ ds) =
    elim (day_index d) [ none ↦ false | some _ ↦ true ] && not (has_text d ds) && valid_days ds

abbrev is_empty : List String → Bool
is_empty [] = true
is_empty (_ ∷ _) = false

-- (end - start) % 1440 or 1440, for a start below 1440.
unfoldable pub duration : ℕ → ℕ → ℕ
duration start stop = let d = (stop + 1440 - start) % 1440 in if nat_eq d 0 then 1440 else d

abbrev pub week : ℕ
week = 10080

abbrev pub has_minute : ℕ → List ℕ → Bool
has_minute p [] = false
has_minute p (x ∷ xs) = nat_eq x p || has_minute p xs

-- The minutes of the week that a window takes on one day; `base` is the day's start in the week.
unfoldable pub minutes_from : ℕ → ℕ → List ℕ
minutes_from base zero = []
minutes_from base (suc n) = ((base + n) % week) ∷ minutes_from base n

-- `occupied & slots`.
abbrev pub meets : List ℕ → List ℕ → Bool
meets [] occupied = false
meets (x ∷ xs) occupied = has_minute x occupied || meets xs occupied

unfoldable pub add_days : List String → ℕ → ℕ → List ℕ → Result Invalid (List ℕ)
add_days [] start n occupied = ok occupied
add_days (d ∷ ds) start n occupied = elim (day_index d) [
  | none ↦ err bad_days
  | some i ↦
      let slots = minutes_from (i * 1440 + start) n in
      (do raise_if (meets slots occupied) overlap; add_days ds start n (slots ++ occupied))
]

unfoldable pub check_window : Window → List ℕ → Result Invalid (List ℕ)
check_window w occupied = do
  validate_limit w.limit
  raise_if (is_empty (days_of w) || not (valid_days (days_of w))) bad_days
  start ← minute false w.start
  stop ← minute true w.stop
  raise_if (nat_eq start stop) equal_times
  add_days (days_of w) start (duration start stop) occupied

unfoldable pub check_windows : List Window → List ℕ → Result Invalid (List ℕ)
check_windows [] occupied = ok occupied
check_windows (w ∷ ws) occupied = check_window w occupied >>= λ taken. check_windows ws taken

-- `known` says which names the time zone database has.
unfoldable pub validate_schedule :
    (String → Bool) → String → List Window → Result Invalid (Unit {0})
validate_schedule known zone ws = do
  raise_if (not (zone == "UTC" || known zone)) bad_zone
  raise_if (ltb 64 (length ws)) too_many
  occupied ← check_windows ws []
  ok tt

-- `(position - base) % 10080 < duration`, where Python's remainder is never negative.
abbrev pub within : ℕ → ℕ → ℕ → Bool
within base n position = ltb ((position + week - base) % week) n

unfoldable pub on_days : ℕ → List String → ℕ → ℕ → Result Invalid Bool
on_days position [] start n = ok false
on_days position (d ∷ ds) start n = elim (day_index d) [
  | none ↦ err bad_days
  | some i ↦ if within (i * 1440 + start) n position then ok true else on_days position ds start n
]

unfoldable pub limit_in : Option ℕ → List Window → ℕ → Result Invalid (Option ℕ)
limit_in usual [] position = ok usual
limit_in usual (w ∷ ws) position = do
  start ← minute false w.start
  stop ← minute true w.stop
  hit ← on_days position (days_of w) start (duration start stop)
  if hit then ok w.limit else limit_in usual ws position

-- The local time that the clock and the time zone give.
pub record LocalTime : Type 0 where
  pub weekday : ℕ
  pub hour : ℕ
  pub minute_of : ℕ

abbrev pub position_of : LocalTime → ℕ
position_of t = t.weekday * 1440 + t.hour * 60 + t.minute_of

unfoldable pub scheduled_limit : Option ℕ → List Window → LocalTime → Result Invalid (Option ℕ)
scheduled_limit usual [] now = ok usual
scheduled_limit usual ws now = limit_in usual ws (position_of now)
