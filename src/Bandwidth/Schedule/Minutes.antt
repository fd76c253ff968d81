-- ===== src/Bandwidth/Schedule/Minutes.antt =====
-- The clock texts of bandwidth.py and the minutes of the week that a window takes.
use repowatch.Prelude.{
  ℕ, zero, suc, ◌+◌, ◌*◌, ◌/◌, ◌%◌, ◌≤◌, ◌<◌, ◌≡◌, refl, Bool, true, false, List, [], ◌∷◌, ◌||◌,
  arith, ok, subst, nat_eq_iff, nat_eq, ◌++◌, Bool-cases, inl, inr,
}
use repowatch.Bandwidth.Schedule.{
  clock, minute, duration, week, has_minute, minutes_from, meets, within,
}

abbrev digit : ℕ → ℕ
digit n = b'0' + n

-- HH:MM.
abbrev pub clock_text : ℕ → ℕ → List ℕ
clock_text h m = digit (h / 10) ∷ digit (h % 10) ∷ b':' ∷ digit (m / 10) ∷ digit (m % 10) ∷ []

-- `minute` reads back every time of the day from its HH:MM text, as a start and as an end.
pub minute-clock_text :
    (at_end : Bool) (h m : ℕ) → h < 24 → m < 60 → minute at_end (clock_text h m) ≡ ok (h * 60 + m)
unfolding minute
minute-clock_text true h m p q = ground arith
minute-clock_text false h m p q = ground arith

clock-lt : (a b c d e : ℕ) {n : ℕ} → clock false a b c d e ≡ ok n → n < 1440
unfolding clock
clock-lt a b c d e h = ground arith

clock-le : (a b c d e : ℕ) {n : ℕ} → clock true a b c d e ≡ ok n → n ≤ 1440
unfolding clock
clock-le a b c d e h = ground arith

-- A start is before the end of the day; an end may be the end of the day.
pub minute-lt : (v : List ℕ) {n : ℕ} → minute false v ≡ ok n → n < 1440
minute-lt (a ∷ b ∷ c ∷ d ∷ e ∷ []) h = clock-lt a b c d e (unfold minute in h)
minute-lt _ h = unfold minute in cc

pub minute-le : (v : List ℕ) {n : ℕ} → minute true v ≡ ok n → n ≤ 1440
minute-le (a ∷ b ∷ c ∷ d ∷ e ∷ []) h = clock-le a b c d e (unfold minute in h)
minute-le _ h = unfold minute in cc

pub duration_bounds : (a b : ℕ) → (0 < duration a b) × (duration a b ≤ 1440)
unfolding duration
duration_bounds a b = ground arith

pub has_minute-append :
    (p : ℕ) (xs ys : List ℕ) → has_minute p (xs ++ ys) ≡ (has_minute p xs || has_minute p ys)
has_minute-append p [] ys = refl
has_minute-append p (x ∷ xs) ys = ground (arith, has_minute-append p xs ys)

-- The set of minutes and the arithmetic test are two ways to say the same.
pub minutes_from-within :
    (base p n : ℕ)
    → base < week
    → p < week
    → n ≤ 1440
    → has_minute p (minutes_from base n) ≡ within base n p
unfolding minutes_from
minutes_from-within base p zero hb hp hn = ground arith
minutes_from-within base p (suc n) hb hp hn =
    ground (arith, minutes_from-within base p n hb hp (omega arith))

pub meets-false :
    (p : ℕ) (xs ys : List ℕ)
    → meets xs ys ≡ false
    → has_minute p xs ≡ true
    → has_minute p ys ≡ false
meets-false p [] ys m h = cc
meets-false p (x ∷ xs) ys m h = elim (Bool-cases (nat_eq x p)) [
  | inl e ↦
      ground (arith, subst (λ v. has_minute v ys ≡ false) ((nat_eq_iff x p).0 e) (ground arith))
  | inr e ↦ ground (arith, meets-false p xs ys (ground arith) (ground arith))
]
