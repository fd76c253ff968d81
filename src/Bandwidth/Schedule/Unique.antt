-- ===== src/Bandwidth/Schedule/Unique.antt =====
-- In a schedule that bandwidth.py accepts, each minute of the week lies in one window at most, so
-- the first match of `scheduled_limit` is the only one.
use repowatch.Prelude.{
  ℕ, ◌+◌, ◌-◌, ◌*◌, ◌%◌, ◌<◌, ◌≡◌, refl, sym, ◌∙◌, String, Bool, true, false, Option, some, List,
  [], ◌∷◌, ◌++◌, arith, ok, Bool-cases, Option-cases, inl, inr, Result, >>=-eq-ok, All, ◌>>=◌,
  if◌then◌else◌, eq_iff,
}
use repowatch.Bandwidth.Schedule.{
  Invalid, Window, LocalTime, position_of, days_of, day_index, has_text, minute, duration, week,
  has_minute, within, check_window, check_windows, validate_schedule, on_days, limit_in,
  scheduled_limit,
}
use repowatch.Bandwidth.Schedule.Taken.{day_index-lt, Read, check_window-Read}
use repowatch.Bandwidth.Schedule.Minutes.{minute-lt, duration_bounds}

-- A minute of the week lies in a window: some minutes after the start, on one of its days.
pub record Covers (w : Window) (p : ℕ) : Type 0 where
  pub start : ℕ
  pub stop : ℕ
  pub start_is : minute false w.start ≡ ok start
  pub stop_is : minute true w.stop ≡ ok stop
  pub day : String
  pub index : ℕ
  pub named : has_text day (days_of w) ≡ true
  pub indexed : day_index day ≡ some index
  pub offset : ℕ
  pub inside : offset < duration start stop
  pub at : p ≡ (index * 1440 + start + offset) % week

Covers-within :
    (w : Window) (p : ℕ) (c : Covers w p)
    → within (c.index * 1440 + c.start) (duration c.start c.stop) p ≡ true
Covers-within w p c = ground (
  arith,
  day_index-lt c.day c.indexed,
  minute-lt w.start c.start_is,
  duration_bounds c.start c.stop,
  c.inside,
  c.at,
)

-- A window's answer at a minute of the week.
answer : Window → ℕ → Result Invalid Bool
answer w p = do
  start ← minute false w.start
  stop ← minute true w.stop
  on_days p (days_of w) start (duration start stop)

answer-Read :
    {p : ℕ} {w : Window} {before after : List ℕ} (r : Read p w before after)
    → answer w p ≡ on_days p (days_of w) r.start (duration r.start r.stop)
unfolding answer
answer-Read {p} {w} r = rw (r.start_is, r.stop_is)

answer-Covers :
    {p : ℕ} {w : Window} {before after : List ℕ}
    → Read p w before after
    → Covers w p
    → answer w p ≡ ok true
answer-Covers {p} {w} r c =
    answer-Read r
    ∙ r.day.found c.day c.index c.named c.indexed
        (ground (arith, Covers-within w p c, c.start_is, c.stop_is, r.start_is, r.stop_is))

limit_in-answer :
    (usual : Option ℕ) (w : Window) (ws : List Window) (p : ℕ) (b : Bool)
    → answer w p ≡ ok b
    → limit_in usual (w ∷ ws) p ≡ (if b then ok w.limit else limit_in usual ws p)
unfolding answer limit_in
limit_in-answer usual w ws p b h = ground (arith, h)

-- While a window that covers the minute is still to come, no earlier one has taken the minute.
still_free :
    (pre post : List Window) (w : Window) (p : ℕ) (taken : List ℕ) {after : List ℕ}
    → p < week
    → Covers w p
    → check_windows (pre ++ w ∷ post) taken ≡ ok after
    → has_minute p taken ≡ false
unfolding check_windows
still_free [] post w p taken hp c h =
    let (t, e, _) = >>=-eq-ok (check_window w taken) (check_windows post) h in
    let r = check_window-Read p w taken hp e in
    elim (Bool-cases (has_minute p taken)) [
      | inl old ↦ absurd (ground (arith, answer-Covers r c, answer-Read r, r.day.free old))
      | inr new ↦ new
    ]
still_free (v ∷ pre) post w p taken hp c h =
    let (t, e, later) = >>=-eq-ok (check_window v taken) (check_windows (pre ++ w ∷ post)) h in
    let r = check_window-Read p v taken hp e in
    ground (arith, still_free pre post w p t hp c later, r.day.kept)

limit_in-Covers :
    (usual : Option ℕ) (pre post : List Window) (w : Window) (p : ℕ) (taken : List ℕ)
    {after : List ℕ}
    → p < week
    → Covers w p
    → check_windows (pre ++ w ∷ post) taken ≡ ok after
    → limit_in usual (pre ++ w ∷ post) p ≡ ok w.limit
unfolding check_windows
limit_in-Covers usual [] post w p taken hp c h =
    let (t, e, _) = >>=-eq-ok (check_window w taken) (check_windows post) h in
    limit_in-answer usual w post p true (answer-Covers (check_window-Read p w taken hp e) c)
limit_in-Covers usual (v ∷ pre) post w p taken hp c h =
    let (t, e, later) = >>=-eq-ok (check_window v taken) (check_windows (pre ++ w ∷ post)) h in
    let r = check_window-Read p v taken hp e in
    let (b, on) = r.day.decided in
    elim (Bool-cases b) [
      | inl hit ↦ absurd (ground (arith, still_free pre post w p t hp c later, r.day.taken))
      | inr miss ↦
          limit_in-answer usual v (pre ++ w ∷ post) p false (answer-Read r ∙ rw (← miss) on)
          ∙ limit_in-Covers usual pre post w p t hp c later
    ]

check_windows-of-valid :
    (known : String → Bool) (zone : String) (ws : List Window)
    → validate_schedule known zone ws ≡ ok tt
    → (after : List ℕ) × (check_windows ws [] ≡ ok after)
unfolding validate_schedule
check_windows-of-valid known zone ws h = ground arith

pub record IsTime (t : LocalTime) : Type 0 where
  pub weekday_lt : t.weekday < 7
  pub hour_lt : t.hour < 24
  pub minute_lt : t.minute_of < 60

scheduled_limit-limit_in :
    (usual : Option ℕ) (ws : List Window) (now : LocalTime)
    → scheduled_limit usual ws now ≡ limit_in usual ws (position_of now)
unfolding scheduled_limit limit_in
scheduled_limit-limit_in usual [] now = refl
scheduled_limit-limit_in usual (w ∷ ws) now = refl

-- In a schedule that validates, wherever a window stands in the list, its limit is the one in
-- force at every minute of the week that it covers.
pub scheduled_limit-Covers :
    (known : String → Bool) (zone : String) (usual : Option ℕ) (pre post : List Window) (w : Window)
    (now : LocalTime)
    → IsTime now
    → validate_schedule known zone (pre ++ w ∷ post) ≡ ok tt
    → Covers w (position_of now)
    → scheduled_limit usual (pre ++ w ∷ post) now ≡ ok w.limit
scheduled_limit-Covers known zone usual pre post w now t v c =
    let (after, checked) = check_windows-of-valid known zone (pre ++ w ∷ post) v in
    scheduled_limit-limit_in usual (pre ++ w ∷ post) now
    ∙ limit_in-Covers usual pre post w (position_of now) [] (omega (arith, t)) c checked

record Hit (p : ℕ) (ds : List String) (start n : ℕ) : Type 0 where
  day : String
  index : ℕ
  named : has_text day ds ≡ true
  indexed : day_index day ≡ some index
  near : within (index * 1440 + start) n p ≡ true

on_days-Hit :
    (p : ℕ) (ds : List String) (start n : ℕ) → on_days p ds start n ≡ ok true → Hit p ds start n
unfolding on_days has_text
on_days-Hit p [] start n h = absurd (ground arith)
on_days-Hit p (d ∷ ds) start n h = elim (Option-cases (day_index d)) [
  | inl e ↦ absurd (ground arith)
  | inr (i, e) ↦ elim (Bool-cases (within (i * 1440 + start) n p)) [
    | inl near ↦ record {
      day = d;
      index = i;
      named = ground (arith, eq_iff d d);
      indexed = e;
      near = near;
    }
    | inr far ↦
        let k = on_days-Hit p ds start n (ground arith) in
        record {
          day = k.day;
          index = k.index;
          named = ground (arith, k.named);
          indexed = k.indexed;
          near = k.near;
        }
  ]
]

Read-Covers :
    {p : ℕ} (w : Window) {before after : List ℕ}
    → p < week
    → Read p w before after
    → answer w p ≡ ok true
    → Covers w p
Read-Covers {p} w hp r h =
    let k = on_days-Hit p (days_of w) r.start (duration r.start r.stop) (sym (answer-Read r) ∙ h) in
    record {
      start = r.start;
      stop = r.stop;
      start_is = r.start_is;
      stop_is = r.stop_is;
      day = k.day;
      index = k.index;
      named = k.named;
      indexed = k.indexed;
      offset = (p + week - (k.index * 1440 + r.start)) % week;
      inside = ground (arith, k.near);
      at = ground (arith, hp, day_index-lt k.day k.indexed, minute-lt w.start r.start_is, k.near);
    }

limit_in_usual :
    (usual : Option ℕ) (ws : List Window) (p : ℕ) (taken : List ℕ) {after : List ℕ}
    → p < week
    → All (λ w. ¬ Covers w p) ws
    → check_windows ws taken ≡ ok after
    → limit_in usual ws p ≡ ok usual
unfolding check_windows
limit_in_usual usual [] p taken hp a h = unfold limit_in in refl
limit_in_usual usual (w ∷ ws) p taken hp a h =
    let (t, e, later) = >>=-eq-ok (check_window w taken) (check_windows ws) h in
    let r = check_window-Read p w taken hp e in
    let (b, on) = r.day.decided in
    elim (Bool-cases b) [
      | inl hit ↦ absurd (a.0 (Read-Covers w hp r (answer-Read r ∙ rw (← hit) on)))
      | inr miss ↦
          limit_in-answer usual w ws p false (answer-Read r ∙ rw (← miss) on)
          ∙ limit_in_usual usual ws p t hp a.1 later
    ]

-- In a schedule that validates, at a minute of the week that no window covers, the general limit
-- is in force.
scheduled_limit_usual :
    (known : String → Bool) (zone : String) (usual : Option ℕ) (ws : List Window) (now : LocalTime)
    → IsTime now
    → validate_schedule known zone ws ≡ ok tt
    → All (λ w. ¬ Covers w (position_of now)) ws
    → scheduled_limit usual ws now ≡ ok usual
scheduled_limit_usual known zone usual ws now t v a =
    let (after, checked) = check_windows-of-valid known zone ws v in
    scheduled_limit-limit_in usual ws now
    ∙ limit_in_usual usual ws (position_of now) [] (omega (arith, t)) a checked
