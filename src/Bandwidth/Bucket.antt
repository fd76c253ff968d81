-- ===== src/Bandwidth/Bucket.antt =====
-- bandwidth.py: `_Bucket` and `BandwidthBudget._step`. Time is counted in milliseconds, rates in
-- bytes a second, and bytes in thousandths, so that a rate times a time is exact: the program's
-- floats round these.
use repowatch.Prelude.{
  ℕ, ◌+◌, ◌-◌, ◌*◌, Bool, true, false, Option, none, some, min, if◌then◌else◌, nat_eq,
}

-- `credit` is `none` where the program has infinity, `rate` is `none` for no limit.
pub record Bucket : Type 0 where
  pub updated : ℕ
  pub rate : Option ℕ
  pub credit : Option ℕ

unfoldable pub new : ℕ → Bucket
new now = record { updated = now; rate = none; credit = some 0 }

abbrev pub same_rate : Option ℕ → Option ℕ → Bool
same_rate none none = true
same_rate (some a) (some b) = nat_eq a b
same_rate _ _ = false

-- A tenth of a second at the rate.
abbrev pub burst : ℕ → ℕ
burst rate = rate * 100

abbrev pub min_credit : ℕ → Option ℕ → ℕ
min_credit a none = a
min_credit a (some c) = min a c

abbrev pub topped_up : ℕ → ℕ → Option ℕ → Option ℕ
topped_up rate elapsed none = some (burst rate)
topped_up rate elapsed (some c) = some (min (burst rate) (c + elapsed * rate))

abbrev pub next_credit : Bucket → Option ℕ → ℕ → Option ℕ
next_credit b none now = none
next_credit b (some r) now =
    if same_rate (some r) b.rate then topped_up r (now - b.updated) b.credit else some 0

-- `max(0, now - updated)` is the truncated difference.
unfoldable pub refill : Option ℕ → ℕ → Bucket → Bucket
refill rate now b = record { updated = now; rate = rate; credit = next_credit b rate now }

abbrev pub spend : ℕ → Option ℕ → Option ℕ
spend n none = none
spend n (some c) = some (c - n)

-- `credit -= allowance`.
unfoldable pub take : ℕ → Bucket → Bucket
take n b = record b { credit = spend n b.credit }
