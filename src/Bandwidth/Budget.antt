-- ===== src/Bandwidth/Budget.antt =====
-- bandwidth.py: `BandwidthBudget._step`, the turn that each waiting download gets. The lock makes a
-- turn atomic; `consume` adds a request, takes turns until it is served, and drops it if cancelled.
pub mod Serve
pub mod Total
pub mod Rate
use repowatch.Prelude.{
  ℕ, ◌+◌, ◌-◌, String, Bool, true, false, not, ◌&&◌, Option, none, some, List, [], ◌∷◌, ◌++◌,
  if◌then◌else◌, ltb, ◌==◌, text_keys, Assoc, lookup, insert, min,
}
use repowatch.Bandwidth.Bucket
use repowatch.Bandwidth.Bucket.{Bucket, refill, take, min_credit}

pub record Request : Type 0 where
  pub repo_id : String
  pub remaining : ℕ
  pub fallback_limit : Option ℕ

-- `_buckets`, with the bucket of the key None apart.
pub record Budget : Type 0 where
  pub requests : List Request
  pub common : Option Bucket
  pub buckets : Assoc String Bucket

-- The limits of the repositories that the configuration has.
abbrev pub Policy : Type 0
Policy = Assoc String (Option ℕ)

unfoldable pub policy_rate : Policy → Request → Option ℕ
policy_rate repo_rates q = elim (lookup q.repo_id repo_rates) [
  | none ↦ q.fallback_limit
  | some rate ↦ rate
]

-- `rates.get(repo_id)`: no entry and no limit are both None.
abbrev pub previous_rate : String → Policy → Option ℕ
previous_rate k rates = elim (lookup k rates) [ none ↦ none | some rate ↦ rate ]

unfoldable pub stricter : Option ℕ → Option ℕ → Option ℕ
stricter none rate = rate
stricter (some p) none = some p
stricter (some p) (some r) = if ltb p r then some p else some r

unfoldable pub rates_for : Policy → List Request → Policy → Policy
unfolding policy_rate stricter
rates_for repo_rates [] rates = rates
rates_for repo_rates (q ∷ qs) rates =
    rates_for repo_rates qs
      (insert q.repo_id (stricter (previous_rate q.repo_id rates) (policy_rate repo_rates q)) rates)

-- `setdefault(key, _Bucket(now))`.
abbrev pub or_new : ℕ → Option Bucket → Bucket
or_new now none = Bucket.new now
or_new now (some b) = b

unfoldable pub refill_all : ℕ → Policy → Assoc String Bucket → Assoc String Bucket
refill_all now [] buckets = buckets
refill_all now ((k, rate) ∷ rates) buckets =
    refill_all now rates (insert k (refill rate now (or_new now (lookup k buckets))) buckets)

pub record Round : Type 0 where
  pub left : List Request
  pub common : Bucket
  pub buckets : Assoc String Bucket

abbrev pub allowance : Request → Bucket → Bucket → ℕ
allowance q common specific = min_credit (min_credit q.remaining common.credit) specific.credit

abbrev pub keep : ℕ → Request → Round → Round
keep n q r =
    if ltb 0 (q.remaining - n)
    then (record r { left = (record q { remaining = q.remaining - n }) ∷ r.left })
    else r

-- One pass over the queue. `none` is the KeyError of a request whose bucket is missing.
unfoldable pub serve : List Request → Bucket → Assoc String Bucket → Option Round
serve [] common buckets = some (record { left = []; common = common; buckets = buckets })
serve (q ∷ qs) common buckets = elim (lookup q.repo_id buckets) [
  | none ↦ none
  | some specific ↦
      let n = allowance q common specific in
      elim (serve qs (take n common) (insert q.repo_id (take n specific) buckets)) [
        | none ↦ none
        | some r ↦ some (keep n q r)
      ]
]

-- `rotate(-1)`.
abbrev pub rotate : List Request → List Request
rotate [] = []
rotate (q ∷ qs) = qs ++ q ∷ []

unfoldable pub is_active : String → List Request → Bool
is_active k [] = false
is_active k (q ∷ qs) = if q.repo_id == k then true else is_active k qs

-- A bucket that nothing waits for is dropped after a minute.
unfoldable pub drop_stale : ℕ → List Request → Assoc String Bucket → Assoc String Bucket
unfolding is_active
drop_stale now left [] = []
drop_stale now left ((k, b) ∷ rest) =
    let kept = drop_stale now left rest in
    if not (is_active k left) && ltb 60000 (now - b.updated) then kept else (k, b) ∷ kept

abbrev finish : ℕ → Option Round → Option Budget
finish now none = none
finish now (some r) = some (record {
  requests = rotate r.left;
  common = some r.common;
  buckets = drop_stale now r.left r.buckets;
})

unfoldable pub step : Option ℕ → Policy → ℕ → Budget → Option Budget
unfolding rates_for refill_all serve drop_stale
step global_rate repo_rates now s =
    let rates = rates_for repo_rates s.requests [] in
    let common = refill global_rate now (or_new now s.common) in
    finish now (serve s.requests common (refill_all now rates s.buckets))
