-- ===== src/Bandwidth/Budget/Rate.antt =====
-- Over any run of bandwidth.py's turns, no more is served than the global limit allows.
use repowatch.Prelude.{
  ℕ, zero, suc, ◌+◌, ◌-◌, ◌*◌, ◌≤◌, ◌≡◌, refl, ◌∙◌, Option, none, some, List, [], ◌∷◌, ◌++◌, arith,
  min, Option-cases, inl, inr,
}
use repowatch.Bandwidth.Bucket
use repowatch.Bandwidth.Bucket.{Bucket, refill, burst}
use repowatch.Bandwidth.Budget.{
  Request, Budget, Policy, serve, rotate, step, rates_for, refill_all, or_new,
}
use repowatch.Bandwidth.Budget.Serve.{total, Spent-some, serve-Steady, Spent-serve}

-- The queue changes by a new request or a cancelled one; a turn comes some time after the last.
pub data Event : Type 0 where
  arrive : Request → Event
  cancel : ℕ → Event
  turn : ℕ → Policy → Event

abbrev without : ℕ → List Request → List Request
without i [] = []
without zero (q ∷ qs) = qs
without (suc i) (q ∷ qs) = q ∷ without i qs

-- A run under one global limit: the clock, the budget, and the bytes served so far.
pub record Run : Type 0 where
  pub now : ℕ
  pub budget : Budget
  pub served : ℕ

abbrev after_turn : Run → ℕ → Option Budget → Run
after_turn r now none = r
after_turn r now (some s) = record {
  now = now;
  budget = s;
  served = r.served + (total r.budget.requests - total s.requests);
}

unfoldable pub advance : ℕ → Run → Event → Run
advance rate r (arrive q) = record r {
  budget = record r.budget { requests = r.budget.requests ++ q ∷ [] };
}
advance rate r (cancel i) = record r {
  budget = record r.budget { requests = without i r.budget.requests };
}
advance rate r (turn elapsed repo_rates) =
    after_turn r (r.now + elapsed) (step (some rate) repo_rates (r.now + elapsed) r.budget)

unfoldable pub run : ℕ → Run → List Event → Run
unfolding advance
run rate r [] = r
run rate r (e ∷ es) = run rate (advance rate r e) es

-- `BandwidthBudget.__init__` at a time of the clock.
abbrev pub fresh : ℕ → Run
fresh now = record {
  now = now;
  budget = record { requests = []; common = none; buckets = [] };
  served = 0;
}

total-append : (xs ys : List Request) → total (xs ++ ys) ≡ total xs + total ys
total-append [] ys = omega arith
total-append (x ∷ xs) ys = omega (arith, total-append xs ys)

total-rotate : (qs : List Request) → total (rotate qs) ≡ total qs
total-rotate [] = refl
total-rotate (q ∷ qs) = omega (arith, total-append qs (q ∷ []))

-- The credit left and the bytes served come from the time since the start.
abbrev Accounts : ℕ → ℕ → ℕ → ℕ → Option Bucket → Type 0
Accounts rate start now served none = (served ≡ 0) × (start ≤ now)
Accounts rate start now served (some b) =
    (c : ℕ) × (t : ℕ) × (b.credit ≡ some c)
    × (b.rate ≡ some rate)
    × (b.updated ≡ start + t)
    × (b.updated ≤ now)
    × (c + served ≤ t * rate)

refill-Accounts :
    (rate start now elapsed served : ℕ) (common : Option Bucket)
    → Accounts rate start now served common
    → Accounts rate start
        (now + elapsed)
        served
        (some (refill (some rate) (now + elapsed) (or_new (now + elapsed) common)))
unfolding refill Bucket.new
refill-Accounts rate start now elapsed served none a =
    (0, now + elapsed - start, ground arith, refl, omega (arith, a), omega arith, omega (arith, a))
refill-Accounts rate start now elapsed served (some b) (c, t, e, same, since, past, le) =
    let d = now + elapsed - b.updated in
    let spread : (t + d) * rate ≡ t * rate + d * rate = omega arith in
    (
      min (burst rate) (c + d * rate),
      t + d,
      ground arith,
      refl,
      omega arith,
      omega arith,
      omega arith,
    )

-- A turn under the limit: what it serves is taken from the credit.
turn-Accounts :
    (rate start elapsed : ℕ) (repo_rates : Policy) (r : Run)
    → Accounts rate start r.now r.served r.budget.common
    → let r' = advance rate r (turn elapsed repo_rates) in
      Accounts rate start r'.now r'.served r'.budget.common
unfolding advance step
turn-Accounts rate start elapsed repo_rates r a =
    let now = r.now + elapsed in
    let rates = rates_for repo_rates r.budget.requests [] in
    let common = refill (some rate) now (or_new now r.budget.common) in
    let buckets = refill_all now rates r.budget.buckets in
    let (c, t, e, same, since, past, le) =
      refill-Accounts rate start r.now elapsed r.served r.budget.common a in
    elim (Option-cases (serve r.budget.requests common buckets)) [
      | inl f ↦ rw (f, step) a
      | inr (round, f) ↦
          let (c', e', spent) =
            Spent-some common.credit round.common.credit (total r.budget.requests)
              (total round.left) c (Spent-serve r.budget.requests common buckets f) e in
          let steady = serve-Steady r.budget.requests common buckets f in
          rw (f, step)
            (
              c',
              t,
              e',
              steady.rate ∙ same,
              steady.updated ∙ since,
              omega (arith, steady.updated, past),
              omega (arith, total-rotate round.left, steady.shrinks, spent, le),
            )
    ]

advance-Accounts :
    (rate start : ℕ) (r : Run) (e : Event)
    → Accounts rate start r.now r.served r.budget.common
    → let r' = advance rate r e in Accounts rate start r'.now r'.served r'.budget.common
advance-Accounts rate start r (turn elapsed repo_rates) a =
    turn-Accounts rate start elapsed repo_rates r a
advance-Accounts rate start r (arrive q) a = unfold advance in a
advance-Accounts rate start r (cancel i) a = unfold advance in a

run-Accounts :
    (rate start : ℕ) (es : List Event) (r : Run)
    → Accounts rate start r.now r.served r.budget.common
    → let r' = run rate r es in Accounts rate start r'.now r'.served r'.budget.common
unfolding run
run-Accounts rate start [] r a = a
run-Accounts rate start (e ∷ es) r a =
    run-Accounts rate start es (advance rate r e) (advance-Accounts rate start r e a)

Accounts-le :
    (rate start now served : ℕ) (common : Option Bucket)
    → Accounts rate start now served common
    → (start ≤ now) × (served ≤ (now - start) * rate)
Accounts-le rate start now served none a = (omega arith, omega arith)
Accounts-le rate start now served (some b) (c, t, e, same, since, past, le) =
    (omega arith, grind arith)

-- Whatever downloads arrive and are cancelled, and whatever the limits of the repositories are,
-- the turns of a new budget under one global limit serve no more than that limit times the time
-- since the budget was made.
pub served-le :
    (rate start : ℕ) (es : List Event)
    → let r = run rate (fresh start) es in (start ≤ r.now) × (r.served ≤ (r.now - start) * rate)
served-le rate start es =
    let r = run rate (fresh start) es in
    Accounts-le rate start r.now r.served r.budget.common
      (run-Accounts rate start es (fresh start) (refl, omega arith))
