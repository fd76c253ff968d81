-- ===== src/Bandwidth/Budget/Total.antt =====
-- A turn of bandwidth.py finds a bucket for every request that waits: it never raises KeyError.
use repowatch.Prelude.{
  ℕ, refl, ◌≢◌, String, Option, none, List, [], ◌∷◌, arith, ◌==◌, text_keys, Assoc, lookup, insert,
  lookup-insert, Option-cases, inl, inr, eq_iff, All, All-map, Bool-cases,
}
use repowatch.Bandwidth.Bucket.{Bucket, refill, take}
use repowatch.Bandwidth.Budget.{
  Request, Budget, Policy, allowance, serve, step, rates_for, refill_all, or_new,
}

abbrev Has : {V : Type 0} → Assoc String V → String → Type 0
Has m k = lookup k m ≢ none

Has-insert :
    {V : Type 0} (k j : String) (v : V) (m : Assoc String V) → Has m j → Has (insert k v m) j
Has-insert k j v m h = ground (arith, lookup-insert k j v m)

Has-insert_self : {V : Type 0} (k : String) (v : V) (m : Assoc String V) → Has (insert k v m) k
Has-insert_self k v m = ground (arith, lookup-insert k k v m, eq_iff k k)

Has-rates_for :
    (repo_rates : Policy) (qs : List Request) (rates : Policy) (k : String)
    → Has rates k
    → Has (rates_for repo_rates qs rates) k
unfolding rates_for
Has-rates_for repo_rates [] rates k h = h
Has-rates_for repo_rates (q ∷ qs) rates k h =
    Has-rates_for repo_rates qs _ k (Has-insert q.repo_id k _ rates h)

rates_for-All :
    (repo_rates : Policy) (qs : List Request) (rates : Policy)
    → All (λ q. Has (rates_for repo_rates qs rates) q.repo_id) qs
unfolding rates_for
rates_for-All repo_rates [] rates = tt
rates_for-All repo_rates (q ∷ qs) rates = (
  Has-rates_for repo_rates qs _ q.repo_id (Has-insert_self q.repo_id _ rates),
  rates_for-All repo_rates qs _,
)

Has-refill_all :
    (now : ℕ) (rates : Policy) (buckets : Assoc String Bucket) (k : String)
    → Has buckets k
    → Has (refill_all now rates buckets) k
unfolding refill_all
Has-refill_all now [] buckets k h = h
Has-refill_all now ((j, rate) ∷ rates) buckets k h =
    Has-refill_all now rates _ k (Has-insert j k _ buckets h)

Has-refill_all_rate :
    (now : ℕ) (rates : Policy) (buckets : Assoc String Bucket) (k : String)
    → Has rates k
    → Has (refill_all now rates buckets) k
unfolding refill_all lookup
Has-refill_all_rate now [] buckets k h = absurd (h refl)
Has-refill_all_rate now ((j, rate) ∷ rates) buckets k h = elim (Bool-cases (j == k)) [
  | inl same ↦ Has-refill_all now rates _ k (
      ground (
        arith,
        eq_iff j k,
        lookup-insert j k (refill rate now (or_new now (lookup j buckets))) buckets,
      ))
  | inr other ↦ Has-refill_all_rate now rates _ k (rw other at h)
]

serve_total :
    (qs : List Request) (common : Bucket) (buckets : Assoc String Bucket)
    → All (λ q. Has buckets q.repo_id) qs
    → serve qs common buckets ≢ none
unfolding serve
serve_total [] common buckets h = ground arith
serve_total (q ∷ qs) common buckets h = elim (Option-cases (lookup q.repo_id buckets)) [
  | inl e ↦ absurd (h.0 e)
  | inr (s, e) ↦
      let n = allowance q common s in
      let later = insert q.repo_id (take n s) buckets in
      ground (
        arith,
        e,
        serve_total qs (take n common) later (
            All-map (λ x. Has buckets x.repo_id) (λ x. Has later x.repo_id) qs
              (λ x k. Has-insert q.repo_id x.repo_id (take n s) buckets k) h.1),
      )
]

-- Every turn of the budget has a result, whatever waits and whatever the limits are.
pub step-ne-none :
    (global_rate : Option ℕ) (repo_rates : Policy) (now : ℕ) (s : Budget)
    → step global_rate repo_rates now s ≢ none
unfolding step
step-ne-none global_rate repo_rates now s =
    let rates = rates_for repo_rates s.requests [] in
    let buckets = refill_all now rates s.buckets in
    let common = refill global_rate now (or_new now s.common) in
    ground (
      arith,
      serve_total s.requests common buckets (
          All-map (λ x. Has rates x.repo_id) (λ x. Has buckets x.repo_id) s.requests
            (λ x k. Has-refill_all_rate now rates s.buckets x.repo_id k)
            (rates_for-All repo_rates s.requests [])),
    )
