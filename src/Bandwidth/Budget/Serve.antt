-- ===== src/Bandwidth/Budget/Serve.antt =====
-- What one turn of bandwidth.py serves: bytes are neither lost nor made up, and no credit is
-- overdrawn.
use repowatch.Prelude.{
  ℕ, ◌+◌, ◌≤◌, ◌≡◌, refl, String, Option, none, some, List, [], ◌∷◌, arith, ◌==◌, text_keys, Assoc,
  lookup, insert, lookup-insert, Option-cases, inl, inr, eq_iff, if◌then◌else◌, Bool-cases,
}
use repowatch.Bandwidth.Bucket.{Bucket, take}
use repowatch.Bandwidth.Budget.{Request, Round, allowance, serve}

-- What the queue waits for.
abbrev pub total : List Request → ℕ
total [] = 0
total (q ∷ qs) = q.remaining + total qs

-- What one repository waits for.
abbrev pub total_of : String → List Request → ℕ
total_of k [] = 0
total_of k (q ∷ qs) = (if q.repo_id == k then q.remaining else 0) + total_of k qs

-- The credit of a bucket falls by what is served; without a limit it is not counted.
abbrev pub Spent : Option ℕ → Option ℕ → ℕ → ℕ → Type 0
Spent (some before) (some after) waiting left = after + waiting ≡ before + left
Spent none none waiting left = left ≤ waiting
Spent _ _ waiting left = ⊥

Spent-self : (c : Option ℕ) → Spent c c 0 0
Spent-self none = omega arith
Spent-self (some c) = omega arith

pub Spent-serve :
    (qs : List Request) (common : Bucket) (buckets : Assoc String Bucket) {r : Round}
    → serve qs common buckets ≡ some r
    → Spent common.credit r.common.credit (total qs) (total r.left)
unfolding serve take
Spent-serve [] common buckets h = ground (arith, Spent-self common.credit)
Spent-serve (q ∷ qs) common buckets {r} h = elim (Option-cases (lookup q.repo_id buckets)) [
  | inl e ↦ absurd (ground arith)
  | inr (b, e) ↦
      let n = allowance q common b in
      elim (Option-cases (serve qs (take n common) (insert q.repo_id (take n b) buckets))) [
        | inl f ↦ absurd (ground arith)
        | inr (r', f) ↦
            ground (arith, Spent-serve qs (take n common) (insert q.repo_id (take n b) buckets) f)
      ]
]

-- The bucket of a repository after the turn, and what the turn took from it.
pub record SpentBy (k : String) (b : Bucket) (qs : List Request) (r : Round) : Type 0 where
  pub bucket : Bucket
  pub there : lookup k r.buckets ≡ some bucket
  pub spent : Spent b.credit bucket.credit (total_of k qs) (total_of k r.left)

-- A pass over the queue that has a result leaves the bucket of every repository in the table,
-- with its credit lower by exactly what the requests of that repository no longer wait for;
-- without a limit those requests wait for no more than before.
pub SpentBy-serve :
    (k : String) (qs : List Request) (common : Bucket) (buckets : Assoc String Bucket) (b : Bucket)
    {r : Round}
    → lookup k buckets ≡ some b
    → serve qs common buckets ≡ some r
    → SpentBy k b qs r
unfolding serve take
SpentBy-serve k [] common buckets b at h = record {
  bucket = b;
  there = ground arith;
  spent = ground (arith, Spent-self b.credit);
}
SpentBy-serve k (q ∷ qs) common buckets b {r} at h =
    elim (Option-cases (lookup q.repo_id buckets)) [
      | inl e ↦ absurd (ground arith)
      | inr (s, e) ↦
          let n = allowance q common s in
          let later = insert q.repo_id (take n s) buckets in
          elim (Option-cases (serve qs (take n common) later)) [
            | inl f ↦ absurd (ground arith)
            | inr (r', f) ↦ elim (Bool-cases (q.repo_id == k)) [
              | inl same ↦
                  let t =
                    SpentBy-serve k qs (take n common) later (take n s) (rw lookup-insert (rw same))
                      f in
                  record {
                    bucket = t.bucket;
                    there = ground (arith, t.there);
                    spent = ground (arith, t.spent, eq_iff q.repo_id k);
                  }
              | inr other ↦
                  let t =
                    SpentBy-serve k qs (take n common) later b (rw lookup-insert (rw other at)) f in
                  record {
                    bucket = t.bucket;
                    there = ground (arith, t.there);
                    spent = ground (arith, t.spent);
                  }
            ]
          ]
    ]

-- A turn changes no limit and no clock, and no request grows.
pub record Steady (common : Bucket) (qs : List Request) (r : Round) : Type 0 where
  pub rate : r.common.rate ≡ common.rate
  pub updated : r.common.updated ≡ common.updated
  pub shrinks : total r.left ≤ total qs

pub serve-Steady :
    (qs : List Request) (common : Bucket) (buckets : Assoc String Bucket) {r : Round}
    → serve qs common buckets ≡ some r
    → Steady common qs r
unfolding serve take
serve-Steady [] common buckets h = ground arith
serve-Steady (q ∷ qs) common buckets {r} h = elim (Option-cases (lookup q.repo_id buckets)) [
  | inl e ↦ absurd (ground arith)
  | inr (b, e) ↦
      let n = allowance q common b in
      let later = insert q.repo_id (take n b) buckets in
      elim (Option-cases (serve qs (take n common) later)) [
        | inl f ↦ absurd (ground arith)
        | inr (r', f) ↦ ground (arith, serve-Steady qs (take n common) later f)
      ]
]

pub Spent-some :
    (before after : Option ℕ) (waiting left c : ℕ)
    → Spent before after waiting left
    → before ≡ some c
    → (c' : ℕ) × (after ≡ some c') × (c' + waiting ≡ c + left)
Spent-some (some b) (some a) waiting left c s e = (a, refl, ground arith)
Spent-some none none waiting left c s e = cc
Spent-some none (some a) waiting left c s e = absurd s
Spent-some (some b) none waiting left c s e = absurd s
