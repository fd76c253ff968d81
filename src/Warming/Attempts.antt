-- ===== src/Warming/Attempts.antt =====
-- operations/warm.py: what is attempted is allowed, and what is recorded is what was attempted.
use repowatch.Prelude.{
  ℕ, ◌≡◌, inl, inr, refl, String, Bool, true, ◌&&◌, ◌||◌, Option, none, some, [], ◌∷◌, arith,
  if◌then◌else◌, ◌==◌, text_keys, pair_keys, Assoc, lookup, lookup-insert, eq_iff, Bool-cases,
  beq_refl,
}
use repowatch.Storage.Tables.{Warmed, Db}
use repowatch.Storage.Cache.Warmed.{Outcome, record_warmed_package, warmed_row}
use repowatch.Warming.Rules.{Repo, WarmingPolicy, policy_of, allows}
use repowatch.Warming.{
  Env, State, Run, tasks_of, digest_of, run_task, run_tasks, run_all, recorded, demanded,
  warm_packages,
}

-- The stored result of the warming of a package.
abbrev pub success_of : Option Warmed → Option Bool
success_of none = none
success_of (some w) = some w.succeeded

unfoldable all_allowed : Env → WarmingPolicy → Assoc String String → Bool
all_allowed env policy [] = true
all_allowed env policy ((key, filename) ∷ tasks) =
    allows env.matches policy key && all_allowed env policy tasks

all_allowed-tasks_of :
    (env : Env) (policy : WarmingPolicy) (packages : Assoc String String)
    → all_allowed env policy (tasks_of env policy packages) ≡ true
unfolding all_allowed tasks_of
all_allowed-tasks_of env policy [] = refl
all_allowed-tasks_of env policy ((key, filename) ∷ packages) =
    ground (arith, all_allowed-tasks_of env policy packages)

success_of-warmed_row :
    (o : Outcome) (old : Option Warmed) → success_of (some (warmed_row o old)) ≡ some o.succeeded
success_of-warmed_row o none = refl
success_of-warmed_row o (some w) = refl

success_of-recorded :
    (env : Env) (r k key filename : String) (reply : Bool × Option ℕ) (db : Db)
    → success_of (lookup (r, key) (recorded env r k filename reply db).warmed_packages)
      ≡ (if k == key then some reply.0 else success_of (lookup (r, key) db.warmed_packages))
unfolding record_warmed_package
success_of-recorded env r k key filename (success, status) db =
    let o : Outcome = record {
      filename = filename;
      now = env.now;
      succeeded = success;
      http_status = status;
      source = "prefetch";
      revision = env.new_id k;
    } in
    let row = warmed_row o (lookup (r, k) db.warmed_packages) in
    ground (
      arith,
      lookup-insert (r, k) (r, key) row db.warmed_packages,
      success_of-warmed_row o (lookup (r, k) db.warmed_packages),
      beq_refl r,
    )

-- The answer for a package is what its record says, and the package is allowed.
abbrev Agrees : Env → WarmingPolicy → String → String → Bool → Run → Type 0
Agrees env policy r key success done =
    (allows env.matches policy key ≡ true)
    × (success_of (lookup (r, key) done.1.warmed_packages) ≡ some success)

run_task-Agrees :
    (env : Env) (policy : WarmingPolicy) (r : String) (force : Bool) (hashes : Assoc String String)
    (k filename key : String) (done : Run)
    → allows env.matches policy k ≡ true
    → ((b : Bool) → lookup key done.0 ≡ some b → Agrees env policy r key b done)
    → (b : Bool) → lookup key (run_task env r force hashes k filename done).0 ≡ some b
    → Agrees env policy r key b (run_task env r force hashes k filename done)
unfolding run_task
run_task-Agrees env policy r force hashes k filename key (outcomes, db) allowed before b h =
    let reply = env.download k (env.url filename) (digest_of (lookup k hashes)) in
    elim (Bool-cases (force || env.admits k)) [
      | inr skipped ↦ rw skipped (before b (ground (arith, h, skipped)))
      | inl on ↦ elim (Bool-cases (k == key)) [
        | inl here ↦
            let same : k ≡ key = (eq_iff k key).0 here in
            rw on (
              ground (arith, allowed, same),
              ground (
                arith,
                h,
                on,
                here,
                lookup-insert k key reply.0 outcomes,
                success_of-recorded env r k key filename reply db,
              ),
            )
        | inr other ↦
            let old =
              before b (ground (arith, h, on, other, lookup-insert k key reply.0 outcomes)) in
            rw on (
              old.0,
              ground (arith, old.1, other, success_of-recorded env r k key filename reply db),
            )
      ]
    ]

run_tasks-Agrees :
    (env : Env) (policy : WarmingPolicy) (r : String) (force : Bool) (hashes : Assoc String String)
    (tasks : Assoc String String) (key : String) (done : Run)
    → all_allowed env policy tasks ≡ true
    → ((b : Bool) → lookup key done.0 ≡ some b → Agrees env policy r key b done)
    → (b : Bool) → lookup key (run_tasks env r force hashes tasks done).0 ≡ some b
    → Agrees env policy r key b (run_tasks env r force hashes tasks done)
unfolding run_tasks all_allowed
run_tasks-Agrees env policy r force hashes [] key done allowed before b h = before b h
run_tasks-Agrees env policy r force hashes ((k, filename) ∷ tasks) key done allowed before b h =
    run_tasks-Agrees env policy r force hashes tasks key
      (run_task env r force hashes k filename done) (ground arith)
      (run_task-Agrees env policy r force hashes k filename key done (ground arith) before) b h

empty : (key : String) → lookup {V = Bool} key [] ≡ none
unfolding lookup
empty key = refl

run_all-Agrees :
    (env : Env) (repo : Repo) (force : Bool) (hashes tasks : Assoc String String) (s : State)
    (policy : WarmingPolicy) (key : String) (b : Bool)
    → all_allowed env policy tasks ≡ true
    → lookup key (run_all env repo force hashes tasks s).0 ≡ some b
    → (allows env.matches policy key ≡ true)
      × (success_of
            (lookup (repo.id, key) (run_all env repo force hashes tasks s).1.db.warmed_packages)
          ≡ some b)
unfolding run_all lookup
run_all-Agrees env repo force hashes [] s policy key b allowed h = cc
run_all-Agrees env repo force hashes (task ∷ tasks) s policy key b allowed h =
    run_tasks-Agrees env policy repo.id force hashes (task ∷ tasks) key
      ([], demanded repo force (task ∷ tasks) s.db) allowed (λ c none_yet. cc) b h

-- A package that a warming run answers for is allowed by the rules of its repository, the run
-- was forced or automatic warming is on, and its warm-up record says what the run answers.
pub warm_packages-allows :
    (env : Env) (repo : Repo) (packages : Assoc String String) (force : Bool)
    (hashes : Assoc String String) (s : State) (key : String) (success : Bool)
    → lookup key (warm_packages env repo packages force hashes s).0 ≡ some success
    → (allows env.matches (policy_of repo s.db) key ≡ true)
      × ((force || repo.prefetch) ≡ true)
      × (success_of (
            lookup
              (repo.id, key)
              (warm_packages env repo packages force hashes s).1.db.warmed_packages)
          ≡ some success)
unfolding warm_packages
warm_packages-allows env repo packages force hashes s key success h =
    let policy = policy_of repo s.db in
    let tasks = tasks_of env policy packages in
    elim (Bool-cases (force || repo.prefetch)) [
      | inl on ↦
          let both =
            run_all-Agrees env repo force hashes tasks s policy key success
              (all_allowed-tasks_of env policy packages) (ground (arith, h, on)) in
          rw on (both.0, refl, both.1)
      | inr off ↦ ground (arith, h, off, empty key)
    ]
