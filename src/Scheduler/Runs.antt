-- ===== src/Scheduler/Runs.antt =====
-- runtime/scheduler.py: the histories of a dispatcher, its ticks, the ends of its tasks and its end.
use repowatch.Prelude.{
  ℕ, ◌≤◌, ◌≡◌, refl, String, Bool, true, false, not, ◌&&◌, ◌||◌, Option, none, some, List, [], ◌∷◌,
  arith, ◌==◌, nat_keys, text_keys, Assoc, lookup, keys, lookup-insert, contains, is_some, eq_iff,
  Option-cases, Bool-cases, inl, inr,
}
use repowatch.Scheduler.Due.{RepoConfig, Clock, due_repositories, ids_of, is_due, sort_out}
use repowatch.Scheduler.{
  End, Task, Dispatcher, new, is_done, reap_all, reap, cancel_unwanted, start, start_all, Config,
  idle, assign, resized, reconcile, finish, close,
}
use repowatch.Scheduler.Closed.{runs, runs-close, IsSingle-close}
use repowatch.Scheduler.Single.{
  IsSingle, IsSingle-reap_all, IsSingle-cancel_unwanted, IsSingle-finish, IsSingle-start,
}

pub data Event : Type 0 where
  tick : Config → Clock → Event
  end : ℕ → End → Event
  stop : (ℕ → End) → Event

unfoldable pub step : Event → Dispatcher → Dispatcher
step (tick c clock) d = (reconcile c clock d).0
step (end n e) d = finish n e d
step (stop results) d = close results d

unfoldable pub run : List Event → Dispatcher → Dispatcher
unfolding step
run [] d = d
run (e ∷ es) d = run es (step e d)

-- The loading of a configuration refuses two repositories with one id.
unfoldable pub is_unique : List String → Bool
is_unique [] = true
is_unique (r ∷ rs) = not (contains r rs) && is_unique rs

unfoldable pub are_loaded : List Event → Bool
unfolding is_unique
are_loaded [] = true
are_loaded (tick c clock ∷ es) = is_unique (ids_of c.repos) && are_loaded es
are_loaded (end n e ∷ es) = are_loaded es
are_loaded (stop results ∷ es) = are_loaded es

pub contains-idle :
    (r : String) (tasks : Assoc String ℕ) (repos : List RepoConfig)
    → contains r (ids_of (idle tasks repos))
      ≡ (contains r (ids_of repos) && not (is_some (lookup r tasks)))
unfolding contains ids_of idle
contains-idle r tasks [] = refl
contains-idle r tasks (repo ∷ repos) = ground (arith, contains-idle r tasks repos, eq_iff repo.id r)

is_unique-idle :
    (tasks : Assoc String ℕ) (repos : List RepoConfig)
    → is_unique (ids_of repos) ≡ true
    → is_unique (ids_of (idle tasks repos)) ≡ true
unfolding is_unique ids_of idle
is_unique-idle tasks [] u = refl
is_unique-idle tasks (repo ∷ repos) u =
    ground (arith, is_unique-idle tasks repos, contains-idle repo.id tasks repos)

pub contains-sort_out :
    (r q : String) (o : Option Bool) (rest : List String × List String)
    → contains r (sort_out q o rest).0 ≡ true
    → (q == r || contains r rest.0) ≡ true
unfolding contains
contains-sort_out r q none (due, failed) h = ground arith
contains-sort_out r q (some true) (due, failed) h = ground arith
contains-sort_out r q (some false) (due, failed) h = ground arith

pub contains-due_repositories :
    (r : String) (default : ℕ) (clock : Clock) (repos : List RepoConfig)
    → contains r (due_repositories default clock repos).0 ≡ true
    → contains r (ids_of repos) ≡ true
unfolding contains ids_of due_repositories
contains-due_repositories r default clock [] h = cc
contains-due_repositories r default clock (repo ∷ repos) h = ground (
  arith,
  contains-sort_out r repo.id (is_due default clock repo) (due_repositories default clock repos) h,
  contains-due_repositories r default clock repos,
)

is_unique-sort_out :
    (q : String) (o : Option Bool) (rest : List String × List String)
    → contains q rest.0 ≡ false
    → is_unique rest.0 ≡ true
    → is_unique (sort_out q o rest).0 ≡ true
unfolding is_unique
is_unique-sort_out q none (due, failed) c u = u
is_unique-sort_out q (some true) (due, failed) c u = ground arith
is_unique-sort_out q (some false) (due, failed) c u = u

is_unique-due_repositories :
    (default : ℕ) (clock : Clock) (repos : List RepoConfig)
    → is_unique (ids_of repos) ≡ true
    → is_unique (due_repositories default clock repos).0 ≡ true
unfolding is_unique ids_of due_repositories
is_unique-due_repositories default clock [] u = refl
is_unique-due_repositories default clock (repo ∷ repos) u =
    is_unique-sort_out repo.id (is_due default clock repo) (due_repositories default clock repos)
      (ground (arith, u, contains-due_repositories repo.id default clock repos))
      (is_unique-due_repositories default clock repos (ground arith))

IsSingle-start_all :
    (rs : List String) (d : Dispatcher)
    → is_unique rs ≡ true
    → ((r : String) → contains r rs ≡ true → lookup r d.tasks ≡ none)
    → IsSingle d
    → IsSingle (start_all rs d)
unfolding start_all is_unique contains start
IsSingle-start_all [] d u known s = s
IsSingle-start_all (r ∷ rs) d u known s =
    IsSingle-start_all rs (start r d) (ground arith)
      (λ q there.
        ground
          (arith, known q (ground arith), lookup-insert r q d.next d.tasks, eq_iff r q, u, there))
      (IsSingle-start r d (known r (ground (arith, eq_iff r r))) s)

IsSingle-assign :
    (c : Config) (clock : Clock) (d : Dispatcher)
    → is_unique (ids_of c.repos) ≡ true
    → IsSingle d
    → IsSingle (assign c clock d)
unfolding assign
IsSingle-assign c clock d u s =
    let d' = cancel_unwanted (ids_of c.repos) (keys d.tasks) d in
    let free = idle d'.tasks c.repos in
    IsSingle-start_all (due_repositories c.check_interval clock free).0 d'
      (is_unique-due_repositories c.check_interval clock free (is_unique-idle d'.tasks c.repos u))
      (λ r due. ground (
        arith,
        contains-due_repositories r c.check_interval clock free due,
        contains-idle r d'.tasks c.repos,
      ))
      (IsSingle-cancel_unwanted (ids_of c.repos) (keys d.tasks) d s)

IsSingle-reconcile :
    (c : Config) (clock : Clock) (d : Dispatcher)
    → is_unique (ids_of c.repos) ≡ true
    → IsSingle d
    → IsSingle (reconcile c clock d).0
unfolding reconcile reap
IsSingle-reconcile c clock d u s =
    let told = record d { automatic_warm_repos = ids_of c.repos } in
    let told_single : IsSingle told = record {
      free = s.free;
      running = s.running;
      asked = s.asked;
    } in
    let reaped = reap_all (keys d.tasks) told in
    let r : IsSingle reaped.0 = IsSingle-reap_all (keys d.tasks) told told_single in
    elim (Bool-cases reaped.1) [
      | inl raised ↦ rw raised r
      | inr on ↦ elim (Option-cases (resized c.check_concurrency reaped.0.slots)) [
        | inl e ↦ rw (on, e) r
        | inr (slots, e) ↦
            rw (on, e)
              (IsSingle-assign c clock (record reaped.0 { slots = some slots }) u
                (record { free = r.free; running = r.running; asked = r.asked }))
      ]
    ]

IsSingle-new : IsSingle new
unfolding lookup
IsSingle-new = record {
  free = λ n le. refl;
  running = λ n t heap runs. ground (arith, heap);
  asked = λ n t heap. ground (arith, heap);
}

IsSingle-step :
    (e : Event) (d : Dispatcher) → are_loaded (e ∷ []) ≡ true → IsSingle d → IsSingle (step e d)
unfolding step are_loaded
IsSingle-step (tick c clock) d u s = IsSingle-reconcile c clock d (ground arith) s
IsSingle-step (end n e) d u s = IsSingle-finish n e d s
IsSingle-step (stop results) d u s = IsSingle-close results d s

are_loaded-cons :
    (e : Event) (es : List Event) → are_loaded (e ∷ es) ≡ (are_loaded (e ∷ []) && are_loaded es)
unfolding are_loaded
are_loaded-cons (tick c clock) es = ground arith
are_loaded-cons (end n e) es = refl
are_loaded-cons (stop results) es = refl

IsSingle-run :
    (es : List Event) (d : Dispatcher) → are_loaded es ≡ true → IsSingle d → IsSingle (run es d)
unfolding run
IsSingle-run [] d u s = s
IsSingle-run (e ∷ es) d u s =
    IsSingle-run es (step e d) (ground (arith, are_loaded-cons e es))
      (IsSingle-step e d (ground (arith, are_loaded-cons e es)) s)

pub run-IsSingle : (es : List Event) → are_loaded es ≡ true → IsSingle (run es new)
run-IsSingle es u = IsSingle-run es new u IsSingle-new

-- In any history of a new dispatcher whose configurations have no repository twice, two tasks
-- that run for one repository are the same task, and it has been asked to stop at most once.
pub one_task_runs :
    (es : List Event) (m n : ℕ) (t u : Task)
    → are_loaded es ≡ true
    → lookup m (run es new).heap ≡ some t
    → lookup n (run es new).heap ≡ some u
    → is_done t.status ≡ false
    → is_done u.status ≡ false
    → t.repo ≡ u.repo
    → (m ≡ n) × (t.cancels ≤ 1)
one_task_runs es m n t u loaded at_m at_n runs_m runs_n same =
    let s = run-IsSingle es loaded in
    (ground (arith, s.running m t at_m runs_m, s.running n u at_n runs_n, same), s.asked m t at_m)

-- After any history of a new dispatcher whose configurations have no repository twice, no task
-- runs once close has returned.
pub close-stops :
    (es : List Event) (results : ℕ → End) (n : ℕ)
    → are_loaded es ≡ true
    → runs n (close results (run es new)) ≡ false
close-stops es results n loaded = runs-close results n (run es new) (run-IsSingle es loaded)
