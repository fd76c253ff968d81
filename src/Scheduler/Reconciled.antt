-- ===== src/Scheduler/Reconciled.antt =====
-- runtime/scheduler.py: what holds after a tick that raised nothing.
use repowatch.Prelude.{
  ℕ, ◌+◌, ◌≡◌, ◌⊎◌, refl, String, Bool, true, false, not, ◌||◌, Option, none, some, List, [], ◌∷◌,
  ◌++◌, arith, if◌then◌else◌, ◌==◌, nat_keys, text_keys, nat_eq_iff, Assoc, lookup, keys, contains,
  is_some, lookup-insert, contains-keys, eq_iff, Option-cases, Bool-cases, inl, inr,
}
use repowatch.Scheduler.Due.{RepoConfig, Clock, due_repositories, ids_of, is_due, sort_out}
use repowatch.Scheduler.{
  Task, Dispatcher, new, pending, is_done, cancel, cancels_of, cancel_once, cancel_once_at,
  cancel_unwanted, start, start_all, Config, idle, assign, resized, reap, reap_all, reconcile,
}
use repowatch.Scheduler.Runs.{
  Event, are_loaded, run, run-IsSingle, contains-idle, contains-due_repositories,
}
use repowatch.Scheduler.Single.{IsSingle, IsSingle-reap_all, IsSingle-cancel_unwanted}
use repowatch.Scheduler.Closed.{tasks-cancel_once_at}

-- The task of this repository runs no more, or has been asked to stop.
abbrev asked_task : Option Task → Bool
asked_task none = true
asked_task (some t) = is_done t.status || not (t.cancels == 0)

abbrev asked_at : Option ℕ → Assoc ℕ Task → Bool
asked_at none heap = true
asked_at (some n) heap = asked_task (lookup n heap)

unfoldable asked : String → Dispatcher → Bool
asked r d = asked_at (lookup r d.tasks) d.heap

asked_task-cancel :
    (m n : ℕ) (o : Option Task) (d : Dispatcher)
    → lookup n d.heap ≡ o
    → asked_task (lookup m d.heap) ≡ true
    → asked_task (lookup m (cancel n o d).heap) ≡ true
asked_task-cancel m n none d e h = h
asked_task-cancel m n (some t) d e h =
    ground
      (arith, h, e, lookup-insert n m (record t { cancels = t.cancels + 1 }) d.heap, nat_eq_iff n m)

asked_task_kept :
    (m : ℕ) (o : Option ℕ) (d : Dispatcher)
    → asked_task (lookup m d.heap) ≡ true
    → asked_task (lookup m (cancel_once_at o d).heap) ≡ true
asked_task_kept m none d h = h
asked_task_kept m (some n) d h = ground (arith, h, asked_task-cancel m n (lookup n d.heap) d refl h)

asked_task_now :
    (n : ℕ) (o : Option Task) (d : Dispatcher)
    → lookup n d.heap ≡ o
    → asked_task (lookup n (cancel n o d).heap) ≡ true
asked_task_now n none d e = ground (arith, e)
asked_task_now n (some t) d e =
    ground
      (arith, e, lookup-insert n n (record t { cancels = t.cancels + 1 }) d.heap, nat_eq_iff n n)

asked-cancel_once_at :
    (r : String) (o : Option ℕ) (d : Dispatcher)
    → asked r d ≡ true
    → asked r (cancel_once_at o d) ≡ true
unfolding asked
asked-cancel_once_at r o d h = elim (Option-cases (lookup r d.tasks)) [
  | inl e ↦ ground (arith, e, tasks-cancel_once_at o d)
  | inr (m, e) ↦ ground (arith, e, h, tasks-cancel_once_at o d, asked_task_kept m o d)
]

asked_self :
    (r : String) (d : Dispatcher) (o : Option ℕ)
    → lookup r d.tasks ≡ o
    → asked r (cancel_once_at o d) ≡ true
unfolding asked
asked_self r d none e = ground (arith, e)
asked_self r d (some n) e = ground (
  arith,
  e,
  tasks-cancel_once_at (some n) d,
  asked_task_now n (lookup n d.heap) d refl,
  nat_eq_iff (cancels_of (lookup n d.heap)) 0,
)

asked-cancel_unwanted_kept :
    (wanted rs : List String) (r : String) (d : Dispatcher)
    → asked r d ≡ true
    → asked r (cancel_unwanted wanted rs d) ≡ true
unfolding cancel_unwanted cancel_once
asked-cancel_unwanted_kept wanted [] r d h = h
asked-cancel_unwanted_kept wanted (q ∷ rs) r d h =
    let d' = cancel_once_at (lookup q d.tasks) d in
    asked-cancel_unwanted_kept wanted rs r (if contains q wanted then d else d')
      (ground (arith, h, asked-cancel_once_at r (lookup q d.tasks) d h))

asked-cancel_unwanted :
    (wanted rs : List String) (r : String) (d : Dispatcher)
    → contains r wanted ≡ false
    → contains r rs ≡ true
    → asked r (cancel_unwanted wanted rs d) ≡ true
unfolding cancel_unwanted cancel_once contains
asked-cancel_unwanted wanted [] r d gone there = cc
asked-cancel_unwanted wanted (q ∷ rs) r d gone there =
    let d' = cancel_once_at (lookup q d.tasks) d in
    elim (Bool-cases (q == r)) [
      | inl same ↦
          asked-cancel_unwanted_kept wanted rs r (if contains q wanted then d else d')
            (ground (arith, gone, same, eq_iff q r, asked_self q d (lookup q d.tasks) refl))
      | inr other ↦
          asked-cancel_unwanted wanted rs r (if contains q wanted then d else d') gone
            (ground arith)
    ]

lookup-start_all :
    (rs : List String) (n : ℕ) (t : Task) (d : Dispatcher)
    → lookup n (start_all rs d).heap ≡ some t
    → (lookup n d.heap ≡ some t) ⊎ (contains t.repo rs ≡ true)
unfolding start_all start contains
lookup-start_all [] n t d h = inl h
lookup-start_all (r ∷ rs) n t d h =
    let fresh : Task = record { repo = r; status = pending; cancels = 0 } in
    elim (lookup-start_all rs n t (start r d) h) [
      | inl e ↦ elim (Bool-cases (d.next == n)) [
        | inl here ↦
            inr (ground (arith, e, here, lookup-insert d.next n fresh d.heap, eq_iff r t.repo))
        | inr other ↦ inl (ground (arith, e, other, lookup-insert d.next n fresh d.heap))
      ]
      | inr c ↦ inr (ground arith)
    ]

is_some-start_all :
    (rs : List String) (r : String) (d : Dispatcher)
    → is_some (lookup r (start_all rs d).tasks) ≡ (contains r rs || is_some (lookup r d.tasks))
unfolding start_all start contains
is_some-start_all [] r d = ground arith
is_some-start_all (q ∷ rs) r d =
    ground (arith, is_some-start_all rs r (start q d), lookup-insert q r d.next d.tasks, eq_iff q r)

contains-sort_out_rest :
    (r q : String) (o : Option Bool) (rest : List String × List String)
    → contains r rest.0 ≡ true
    → contains r (sort_out q o rest).0 ≡ true
unfolding contains
contains-sort_out_rest r q none (due, failed) h = h
contains-sort_out_rest r q (some true) (due, failed) h = ground arith
contains-sort_out_rest r q (some false) (due, failed) h = h

contains-due_self :
    (default : ℕ) (clock : Clock) (before after : List RepoConfig) (repo : RepoConfig)
    (tasks : Assoc String ℕ)
    → is_due default clock repo ≡ some true
    → is_some (lookup repo.id tasks) ≡ false
    → contains repo.id (due_repositories default clock (idle tasks (before ++ (repo ∷ after)))).0
      ≡ true
unfolding contains due_repositories idle
contains-due_self default clock [] after repo tasks due free =
    rw (free, due) (ground (arith, eq_iff repo.id repo.id))
contains-due_self default clock (first ∷ before) after repo tasks due free =
    let later = contains-due_self default clock before after repo tasks due free in
    elim (Bool-cases (is_some (lookup first.id tasks))) [
      | inl busy ↦ rw busy later
      | inr is_free ↦ rw is_free (
          contains-sort_out_rest repo.id first.id (is_due default clock first)
            (due_repositories default clock (idle tasks (before ++ (repo ∷ after)))) later)
    ]

tasks-cancel_unwanted :
    (wanted rs : List String) (d : Dispatcher) → (cancel_unwanted wanted rs d).tasks ≡ d.tasks
unfolding cancel_unwanted cancel_once
tasks-cancel_unwanted wanted [] d = refl
tasks-cancel_unwanted wanted (r ∷ rs) d =
    let d' = cancel_once_at (lookup r d.tasks) d in
    ground (
      arith,
      tasks-cancel_unwanted wanted rs (if contains r wanted then d else d'),
      tasks-cancel_once_at (lookup r d.tasks) d,
    )

assign-asked :
    (c : Config) (clock : Clock) (d : Dispatcher) (n : ℕ) (t : Task)
    → IsSingle d
    → lookup n (assign c clock d).heap ≡ some t
    → is_done t.status ≡ false
    → contains t.repo (ids_of c.repos) ≡ false
    → (t.cancels == 0) ≡ false
unfolding assign asked
assign-asked c clock d n t s at running gone =
    let wanted = ids_of c.repos in
    let d' = cancel_unwanted wanted (keys d.tasks) d in
    let free = idle d'.tasks c.repos in
    elim (lookup-start_all (due_repositories c.check_interval clock free).0 n t d' at) [
      | inl old ↦
          let mine = (IsSingle-cancel_unwanted wanted (keys d.tasks) d s).running n t old running in
          ground (
            arith,
            old,
            mine,
            running,
            asked-cancel_unwanted wanted (keys d.tasks) t.repo d gone,
            contains-keys t.repo d.tasks,
            tasks-cancel_unwanted wanted (keys d.tasks) d,
          )
      | inr due ↦ ground (
        arith,
        gone,
        contains-due_repositories t.repo c.check_interval clock free due,
        contains-idle t.repo d'.tasks c.repos,
      )
    ]

assign-starts :
    (c : Config) (clock : Clock) (d : Dispatcher) (before after : List RepoConfig)
    (repo : RepoConfig)
    → c.repos ≡ before ++ (repo ∷ after)
    → is_due c.check_interval clock repo ≡ some true
    → is_some (lookup repo.id (assign c clock d).tasks) ≡ true
unfolding assign
assign-starts c clock d before after repo listed due =
    let d' = cancel_unwanted (ids_of c.repos) (keys d.tasks) d in
    let free = idle d'.tasks c.repos in
    ground (
      arith,
      listed,
      is_some-start_all (due_repositories c.check_interval clock free).0 repo.id d',
      contains-due_self c.check_interval clock before after repo d'.tasks due,
    )

-- A tick that raises nothing assigns work.
reconcile-assign :
    (c : Config) (clock : Clock) (d : Dispatcher)
    → IsSingle d
    → (reconcile c clock d).1 ≡ none
    → (d' : Dispatcher) × IsSingle d' × ((reconcile c clock d).0 ≡ assign c clock d')
unfolding reconcile reap
reconcile-assign c clock d s calm =
    let told = record d { automatic_warm_repos = ids_of c.repos } in
    let told_single : IsSingle told = record {
      free = s.free;
      running = s.running;
      asked = s.asked;
    } in
    let reaped = reap_all (keys d.tasks) told in
    let r : IsSingle reaped.0 = IsSingle-reap_all (keys d.tasks) told told_single in
    elim (Bool-cases reaped.1) [
      | inl raised ↦ ground (arith, raised, calm)
      | inr on ↦ elim (Option-cases (resized c.check_concurrency reaped.0.slots)) [
        | inl e ↦ ground (arith, on, e, calm)
        | inr (slots, e) ↦
            let d' : Dispatcher = record reaped.0 { slots = some slots } in
            (d', record { free = r.free; running = r.running; asked = r.asked }, rw (on, e) refl)
      ]
    ]

-- After a tick that raises nothing, in a history whose configurations have no repository twice,
-- a task that runs for a repository that is not configured has been asked to stop.
pub reconcile-cancels :
    (es : List Event) (c : Config) (clock : Clock) (n : ℕ) (t : Task)
    → are_loaded es ≡ true
    → (reconcile c clock (run es new)).1 ≡ none
    → lookup n (reconcile c clock (run es new)).0.heap ≡ some t
    → is_done t.status ≡ false
    → contains t.repo (ids_of c.repos) ≡ false
    → (t.cancels == 0) ≡ false
reconcile-cancels es c clock n t loaded calm at running gone =
    let (d', s, e) = reconcile-assign c clock (run es new) (run-IsSingle es loaded) calm in
    assign-asked c clock d' n t s (ground (arith, at, e)) running gone

-- After a tick that raises nothing, in a history whose configurations have no repository twice,
-- each configured repository that is due has a task.
pub reconcile-starts :
    (es : List Event) (c : Config) (clock : Clock) (before after : List RepoConfig)
    (repo : RepoConfig)
    → are_loaded es ≡ true
    → (reconcile c clock (run es new)).1 ≡ none
    → c.repos ≡ before ++ (repo ∷ after)
    → is_due c.check_interval clock repo ≡ some true
    → is_some (lookup repo.id (reconcile c clock (run es new)).0.tasks) ≡ true
reconcile-starts es c clock before after repo loaded calm listed due =
    let (d', s, e) = reconcile-assign c clock (run es new) (run-IsSingle es loaded) calm in
    rw e (assign-starts c clock d' before after repo listed due)
