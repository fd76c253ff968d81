-- ===== src/Scheduler/Tests.antt =====
-- A day of a dispatcher with two repositories.
use repowatch.Prelude.{
  ℕ, ◌≡◌, ◌≤◌, refl, true, false, none, some, List, [], ◌∷◌, ◌==◌, text_keys, nat_keys, lookup,
  contains, is_some, keys, insert, remove,
}
use repowatch.Slots.{new as new_slots}
use repowatch.Scheduler.{
  Task, new, Config, reconcile, close, returned, cancelled, pending, reap, reap_all, assign,
  cancel_unwanted, cancel_once, start_all, start, idle, finish,
}
use repowatch.Scheduler.Due.{RepoConfig, Clock, is_due, ids_of, due_repositories}
use repowatch.Scheduler.Closed.{runs}
use repowatch.Scheduler.Runs.{
  Event, tick, end, step, run, are_loaded, is_unique, one_task_runs, close-stops,
}
use repowatch.Scheduler.Reconciled.{reconcile-cancels, reconcile-starts}

abbrev core : RepoConfig
core = record { id = "core"; check_interval = none }

abbrev extra : RepoConfig
extra = record { id = "extra"; check_interval = some 60 }

abbrev both : Config
both = record { repos = core ∷ extra ∷ []; check_interval = 300; check_concurrency = 4 }

abbrev only_core : Config
only_core = record { repos = core ∷ []; check_interval = 300; check_concurrency = 4 }

-- No repository has been checked yet.
abbrev clock : Clock
clock = record { now = 1000; summaries = []; fromisoformat = λ text. none }

-- Two tasks start; the first ends.
abbrev morning : List Event
morning = tick both clock ∷ end 0 returned ∷ []

abbrev second : Task
second = record { repo = "extra"; status = pending; cancels = 0 }

abbrev number : ℕ
number = 1

one_task_runs_example : (number ≡ number) × (second.cancels ≤ 1)
unfolding lookup are_loaded is_unique contains ids_of run step reconcile reap reap_all assign
    cancel_unwanted cancel_once start_all start idle finish due_repositories is_due keys insert
    remove new_slots
one_task_runs_example =
    one_task_runs morning number number second second refl refl refl refl refl refl

close-stops_example : runs 1 (close (λ n. cancelled) (run morning new)) ≡ false
unfolding are_loaded is_unique contains ids_of
close-stops_example = close-stops morning (λ n. cancelled) 1 refl

-- extra is no longer configured while its task runs.
abbrev asked : Task
asked = record { repo = "extra"; status = pending; cancels = 1 }

reconcile-cancels_example : (asked.cancels == 0) ≡ false
unfolding lookup are_loaded is_unique contains ids_of run step reconcile reap reap_all assign
    cancel_unwanted cancel_once start_all start idle finish due_repositories is_due keys insert
    remove new_slots
reconcile-cancels_example =
    reconcile-cancels morning only_core clock 1 asked refl refl refl refl refl

reconcile-starts_example :
    is_some (lookup "core" (reconcile only_core clock (run morning new)).0.tasks) ≡ true
unfolding lookup are_loaded is_unique contains ids_of run step reconcile reap reap_all assign
    cancel_unwanted cancel_once start_all start idle finish due_repositories is_due keys insert
    remove new_slots
reconcile-starts_example = reconcile-starts morning only_core clock [] [] core refl refl refl refl
