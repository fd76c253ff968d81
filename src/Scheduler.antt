-- ===== src/Scheduler.antt =====
-- runtime/scheduler.py: the tasks of the repositories. A task is known by its number; `tasks` maps a
-- repository to the number of its task, `heap` a number to what the task is like.
pub mod Due
pub mod Single
pub mod Closed
pub mod Runs
pub mod Reconciled
pub mod Tests
use repowatch.Prelude.{
  ℕ, ◌+◌, suc, String, Bool, true, false, not, ◌&&◌, ◌||◌, Option, none, some, List, [], ◌∷◌,
  if◌then◌else◌, ◌==◌, nat_keys, text_keys, Assoc, lookup, insert, remove, keys, contains, is_some,
}
use repowatch.Slots
use repowatch.Slots.{Slots}
use repowatch.Scheduler.Due.{RepoConfig, Clock, due_repositories, ids_of}

-- How a task ends: with its result, with the error of the database, or cancelled.
pub data End : Type 0 where
  returned : End
  failed : End
  cancelled : End

pub data Status : Type 0 where
  pending : Status
  ended : End → Status

-- `cancels` is the number that `cancelling()` answers.
pub record Task : Type 0 where
  pub repo : String
  pub status : Status
  pub cancels : ℕ

pub record Dispatcher : Type 0 where
  pub tasks : Assoc String ℕ
  pub heap : Assoc ℕ Task
  pub next : ℕ
  pub slots : Option Slots
  pub automatic_warm_repos : List String

abbrev pub new : Dispatcher
new = record { tasks = []; heap = []; next = 0; slots = none; automatic_warm_repos = [] }

abbrev pub is_done : Status → Bool
is_done pending = false
is_done (ended e) = true

abbrev pub is_fatal : Status → Bool
is_fatal (ended failed) = true
is_fatal _ = false

abbrev pub task_of : String → Dispatcher → Option Task
task_of r d = elim (lookup r d.tasks) [ none ↦ none | some n ↦ lookup n d.heap ]

abbrev pub forget : String → Dispatcher → Dispatcher
forget r d = record d { tasks = remove r d.tasks }

-- The flag says that the error of the database is raised.
abbrev pub reap_task : String → Option Task → Dispatcher → Dispatcher × Bool
reap_task r none d = (d, false)
reap_task r (some t) d = if is_done t.status then (forget r d, is_fatal t.status) else (d, false)

unfoldable pub reap_all : List String → Dispatcher → Dispatcher × Bool
reap_all [] d = (d, false)
reap_all (r ∷ rs) d =
    let (d', raised) = reap_task r (task_of r d) d in
    let rest = reap_all rs d' in if raised then (d', true) else rest

unfoldable pub reap : Dispatcher → Dispatcher × Bool
unfolding reap_all
reap d = reap_all (keys d.tasks) d

-- Only a task that runs counts a request to cancel it.
abbrev pub cancel : ℕ → Option Task → Dispatcher → Dispatcher
cancel n none d = d
cancel n (some t) d =
    if is_done t.status
    then d
    else (record d { heap = insert n (record t { cancels = t.cancels + 1 }) d.heap })

abbrev pub cancels_of : Option Task → ℕ
cancels_of none = 0
cancels_of (some t) = t.cancels

-- `if not task.cancelling(): task.cancel()`.
abbrev pub cancel_once_at : Option ℕ → Dispatcher → Dispatcher
cancel_once_at none d = d
cancel_once_at (some n) d =
    if cancels_of (lookup n d.heap) == 0 then cancel n (lookup n d.heap) d else d

unfoldable pub cancel_once : String → Dispatcher → Dispatcher
cancel_once r d = cancel_once_at (lookup r d.tasks) d

unfoldable pub cancel_unwanted : List String → List String → Dispatcher → Dispatcher
unfolding cancel_once
cancel_unwanted wanted [] d = d
cancel_unwanted wanted (r ∷ rs) d =
    let d' = cancel_once r d in cancel_unwanted wanted rs (if contains r wanted then d else d')

unfoldable pub start : String → Dispatcher → Dispatcher
start r d = record d {
  tasks = insert r d.next d.tasks;
  heap = insert d.next (record { repo = r; status = pending; cancels = 0 }) d.heap;
  next = suc d.next;
}

unfoldable pub start_all : List String → Dispatcher → Dispatcher
unfolding start
start_all [] d = d
start_all (r ∷ rs) d = start_all rs (start r d)

-- `none` is the ValueError of a size below one.
abbrev pub resized : ℕ → Option Slots → Option Slots
resized n none = Slots.new n
resized n (some s) = Slots.resize n s

pub record Config : Type 0 where
  pub repos : List RepoConfig
  pub check_interval : ℕ
  pub check_concurrency : ℕ

-- The repositories without a task.
unfoldable pub idle : Assoc String ℕ → List RepoConfig → List RepoConfig
idle tasks [] = []
idle tasks (repo ∷ repos) =
    let rest = idle tasks repos in if is_some (lookup repo.id tasks) then rest else repo ∷ rest

-- What follows the reaping and the resizing of the slots.
unfoldable pub assign : Config → Clock → Dispatcher → Dispatcher
unfolding cancel_unwanted idle start_all
assign c clock d =
    let d' = cancel_unwanted (ids_of c.repos) (keys d.tasks) d in
    start_all (due_repositories c.check_interval clock (idle d'.tasks c.repos)).0 d'

pub data Raised : Type 0 where
  database_error : Raised
  value_error : Raised

unfoldable pub reconcile : Config → Clock → Dispatcher → Dispatcher × Option Raised
unfolding reap assign
reconcile c clock d =
    let (d', raised) = reap (record d { automatic_warm_repos = ids_of c.repos }) in
    if raised then (d', some database_error) else (elim (resized c.check_concurrency d'.slots) [
      | none ↦ (d', some value_error)
      | some s ↦ (assign c clock (record d' { slots = some s }), none)
    ])

unfoldable pub cancel_all : List String → Dispatcher → Dispatcher
unfolding cancel_once
cancel_all [] d = d
cancel_all (r ∷ rs) d = cancel_all rs (cancel_once r d)

-- A task ends once, as the program it runs decides.
abbrev pub ended_as : End → Task → Task
ended_as e t = if is_done t.status then t else (record t { status = ended e })

abbrev pub finish_task : ℕ → End → Option Task → Dispatcher → Dispatcher
finish_task n e none d = d
finish_task n e (some t) d = record d { heap = insert n (ended_as e t) d.heap }

unfoldable pub finish : ℕ → End → Dispatcher → Dispatcher
finish n e d = finish_task n e (lookup n d.heap) d

-- The gather of close waits until each of the tasks has ended.
unfoldable pub drain : (ℕ → End) → Assoc String ℕ → Dispatcher → Dispatcher
unfolding finish
drain results [] d = d
drain results ((r, n) ∷ tasks) d = drain results tasks (finish n (results n) d)

unfoldable pub close : (ℕ → End) → Dispatcher → Dispatcher
unfolding cancel_all drain
close results d =
    let d' = drain results d.tasks (cancel_all (keys d.tasks) d) in record d' { tasks = [] }
