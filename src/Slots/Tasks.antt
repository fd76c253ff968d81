-- ===== src/Slots/Tasks.antt =====
-- operations/slots.py: the tasks that run `_hold`, on one event loop. A schedule is a list of
-- events, each the run of one task up to its next `await`.
use mathlib.Core.List.{foldl}
use repowatch.Prelude.{
  ℕ, Option, none, some, List, [], ◌∷◌, ◌++◌, map, if◌then◌else◌, get_elem?, set, false,
}
use repowatch.Slots.{Kind, Slots, resize, available, acquire, release}

-- `ready`: the task runs next at the loop's test. `waiting`: it is inside `_changed.wait()`.
pub data Phase : Type 0 where
  ready waiting holding done : Phase

pub record Task : Type 0 where
  pub kind : Kind
  pub phase : Phase

pub record Pool : Type 0 where
  pub slots : Slots
  pub tasks : List Task

pub data Event : Type 0 where
  spawn : Kind → Event
  run : ℕ → Event
  finish : ℕ → Event
  cancel : ℕ → Event
  resized : ℕ → Event

-- `Event.set` resumes every task that waits; each then goes back to its test.
abbrev pub wake : Task → Task
wake t = elim t.phase [ waiting ↦ record t { phase = ready } | _ ↦ t ]

-- One turn of the `while not self._available(kind)` loop.
abbrev pub turn : ℕ → Task → Pool → Pool
turn i t p =
    if available p.slots t.kind
    then (record {
      slots = acquire t.kind p.slots;
      tasks = set p.tasks i (record t { phase = holding });
    })
    else (record {
      slots = record p.slots { changed = false };
      tasks = set p.tasks i (record t { phase = waiting });
    })

-- An event that is set lets every waiting task go on. A task waits only after it has cleared the
-- event, so none is left waiting while the flag is up.
abbrev pub signal : Pool → Pool
signal p = if p.slots.changed then record p { tasks = map wake p.tasks } else p

-- The body ends, by success, error or cancellation.
abbrev pub leave : ℕ → Task → Pool → Pool
leave i t p =
    signal
      (record { slots = release t.kind p.slots; tasks = set p.tasks i (record t { phase = done }) })

-- A task that is cancelled before it holds a slot has nothing to give back.
abbrev pub abandon : ℕ → Task → Pool → Pool
abandon i t p = record p { tasks = set p.tasks i (record t { phase = done }) }

abbrev pub on_run : ℕ → Task → Phase → Pool → Pool
on_run i t ready p = turn i t p
on_run i t _ p = p

abbrev pub on_finish : ℕ → Task → Phase → Pool → Pool
on_finish i t holding p = leave i t p
on_finish i t _ p = p

abbrev pub on_cancel : ℕ → Task → Phase → Pool → Pool
on_cancel i t ready p = abandon i t p
on_cancel i t waiting p = abandon i t p
on_cancel i t holding p = leave i t p
on_cancel i t done p = p

abbrev on_task : (ℕ → Task → Phase → Pool → Pool) → ℕ → Option Task → Pool → Pool
on_task f i none p = p
on_task f i (some t) p = f i t t.phase p

abbrev on_resize : ℕ → Option Slots → Pool → Pool
on_resize n none p = p
on_resize n (some s) p = signal (record { slots = s; tasks = p.tasks })

unfoldable pub step : Pool → Event → Pool
unfolding resize available
step p (spawn k) = record p { tasks = p.tasks ++ (record { kind = k; phase = ready }) ∷ [] }
step p (run i) = on_task on_run i (get_elem? p.tasks i) p
step p (finish i) = on_task on_finish i (get_elem? p.tasks i) p
step p (cancel i) = on_task on_cancel i (get_elem? p.tasks i) p
step p (resized n) = on_resize n (resize n p.slots) p

unfoldable pub steps : Pool → List Event → Pool
unfolding step
steps = foldl step
