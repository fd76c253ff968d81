-- ===== src/Slots/Wakeup.antt =====
-- No wake-up is lost in operations/slots.py: a task inside `_changed.wait()` could not be admitted.
use repowatch.Prelude.{
  ℕ, ◌≡◌, refl, Option-cases, inl, inr, Bool, true, false, some, List, [], ◌∷◌, map, arith,
  get_elem?, set, All, All-map, All-set, All-append, All-get_elem?, Bool-cases, ltb, nat_eq,
}
use repowatch.Slots.{Kind, check, warm, Slots, new, resize, available, acquire, release}
use repowatch.Slots.Tasks.{
  Phase, ready, waiting, holding, done, Task, Pool, Event, spawn, run, finish, cancel, resized,
  wake, turn, signal, leave, abandon, on_run, on_finish, on_cancel, step, steps,
}
use repowatch.Slots.Bounds.{fresh}

abbrev Stuck : Slots → Kind → Phase → Type 0
Stuck s k waiting = available s k ≡ false
Stuck s k _ = Unit

-- If the task waits, the pool has no room for it.
abbrev pub Blocked : Slots → Task → Type 0
Blocked s t = Stuck s t.kind t.phase

NoneLost : Pool → Type 0
NoneLost p = All (Blocked p.slots) p.tasks

-- Admission only takes room away, and room does not depend on the flag.
Stuck-acquire : (j k : Kind) (f : Phase) (s : Slots) → Stuck s k f → Stuck (acquire j s) k f
unfolding available
Stuck-acquire check check waiting s h = ground arith
Stuck-acquire check warm waiting s h = ground arith
Stuck-acquire warm check waiting s h = ground arith
Stuck-acquire warm warm waiting s h = ground arith
Stuck-acquire _ _ ready s h = tt
Stuck-acquire _ _ holding s h = tt
Stuck-acquire _ _ done s h = tt

Stuck-flag :
    (k : Kind) (f : Phase) (s : Slots) (b : Bool)
    → Stuck s k f
    → Stuck (record s { changed = b }) k f
unfolding available
Stuck-flag check waiting s b h = h
Stuck-flag warm waiting s b h = h
Stuck-flag _ ready s b h = tt
Stuck-flag _ holding s b h = tt
Stuck-flag _ done s b h = tt

awake : (k : Kind) (f : Phase) (s : Slots) → Blocked s (wake (record { kind = k; phase = f }))
awake k ready s = tt
awake k waiting s = tt
awake k holding s = tt
awake k done s = tt

All-awake : (s : Slots) (ts : List Task) → All (Blocked s) (map wake ts)
All-awake s [] = tt
All-awake s (t ∷ ts) = (awake t.kind t.phase s, All-awake s ts)

turn-NoneLost : (i : ℕ) (t : Task) (p : Pool) → NoneLost p → NoneLost (turn i t p)
unfolding NoneLost
turn-NoneLost i t p h = elim (Bool-cases (available p.slots t.kind)) [
  | inl e ↦ rw e (
      All-set (Blocked (acquire t.kind p.slots)) p.tasks i _ tt (
        All-map (Blocked p.slots) _ p.tasks (λ u b. Stuck-acquire t.kind u.kind u.phase p.slots b)
          h))
  | inr e ↦ rw e (
      All-set (Blocked (record p.slots { changed = false })) p.tasks i _
        (Stuck-flag t.kind waiting p.slots false e)
        (All-map (Blocked p.slots) _ p.tasks (λ u b. Stuck-flag u.kind u.phase p.slots false b) h))
]

abandon-NoneLost : (i : ℕ) (t : Task) (p : Pool) → NoneLost p → NoneLost (abandon i t p)
unfolding NoneLost
abandon-NoneLost i t p h = All-set (Blocked p.slots) p.tasks i _ tt h

signal-NoneLost : (p : Pool) → p.slots.changed ≡ true → NoneLost (signal p)
unfolding NoneLost available
signal-NoneLost p set_flag = rw set_flag (All-awake p.slots p.tasks)

signal-NoneLost_kept : (p : Pool) → NoneLost p → NoneLost (signal p)
unfolding NoneLost available
signal-NoneLost_kept p h = elim (Bool-cases p.slots.changed) [
  | inl up ↦ rw up (All-awake p.slots p.tasks)
  | inr down ↦ rw down h
]

changed-release : (k : Kind) (s : Slots) → (release k s).changed ≡ true
changed-release check s = refl
changed-release warm s = refl

leave-NoneLost : (i : ℕ) (t : Task) (p : Pool) → NoneLost (leave i t p)
leave-NoneLost i t p =
    let left : Pool = record {
      slots = release t.kind p.slots;
      tasks = set p.tasks i (record t { phase = done });
    } in
    signal-NoneLost left (changed-release t.kind p.slots)

run-NoneLost : (f : Phase) (i : ℕ) (t : Task) (p : Pool) → NoneLost p → NoneLost (on_run i t f p)
run-NoneLost ready i t p h = turn-NoneLost i t p h
run-NoneLost _ i t p h = h

finish-NoneLost :
    (f : Phase) (i : ℕ) (t : Task) (p : Pool) → NoneLost p → NoneLost (on_finish i t f p)
finish-NoneLost holding i t p h = leave-NoneLost i t p
finish-NoneLost _ i t p h = h

cancel-NoneLost :
    (f : Phase) (i : ℕ) (t : Task) (p : Pool) → NoneLost p → NoneLost (on_cancel i t f p)
cancel-NoneLost holding i t p h = leave-NoneLost i t p
cancel-NoneLost ready i t p h = abandon-NoneLost i t p h
cancel-NoneLost waiting i t p h = abandon-NoneLost i t p h
cancel-NoneLost done i t p h = h

resized-NoneLost : (n : ℕ) (p : Pool) → NoneLost p → NoneLost (step p (resized n))
unfolding step
resized-NoneLost n p h = elim (Bool-cases (ltb n 1)) [
  | inl e ↦ rw (e, resize) h
  | inr e ↦ elim (Bool-cases (nat_eq n p.slots.size)) [
    | inl same ↦ rw (e, resize) (rw same (signal-NoneLost_kept p h))
    | inr new_size ↦
        let resized_pool : Pool = record {
          slots = record p.slots { size = n; changed = true };
          tasks = p.tasks;
        } in
        rw (e, resize) (rw new_size (signal-NoneLost resized_pool refl))
  ]
]

step-NoneLost : (p : Pool) (e : Event) → NoneLost p → NoneLost (step p e)
unfolding step
step-NoneLost p (spawn k) h = unfold NoneLost in All-append (Blocked p.slots) p.tasks _ h (tt, tt)
step-NoneLost p (run i) h = elim (Option-cases (get_elem? p.tasks i)) [
  | inl e ↦ rw e h
  | inr (t, e) ↦ rw e (run-NoneLost t.phase i t p h)
]
step-NoneLost p (finish i) h = elim (Option-cases (get_elem? p.tasks i)) [
  | inl e ↦ rw e h
  | inr (t, e) ↦ rw e (finish-NoneLost t.phase i t p h)
]
step-NoneLost p (cancel i) h = elim (Option-cases (get_elem? p.tasks i)) [
  | inl e ↦ rw e h
  | inr (t, e) ↦ rw e (cancel-NoneLost t.phase i t p h)
]
step-NoneLost p (resized n) h = resized-NoneLost n p h

steps-NoneLost : (es : List Event) (p : Pool) → NoneLost p → NoneLost (steps p es)
unfolding steps
steps-NoneLost [] p h = h
steps-NoneLost (e ∷ es) p h = steps-NoneLost es (step p e) (step-NoneLost p e h)

-- After any schedule of a new pool, a task that waits on the event is one that the pool has no
-- room for.
pub waiting_not_available :
    (n : ℕ) (s : Slots) (es : List Event) (i : ℕ) (k : Kind)
    → new n ≡ some s
    → get_elem? (steps (fresh s) es).tasks i ≡ some (record { kind = k; phase = waiting })
    → available (steps (fresh s) es).slots k ≡ false
waiting_not_available n s es i k h at =
    All-get_elem? (Blocked (steps (fresh s) es).slots) (steps (fresh s) es).tasks i
      (unfold NoneLost in steps-NoneLost es (fresh s) tt) at
