-- ===== src/Slots/Bounds.antt =====
-- The counters of operations/slots.py are the numbers of tasks that hold a slot, and admission
-- keeps them within the limits of the largest size in force.
use repowatch.Prelude.{
  ℕ, zero, suc, ◌+◌, ◌-◌, ◌/◌, ◌≤◌, max, ◌≡◌, refl, some, List, [], ◌∷◌, ◌++◌, map, arith,
  get_elem?, set, All, Option-cases, inl, inr, true,
}
use repowatch.Slots.{Kind, check, warm, Slots, new, available}
use repowatch.Slots.Tasks.{
  Phase, ready, waiting, holding, done, Task, Pool, Event, spawn, run, finish, cancel, resized,
  wake, turn, leave, abandon, on_run, on_finish, on_cancel, step, steps,
}

abbrev holds : Kind → Kind → Phase → ℕ
holds check check holding = 1
holds warm warm holding = 1
holds _ _ _ = 0

-- The number of tasks of one kind that are inside the body of `_hold`.
abbrev pub holders : Kind → List Task → ℕ
holders k [] = 0
holders k (t ∷ ts) = holds k t.kind t.phase + holders k ts

holders-append : (k : Kind) (xs ys : List Task) → holders k (xs ++ ys) ≡ holders k xs + holders k ys
holders-append k [] ys = omega arith
holders-append k (x ∷ xs) ys = omega (arith, holders-append k xs ys)

holders-set :
    (k : Kind) (ts : List Task) (i : ℕ) (t u : Task)
    → get_elem? ts i ≡ some t
    → holders k (set ts i u) + holds k t.kind t.phase ≡ holders k ts + holds k u.kind u.phase
holders-set k [] i t u h = cc
holders-set k (x ∷ xs) zero t u h = ground arith
holders-set k (x ∷ xs) (suc i) t u h = omega (arith, holders-set k xs i t u h)

holds-wake : (k : Kind) (t : Task) → holds k (wake t).kind (wake t).phase ≡ holds k t.kind t.phase
holds-wake check t = ground arith
holds-wake warm t = ground arith

holders-wake : (k : Kind) (ts : List Task) → holders k (map wake ts) ≡ holders k ts
holders-wake k [] = refl
holders-wake k (t ∷ ts) = omega (arith, holds-wake k t, holders-wake k ts)

-- The state of the pool under sizes of at most `cap`.
pub record IsBounded (cap : ℕ) (p : Pool) : Type 0 where
  pub size_pos : 1 ≤ p.slots.size
  pub size_le : p.slots.size ≤ cap
  pub checks_held : p.slots.checks ≡ holders check p.tasks
  pub warms_held : p.slots.warms ≡ holders warm p.tasks
  pub checks_le : p.slots.checks ≤ cap
  pub warms_le : p.slots.warms ≤ max 1 (cap - (cap + 3) / 4)
  pub total_le : p.slots.checks + p.slots.warms ≤ max 2 cap

abbrev pub AtMost : ℕ → Event → Type 0
AtMost cap (resized n) = n ≤ cap
AtMost cap _ = Unit

module _ (cap : ℕ) where
  turn-IsBounded :
      (k : Kind) (i : ℕ) (t : Task) (p : Pool)
      → t.kind ≡ k
      → t.phase ≡ ready
      → get_elem? p.tasks i ≡ some t
      → IsBounded cap p
      → IsBounded cap (turn i t p)
  unfolding available
  turn-IsBounded check i t p ek ep h b = ground (
    arith,
    holders-set check p.tasks i t (record t { phase = holding }) h,
    holders-set warm p.tasks i t (record t { phase = holding }) h,
    holders-set check p.tasks i t (record t { phase = waiting }) h,
    holders-set warm p.tasks i t (record t { phase = waiting }) h,
  )
  turn-IsBounded warm i t p ek ep h b = ground (
    arith,
    holders-set check p.tasks i t (record t { phase = holding }) h,
    holders-set warm p.tasks i t (record t { phase = holding }) h,
    holders-set check p.tasks i t (record t { phase = waiting }) h,
    holders-set warm p.tasks i t (record t { phase = waiting }) h,
  )

  leave-IsBounded :
      (k : Kind) (i : ℕ) (t : Task) (p : Pool)
      → t.kind ≡ k
      → t.phase ≡ holding
      → get_elem? p.tasks i ≡ some t
      → IsBounded cap p
      → IsBounded cap (leave i t p)
  leave-IsBounded check i t p ek ep h b =
      let gone = record t { phase = done } in
      ground (
        arith,
        holders-set check p.tasks i t gone h,
        holders-set warm p.tasks i t gone h,
        holders-wake check (set p.tasks i gone),
        holders-wake warm (set p.tasks i gone),
      )
  leave-IsBounded warm i t p ek ep h b =
      let gone = record t { phase = done } in
      ground (
        arith,
        holders-set check p.tasks i t gone h,
        holders-set warm p.tasks i t gone h,
        holders-wake check (set p.tasks i gone),
        holders-wake warm (set p.tasks i gone),
      )

  abandon-IsBounded :
      (i : ℕ) (t : Task) (p : Pool)
      → holds check t.kind t.phase ≡ 0
      → holds warm t.kind t.phase ≡ 0
      → get_elem? p.tasks i ≡ some t
      → IsBounded cap p
      → IsBounded cap (abandon i t p)
  abandon-IsBounded i t p c w h b =
      let gone = record t { phase = done } in
      ground (arith, holders-set check p.tasks i t gone h, holders-set warm p.tasks i t gone h)

  run-IsBounded :
      (f : Phase) (i : ℕ) (t : Task) (p : Pool)
      → t.phase ≡ f
      → get_elem? p.tasks i ≡ some t
      → IsBounded cap p
      → IsBounded cap (on_run i t f p)
  run-IsBounded ready i t p e h b = turn-IsBounded t.kind i t p refl e h b
  run-IsBounded _ i t p e h b = b

  finish-IsBounded :
      (f : Phase) (i : ℕ) (t : Task) (p : Pool)
      → t.phase ≡ f
      → get_elem? p.tasks i ≡ some t
      → IsBounded cap p
      → IsBounded cap (on_finish i t f p)
  finish-IsBounded holding i t p e h b = leave-IsBounded t.kind i t p refl e h b
  finish-IsBounded _ i t p e h b = b

  cancel-IsBounded :
      (f : Phase) (i : ℕ) (t : Task) (p : Pool)
      → t.phase ≡ f
      → get_elem? p.tasks i ≡ some t
      → IsBounded cap p
      → IsBounded cap (on_cancel i t f p)
  cancel-IsBounded ready i t p e h b = abandon-IsBounded i t p (ground arith) (ground arith) h b
  cancel-IsBounded waiting i t p e h b = abandon-IsBounded i t p (ground arith) (ground arith) h b
  cancel-IsBounded holding i t p e h b = leave-IsBounded t.kind i t p refl e h b
  cancel-IsBounded done i t p e h b = b

  -- Every event keeps the pool within its bounds, a resize too if the new size is within the cap.
  step-IsBounded :
      (p : Pool) (e : Event) → AtMost cap e → IsBounded cap p → IsBounded cap (step p e)
  unfolding step
  step-IsBounded p (spawn k) a b = ground (
    arith,
    holders-append check p.tasks ((record { kind = k; phase = ready }) ∷ []),
    holders-append warm p.tasks ((record { kind = k; phase = ready }) ∷ []),
  )
  step-IsBounded p (run i) a b = elim (Option-cases (get_elem? p.tasks i)) [
    | inl e ↦ rw e b
    | inr (t, e) ↦ rw e (run-IsBounded t.phase i t p refl e b)
  ]
  step-IsBounded p (finish i) a b = elim (Option-cases (get_elem? p.tasks i)) [
    | inl e ↦ rw e b
    | inr (t, e) ↦ rw e (finish-IsBounded t.phase i t p refl e b)
  ]
  step-IsBounded p (cancel i) a b = elim (Option-cases (get_elem? p.tasks i)) [
    | inl e ↦ rw e b
    | inr (t, e) ↦ rw e (cancel-IsBounded t.phase i t p refl e b)
  ]
  step-IsBounded p (resized n) a b =
      ground (arith, holders-wake check p.tasks, holders-wake warm p.tasks)

  steps-IsBounded :
      (es : List Event) (p : Pool)
      → All (AtMost cap) es
      → IsBounded cap p
      → IsBounded cap (steps p es)
  unfolding steps
  steps-IsBounded [] p a b = b
  steps-IsBounded (e ∷ es) p a b = steps-IsBounded es (step p e) a.1 (step-IsBounded p e a.0 b)

-- A pool that has just been made, with no task yet.
abbrev pub fresh : Slots → Pool
fresh s = record { slots = s; tasks = [] }

-- On a new pool of n slots with n ≤ cap, after any schedule of tasks and any resizes up to cap,
-- the size stays between 1 and cap, the counters are the numbers of tasks that hold a slot, at
-- most cap of them are checks, at most max(1, cap - ⌈cap / 4⌉) are warming, and at most max(2,
-- cap) hold one.
pub pool-IsBounded :
    (cap n : ℕ) (s : Slots) (es : List Event)
    → new n ≡ some s
    → n ≤ cap
    → All (AtMost cap) es
    → IsBounded cap (steps (fresh s) es)
unfolding new
pool-IsBounded cap n s es h le a = steps-IsBounded cap es (fresh s) a (ground arith)

-- On a new pool of n slots whose sizes stay within n, when the size is n and no task of the kind
-- check holds a slot, the pool has room for a check.
pub check-available :
    (n : ℕ) (s : Slots) (es : List Event)
    → new n ≡ some s
    → All (AtMost n) es
    → (steps (fresh s) es).slots.size ≡ n
    → holders check (steps (fresh s) es).tasks ≡ 0
    → available (steps (fresh s) es).slots check ≡ true
unfolding available
check-available n s es h a same none_run =
    let b = pool-IsBounded n n s es h (omega arith) a in ground (arith, b)
