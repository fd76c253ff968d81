-- ===== src/Scheduler/Closed.antt =====
-- runtime/scheduler.py: after `close` no task runs.
use repowatch.Prelude.{
  ℕ, ◌≡◌, refl, ◌∙◌, String, Bool, true, false, not, ◌&&◌, Option, none, some, List, [], ◌∷◌, arith,
  ◌==◌, nat_keys, text_keys, nat_eq_iff, Assoc, lookup, keys, contains, lookup-insert, Option-cases,
  inl, inr,
}
use repowatch.Scheduler.{
  End, Task, Dispatcher, is_done, cancel, cancel_once, cancel_once_at, cancel_all, ended_as, finish,
  drain, close,
}
use repowatch.Scheduler.Single.{IsSingle, IsSingle-cancel_all, IsSingle-drain}

abbrev pub is_running : Option Task → Bool
is_running none = false
is_running (some t) = not (is_done t.status)

unfoldable pub runs : ℕ → Dispatcher → Bool
runs n d = is_running (lookup n d.heap)

unfoldable numbers : Assoc String ℕ → List ℕ
numbers [] = []
numbers ((r, n) ∷ tasks) = n ∷ numbers tasks

contains-numbers :
    (r : String) (n : ℕ) (tasks : Assoc String ℕ)
    → lookup r tasks ≡ some n
    → contains n (numbers tasks) ≡ true
unfolding numbers contains lookup
contains-numbers r n [] h = cc
contains-numbers r n ((q, m) ∷ tasks) h = ground (arith, contains-numbers r n tasks, nat_eq_iff m n)

tasks-cancel : (n : ℕ) (o : Option Task) (d : Dispatcher) → (cancel n o d).tasks ≡ d.tasks
tasks-cancel n none d = refl
tasks-cancel n (some t) d = ground arith

pub tasks-cancel_once_at : (o : Option ℕ) (d : Dispatcher) → (cancel_once_at o d).tasks ≡ d.tasks
tasks-cancel_once_at none d = refl
tasks-cancel_once_at (some n) d = ground (arith, tasks-cancel n (lookup n d.heap) d)

tasks-cancel_all : (rs : List String) (d : Dispatcher) → (cancel_all rs d).tasks ≡ d.tasks
unfolding cancel_all cancel_once
tasks-cancel_all [] d = refl
tasks-cancel_all (r ∷ rs) d =
    tasks-cancel_all rs (cancel_once_at (lookup r d.tasks) d)
    ∙ tasks-cancel_once_at (lookup r d.tasks) d

tasks-finish : (n : ℕ) (e : End) (d : Dispatcher) → (finish n e d).tasks ≡ d.tasks
unfolding finish
tasks-finish n e d = ground arith

runs-finish :
    (n m : ℕ) (e : End) (d : Dispatcher) → runs n (finish m e d) ≡ (runs n d && not (m == n))
unfolding runs finish
runs-finish n m e d = elim (Option-cases (lookup m d.heap)) [
  | inl gone ↦ ground (arith, gone, nat_eq_iff m n)
  | inr (t, at) ↦ ground (arith, at, lookup-insert m n (ended_as e t) d.heap, nat_eq_iff m n)
]

runs-drain :
    (results : ℕ → End) (n : ℕ) (tasks : Assoc String ℕ) (d : Dispatcher)
    → runs n (drain results tasks d) ≡ (runs n d && not (contains n (numbers tasks)))
unfolding drain numbers contains
runs-drain results n [] d = ground arith
runs-drain results n ((r, m) ∷ tasks) d =
    ground
      (arith, runs-drain results n tasks (finish m (results m) d), runs-finish n m (results m) d)

contains-numbers-runs :
    (n : ℕ) (d : Dispatcher) → IsSingle d → runs n d ≡ true → contains n (numbers d.tasks) ≡ true
unfolding runs
contains-numbers-runs n d s h = elim (Option-cases (lookup n d.heap)) [
  | inl gone ↦ ground (arith, gone, h)
  | inr (t, at) ↦ contains-numbers t.repo n d.tasks (s.running n t at (ground (arith, at, h)))
]

pub runs-close :
    (results : ℕ → End) (n : ℕ) (d : Dispatcher) → IsSingle d → runs n (close results d) ≡ false
unfolding close runs
runs-close results n d s =
    let d' = cancel_all (keys d.tasks) d in
    ground (
      arith,
      runs-drain results n d.tasks d',
      contains-numbers-runs n d' (IsSingle-cancel_all (keys d.tasks) d s),
      tasks-cancel_all (keys d.tasks) d,
    )

pub IsSingle-close : (results : ℕ → End) (d : Dispatcher) → IsSingle d → IsSingle (close results d)
unfolding close runs
IsSingle-close results d s =
    let after =
      IsSingle-drain results d.tasks (cancel_all (keys d.tasks) d)
        (IsSingle-cancel_all (keys d.tasks) d s) in
    record {
      free = after.free;
      running = λ n t heap going. ground (arith, runs-close results n d s, heap, going);
      asked = after.asked;
    }
