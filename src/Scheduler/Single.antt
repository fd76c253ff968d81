-- ===== src/Scheduler/Single.antt =====
-- runtime/scheduler.py: a repository never has two tasks that run, and none is cancelled twice.
use repowatch.Prelude.{
  ℕ, ◌+◌, ◌≤◌, ◌≡◌, refl, String, true, false, Option, none, some, List, [], ◌∷◌, arith, ◌==◌,
  nat_keys, text_keys, nat_eq_iff, Assoc, lookup, insert, contains, lookup-insert, lookup-remove,
  eq_iff, Option-cases, Bool-cases, inl, inr,
}
use repowatch.Scheduler.{
  End, Task, Dispatcher, pending, is_done, task_of, forget, reap_task, reap_all, cancel, cancels_of,
  cancel_once_at, cancel_once, cancel_unwanted, start, idle, cancel_all, ended_as, finish_task,
  finish, drain,
}

-- Numbers from `next` on are free, a task that runs is the one of its repository, and has been asked
-- to stop at most once.
pub record IsSingle (d : Dispatcher) : Type 0 where
  pub free : (n : ℕ) → d.next ≤ n → lookup n d.heap ≡ none
  pub running :
      (n : ℕ) (t : Task)
      → lookup n d.heap ≡ some t
      → is_done t.status ≡ false
      → lookup t.repo d.tasks ≡ some n
  pub asked : (n : ℕ) (t : Task) → lookup n d.heap ≡ some t → t.cancels ≤ 1

IsSingle-forget :
    (r : String) (n : ℕ) (t : Task) (d : Dispatcher)
    → lookup r d.tasks ≡ some n
    → lookup n d.heap ≡ some t
    → is_done t.status ≡ true
    → IsSingle d
    → IsSingle (forget r d)
IsSingle-forget r n t d at is done s = record {
  free = s.free;
  running = λ m u heap runs. ground (
    arith,
    s.running m u heap runs,
    lookup-remove r u.repo d.tasks,
    eq_iff r u.repo,
    at,
    is,
    done,
    heap,
    runs,
  );
  asked = s.asked;
}

IsSingle-reap_task :
    (r : String) (o : Option Task) (d : Dispatcher)
    → task_of r d ≡ o
    → IsSingle d
    → IsSingle (reap_task r o d).0
IsSingle-reap_task r none d e s = s
IsSingle-reap_task r (some t) d e s = elim (Bool-cases (is_done t.status)) [
  | inl done ↦ elim (Option-cases (lookup r d.tasks)) [
    | inl gone ↦ ground (arith, gone, e)
    | inr (n, at) ↦ rw done (IsSingle-forget r n t d at (ground (arith, at, e)) done s)
  ]
  | inr runs ↦ rw runs s
]

pub IsSingle-reap_all :
    (rs : List String) (d : Dispatcher) → IsSingle d → IsSingle (reap_all rs d).0
unfolding reap_all
IsSingle-reap_all [] d s = s
IsSingle-reap_all (r ∷ rs) d s =
    let one = reap_task r (task_of r d) d in
    let s' : IsSingle one.0 = IsSingle-reap_task r (task_of r d) d refl s in
    elim (Bool-cases one.1) [
      | inl raised ↦ rw raised s'
      | inr on ↦ rw on (IsSingle-reap_all rs one.0 s')
    ]

-- A task that keeps its repository and does not run again may change.
IsSingle-put :
    (n : ℕ) (t u : Task) (d : Dispatcher)
    → lookup n d.heap ≡ some t
    → u.repo ≡ t.repo
    → (is_done u.status ≡ false → is_done t.status ≡ false)
    → u.cancels ≤ 1
    → IsSingle d
    → IsSingle (record d { heap = insert n u d.heap })
IsSingle-put n t u d at same still few s = record {
  free =
      λ m le. ground (arith, s.free m le, s.free n, at, lookup-insert n m u d.heap, nat_eq_iff n m);
  running = λ m v heap runs. elim (Bool-cases (n == m)) [
    | inl here ↦
        let found : u ≡ v = ground (arith, heap, lookup-insert n m u d.heap, here) in
        let number : n ≡ m = ground (arith, nat_eq_iff n m) in
        let runs' : is_done u.status ≡ false = rw found runs in
        ground (arith, s.running n t at (still runs'), same, found, number)
    | inr other ↦ s.running m v (ground (arith, heap, lookup-insert n m u d.heap, other)) runs
  ];
  asked = λ m v heap.
      ground (arith, s.asked m v, few, heap, lookup-insert n m u d.heap, nat_eq_iff n m);
}

IsSingle-cancel :
    (n : ℕ) (o : Option Task) (d : Dispatcher)
    → lookup n d.heap ≡ o
    → cancels_of o ≡ 0
    → IsSingle d
    → IsSingle (cancel n o d)
IsSingle-cancel n none d at zero s = s
IsSingle-cancel n (some t) d at zero s = elim (Bool-cases (is_done t.status)) [
  | inl done ↦ rw done s
  | inr runs ↦
      rw runs (
        IsSingle-put n t (record t { cancels = t.cancels + 1 }) d at refl (λ h. h) (ground arith) s)
]

IsSingle-cancel_once_at :
    (o : Option ℕ) (d : Dispatcher) → IsSingle d → IsSingle (cancel_once_at o d)
IsSingle-cancel_once_at none d s = s
IsSingle-cancel_once_at (some n) d s = elim (Bool-cases (cancels_of (lookup n d.heap) == 0)) [
  | inl zero ↦ rw zero (
      IsSingle-cancel n (lookup n d.heap) d refl
        (ground (arith, zero, nat_eq_iff (cancels_of (lookup n d.heap)) 0)) s)
  | inr asked ↦ rw asked s
]

IsSingle-cancel_once : (r : String) (d : Dispatcher) → IsSingle d → IsSingle (cancel_once r d)
unfolding cancel_once
IsSingle-cancel_once r d s = IsSingle-cancel_once_at (lookup r d.tasks) d s

pub IsSingle-cancel_unwanted :
    (wanted rs : List String) (d : Dispatcher) → IsSingle d → IsSingle (cancel_unwanted wanted rs d)
unfolding cancel_unwanted
IsSingle-cancel_unwanted wanted [] d s = s
IsSingle-cancel_unwanted wanted (r ∷ rs) d s = elim (Bool-cases (contains r wanted)) [
  | inl known ↦ rw known (IsSingle-cancel_unwanted wanted rs d s)
  | inr gone ↦
      rw gone (IsSingle-cancel_unwanted wanted rs (cancel_once r d) (IsSingle-cancel_once r d s))
]

pub IsSingle-cancel_all :
    (rs : List String) (d : Dispatcher) → IsSingle d → IsSingle (cancel_all rs d)
unfolding cancel_all
IsSingle-cancel_all [] d s = s
IsSingle-cancel_all (r ∷ rs) d s =
    IsSingle-cancel_all rs (cancel_once r d) (IsSingle-cancel_once r d s)

IsSingle-finish_task :
    (n : ℕ) (end : End) (o : Option Task) (d : Dispatcher)
    → lookup n d.heap ≡ o
    → IsSingle d
    → IsSingle (finish_task n end o d)
IsSingle-finish_task n end none d e s = s
IsSingle-finish_task n end (some t) d e s =
    IsSingle-put n t (ended_as end t) d e (ground arith) (ground arith)
      (ground (arith, s.asked n t e)) s

pub IsSingle-finish : (n : ℕ) (end : End) (d : Dispatcher) → IsSingle d → IsSingle (finish n end d)
unfolding finish
IsSingle-finish n end d s = IsSingle-finish_task n end (lookup n d.heap) d refl s

pub IsSingle-drain :
    (results : ℕ → End) (tasks : Assoc String ℕ) (d : Dispatcher)
    → IsSingle d
    → IsSingle (drain results tasks d)
unfolding drain
IsSingle-drain results [] d s = s
IsSingle-drain results ((r, n) ∷ tasks) d s =
    IsSingle-drain results tasks (finish n (results n) d) (IsSingle-finish n (results n) d s)

pub IsSingle-start :
    (r : String) (d : Dispatcher) → lookup r d.tasks ≡ none → IsSingle d → IsSingle (start r d)
unfolding start
IsSingle-start r d idle s =
    let fresh : Task = record { repo = r; status = pending; cancels = 0 } in
    record {
      free = λ n le. ground (
        arith,
        s.free n (omega (arith, le)),
        lookup-insert d.next n fresh d.heap,
        le,
        nat_eq_iff d.next n,
      );
      running = λ n t heap runs. elim (Bool-cases (d.next == n)) [
        | inl here ↦ ground (
          arith,
          heap,
          here,
          lookup-insert d.next n fresh d.heap,
          lookup-insert r t.repo d.next d.tasks,
          nat_eq_iff d.next n,
          eq_iff r t.repo,
        )
        | inr other ↦
            let old : lookup n d.heap ≡ some t =
              ground (arith, heap, other, lookup-insert d.next n fresh d.heap) in
            ground (
              arith,
              s.running n t old runs,
              idle,
              lookup-insert r t.repo d.next d.tasks,
              eq_iff r t.repo,
            )
      ];
      asked = λ n t heap. ground (arith, s.asked n t, heap, lookup-insert d.next n fresh d.heap);
    }
