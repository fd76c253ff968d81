-- ===== src/Nginx/Apply/Rollback.antt =====
-- A failed publication of nginx/apply.py leaves every managed file as it was.
use mathlib.Core.Path.{fun_ext}
use repowatch.Prelude.{
  ◌≡◌, refl, sym, ◌∙◌, ap, String, true, false, Option, none, some, List, [], ◌∷◌, arith,
  if◌then◌else◌, ◌==◌, lookup-insert, lookup-remove, All, Bool-cases, inl, inr, Option-cases, ◌≢◌,
}
use repowatch.Nginx.Files.{
  active, File, current, file_keys, Status, Machine, write, write_status, content, file_eq_iff,
}
use repowatch.Nginx.Apply.{
  attempt, commit, restored, Plan, Job, jobs, publish, restore_one, restore, check_and_reload,
  rendered_digest, roll_back, transaction,
}

-- What each file holds.
abbrev pub View : Type 0
View = File → Option String

abbrev pub put : File → Option String → View → View
put f v w g = if f == g then v else w g

-- The view after a list of originals has been put back, in order.
undone : List Job → View → View
undone [] w = w
undone (j ∷ js) w = undone js (put (current j.output) j.original w)

pub content-write :
    (f g : File) (text : String) (m : Machine)
    → (write f text m).1 ≡ true
    → content (write f text m).0 g ≡ put f (some text) (content m) g
unfolding write content
content-write f g text m h = ground (arith, lookup-insert f g text m.texts)

content-write_failed :
    (f g : File) (text : String) (m : Machine)
    → (write f text m).1 ≡ false
    → content (write f text m).0 g ≡ content m g
unfolding write content
content-write_failed f g text m h = ground arith

content-restore_one :
    (j : Job) (m : Machine) (g : File)
    → (restore_one j m).1 ≡ true
    → content (restore_one j m).0 g ≡ put (current j.output) j.original (content m) g
unfolding restore_one content
content-restore_one j m g h = elim (Option-cases j.original) [
  | inl e ↦ ground (arith, lookup-remove (current j.output) g m.texts)
  | inr (text, e) ↦ ground (arith, lookup-insert (current j.output) g text m.texts)
]

content-restore :
    (js : List Job) (m : Machine) (g : File)
    → (restore js m).1 ≡ true
    → content (restore js m).0 g ≡ undone js (content m) g
unfolding restore undone
content-restore [] m g h = refl
content-restore (j ∷ js) m g h =
    content-restore js (restore_one j m).0 g (ground arith)
    ∙ ap (λ (w : View). undone js w g) (fun_ext (λ f. content-restore_one j m f (ground arith)))

-- The jobs still to do: each file holds what its job calls the original, and no file comes twice.
abbrev Differs : Job → Job → Type 0
Differs j k = (current j.output == current k.output) ≡ false

abbrev Pending : Machine → List Job → Type 0
Pending m [] = Unit
Pending m (j ∷ js) = (content m (current j.output) ≡ j.original) × All (Differs j) js × Pending m js

Pending-write :
    (j : Job) (js : List Job) (m : Machine)
    → All (Differs j) js
    → Pending m js
    → (write (current j.output) j.text m).1 ≡ true
    → Pending (write (current j.output) j.text m).0 js
Pending-write j [] m d p h = tt
Pending-write j (k ∷ js) m d p h = (
  content-write (current j.output) (current k.output) j.text m h ∙ rw (d.0) p.0,
  p.1,
  Pending-write j js m d.1 p.2 h,
)

unwrite :
    (j : Job) (m : Machine)
    → content m (current j.output) ≡ j.original
    → (write (current j.output) j.text m).1 ≡ true
    → (g : File)
    → put (current j.output) j.original (content (write (current j.output) j.text m).0) g
      ≡ content m g
unwrite j m o h g = elim (Bool-cases (current j.output == g)) [
  | inl same ↦ rw same (sym o ∙ ap (content m) ((file_eq_iff (current j.output) g).0 same))
  | inr other ↦ rw other (content-write (current j.output) g j.text m h ∙ rw other refl)
]

-- Putting back what is written so far gives the view at the start.
publish-undone :
    (js written : List Job) (m : Machine) (start : View)
    → Pending m js
    → undone written (content m) ≡ start
    → undone (publish js written m).latest_first (content (publish js written m).machine) ≡ start
unfolding publish
publish-undone [] written m start p u = u
publish-undone (j ∷ js) written m start p u =
    elim (Bool-cases (write (current j.output) j.text m).1) [
      | inl good ↦ rw good (
          publish-undone js (j ∷ written) (write (current j.output) j.text m).0 start
            (Pending-write j js m p.1 p.2 good)
            (unfold undone in ap (undone written) (fun_ext (unwrite j m p.0 good)) ∙ u))
      | inr bad ↦ rw bad (
          ap (undone written)
            (fun_ext (λ g. content-write_failed (current j.output) g j.text m bad))
          ∙ u)
    ]

pub content-check_and_reload :
    (m : Machine) (g : File) → content (check_and_reload m).0 g ≡ content m g
unfolding check_and_reload content
content-check_and_reload m g = ground arith

pub content-write_status :
    (st : Status) (m : Machine) (g : File) → content (write_status st m).0 g ≡ content m g
unfolding write_status content
content-write_status st m g = ground arith

content-roll_back :
    (p : Plan) (old : Option String) (written : List Job) (m : Machine) (g : File)
    → (roll_back p old written m).1 ≡ restored
    → content (roll_back p old written m).0 g ≡ undone written (content m) g
unfolding roll_back
content-roll_back p old written m g h =
    let (m', clean) = restore written m in
    elim (Bool-cases clean) [
      | inl good ↦ ground (
        arith,
        content-restore written m g,
        content-check_and_reload m' g,
        content-write_status
            (record {
              succeeded = false;
              digest = rendered_digest p;
              inputs = none;
              rollback_failed = false;
            })
            m' g,
        content-write_status
            (record {
              succeeded = false;
              digest = rendered_digest p;
              inputs = none;
              rollback_failed = false;
            })
            (check_and_reload m').0 g,
      )
      | inr bad ↦ absurd (ground arith)
    ]

jobs-Pending : (p : Plan) (m : Machine) → Pending m (jobs p m)
jobs-Pending p m = (
  refl,
  (refl, (refl, (refl, (refl, tt)))),
  (
    refl,
    (refl, (refl, (refl, tt))),
    (refl, (refl, (refl, tt)), (refl, (refl, tt), (refl, tt, tt))),
  ),
)

content-attempt :
    (p : Plan) (m : Machine) (g : File)
    → content (attempt p m).0 g ≡ content (publish (jobs p m) [] m).machine g
unfolding attempt
content-attempt p m g = ground (arith, content-check_and_reload (publish (jobs p m) [] m).machine g)

commit-ne-restored : (p : Plan) (before m : Machine) → (commit p before m).1 ≢ restored
unfolding commit
commit-ne-restored p before m h = ground arith

-- A transaction that answers that the previous configuration is restored leaves in every managed
-- file and every backup what was there before.
pub transaction_restored :
    (p : Plan) (m : Machine) (g : File)
    → (transaction p m).1 ≡ restored
    → content (transaction p m).0 g ≡ content m g
unfolding transaction
transaction_restored p m g h =
    let (m', good) = attempt p m in
    let r = publish (jobs p m) [] m in
    let back =
      publish-undone (jobs p m) [] m (content m) (jobs-Pending p m) (unfold undone in refl) in
    elim (Bool-cases good) [
      | inl e ↦ absurd (commit-ne-restored p m m' (rw (e, transaction) at h))
      | inr e ↦
          rw (e, transaction)
            (content-roll_back p (content m (current active)) r.latest_first m' g
                (rw (e, transaction) at h)
              ∙ ap (λ (w : View). undone r.latest_first w g) (fun_ext (content-attempt p m))
              ∙ ap (λ (w : View). w g) back)
    ]
