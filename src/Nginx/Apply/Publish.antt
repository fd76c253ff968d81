-- ===== src/Nginx/Apply/Publish.antt =====
-- A publication of nginx/apply.py that succeeds, and the next run after it.
use mathlib.Core.Path.{fun_ext}
use repowatch.Prelude.{
  ◌≡◌, refl, ◌∙◌, ap, String, true, false, Option, none, some, List, [], ◌∷◌, arith, Bool-cases,
  inl, inr, Option-cases, ◌≢◌, beq_refl, text_keys,
}
use repowatch.Nginx.Files.{
  Output, active, purge, dedup, probe_conf, probe_js, File, current, previous, file_keys, Machine,
  write, write_status, content,
}
use repowatch.Nginx.Apply.{
  changed, unchanged, attempt, commit, Plan, Job, jobs, saved_jobs, publish, roll_back,
  save_previous, save_one, transaction, success_status, apply, matches, rendered_digest,
}
use repowatch.Nginx.Apply.Rollback.{
  View, put, content-write, content-check_and_reload, content-write_status,
}

writes : List Job → View → View
writes [] w = w
writes (j ∷ js) w = writes js (put (current j.output) (some j.text) w)

abbrev backup : Job → View → View
backup j w g = elim j.original [ none ↦ w g | some text ↦ put (previous j.output) (some text) w g ]

saves : List Job → View → View
saves [] w = w
saves (j ∷ js) w = saves js (backup j w)

publish-writes :
    (js written : List Job) (m : Machine)
    → (publish js written m).succeeded ≡ true
    → content (publish js written m).machine ≡ writes js (content m)
unfolding publish writes
publish-writes [] written m h = refl
publish-writes (j ∷ js) written m h = elim (Bool-cases (write (current j.output) j.text m).1) [
  | inl good ↦ rw good (
      publish-writes js (j ∷ written) (write (current j.output) j.text m).0 (rw good at h)
      ∙ ap (writes js) (fun_ext (λ g. content-write (current j.output) g j.text m good)))
  | inr bad ↦ absurd (ground arith)
]

content-save_one :
    (j : Job) (m : Machine) (g : File)
    → (save_one j m).1 ≡ true
    → content (save_one j m).0 g ≡ backup j (content m) g
unfolding save_one
content-save_one j m g h = elim (Option-cases j.original) [
  | inl e ↦ ground arith
  | inr (text, e) ↦ ground (arith, content-write (previous j.output) g text m)
]

save_previous-saves :
    (js : List Job) (m : Machine)
    → (save_previous js m).1 ≡ true
    → content (save_previous js m).0 ≡ saves js (content m)
unfolding save_previous saves
save_previous-saves [] m h = refl
save_previous-saves (j ∷ js) m h = elim (Bool-cases (save_one j m).1) [
  | inl good ↦ rw good (
      save_previous-saves js (save_one j m).0 (rw good at h)
      ∙ ap (saves js) (fun_ext (λ g. content-save_one j m g good)))
  | inr bad ↦ absurd (ground arith)
]

-- The view after a whole publication.
abbrev published : Plan → Machine → View
published p m = saves (saved_jobs p m) (writes (jobs p m) (content m))

attempt-writes :
    (p : Plan) (m : Machine)
    → (attempt p m).1 ≡ true
    → content (attempt p m).0 ≡ writes (jobs p m) (content m)
unfolding attempt
attempt-writes p m h =
    let r = publish (jobs p m) [] m in
    elim (Bool-cases r.succeeded) [
      | inl good ↦ rw good (
          fun_ext (λ g. content-check_and_reload r.machine g) ∙ publish-writes (jobs p m) [] m good)
      | inr bad ↦ absurd (ground arith)
    ]

commit-saves :
    (p : Plan) (before m : Machine)
    → (commit p before m).1 ≡ changed
    → (content (commit p before m).0 ≡ saves (saved_jobs p before) (content m))
      × ((commit p before m).0.status ≡ some (success_status p))
unfolding commit
commit-saves p before m h =
    let s = save_previous (saved_jobs p before) m in
    elim (Bool-cases s.1) [
      | inl good ↦ (
        rw good (
            fun_ext (λ g. content-write_status (success_status p) s.0 g)
            ∙ save_previous-saves (saved_jobs p before) m good),
        unfold write_status in ground arith,
      )
      | inr bad ↦ absurd (ground arith)
    ]

-- The backup of a file: what it held, or the older backup if there was no file.
abbrev pub backup_of : Option String → Option String → Option String
backup_of none older = older
backup_of (some text) older = some text

-- What a successful run leaves behind.
pub record IsPublished (p : Plan) (before after : Machine) (o : Output) : Type 0 where
  pub rendered : content after (current o) ≡ some (p.candidate o)
  pub saved :
      content after (previous o)
      ≡ backup_of (content before (current o)) (content before (previous o))
  pub status : after.status ≡ some (success_status p)

roll_back-ne-changed :
    (p : Plan) (old : Option String) (js : List Job) (m : Machine)
    → (roll_back p old js m).1 ≢ changed
unfolding roll_back
roll_back-ne-changed p old js m h = ground arith

transaction-published :
    (p : Plan) (m : Machine)
    → (transaction p m).1 ≡ changed
    → (content (transaction p m).0 ≡ published p m)
      × ((transaction p m).0.status ≡ some (success_status p))
unfolding transaction
transaction-published p m h = elim (Bool-cases (attempt p m).1) [
  | inl good ↦
      let c = commit-saves p m (attempt p m).0 (rw (good, transaction) at h) in
      (
        rw (good, transaction) (c.0 ∙ ap (saves (saved_jobs p m)) (attempt-writes p m good)),
        rw (good, transaction) c.1,
      )
  | inr bad ↦ absurd (roll_back-ne-changed p _ _ (attempt p m).0 (rw (bad, transaction) at h))
]

published-current :
    (p : Plan) (m : Machine) (o : Output) → published p m (current o) ≡ some (p.candidate o)
unfolding saves writes
published-current p m active = ground arith
published-current p m purge = ground arith
published-current p m dedup = ground arith
published-current p m probe_conf = ground arith
published-current p m probe_js = ground arith

published-previous :
    (p : Plan) (m : Machine) (o : Output)
    → published p m (previous o) ≡ backup_of (content m (current o)) (content m (previous o))
unfolding saves writes
published-previous p m active = ground arith
published-previous p m purge = ground arith
published-previous p m dedup = ground arith
published-previous p m probe_conf = ground arith
published-previous p m probe_js = ground arith

-- Only a whole transaction answers that the configuration changed.
apply-transaction :
    (p : Plan) (m : Machine)
    → (apply p m).1 ≡ changed
    → ((transaction p m).1 ≡ changed) × ((apply p m).0 ≡ (transaction p m).0)
unfolding apply
apply-transaction p m h = ground arith

-- A run that answers that the configuration changed has put the rendered text in every managed
-- file, the text before in its backup (an older backup stays if there was no file), and the
-- success of this plan in the status.
pub apply-IsPublished :
    (p : Plan) (m : Machine) (o : Output)
    → (apply p m).1 ≡ changed
    → IsPublished p m (apply p m).0 o
apply-IsPublished p m o h =
    let (done, same) = apply-transaction p m h in
    let (files, status) = transaction-published p m done in
    record {
      rendered = rw same (ap (λ (w : View). w (current o)) files ∙ published-current p m o);
      saved = rw same (ap (λ (w : View). w (previous o)) files ∙ published-previous p m o);
      status = rw same status;
    }

matches-published :
    (p : Plan) (after : Machine) (inputs : String)
    → ((o : Output) → content after (current o) ≡ some (p.candidate o))
    → after.status ≡ some (success_status p)
    → p.inputs ≡ some inputs
    → p.inputs_after ≡ some inputs
    → matches p after ≡ true
unfolding matches
matches-published p after inputs files status i j = ground (
  arith,
  files active,
  files purge,
  files dedup,
  files probe_conf,
  files probe_js,
  beq_refl inputs,
  beq_refl (rendered_digest p),
)

apply-settings :
    (p : Plan) (m : Machine)
    → (apply p m).1 ≡ changed
    → (p.enabled ≡ true) × (p.policy_agrees ≡ true)
unfolding apply
apply-settings p m h = ground arith

apply-matches :
    (p : Plan) (m : Machine)
    → (p.enabled ≡ true) × (p.policy_agrees ≡ true)
    → p.force ≡ false
    → matches p m ≡ true
    → apply p m ≡ (m, unchanged)
unfolding apply
apply-matches p m s f h = ground arith

-- After a run without force that changed the configuration, with inputs that could be read and
-- stayed the same, the next run of the same plan changes nothing, writes no file and runs no
-- command.
pub apply-apply :
    (p : Plan) (m : Machine) (inputs : String)
    → (apply p m).1 ≡ changed
    → p.force ≡ false
    → p.inputs ≡ some inputs
    → p.inputs_after ≡ some inputs
    → apply p (apply p m).0 ≡ ((apply p m).0, unchanged)
apply-apply p m inputs h f i j =
    let after = (apply p m).0 in
    let same =
      matches-published p after inputs (λ o. (apply-IsPublished p m o h).rendered)
        (apply-IsPublished p m active h).status i j in
    apply-matches p after (apply-settings p m h) f same
