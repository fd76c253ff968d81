-- ===== src/Nginx/Apply.antt =====
-- nginx/apply.py: `apply`, the transaction that publishes the five rendered files, and nginx's own
-- check and reload; nginx/reconcile.py: `matches`, the test that skips it.
pub mod Rollback
pub mod Publish
use repowatch.Prelude.{
  ℕ, suc, ◌+◌, String, Bool, true, false, not, ◌&&◌, ◌||◌, Option, none, some, List, [], ◌∷◌,
  if◌then◌else◌, ◌==◌, text_keys,
}
use repowatch.Nginx.Files.{
  Output, active, purge, dedup, probe_conf, probe_js, File, current, previous, Status, Machine,
  write, unlink, command, write_status, content,
}

pub data Answer : Type 0 where
  changed unchanged bad_policy restored rollback_failed os_error : Answer

-- What one run is given: the settings, the rendered files, the digests of the inputs before and
-- after (none if they cannot be read), and the hash of a list of texts.
pub record Plan : Type 0 where
  pub enabled : Bool
  pub policy_agrees : Bool
  pub force : Bool
  pub candidate : Output → String
  pub inputs : Option String
  pub inputs_after : Option String
  pub hash : List String → String

abbrev pub rendered_digest : Plan → String
rendered_digest p = p.hash (
    p.candidate active
    ∷ p.candidate purge
    ∷ p.candidate dedup
    ∷ p.candidate probe_conf
    ∷ p.candidate probe_js
    ∷ [])

abbrev cons_text : Option String → Option (List String) → Option (List String)
cons_text (some t) (some ts) = some (t ∷ ts)
cons_text _ _ = none

abbrev pub read_all : Machine → List Output → Option (List String)
read_all m [] = some []
read_all m (o ∷ os) = cons_text (content m (current o)) (read_all m os)

abbrev pub outputs : List Output
outputs = active ∷ purge ∷ dedup ∷ probe_conf ∷ probe_js ∷ []

-- None if a file cannot be opened.
unfoldable pub output_digest : (List String → String) → Machine → Option String
output_digest hash m = elim (read_all m outputs) [ none ↦ none | some ts ↦ some (hash ts) ]

abbrev pub same_option : Option String → Option String → Bool
same_option none none = true
same_option (some a) (some b) = a == b
same_option _ _ = false

unfoldable pub matches : Plan → Machine → Bool
unfolding output_digest
matches p m = elim p.inputs [
  | none ↦ false
  | some inputs ↦ elim m.status [
    | none ↦ false
    | some st ↦
        st.succeeded
        && same_option st.inputs (some inputs)
        && same_option (some st.digest) (output_digest p.hash m)
  ]
]

abbrev was_successful : Option Status → Bool
was_successful none = false
was_successful (some st) = st.succeeded

abbrev pub is_published : Plan → Machine → Output → Bool
is_published p m o = same_option (content m (current o)) (some (p.candidate o))

abbrev pub all_published : Plan → Machine → Bool
all_published p m =
    is_published p m active
    && is_published p m purge
    && is_published p m dedup
    && is_published p m probe_conf
    && is_published p m probe_js

-- A file to publish, and its text before.
pub record Job : Type 0 where
  pub output : Output
  pub text : String
  pub original : Option String

abbrev pub job : Plan → Machine → Output → Job
job p m o = record { output = o; text = p.candidate o; original = content m (current o) }

-- The active file comes last.
abbrev pub jobs : Plan → Machine → List Job
jobs p m =
    job p m purge ∷ job p m dedup ∷ job p m probe_conf ∷ job p m probe_js ∷ job p m active ∷ []

pub record Published : Type 0 where
  pub machine : Machine
  pub succeeded : Bool
  pub latest_first : List Job

-- The loop stops at the first write that fails.
unfoldable pub publish : List Job → List Job → Machine → Published
unfolding write
publish [] written m = record { machine = m; succeeded = true; latest_first = written }
publish (j ∷ js) written m =
    let (m', good) = write (current j.output) j.text m in
    let rest = publish js (j ∷ written) m' in
    if good then rest else record { machine = m'; succeeded = false; latest_first = written }

unfoldable pub restore_one : Job → Machine → Machine × Bool
unfolding write unlink
restore_one j m = elim j.original [
  | none ↦ unlink (current j.output) m
  | some text ↦ write (current j.output) text m
]

-- Every file is tried, also after one that fails; the answer is that none failed.
unfoldable pub restore : List Job → Machine → Machine × Bool
unfolding restore_one
restore [] m = (m, true)
restore (j ∷ js) m =
    let (m', good) = restore_one j m in let (m'', others) = restore js m' in (m'', good && others)

-- `nginx -t`, then the reload if that passed.
unfoldable pub check_and_reload : Machine → Machine × Bool
unfolding command
check_and_reload m = let (m', good) = command m in if good then command m' else (m', false)

abbrev is_present : Option String → Bool
is_present none = false
is_present (some _) = true

-- The handler of a failed publication; `old` is the active file before.
unfoldable pub roll_back : Plan → Option String → List Job → Machine → Machine × Answer
unfolding restore check_and_reload write_status
roll_back p old written m =
    let (m', clean) = restore written m in
    let (m'', good) = if clean && is_present old then check_and_reload m' else (m', clean) in
    let status : Status = record {
      succeeded = false;
      digest = rendered_digest p;
      inputs = none;
      rollback_failed = not good;
    } in
    ((write_status status m'').0, if good then restored else rollback_failed)

-- `if old is not None: _write(previous, old)`.
unfoldable pub save_one : Job → Machine → Machine × Bool
unfolding write
save_one j m = elim j.original [ none ↦ (m, true) | some text ↦ write (previous j.output) text m ]

unfoldable pub save_previous : List Job → Machine → Machine × Bool
unfolding save_one
save_previous [] m = (m, true)
save_previous (j ∷ js) m =
    let (m', good) = save_one j m in
    let rest = save_previous js m' in if good then rest else (m', false)

abbrev pub success_status : Plan → Status
success_status p = record {
  succeeded = true;
  digest = rendered_digest p;
  inputs = if same_option p.inputs p.inputs_after then p.inputs else none;
  rollback_failed = false;
}

abbrev pub finish : Plan → Answer → Machine → Machine × Answer
finish p answer m =
    let (m', good) = write_status (success_status p) m in (m', if good then answer else os_error)

-- `previous.conf` is written first, then the others in order.
abbrev pub saved_jobs : Plan → Machine → List Job
saved_jobs p m =
    job p m active ∷ job p m purge ∷ job p m dedup ∷ job p m probe_conf ∷ job p m probe_js ∷ []

-- The publication, and nginx's check and reload of what was published.
unfoldable pub attempt : Plan → Machine → Machine × Bool
unfolding check_and_reload
attempt p m =
    let r = publish (jobs p m) [] m in
    if r.succeeded then check_and_reload r.machine else (r.machine, false)

unfoldable pub commit : Plan → Machine → Machine → Machine × Answer
unfolding save_previous write_status
commit p before m =
    let (m', saved) = save_previous (saved_jobs p before) m in
    if saved then finish p changed m' else (m', os_error)

unfoldable pub transaction : Plan → Machine → Machine × Answer
unfolding attempt commit roll_back
transaction p m =
    let (m', good) = attempt p m in
    let written = (publish (jobs p m) [] m).latest_first in
    let failed = roll_back p (content m (current active)) written m' in
    if good then commit p m m' else failed

unfoldable pub apply : Plan → Machine → Machine × Answer
unfolding matches transaction write_status
apply p m =
    if not p.enabled
    then (m, unchanged)
    else if not p.policy_agrees
    then (m, bad_policy)
    else if not p.force && matches p m
    then (m, unchanged)
    else if all_published p m && not p.force && was_successful m.status
    then finish p unchanged m
    else transaction p m
