-- ===== src/Cleanup/Plan.antt =====
-- operations/dedup_cleanup.py: the second pass of `make_plan`, which holds every chosen key against
-- every owner in the catalogue.
use repowatch.Prelude.{
  sorted, ℕ, String, Bool, false, not, ◌&&◌, Option, none, some, List, [], ◌∷◌, ◌++◌, if◌then◌else◌,
  ◌==◌, text_keys, Assoc, lookup, insert, contains, keys, is_some, select, ltb, length, Result, ok,
  err,
}
use repowatch.Cleanup.{
  Row, Evidence, Request, choose, windows, Routes, CatalogRow, evidence, cursor,
}

-- The keys found unsafe, still routed to, or claimed by two canonical owners; and the owner that is
-- shown for a key.
pub record Scan : Type 0 where
  pub unsafe : List String
  pub active : List String
  pub conflicts : List String
  pub attributed : Assoc String (String × String)

abbrev pub canonicals : Assoc String Row → List String
canonicals [] = []
canonicals ((k, row) ∷ m) = row.canonical_key ∷ canonicals m

abbrev pub watched : Assoc String Row → List String
watched possible = keys possible ++ canonicals possible

unfoldable pub note_active : Assoc String Row → Evidence → Scan → Scan
note_active possible e s =
    if is_some (lookup e.target possible) then record s { active = e.target ∷ s.active } else s

unfoldable pub note_unsafe : Assoc String Row → Evidence → Scan → Scan
note_unsafe possible e s =
    if e.blocked
    then (record s {
      unsafe = select (λ k. contains k (watched possible)) (e.target ∷ e.keys) ++ s.unsafe;
    })
    else s

abbrev pub attribute : Evidence → String → Scan → Scan
attribute e key s =
    if not (key == e.target) && not (is_some (lookup key s.attributed))
    then record s { attributed = insert key (e.repo_id, e.filename) s.attributed }
    else s

abbrev pub conflict : Evidence → String → Row → Scan → Scan
conflict e key row s =
    if not (key == e.target) && not (row.canonical_key == e.target)
    then record s { conflicts = key ∷ s.conflicts }
    else s

abbrev pub note_key : Assoc String Row → Evidence → String → Scan → Scan
note_key possible e key s = elim (lookup key possible) [
  | none ↦ s
  | some row ↦ conflict e key row (attribute e key s)
]

unfoldable pub note_keys : Assoc String Row → Evidence → List String → Scan → Scan
note_keys possible e [] s = s
note_keys possible e (k ∷ ks) s = note_keys possible e ks (note_key possible e k s)

unfoldable pub note : Assoc String Row → Evidence → Scan → Scan
unfolding note_active note_unsafe note_keys
note possible e s =
    let s' = note_unsafe possible e (note_active possible e s) in
    if e.eligible && not e.blocked then note_keys possible e e.keys s' else s'

unfoldable pub scan : Assoc String Row → List Evidence → Scan → Scan
unfolding note
scan possible [] s = s
scan possible (e ∷ es) s = scan possible es (note possible e s)

abbrev pub nothing : Scan
nothing = record { unsafe = []; active = []; conflicts = []; attributed = [] }

abbrev pub is_safe : Scan → String → Row → Bool
is_safe s key row =
    not (contains key s.unsafe)
    && not (contains key s.active)
    && not (contains key s.conflicts)
    && not (contains row.canonical_key s.unsafe)

abbrev pub shown : Option (String × String) → Row → Row
shown none row = row
shown (some (repo_id, filename)) row = record row { repo_id = repo_id; filename = filename }

-- `possible[key]`, with the owner that is shown, in front of the candidates if it is safe.
abbrev pub keep : Scan → String → Option Row → Assoc String Row → Assoc String Row
keep s key none rest = rest
keep s key (some row) rest =
    if is_safe s key row then (key, shown (lookup key s.attributed) row) ∷ rest else rest

unfoldable pub candidates_in : Scan → Assoc String Row → List String → Assoc String Row
candidates_in s possible [] = []
candidates_in s possible (k ∷ ks) = keep s k (lookup k possible) (candidates_in s possible ks)

pub record CleanupPlan : Type 0 where
  pub candidates : Assoc String Row
  pub fair_cursor : String
  pub priority_cursor : String
  pub scanned : ℕ

pub data PlanError : Type 0 where
  value_error : PlanError
  cleanup_changed : PlanError

abbrev pub is_zero : Option ℕ → Bool
is_zero none = false
is_zero (some n) = ltb n 1

-- The rows of both passes are read from one catalogue; `same` says whether the revisions of the
-- catalogue were still the same after them.
unfoldable pub make_plan :
    Request → Routes → Assoc String String → List CatalogRow → Bool → Result PlanError CleanupPlan
unfolding choose scan candidates_in
make_plan q routes redirects rows same =
    let es = evidence routes redirects rows in
    let (possible, at) = choose q es in
    let (fair, priority) = windows q es in
    if is_zero q.limit
    then err value_error
    else if same
    then ok (record {
      candidates = candidates_in (scan possible es nothing) possible (sorted (keys possible));
      fair_cursor = at;
      priority_cursor = cursor priority;
      scanned = length es;
    })
    else err cleanup_changed
