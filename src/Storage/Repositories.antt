-- ===== src/Storage/Repositories.antt =====
-- storage/repositories.py: the operations of `RepositoriesStore` on single rows, and the count and
-- removal of everything that is stored for a repository.
pub mod Removal
pub mod Index
pub mod Events
use repowatch.Prelude.{
  ℕ, suc, String, Bool, true, false, not, ◌&&◌, Option, none, some, List, [], ◌∷◌, ◌++◌, map,
  if◌then◌else◌, ltb, ◌==◌, text_keys, pair_keys, Assoc, lookup, insert, is_some, contains,
}
use repowatch.Storage.Tables.{RepoState, Package, Change, Db}
use repowatch.Storage.Owned.{delete_from, count_in, by_repo, by_key, with_count}
use repowatch.Storage.Snapshots.{same_text, catalog}

abbrev pub other_identity : Option String → Option String → Bool
other_identity none stored = false
other_identity (some identity) stored = not (same_text stored (some identity))

unfoldable pub get_index_meta : String → Option String → Db → Option String × Option String
get_index_meta r identity db = elim (lookup r db.repo_state) [
  | none ↦ (none, none)
  | some st ↦
      if other_identity identity st.source_identity
      then (none, none)
      else (st.index_etag, st.index_last_modified)
]

-- A row of a repository that was never checked.
abbrev unchecked : Option ℕ → Bool → RepoState
unchecked expires_at known = record {
  last_check = none;
  changed_at = none;
  index_etag = none;
  index_last_modified = none;
  package_count = none;
  source_identity = none;
  snapshot_revision = 0;
  key_expires_at = expires_at;
  key_expiry_known = known;
}

abbrev pub with_expiry : Option ℕ → Bool → Option RepoState → RepoState
with_expiry expires_at known none = unchecked expires_at known
with_expiry expires_at known (some st) = record st {
  key_expires_at = expires_at;
  key_expiry_known = known;
}

abbrev pub known_or : Option ℕ → Option Bool → Bool
known_or expires_at none = is_some expires_at
known_or expires_at (some known) = known

unfoldable pub record_key_expiry : String → Option ℕ → Option Bool → Db → Db
record_key_expiry r expires_at known db = record db {
  repo_state =
      insert r (with_expiry expires_at (known_or expires_at known) (lookup r db.repo_state))
        db.repo_state;
}

unfoldable pub touch_last_check : ℕ → String → Db → Db
touch_last_check now r db = elim (lookup r db.repo_state) [
  | none ↦ db
  | some st ↦ record db {
    repo_state = insert r (record st { last_check = some now }) db.repo_state;
  }
]

unfoldable pub has_snapshot : String → Db → Bool
has_snapshot r db = elim (lookup r db.repo_state) [ none ↦ false | some st ↦ is_some st.last_check ]

unfoldable pub filenames : Assoc String Package → Assoc String String
filenames [] = []
filenames ((key, p) ∷ m) = (key, p.filename) ∷ filenames m

unfoldable pub get_packages : String → Db → Option (Assoc String String)
unfolding has_snapshot filenames
get_packages r db =
    if has_snapshot r db then some (filenames (catalog r db.repo_packages)) else none

-- The rows of the given keys, each read once.
unfoldable pub filenames_at : List String → Assoc String Package → Assoc String String
filenames_at ks [] = []
filenames_at ks ((key, p) ∷ m) =
    let rest = filenames_at ks m in if contains key ks then (key, p.filename) ∷ rest else rest

unfoldable pub get_packages_by_keys : String → List String → Db → Option (Assoc String String)
unfolding has_snapshot filenames_at
get_packages_by_keys r ks db =
    if has_snapshot r db then some (filenames_at ks (catalog r db.repo_packages)) else none

abbrev pub by_event : Change → String
by_event e = e.repo_id

abbrev pub counts_of : ℕ → ℕ → ℕ → ℕ → Assoc String ℕ
counts_of states packages events pending = with_count "repo_state" states (
    with_count "repo_packages" packages
      (with_count "repo_events" events (with_count "pending_replacements" pending [])))

unfoldable pub count_repo_rows : String → Db → Assoc String ℕ
unfolding count_in
count_repo_rows r db =
    counts_of (count_in by_repo r db.repo_state) (count_in by_key r db.repo_packages)
      (count_in by_event r db.repo_events) (count_in by_key r db.pending_replacements)

unfoldable pub delete_repo_rows : String → Db → Db × Assoc String ℕ
unfolding delete_from
delete_repo_rows r db =
    let (states, a) = delete_from by_repo r db.repo_state in
    let (packages, b) = delete_from by_key r db.repo_packages in
    let (events, c) = delete_from by_event r db.repo_events in
    let (pending, d) = delete_from by_key r db.pending_replacements in
    (
      record db {
        repo_state = states;
        repo_packages = packages;
        repo_events = events;
        pending_replacements = pending;
      },
      counts_of a b c d,
    )

-- The repositories that have a row in any of the four tables.
unfoldable pub get_repo_ids_with_data : Db → List String
get_repo_ids_with_data db =
    map by_repo db.repo_state
    ++ (map by_key db.repo_packages
        ++ (map by_event db.repo_events ++ map by_key db.pending_replacements))
