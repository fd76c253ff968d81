-- ===== src/Storage/Snapshots.antt =====
-- storage/repositories.py: `record_snapshot`, which compares a new index with the stored one and
-- replaces it. A set is a list of keys; the clock and the random ids are those of the environment.
pub mod Catalog
pub mod Diff
pub mod Revision
pub mod Replaced
use repowatch.Prelude.{
  sorted, least, ℕ, ◌+◌, String, Bool, true, false, not, ◌&&◌, ◌||◌, Option, none, some, List, [],
  ◌∷◌, ◌++◌, if◌then◌else◌, ◌==◌, text_keys, pair_keys, Assoc, lookup, insert, remove, contains,
  select, keys, is_some, remove_all, length,
}
use repowatch.Storage.Tables.{RepoState, Package, Replacement, Warmed, Change, Db}

-- models.py.
pub record RepoSnapshot : Type 0 where
  pub repo_id : String
  pub packages : Assoc String String
  pub names : Assoc String String
  pub content_hashes : Assoc String String

pub record DiffResult : Type 0 where
  pub repo_id : String
  pub changed : Bool
  pub new_packages : List String
  pub removed_packages : List String
  pub removed_filenames : Assoc String String
  pub modified_packages : List String
  pub modified_filenames : Assoc String String

pub record Env : Type 0 where
  pub now : ℕ
  pub new_id : String → String

-- The rows of one repository, by package key.
unfoldable pub catalog : String → Assoc (String × String) Package → Assoc String Package
catalog r [] = []
catalog r (((q, k), p) ∷ m) = let rest = catalog r m in if q == r then (k, p) ∷ rest else rest

-- A column that is null or empty counts as false.
abbrev pub truthy : Option String → Bool
truthy none = false
truthy (some t) = not (t == "")

abbrev pub same_text : Option String → Option String → Bool
same_text none none = true
same_text (some a) (some b) = a == b
same_text _ _ = false

unfoldable pub differs : Package → String → Option String → Bool
differs old filename hash =
    not (filename == old.filename)
    || (truthy old.content_hash && truthy hash && not (same_text old.content_hash hash))

abbrev pub is_modified : Assoc String Package → RepoSnapshot → String → Bool
is_modified previous s k = elim (lookup k previous) [
  | none ↦ false
  | some old ↦ elim (lookup k s.packages) [
    | none ↦ false
    | some filename ↦ differs old filename (lookup k s.content_hashes)
  ]
]

unfoldable pub new_keys : Assoc String Package → RepoSnapshot → List String
new_keys previous s = select (λ k. not (is_some (lookup k previous))) (keys s.packages)

unfoldable pub removed_keys : Assoc String Package → RepoSnapshot → List String
removed_keys previous s = select (λ k. not (is_some (lookup k s.packages))) (keys previous)

unfoldable pub modified_keys : Assoc String Package → RepoSnapshot → List String
modified_keys previous s = select (is_modified previous s) (keys s.packages)

abbrev pub nonempty : List String → Bool
nonempty [] = false
nonempty (_ ∷ _) = true

-- A hash that appears, goes or changes.
unfoldable pub hash_moved : List String → Assoc String Package → RepoSnapshot → Bool
hash_moved [] previous s = false
hash_moved (k ∷ ks) previous s =
    elim (lookup k previous) [
      | none ↦ false
      | some old ↦
          is_some (lookup k s.packages)
          && not (same_text old.content_hash (lookup k s.content_hashes))
    ]
    || hash_moved ks previous s

abbrev pub add_target : String × String → List (String × String) → List (String × String)
add_target t ts = if contains t ts then ts else t ∷ ts

-- The repositories that hold this file under this hash.
abbrev pub owners : String → String → Assoc (String × String) Package → List String
owners filename hash [] = []
owners filename hash (((r, k), p) ∷ m) =
    let rest = owners filename hash m in
    if p.filename == filename && same_text p.content_hash (some hash) then r ∷ rest else rest

abbrev pub shared_target :
    Env
    → String
    → Option String
    → Assoc (String × String) Package
    → List (String × String)
    → List (String × String)
shared_target env filename none rows ts = ts
shared_target env filename (some hash) rows ts =
    if truthy (some hash)
    then elim (least (owners filename hash rows)) [
      | none ↦ ts
      | some shared ↦ if truthy (some shared) then add_target (shared, filename) ts else ts
    ]
    else ts

abbrev pub known_targets : Option Replacement → List (String × String)
known_targets none = []
known_targets (some p) = p.targets

abbrev pub replacement : Env → RepoSnapshot → String → String → Package → Db → Replacement
replacement env s k filename old db =
    let known = known_targets (lookup (s.repo_id, k) db.pending_replacements) in
    let both = add_target (s.repo_id, filename) (add_target (s.repo_id, old.filename) known) in
    record {
      targets = shared_target env old.filename old.content_hash db.repo_packages both;
      expected_hash = lookup k s.content_hashes;
      revision = env.new_id k;
      last_error = none;
    }

-- The body of the loop over the modified packages.
unfoldable pub stage : Env → Assoc String Package → RepoSnapshot → String → Db → Db
stage env previous s k db = elim (lookup k previous) [
  | none ↦ db
  | some old ↦ elim (lookup k s.packages) [
    | none ↦ db
    | some filename ↦ record db {
      pending_replacements =
          insert (s.repo_id, k) (replacement env s k filename old db) db.pending_replacements;
      warmed_packages = remove (s.repo_id, k) db.warmed_packages;
    }
  ]
]

unfoldable pub stage_all : Env → Assoc String Package → RepoSnapshot → List String → Db → Db
unfolding stage
stage_all env previous s [] db = db
stage_all env previous s (k ∷ ks) db = stage_all env previous s ks (stage env previous s k db)

-- The upsert of one row: a row that is the same stays the same.
abbrev pub row : RepoSnapshot → String → String → Package
row s k filename = record {
  package_name = lookup k s.names;
  filename = filename;
  content_hash = lookup k s.content_hashes;
}

unfoldable pub upsert_all :
    RepoSnapshot
    → Assoc String String
    → Assoc (String × String) Package
    → Assoc (String × String) Package
upsert_all s [] rows = rows
upsert_all s ((k, filename) ∷ rest) rows =
    upsert_all s rest (insert (s.repo_id, k) (row s k filename) rows)

unfoldable pub of_repo : String → List String → List (String × String)
of_repo r [] = []
of_repo r (k ∷ ks) = (r, k) ∷ of_repo r ks

abbrev pub filenames : Assoc String Package → List String → Assoc String String
filenames previous [] = []
filenames previous (k ∷ ks) = elim (lookup k previous) [
  | none ↦ filenames previous ks
  | some old ↦ (k, old.filename) ∷ filenames previous ks
]

pub record Meta : Type 0 where
  pub etag : Option String
  pub last_modified : Option String
  pub source : Option String

-- The upsert of `repo_state`; the columns of the signing key keep their values.
abbrev pub next_state : Env → RepoSnapshot → Meta → Bool → Bool → Option RepoState → RepoState
next_state env s meta changed catalog_changed none = record {
  last_check = some env.now;
  changed_at = if changed then some env.now else none;
  index_etag = meta.etag;
  index_last_modified = meta.last_modified;
  package_count = some (length s.packages);
  source_identity = meta.source;
  snapshot_revision = 1;
  key_expires_at = none;
  key_expiry_known = false;
}
next_state env s meta changed catalog_changed (some old) = record old {
  last_check = some env.now;
  changed_at = if changed then some env.now else old.changed_at;
  index_etag = meta.etag;
  index_last_modified = meta.last_modified;
  package_count = some (length s.packages);
  source_identity = meta.source;
  snapshot_revision = old.snapshot_revision + (if catalog_changed then 1 else 0);
}

unfoldable pub diff_of : Env → Assoc String Package → RepoSnapshot → DiffResult
unfolding new_keys removed_keys modified_keys
diff_of env previous s =
    let fresh = new_keys previous s in
    let gone = removed_keys previous s in
    let modified = modified_keys previous s in
    record {
      repo_id = s.repo_id;
      changed = nonempty fresh || nonempty gone || nonempty modified;
      new_packages = sorted fresh;
      removed_packages = sorted gone;
      removed_filenames = filenames previous gone;
      modified_packages = sorted modified;
      modified_filenames = filenames previous modified;
    }

abbrev pub log_change : Env → DiffResult → List Change → List Change
log_change env d events =
    if d.changed
    then events
      ++ (record {
        repo_id = d.repo_id;
        ts = env.now;
        new_pkgs = d.new_packages;
        removed_pkgs = d.removed_packages;
        modified_pkgs = d.modified_packages;
      })
        ∷ []
    else events

unfoldable pub record_snapshot : Env → RepoSnapshot → Meta → Db → Db × DiffResult
unfolding diff_of catalog hash_moved stage_all upsert_all of_repo
record_snapshot env s meta db =
    let previous = catalog s.repo_id db.repo_packages in
    let d = diff_of env previous s in
    let moved = d.changed || hash_moved (keys previous) previous s in
    let staged = stage_all env previous s d.modified_packages db in
    let left = remove_all (of_repo s.repo_id (removed_keys previous s)) staged.repo_packages in
    (
      record staged {
        repo_state =
            insert s.repo_id
              (next_state env s meta d.changed moved (lookup s.repo_id staged.repo_state))
              staged.repo_state;
        repo_packages = upsert_all s s.packages left;
        repo_events = log_change env d staged.repo_events;
      },
      d,
    )
