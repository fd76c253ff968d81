-- ===== src/Storage/Snapshots/Diff.antt =====
-- What storage/repositories.py's `record_snapshot` reports, and what its revision says.
use repowatch.Prelude.{
  contains-sorted, ◌≡◌, ◌≢◌, ◌↔◌, ◌⊎◌, refl, ◌∙◌, String, Bool, true, false, not, ◌&&◌, Option,
  none, some, List, [], ◌∷◌, arith, text_keys, Assoc, if◌then◌else◌, eq_iff, pair_keys, lookup,
  contains, keys, is_some, contains-keys, contains-select,
}
use repowatch.Storage.Tables.{Package, Db}
use repowatch.Storage.Snapshots.{
  RepoSnapshot, DiffResult, Env, Meta, catalog, new_keys, removed_keys, modified_keys, differs,
  truthy, same_text, filenames, record_snapshot,
}
use repowatch.Storage.Snapshots.Catalog.{lookup-catalog, contains-removed_keys}

abbrev pub changed_file : RepoSnapshot → String → Option Package → Option String → Bool
changed_file s k (some old) (some filename) = differs old filename (lookup k s.content_hashes)
changed_file s k _ _ = false

-- Two hashes that are known and not the same; an empty one is not known.
abbrev pub HashesDiffer : Option String → Option String → Type 0
HashesDiffer (some a) (some b) = (a ≢ "") × (b ≢ "") × (a ≢ b)
HashesDiffer _ _ = ⊥

-- What is stored for a key against the file and the hash that a snapshot lists for it.
abbrev pub IsChanged : Option Package → Option String → Option String → Type 0
IsChanged (some old) (some filename) hash =
    (filename ≢ old.filename) ⊎ HashesDiffer old.content_hash hash
IsChanged _ _ hash = ⊥

abbrev pub name_of : Option Package → Option String
name_of none = none
name_of (some p) = some p.filename

-- The report on one key: what is stored against what the snapshot lists.
pub record Reports (d : DiffResult) (s : RepoSnapshot) (db : Db) (k : String) : Type 0 where
  pub fresh :
      contains k d.new_packages
      ≡ (is_some (lookup k s.packages) && not (is_some (lookup (s.repo_id, k) db.repo_packages)))
  pub gone :
      contains k d.removed_packages
      ≡ (is_some (lookup (s.repo_id, k) db.repo_packages) && not (is_some (lookup k s.packages)))
  pub modified :
      (contains k d.modified_packages ≡ true)
      ↔ IsChanged
          (lookup (s.repo_id, k) db.repo_packages)
          (lookup k s.packages)
          (lookup k s.content_hashes)
  pub gone_file : lookup k d.removed_filenames ≡ (
      if is_some (lookup k s.packages)
      then none
      else name_of (lookup (s.repo_id, k) db.repo_packages))
  pub modified_file : lookup k d.modified_filenames ≡ (
      if contains k d.modified_packages
      then name_of (lookup (s.repo_id, k) db.repo_packages)
      else none)

conflict_iff :
    (x y : Option String)
    → ((truthy x && truthy y && not (same_text x y)) ≡ true) ↔ HashesDiffer x y
conflict_iff none y = ground arith
conflict_iff (some a) none = ground arith
conflict_iff (some a) (some b) = ground (arith, eq_iff a "", eq_iff b "", eq_iff a b)

changed_file_iff :
    (s : RepoSnapshot) (k : String) (p : Option Package) (f : Option String)
    → (changed_file s k p f ≡ true) ↔ IsChanged p f (lookup k s.content_hashes)
unfolding differs
changed_file_iff s k none f = ground arith
changed_file_iff s k (some old) none = ground arith
changed_file_iff s k (some old) (some filename) =
    let hash = lookup k s.content_hashes in
    ground (arith, eq_iff filename old.filename, conflict_iff old.content_hash hash)

lookup-filenames :
    (previous : Assoc String Package) (ks : List String) (k : String)
    → lookup k (filenames previous ks)
      ≡ (if contains k ks then name_of (lookup k previous) else none)
unfolding lookup contains
lookup-filenames previous [] k = refl
lookup-filenames previous (j ∷ js) k = ground (arith, eq_iff j k, lookup-filenames previous js k)

pub contains-modified_packages :
    (env : Env) (s : RepoSnapshot) (meta : Meta) (db : Db) (k : String)
    → contains k (record_snapshot env s meta db).1.modified_packages
      ≡ changed_file s k (lookup (s.repo_id, k) db.repo_packages) (lookup k s.packages)
unfolding record_snapshot
contains-modified_packages env s meta db k =
    let previous = catalog s.repo_id db.repo_packages in
    contains-sorted k (modified_keys previous s)
    ∙ contains-select _ k (keys s.packages)
    ∙ ground (arith, contains-keys k s.packages, lookup-catalog s.repo_id k db.repo_packages)

-- A key is reported as new or removed exactly when the snapshot lists it and the table does not,
-- or the reverse, and as modified exactly when both do and the file names are not equal, or both
-- hashes are known, not empty and not equal; the stored file name is given for each removed and
-- each modified key, and for no other.
pub record_snapshot-Reports :
    (env : Env) (s : RepoSnapshot) (meta : Meta) (db : Db) (k : String)
    → Reports (record_snapshot env s meta db).1 s db k
unfolding record_snapshot
record_snapshot-Reports env s meta db k =
    let previous = catalog s.repo_id db.repo_packages in
    let stored_row = lookup-catalog s.repo_id k db.repo_packages in
    let removed = contains-removed_keys previous s k in
    record {
      fresh =
          contains-sorted k (new_keys previous s)
          ∙ contains-select _ k (keys s.packages)
          ∙ rw (contains-keys, lookup-catalog) refl;
      gone = contains-sorted k (removed_keys previous s) ∙ removed ∙ rw lookup-catalog refl;
      modified =
          rw (contains-modified_packages env s meta db k)
            (changed_file_iff s k (lookup (s.repo_id, k) db.repo_packages) (lookup k s.packages));
      gone_file =
          ground
            (arith, stored_row, removed, lookup-filenames previous (removed_keys previous s) k);
      modified_file = ground (
        arith,
        stored_row,
        contains-sorted k (modified_keys previous s),
        lookup-filenames previous (modified_keys previous s) k,
      );
    }
