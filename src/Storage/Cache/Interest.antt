-- ===== src/Storage/Cache/Interest.antt =====
-- storage/cache.py: the demand for packages, which is remembered by name and so outlives a version.
use repowatch.Prelude.{
  String, Bool, false, ◌&&◌, Option, none, some, List, [], ◌∷◌, if◌then◌else◌, ◌==◌, text_keys,
  pair_keys, Assoc, lookup, insert, is_some,
}
use repowatch.Storage.Tables.{Package, RepoState, Artifact, Db}
use repowatch.Storage.Snapshots.{truthy, same_text, catalog}

-- The rows of `repo_state` that a query with this source identity joins.
abbrev pub has_identity : String → Option RepoState → Bool
has_identity identity none = false
has_identity identity (some st) = same_text st.source_identity (some identity)

-- A name that is neither null nor empty.
abbrev pub named : Option Package → Option String
named none = none
named (some p) = if truthy p.package_name then p.package_name else none

abbrev pub subscribe : String → String → Option String → Db → Db
subscribe r identity none db = db
subscribe r identity (some name) db = record db {
  package_interest = insert (r, (identity, name)) tt db.package_interest;
}

unfoldable pub record_one : String → String → String → Db → Db
record_one r identity key db =
    if has_identity identity (lookup r db.repo_state)
    then subscribe r identity (named (lookup (r, key) db.repo_packages)) db
    else db

unfoldable pub record_interest : String → List String → String → Db → Db
unfolding record_one
record_interest r [] identity db = db
record_interest r (key ∷ ks) identity db =
    record_interest r ks identity (record_one r identity key db)

abbrev pub is_wanted : String → String → Db → Package → Bool
is_wanted r identity db p = elim p.package_name [
  | none ↦ false
  | some name ↦ is_some (lookup (r, (identity, name)) db.package_interest)
]

unfoldable pub wanted_keys : String → String → Db → Assoc String Package → List String
wanted_keys r identity db [] = []
wanted_keys r identity db ((key, p) ∷ m) =
    let rest = wanted_keys r identity db m in if is_wanted r identity db p then key ∷ rest else rest

unfoldable pub interested_keys : String → String → Db → List String
unfolding wanted_keys
interested_keys r identity db =
    if has_identity identity (lookup r db.repo_state)
    then wanted_keys r identity db (catalog r db.repo_packages)
    else []

-- The packages that a file belongs to.
unfoldable pub owners_of :
    String → String → Assoc (String × (String × String)) Artifact → List String
owners_of r filename [] = []
owners_of r filename (((q, (key, f)), a) ∷ m) =
    let rest = owners_of r filename m in if q == r && f == filename then key ∷ rest else rest

unfoldable pub record_artifact_interest : String → String → String → Db → Db
unfolding owners_of record_interest
record_artifact_interest r filename identity db =
    record_interest r (owners_of r filename db.nix_artifacts) identity db
