-- ===== src/Storage/Cache/Replacements.antt =====
-- storage/cache.py: the replaced files that wait to be purged and warmed again.
use repowatch.Prelude.{
  ℕ, String, Option, none, some, List, [], ◌∷◌, if◌then◌else◌, ◌==◌, text_keys, pair_keys, Assoc,
  lookup, insert, remove,
}
use repowatch.Storage.Tables.{Package, Replacement, Db}
use repowatch.Storage.Cache.Bans.{counts_by_repo}

-- A replacement with what the catalogue says of its package now.
pub record Pending : Type 0 where
  pub package_key : String
  pub targets : List (String × String)
  pub revision : String
  pub filename : Option String
  pub last_error : Option String
  pub content_hash : Option String

abbrev filename_of : Option Package → Option String
filename_of none = none
filename_of (some p) = some p.filename

-- COALESCE.
abbrev or_else : Option String → Option String → Option String
or_else none other = other
or_else (some a) other = some a

abbrev hash_of : Option Package → Option String
hash_of none = none
hash_of (some p) = p.content_hash

abbrev pub pending_of : String → Replacement → Option Package → Pending
pending_of key q p = record {
  package_key = key;
  targets = q.targets;
  revision = q.revision;
  filename = filename_of p;
  last_error = q.last_error;
  content_hash = or_else (hash_of p) q.expected_hash;
}

unfoldable pub pending_in :
    String → Assoc (String × String) Package → Assoc (String × String) Replacement → List Pending
pending_in r packages [] = []
pending_in r packages (((q, key), replacement) ∷ m) =
    let rest = pending_in r packages m in
    if q == r then pending_of key replacement (lookup (q, key) packages) ∷ rest else rest

unfoldable pub get_pending_replacements : String → Db → List Pending
unfolding pending_in
get_pending_replacements r db = pending_in r db.repo_packages db.pending_replacements

unfoldable pub get_pending_replacement_counts : Db → Assoc String ℕ
unfolding counts_by_repo
get_pending_replacement_counts db = counts_by_repo db.pending_replacements

abbrev finish_row :
    String × String
    → Option String
    → Replacement
    → Assoc (String × String) Replacement
    → Assoc (String × String) Replacement
finish_row key none q m = remove key m
finish_row key (some error) q m = insert key (record q { last_error = some error }) m

-- Only the replacement of this revision: a newer one for the same package stays as it is.
unfoldable pub finish_replacement : String → String → String → Option String → Db → Db
finish_replacement r key revision error db = elim (lookup (r, key) db.pending_replacements) [
  | none ↦ db
  | some q ↦
      if q.revision == revision
      then (record db {
        pending_replacements = finish_row (r, key) error q db.pending_replacements;
      })
      else db
]
