-- ===== src/Purge/Nix.antt =====
-- cache/nix.py: the purge of the files of Nix packages, which keeps what other packages need.
use repowatch.Prelude.{
  String, Bool, false, not, ◌||◌, Option, none, some, List, [], ◌∷◌, ◌++◌, if◌then◌else◌, text_keys,
  Assoc, lookup, keys, contains, select,
}
use repowatch.Storage.Tables.{Db}
use repowatch.Storage.Repositories.{get_packages}
use repowatch.Storage.Cache.Nix.{nix_shared_files, nix_has_unknown_owners, get_nix_artifacts}
use repowatch.Purge.{Outcome, purged, not_cached, retained_shared, first_error, any_purged}

-- The files of the current packages that are not selected.
unfoldable pub files_outside : List String → Assoc String String → List String
files_outside packages [] = []
files_outside packages ((key, filename) ∷ m) =
    let rest = files_outside packages m in if contains key packages then rest else filename ∷ rest

-- `get_packages(repo.id) or {}`.
abbrev pub current_files : Option (Assoc String String) → Assoc String String
current_files none = []
current_files (some files) = files

unfoldable pub shared_files : String → List String → Db → List String
unfolding files_outside
shared_files r packages db =
    nix_shared_files r packages db ++ files_outside packages (current_files (get_packages r db))

abbrev pub names_of : String → String → String → Db → List String
names_of r key filename db = filename ∷ keys (get_nix_artifacts r key db)

-- What is decided for one package: the files to purge, and whether some stay.
pub record Selection : Type 0 where
  pub names : List String
  pub retained : Bool

unfoldable pub meets : List String → List String → Bool
meets [] shared = false
meets (n ∷ ns) shared = contains n shared || meets ns shared

-- With an unknown owner, every file counts as shared.
unfoldable pub selections :
    String → Db → Bool → List String → Assoc String String → Assoc String Selection
unfolding meets
selections r db unknown shared [] = []
selections r db unknown shared ((key, filename) ∷ packages) =
    let names = names_of r key filename db in
    let shared' = (if unknown then shared ++ names else shared) in
    (
      key,
      record {
        names = select (λ n. not (contains n shared')) names;
        retained = meets names shared';
      },
    )
    ∷ selections r db unknown shared' packages

unfoldable pub files_of : Assoc String Selection → List String
files_of [] = []
files_of ((key, s) ∷ m) = s.names ++ files_of m

abbrev pub as_items : List String → Assoc String String
as_items [] = []
as_items (n ∷ ns) = (n, n) ∷ as_items ns

unfoldable pub values_at : Assoc String Outcome → List String → List Outcome
values_at results [] = []
values_at results (n ∷ ns) =
    let rest = values_at results ns in elim (lookup n results) [ none ↦ rest | some o ↦ o ∷ rest ]

unfoldable pub outcomes : Assoc String Outcome → Assoc String Selection → Assoc String Outcome
unfolding values_at
outcomes results [] = []
outcomes results ((key, s) ∷ m) =
    let values = values_at results s.names in
    (
      key,
      elim (first_error values) [
        | some e ↦ e
        | none ↦
            if s.retained then retained_shared else if any_purged values then purged else not_cached
      ],
    )
    ∷ outcomes results m

unfoldable pub selected_files : String → Assoc String String → Db → Assoc String Selection
unfolding selections shared_files
selected_files r packages db =
    selections r db (nix_has_unknown_owners r (keys packages) db)
      (shared_files r (keys packages) db) packages

-- `purge_files` is the function that the settings choose.
unfoldable pub purge :
    (Assoc String String → Assoc String Outcome)
    → String
    → Assoc String String
    → Db
    → Assoc String Outcome
unfolding selected_files files_of outcomes
purge purge_files r packages db =
    let chosen = selected_files r packages db in
    outcomes (purge_files (as_items (files_of chosen))) chosen
