-- ===== src/Purge/Kept.antt =====
-- cache/nix.py: a purge leaves alone the files that packages outside its selection need.
use repowatch.Prelude.{
  ◌≡◌, refl, String, Bool, true, false, Option, none, some, ◌==◌, not, ◌&&◌, ◌||◌, List, [], ◌∷◌,
  ◌++◌, arith, text_keys, pair_keys, Assoc, lookup, is_some, keys, contains, select,
  contains-append, contains-select, eq_iff, keep_where, lookup-keep_where,
}
use repowatch.Storage.Tables.{Artifact, Package, Db}
use repowatch.Storage.Cache.Nix.{
  nix_shared_files, nix_has_unknown_owners, shares, files_of as all_files,
}
use repowatch.Storage.Repositories.{get_packages, has_snapshot, filenames}
use repowatch.Storage.Snapshots.{catalog}
use repowatch.Storage.Snapshots.Catalog.{lookup-catalog}
use repowatch.Purge.Nix.{
  selections, files_of, selected_files, shared_files, names_of, files_outside, current_files,
}

-- A file that is shared at the start is not chosen for any package.
contains-files_of :
    (r : String) (db : Db) (unknown : Bool) (shared : List String) (packages : Assoc String String)
    (n : String)
    → (unknown || contains n shared) ≡ true
    → contains n (files_of (selections r db unknown shared packages)) ≡ false
unfolding files_of selections contains
contains-files_of r db unknown shared [] n h = refl
contains-files_of r db true shared ((key, filename) ∷ packages) n h =
    let names = names_of r key filename db in
    let shared' = shared ++ names in
    let chosen = select (λ m. not (contains m shared')) names in
    let rest = selections r db true shared' packages in
    ground (
      arith,
      contains-append n chosen (files_of rest),
      contains-select (λ m. not (contains m shared')) n names,
      contains-append n shared names,
      contains-files_of r db true shared' packages n refl,
    )
contains-files_of r db false shared ((key, filename) ∷ packages) n h =
    let names = names_of r key filename db in
    let chosen = select (λ m. not (contains m shared)) names in
    let rest = selections r db false shared packages in
    ground (
      arith,
      contains-append n chosen (files_of rest),
      contains-select (λ m. not (contains m shared)) n names,
      contains-files_of r db false shared packages n h,
    )

contains-all_files :
    (q key n : String) (m : Assoc (String × (String × String)) Artifact)
    → is_some (lookup (q, (key, n)) m) ≡ true
    → contains n (all_files m) ≡ true
unfolding all_files contains lookup
contains-all_files q key n [] h = cc
contains-all_files q key n (((p, (k, f)), a) ∷ m) h =
    ground (arith, contains-all_files q key n m, eq_iff f n)

-- The row of the catalogue names the file.
abbrev pub has_file : String → Option Package → Bool
has_file n none = false
has_file n (some p) = p.filename == n

-- The owner is in the catalogue and not selected, and the file is the one that the catalogue names
-- for it or one of its recorded artifacts; or the files of some such package are not known.
unfoldable pub is_needed : String → Assoc String String → String → String → Db → Bool
is_needed r packages owner n db =
    nix_has_unknown_owners r (keys packages) db
    || (is_some (lookup (r, owner) db.repo_packages)
        && not (contains owner (keys packages))
        && (is_some (lookup (r, (owner, n)) db.nix_artifacts)
            || (has_snapshot r db && has_file n (lookup (r, owner) db.repo_packages))))

contains-nix_shared_files :
    (r : String) (excluded : List String) (owner n : String) (db : Db)
    → is_some (lookup (r, (owner, n)) db.nix_artifacts) ≡ true
    → is_some (lookup (r, owner) db.repo_packages) ≡ true
    → contains owner excluded ≡ false
    → contains n (nix_shared_files r excluded db) ≡ true
unfolding nix_shared_files
contains-nix_shared_files r excluded owner n db a p o =
    contains-all_files r owner n (keep_where (shares r excluded db) db.nix_artifacts) (
      ground (
        arith,
        a,
        p,
        o,
        lookup-keep_where (shares r excluded db) (r, (owner, n)) db.nix_artifacts,
        eq_iff r r,
      ))

has_file-files_outside :
    (selected : List String) (owner n : String) (m : Assoc String Package)
    → has_file n (lookup owner m) ≡ true
    → contains owner selected ≡ false
    → contains n (files_outside selected (filenames m)) ≡ true
unfolding files_outside filenames lookup contains
has_file-files_outside selected owner n [] h o = cc
has_file-files_outside selected owner n ((key, p) ∷ m) h o =
    ground (arith, eq_iff key owner, has_file-files_outside selected owner n m)

contains-current_files :
    (r : String) (selected : List String) (owner n : String) (db : Db)
    → has_snapshot r db ≡ true
    → has_file n (lookup (r, owner) db.repo_packages) ≡ true
    → contains owner selected ≡ false
    → contains n (files_outside selected (current_files (get_packages r db))) ≡ true
unfolding get_packages
contains-current_files r selected owner n db there h o =
    rw there
      (has_file-files_outside selected owner n (catalog r db.repo_packages) (rw lookup-catalog h) o)

-- The purge of some packages of a Nix repository does not ask nginx to remove a recorded
-- artifact of a package of the catalogue outside the selection, nor, where the repository has a
-- snapshot, the file that the catalogue names for such a package, and removes no file at all
-- while such a package has no known files.
pub contains-selected_files :
    (r : String) (packages : Assoc String String) (owner n : String) (db : Db)
    → is_needed r packages owner n db ≡ true
    → contains n (files_of (selected_files r packages db)) ≡ false
unfolding selected_files is_needed shared_files
contains-selected_files r packages owner n db h =
    contains-files_of r db (nix_has_unknown_owners r (keys packages) db)
      (shared_files r (keys packages) db) packages n
      (ground (
        arith,
        h,
        contains-nix_shared_files r (keys packages) owner n db,
        contains-current_files r (keys packages) owner n db,
        contains-append n (nix_shared_files r (keys packages) db)
            (files_outside (keys packages) (current_files (get_packages r db))),
      ))
