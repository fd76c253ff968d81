-- ===== src/Storage/Snapshots/Catalog.antt =====
-- After storage/repositories.py's `record_snapshot` the catalogue of the repository is the snapshot,
-- and no other repository has changed.
use repowatch.Prelude.{
  ◌≡◌, refl, ◌∙◌, String, not, ◌&&◌, Option, none, some, List, [], ◌∷◌, arith, if◌then◌else◌, ◌==◌,
  text_keys, pair_keys, Assoc, lookup, insert, contains, keys, is_some, remove_all, lookup-insert,
  lookup-remove_all, contains-keys, contains-select, Distinct, eq_iff,
}
use repowatch.Storage.Tables.{Package, Db}
use repowatch.Storage.Snapshots.{
  RepoSnapshot, Env, Meta, catalog, removed_keys, stage, stage_all, row, upsert_all, of_repo,
  record_snapshot, diff_of,
}

pub lookup-catalog :
    (r k : String) (m : Assoc (String × String) Package) → lookup k (catalog r m) ≡ lookup (r, k) m
unfolding catalog lookup
lookup-catalog r k [] = refl
lookup-catalog r k (((q, j), p) ∷ m) = ground (arith, lookup-catalog r k m)

contains-of_repo :
    (r q j : String) (ks : List String) → contains (q, j) (of_repo r ks) ≡ (r == q && contains j ks)
unfolding of_repo contains
contains-of_repo r q j [] = ground arith
contains-of_repo r q j (k ∷ ks) = ground (arith, contains-of_repo r q j ks)

-- The row that a snapshot gives to a key.
abbrev pub entry : RepoSnapshot → String → Option String → Option Package
entry s k none = none
entry s k (some filename) = some (row s k filename)

abbrev or_else : Option Package → Option Package → Option Package
or_else none p = p
or_else (some p) _ = some p

lookup-upsert_all :
    (s : RepoSnapshot) (ps : Assoc String String) (rows : Assoc (String × String) Package)
    (q j : String)
    → Distinct ps
    → lookup (q, j) (upsert_all s ps rows) ≡ (
        if s.repo_id == q
        then or_else (entry s j (lookup j ps)) (lookup (q, j) rows)
        else lookup (q, j) rows)
unfolding upsert_all lookup
lookup-upsert_all s [] rows q j d = ground arith
lookup-upsert_all s ((k, f) ∷ ps) rows q j d = ground (
  arith,
  lookup-upsert_all s ps (insert (s.repo_id, k) (row s k f) rows) q j d.1,
  lookup-insert (s.repo_id, k) (q, j) (row s k f) rows,
  eq_iff k j,
  eq_iff s.repo_id q,
)

-- The loop over the modified packages leaves four tables alone.
pub record Keeps (a b : Db) : Type 0 where
  pub states : b.repo_state ≡ a.repo_state
  pub packages : b.repo_packages ≡ a.repo_packages
  pub events : b.repo_events ≡ a.repo_events
  pub interest : b.package_interest ≡ a.package_interest

stage-Keeps :
    (env : Env) (previous : Assoc String Package) (s : RepoSnapshot) (k : String) (db : Db)
    → Keeps db (stage env previous s k db)
unfolding stage
stage-Keeps env previous s k db = ground arith

pub stage_all-Keeps :
    (env : Env) (previous : Assoc String Package) (s : RepoSnapshot) (ks : List String) (db : Db)
    → Keeps db (stage_all env previous s ks db)
unfolding stage_all
stage_all-Keeps env previous s [] db = record {
  states = refl;
  packages = refl;
  events = refl;
  interest = refl;
}
stage_all-Keeps env previous s (k ∷ ks) db =
    let a = stage-Keeps env previous s k db in
    let b = stage_all-Keeps env previous s ks (stage env previous s k db) in
    record {
      states = b.states ∙ a.states;
      packages = b.packages ∙ a.packages;
      events = b.events ∙ a.events;
      interest = b.interest ∙ a.interest;
    }

pub contains-removed_keys :
    (previous : Assoc String Package) (s : RepoSnapshot) (k : String)
    → contains k (removed_keys previous s)
      ≡ (is_some (lookup k previous) && not (is_some (lookup k s.packages)))
unfolding removed_keys
contains-removed_keys previous s k = contains-select _ k (keys previous) ∙ rw contains-keys refl

-- After a snapshot with distinct keys is recorded, a key of its repository has the snapshot's
-- row, or none if the snapshot does not list the key; the rows of every other repository are as
-- they were.
pub lookup-record_snapshot :
    (env : Env) (s : RepoSnapshot) (meta : Meta) (db : Db) (q k : String)
    → Distinct s.packages
    → lookup (q, k) (record_snapshot env s meta db).0.repo_packages
      ≡ (if s.repo_id == q then entry s k (lookup k s.packages) else lookup (q, k) db.repo_packages)
unfolding record_snapshot
lookup-record_snapshot env s meta db q k d =
    let previous = catalog s.repo_id db.repo_packages in
    let modified = (diff_of env previous s).modified_packages in
    let staged = stage_all env previous s modified db in
    let gone = removed_keys previous s in
    ground (
      arith,
      lookup-upsert_all s s.packages (remove_all (of_repo s.repo_id gone) staged.repo_packages) q k
          d,
      lookup-remove_all (of_repo s.repo_id gone) (q, k) staged.repo_packages,
      contains-of_repo s.repo_id q k gone,
      contains-removed_keys previous s k,
      lookup-catalog s.repo_id k db.repo_packages,
      eq_iff s.repo_id q,
      (stage_all-Keeps env previous s modified db).packages,
    )
