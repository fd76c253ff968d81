-- ===== src/Storage/Cache/Demand.antt =====
-- storage/cache.py and storage/repositories.py: the demand for a package follows it to its next
-- version.
use repowatch.Prelude.{
  ◌≡◌, refl, ◌∙◌, String, Bool, true, Option, none, some, List, [], ◌∷◌, arith, ◌==◌, text_keys,
  pair_keys, Assoc, lookup, contains, is_some, lookup-insert, eq_iff, Distinct, Bool-cases,
  Option-cases, inl, inr, beq_refl,
}
use repowatch.Storage.Tables.{Package, RepoState, Db}
use repowatch.Storage.Snapshots.{
  RepoSnapshot, Env, Meta, record_snapshot, row, catalog, diff_of, next_state,
}
use repowatch.Storage.Snapshots.Catalog.{lookup-catalog, lookup-record_snapshot, stage_all-Keeps}
use repowatch.Storage.Snapshots.Revision.{lookup-repo_state}
use repowatch.Storage.Cache.Interest.{
  named, has_identity, record_one, record_interest, is_wanted, wanted_keys, interested_keys,
}

abbrev subscribed : String → String → String → Db → Bool
subscribed r identity name db = is_some (lookup (r, (identity, name)) db.package_interest)

record_one_mono :
    (r identity key q i n : String) (db : Db)
    → subscribed q i n db ≡ true
    → subscribed q i n (record_one r identity key db) ≡ true
unfolding record_one
record_one_mono r identity key q i n db h =
    elim (Option-cases (named (lookup (r, key) db.repo_packages))) [
      | inl e ↦ ground arith
      | inr (name, e) ↦
          ground (arith, lookup-insert (r, (identity, name)) (q, (i, n)) tt db.package_interest)
    ]

record_one_self :
    (r identity key name : String) (db : Db)
    → has_identity identity (lookup r db.repo_state) ≡ true
    → named (lookup (r, key) db.repo_packages) ≡ some name
    → subscribed r identity name (record_one r identity key db) ≡ true
unfolding record_one
record_one_self r identity key name db i n = ground (
  arith,
  lookup-insert (r, (identity, name)) (r, (identity, name)) tt db.package_interest,
  beq_refl r,
  beq_refl identity,
  beq_refl name,
)

-- The catalogue is only read.
record_one_states :
    (r identity key : String) (db : Db) → (record_one r identity key db).repo_state ≡ db.repo_state
unfolding record_one
record_one_states r identity key db = ground arith

record_one_packages :
    (r identity key : String) (db : Db)
    → (record_one r identity key db).repo_packages ≡ db.repo_packages
unfolding record_one
record_one_packages r identity key db = ground arith

record_interest_mono :
    (r identity : String) (ks : List String) (name : String) (db : Db)
    → subscribed r identity name db ≡ true
    → subscribed r identity name (record_interest r ks identity db) ≡ true
unfolding record_interest
record_interest_mono r identity [] name db h = h
record_interest_mono r identity (k ∷ ks) name db h =
    record_interest_mono r identity ks name (record_one r identity k db)
      (record_one_mono r identity k r identity name db h)

record_interest-subscribed :
    (r identity : String) (ks : List String) (key name : String) (db : Db)
    → contains key ks ≡ true
    → has_identity identity (lookup r db.repo_state) ≡ true
    → named (lookup (r, key) db.repo_packages) ≡ some name
    → subscribed r identity name (record_interest r ks identity db) ≡ true
unfolding record_interest contains
record_interest-subscribed r identity [] key name db m i n = cc
record_interest-subscribed r identity (k ∷ ks) key name db m i n =
    let db' = record_one r identity k db in
    elim (Bool-cases (k == key)) [
      | inl same ↦
          record_interest_mono r identity ks name db'
            (record_one_self r identity k name db i (ground (arith, eq_iff k key)))
      | inr other ↦
          record_interest-subscribed r identity ks key name db' (ground arith)
            (rw record_one_states i) (rw record_one_packages n)
    ]

contains-wanted_keys :
    (r identity : String) (db : Db) (m : Assoc String Package) (key : String) (p : Package)
    → lookup key m ≡ some p
    → is_wanted r identity db p ≡ true
    → contains key (wanted_keys r identity db m) ≡ true
unfolding wanted_keys contains lookup
contains-wanted_keys r identity db [] key p at w = cc
contains-wanted_keys r identity db ((k, q) ∷ m) key p at w =
    ground (arith, contains-wanted_keys r identity db m key p, eq_iff k key)

interest-record_snapshot :
    (env : Env) (s : RepoSnapshot) (meta : Meta) (db : Db)
    → (record_snapshot env s meta db).0.package_interest ≡ db.package_interest
unfolding record_snapshot
interest-record_snapshot env s meta db =
    let previous = catalog s.repo_id db.repo_packages in
    (stage_all-Keeps env previous s (diff_of env previous s).modified_packages db).interest

has_identity-next_state :
    (env : Env) (s : RepoSnapshot) (meta : Meta) (changed moved : Bool) (identity : String)
    (o : Option RepoState)
    → meta.source ≡ some identity
    → has_identity identity (some (next_state env s meta changed moved o)) ≡ true
has_identity-next_state env s meta changed moved identity none from = rw from (beq_refl identity)
has_identity-next_state env s meta changed moved identity (some st) from =
    rw from (beq_refl identity)

-- When interest in a named package is recorded, and the next snapshot from the same source lists
-- a version of that name, then that version is among the interested keys.
pub interested_keys-record_snapshot :
    (env : Env) (s : RepoSnapshot) (meta : Meta) (identity : String) (keys : List String)
    (old new name filename : String) (db : Db)
    → contains old keys ≡ true
    → has_identity identity (lookup s.repo_id db.repo_state) ≡ true
    → named (lookup (s.repo_id, old) db.repo_packages) ≡ some name
    → Distinct s.packages
    → lookup new s.packages ≡ some filename
    → lookup new s.names ≡ some name
    → meta.source ≡ some identity
    → contains new (
        interested_keys s.repo_id identity
          (record_snapshot env s meta (record_interest s.repo_id keys identity db)).0)
      ≡ true
unfolding interested_keys
interested_keys-record_snapshot env s meta identity keys old new name filename db m i n d listed
      is_named from =
    let before = record_interest s.repo_id keys identity db in
    let after = (record_snapshot env s meta before).0 in
    let joined : has_identity identity (lookup s.repo_id after.repo_state) ≡ true =
      rw lookup-repo_state (has_identity-next_state env s meta _ _ identity _ from) in
    let stored : lookup new (catalog s.repo_id after.repo_packages) ≡ some (row s new filename) =
      lookup-catalog s.repo_id new after.repo_packages
      ∙ lookup-record_snapshot env s meta before s.repo_id new d
      ∙ rw (beq_refl s.repo_id) (rw listed refl) in
    let demanded : subscribed s.repo_id identity name after ≡ true =
      rw interest-record_snapshot
        (record_interest-subscribed s.repo_id identity keys old name db m i n) in
    rw joined (
      contains-wanted_keys s.repo_id identity after (catalog s.repo_id after.repo_packages) new
        (row s new filename) stored (rw is_named demanded))
