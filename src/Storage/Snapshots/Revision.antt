-- ===== src/Storage/Snapshots/Revision.antt =====
-- What the revision of storage/repositories.py's `record_snapshot` says of the catalogue.
use repowatch.Prelude.{
  ℕ, ◌≡◌, refl, ◌∙◌, ap, String, Bool, true, false, ◌||◌, Option, none, some, List, [], ◌∷◌, arith,
  text_keys, pair_keys, Assoc, lookup, contains, select, keys, is_some, lookup-insert,
  contains-keys, Distinct, Option-cases, inl, inr, eq_iff, beq_refl,
}
use repowatch.Storage.Tables.{RepoState, Package, Db}
use repowatch.Storage.Snapshots.{
  RepoSnapshot, Env, Meta, catalog, new_keys, removed_keys, modified_keys, is_modified, differs,
  same_text, nonempty, hash_moved, stage_all, row, record_snapshot, diff_of, next_state,
}
use repowatch.Storage.Snapshots.Catalog.{
  lookup-catalog, entry, lookup-record_snapshot, stage_all-Keeps,
}

nonempty-select :
    (p : String → Bool) (xs : List String)
    → ((k : String) → contains k xs ≡ true → p k ≡ false)
    → nonempty (select p xs) ≡ false
unfolding select contains
nonempty-select p [] h = refl
nonempty-select p (x ∷ xs) h =
    ground (arith, h x, eq_iff x x, nonempty-select p xs (λ k m. h k (ground arith)))

select_none :
    (p : String → Bool) (xs : List String) (k : String)
    → nonempty (select p xs) ≡ false
    → contains k xs ≡ true
    → p k ≡ false
unfolding select contains
select_none p [] k h m = cc
select_none p (x ∷ xs) k h m = ground (arith, eq_iff x k, select_none p xs k)

hash_moved_none :
    (xs : List String) (previous : Assoc String Package) (s : RepoSnapshot) (k : String)
    (old : Package)
    → hash_moved xs previous s ≡ false
    → contains k xs ≡ true
    → lookup k previous ≡ some old
    → is_some (lookup k s.packages) ≡ true
    → same_text old.content_hash (lookup k s.content_hashes) ≡ true
unfolding hash_moved contains
hash_moved_none [] previous s k old h m e f = cc
hash_moved_none (x ∷ xs) previous s k old h m e f =
    ground (arith, eq_iff x k, hash_moved_none xs previous s k old)

same_text_refl : (o : Option String) → same_text o o ≡ true
same_text_refl none = refl
same_text_refl (some t) = beq_refl t

hash_moved-false :
    (xs : List String) (previous : Assoc String Package) (s : RepoSnapshot)
    → ((k : String) → lookup k previous ≡ entry s k (lookup k s.packages))
    → hash_moved xs previous s ≡ false
unfolding hash_moved
hash_moved-false [] previous s same = refl
hash_moved-false (x ∷ xs) previous s same =
    ground (
      arith,
      same x,
      hash_moved-false xs previous s same,
      same_text_refl (lookup x s.content_hashes),
    )

differs-row :
    (s : RepoSnapshot) (k f : String) → differs (row s k f) f (lookup k s.content_hashes) ≡ false
unfolding differs
differs-row s k f = ground (arith, beq_refl f, same_text_refl (lookup k s.content_hashes))

-- A table that already holds the snapshot.
module _ (previous : Assoc String Package) (s : RepoSnapshot)
    (same : (k : String) → lookup k previous ≡ entry s k (lookup k s.packages)) where
  new_keys_none : nonempty (new_keys previous s) ≡ false
  unfolding new_keys
  new_keys_none =
      nonempty-select _ (keys s.packages)
        (λ k m. ground (arith, same k, contains-keys k s.packages))

  removed_keys_none : nonempty (removed_keys previous s) ≡ false
  unfolding removed_keys
  removed_keys_none =
      nonempty-select _ (keys previous) (λ k m. ground (arith, same k, contains-keys k previous))

  unmodified : (k : String) → is_modified previous s k ≡ false
  unmodified k = elim (Option-cases (lookup k s.packages)) [
    | inl e ↦ ground (arith, same k)
    | inr (f, e) ↦ ground (arith, same k, differs-row s k f)
  ]

  modified_keys_none : nonempty (modified_keys previous s) ≡ false
  unfolding modified_keys
  modified_keys_none = nonempty-select _ (keys s.packages) (λ k m. unmodified k)

stored_again :
    (env : Env) (s : RepoSnapshot) (meta : Meta) (db : Db) (k : String)
    → Distinct s.packages
    → lookup k (catalog s.repo_id (record_snapshot env s meta db).0.repo_packages)
      ≡ entry s k (lookup k s.packages)
stored_again env s meta db k d =
    lookup-catalog s.repo_id k _
    ∙ lookup-record_snapshot env s meta db s.repo_id k d
    ∙ rw (beq_refl s.repo_id) refl

-- The state row of the repository after a snapshot.
pub lookup-repo_state :
    (env : Env) (s : RepoSnapshot) (meta : Meta) (db : Db)
    → let previous = catalog s.repo_id db.repo_packages in
      let d = diff_of env previous s in
      lookup s.repo_id (record_snapshot env s meta db).0.repo_state
      ≡ some (
          next_state env s meta d.changed
            (d.changed || hash_moved (keys previous) previous s)
            (lookup s.repo_id db.repo_state))
unfolding record_snapshot
lookup-repo_state env s meta db =
    let previous = catalog s.repo_id db.repo_packages in
    let d = diff_of env previous s in
    let staged = stage_all env previous s d.modified_packages db in
    lookup-insert s.repo_id s.repo_id _ staged.repo_state
    ∙ rw (beq_refl s.repo_id) (rw (stage_all-Keeps env previous s d.modified_packages db).states)

abbrev pub revision_of : Option RepoState → ℕ
revision_of none = 0
revision_of (some st) = st.snapshot_revision

-- Recording a snapshot with distinct keys a second time reports no change and keeps the
-- revision.
pub record_snapshot_again :
    (env env' : Env) (s : RepoSnapshot) (meta meta' : Meta) (db : Db)
    → Distinct s.packages
    → let once = (record_snapshot env s meta db).0 in
      let again = record_snapshot env' s meta' once in
      (again.1.changed ≡ false)
      × (revision_of (lookup s.repo_id again.0.repo_state)
          ≡ revision_of (lookup s.repo_id once.repo_state))
record_snapshot_again env env' s meta meta' db d =
    let once = (record_snapshot env s meta db).0 in
    let previous = catalog s.repo_id once.repo_packages in
    let same = λ (k : String). stored_again env s meta db k d in
    let still : (diff_of env' previous s).changed ≡ false =
      unfold diff_of in
      ground (
        arith,
        new_keys_none previous s same,
        removed_keys_none previous s same,
        modified_keys_none previous s same,
      ) in
    let moved = hash_moved-false (keys previous) previous s same in
    (
      unfold record_snapshot in still,
      ground (
        arith,
        lookup-repo_state env s meta db,
        lookup-repo_state env' s meta' once,
        still,
        moved,
      ),
    )

same_parts : (a b : Option String) → same_text a b ≡ true → a ≡ b
same_parts none none h = refl
same_parts (some a) (some b) h = ap some ((eq_iff a b).0 h)
same_parts none (some b) h = cc
same_parts (some a) none h = cc

-- The part of a row that identifies a file: its name and its hash.
abbrev pub file_of : Option Package → Option (String × Option String)
file_of none = none
file_of (some p) = some (p.filename, p.content_hash)

module _ (env : Env) (s : RepoSnapshot) (db : Db) where
  abbrev before : Assoc String Package
  before = catalog s.repo_id db.repo_packages

  -- With no change and no hash that moved, a key has the same file in the table and the snapshot.
  same_file :
      (k : String)
      → nonempty (new_keys before s) ≡ false
      → nonempty (removed_keys before s) ≡ false
      → nonempty (modified_keys before s) ≡ false
      → hash_moved (keys before) before s ≡ false
      → file_of (entry s k (lookup k s.packages)) ≡ file_of (lookup k before)
  unfolding new_keys removed_keys modified_keys differs
  same_file k n r m h = elim (Option-cases (lookup k before)) [
    | inl e ↦ ground (arith, select_none _ (keys s.packages) k n, contains-keys k s.packages)
    | inr (old, e) ↦ elim (Option-cases (lookup k s.packages)) [
      | inl f ↦ ground (arith, select_none _ (keys before) k r, contains-keys k before)
      | inr (filename, f) ↦ ground (
        arith,
        select_none _ (keys s.packages) k m,
        contains-keys k s.packages,
        contains-keys k before,
        hash_moved_none (keys before) before s k old h,
        same_parts old.content_hash (lookup k s.content_hashes),
        eq_iff filename old.filename,
      )
    ]
  ]

-- When a snapshot with distinct keys leaves the stored revision of its repository as it was,
-- every key of the repository has the same file name and the same hash as before.
pub revision_sound :
    (env : Env) (s : RepoSnapshot) (meta : Meta) (db : Db) (st : RepoState) (k : String)
    → Distinct s.packages
    → lookup s.repo_id db.repo_state ≡ some st
    → revision_of (lookup s.repo_id (record_snapshot env s meta db).0.repo_state)
      ≡ st.snapshot_revision
    → file_of (lookup (s.repo_id, k) (record_snapshot env s meta db).0.repo_packages)
      ≡ file_of (lookup (s.repo_id, k) db.repo_packages)
unfolding diff_of
revision_sound env s meta db st k d there kept =
    let b = before env s db in
    let quiet : (nonempty (new_keys b s) ≡ false)
        × (nonempty (removed_keys b s) ≡ false)
        × (nonempty (modified_keys b s) ≡ false)
        × (hash_moved (keys b) b s ≡ false) =
      ground (arith, lookup-repo_state env s meta db) in
    ground (
      arith,
      same_file env s db k quiet.0 quiet.1 quiet.2 quiet.3,
      stored_again env s meta db k d,
      lookup-catalog s.repo_id k db.repo_packages,
      lookup-catalog s.repo_id k (record_snapshot env s meta db).0.repo_packages,
    )
