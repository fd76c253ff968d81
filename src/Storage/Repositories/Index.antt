-- ===== src/Storage/Repositories/Index.antt =====
-- storage/repositories.py: what the next check of an index reads back, and when a repository has a
-- snapshot.
use repowatch.Prelude.{
  Option-cases, inl, inr, ◌≡◌, String, Bool, ◌&&◌, ◌||◌, Option, none, some, arith, if◌then◌else◌,
  ◌==◌, text_keys, lookup, lookup-insert, eq_iff, ℕ, is_some,
}
use repowatch.Storage.Tables.{Db}
use repowatch.Storage.Snapshots.{RepoSnapshot, Env, Meta, record_snapshot}
use repowatch.Storage.Snapshots.Revision.{lookup-repo_state}
use repowatch.Storage.Repositories.{
  get_index_meta, record_key_expiry, touch_last_check, has_snapshot, other_identity, with_expiry,
  known_or,
}

-- After a snapshot, get_index_meta reads back the two headers that were recorded, or nothing if
-- an identity is asked for that is not the recorded one.
get_index_meta-record_snapshot :
    (env : Env) (s : RepoSnapshot) (meta : Meta) (db : Db) (identity : Option String)
    → get_index_meta s.repo_id identity (record_snapshot env s meta db).0 ≡ (
        if other_identity identity meta.source
        then (none, none)
        else (meta.etag, meta.last_modified))
unfolding get_index_meta
get_index_meta-record_snapshot env s meta db identity =
    ground (arith, lookup-repo_state env s meta db)

-- Recording when the signing key of a repository expires leaves every repository with a snapshot
-- or without one as before.
has_snapshot-record_key_expiry :
    (r q : String) (expires_at : Option ℕ) (known : Option Bool) (db : Db)
    → has_snapshot q (record_key_expiry r expires_at known db) ≡ has_snapshot q db
unfolding has_snapshot record_key_expiry
has_snapshot-record_key_expiry r q expires_at known db =
    let row = with_expiry expires_at (known_or expires_at known) (lookup r db.repo_state) in
    ground (arith, lookup-insert r q row db.repo_state, eq_iff r q)

-- After touch_last_check a repository has a snapshot if it had one before, or if it is the
-- touched one and has a row.
has_snapshot-touch_last_check :
    (now : ℕ) (r q : String) (db : Db)
    → has_snapshot q (touch_last_check now r db)
      ≡ (has_snapshot q db || (q == r && is_some (lookup r db.repo_state)))
unfolding has_snapshot touch_last_check
has_snapshot-touch_last_check now r q db = elim (Option-cases (lookup r db.repo_state)) [
  | inl e ↦ ground (arith, e)
  | inr (st, e) ↦
      let row = record st { last_check = some now } in
      ground (arith, lookup-insert r q row db.repo_state, eq_iff r q, eq_iff q r)
]
