-- ===== src/Check.antt =====
-- operations/check.py: the check of one index, and the cache work that follows from it.
pub mod Errors
pub mod Tests
use repowatch.Prelude.{
  ℕ, ◌+◌, ◌*◌, String, Bool, true, false, not, ◌&&◌, ◌||◌, Option, none, some, List, [], ◌∷◌,
  if◌then◌else◌, ltb, ◌==◌, text_keys, pair_keys, Assoc, lookup, contains, is_some,
}
use repowatch.Notifications
use repowatch.Notifications.{World}
use repowatch.Storage.Tables.{Warmed, NixPolicy, Db}
use repowatch.Storage.Snapshots
use repowatch.Storage.Snapshots.{RepoSnapshot, DiffResult, Meta, record_snapshot}
use repowatch.Storage.Repositories.{
  get_index_meta, record_key_expiry, touch_last_check, has_snapshot,
}
use repowatch.Storage.Cache.Interest.{interested_keys}
use repowatch.Storage.Cache.Nix.{update_nix_trust, policy_of}
use repowatch.Storage.Cache.Replacements.{Pending, get_pending_replacements}

pub record Repo : Type 0 where
  pub id : String
  pub type : String
  pub upstream : String
  pub identity : String
  pub prefetch : Bool
  pub verify_signature : Bool
  pub has_keyring : Bool
  pub nix_public_keys : List String

pub record Head : Type 0 where
  pub unchanged : Bool
  pub etag : Option String
  pub last_modified : Option String

pub record KeyExpiry : Type 0 where
  pub expires_at : Option ℕ
  pub known : Bool

-- What the download of an index ends in.
pub data Fetched : Type 0 where
  fetched : RepoSnapshot → List (String × String) → Fetched
  signature_error : String → Fetched
  fetch_error : Fetched

-- The parser of the repository and the reading of its keys; `check_head` is `none` where the request
-- fails.
pub record Env : Type 0 where
  pub now : ℕ
  pub new_id : String → String
  pub check_head : Option String × Option String → Option Head
  pub fetch : Fetched
  pub signing_key_expiry : List (String × String) → KeyExpiry
  pub settings : Notifications.Config
  pub key_expiry_warning_days : ℕ
  pub message : ℕ → String
  pub delivered : Bool

pub record State : Type 0 where
  pub db : Db
  pub notices : World

abbrev pub unknown_expiry : KeyExpiry
unknown_expiry = record { expires_at = none; known = false }

abbrev pub has_signers : List (String × String) → Bool
has_signers [] = false
has_signers (signer ∷ signers) = true

abbrev pub expiry_of : Env → Repo → List (String × String) → KeyExpiry
expiry_of env repo signers =
    if repo.verify_signature
      && not (repo.type == "apk" || repo.type == "nix")
      && repo.has_keyring
      && has_signers signers
    then env.signing_key_expiry signers
    else unknown_expiry

-- Fewer whole days are left than the limit, which a date in the past satisfies too.
abbrev pub note_expiry : Env → String → Option ℕ → World → World
note_expiry env r none w =
    Notifications.record_success env.settings (r, "key_expiry") env.delivered w
note_expiry env r (some expires_at) w =
    if ltb expires_at (env.now + env.key_expiry_warning_days * 86400)
    then Notifications.record_failure env.settings env.now (r, "key_expiry")
        (env.message expires_at) env.delivered w
    else Notifications.record_success env.settings (r, "key_expiry") env.delivered w

unfoldable pub check_key_expiry : Env → Repo → List (String × String) → State → State
check_key_expiry env repo signers s =
    let expiry = expiry_of env repo signers in
    record {
      db = record_key_expiry repo.id expiry.expires_at (some expiry.known) s.db;
      notices =
          if expiry.known then note_expiry env repo.id expiry.expires_at s.notices else s.notices;
    }

pub record CacheWork : Type 0 where
  pub warm : Assoc String String
  pub removed_filenames : Assoc String String

-- Work for the pending replacements alone, if there are any.
abbrev pub work_for : List Pending → Option CacheWork
work_for [] = none
work_for (item ∷ items) = some (record { warm = []; removed_filenames = [] })

abbrev pub head_of : Option Head → Head
head_of none = record { unchanged = false; etag = none; last_modified = none }
head_of (some head) = head

abbrev pub is_skipped : Repo → Head → Option String × Option String → Db → Bool
is_skipped repo head (etag, last_modified) db =
    head.unchanged
    && not repo.verify_signature
    && (is_some etag || is_some last_modified)
    && has_snapshot repo.id db

-- `snapshot.packages[key]` for the keys that a test selects.
unfoldable pub chosen : (String → Bool) → Assoc String String → Assoc String String
chosen p [] = []
chosen p ((key, filename) ∷ packages) =
    let rest = chosen p packages in if p key then (key, filename) ∷ rest else rest

abbrev pub succeeded : Option Warmed → Bool
succeeded none = false
succeeded (some w) = w.succeeded

abbrev pub interested : Repo → Db → List String
interested repo db = if repo.prefetch then interested_keys repo.id repo.identity db else []

abbrev pub retried : Repo → RepoSnapshot → List String → Db → Assoc String String
unfolding chosen
retried repo snapshot keys db =
    chosen (λ key. contains key keys && not (succeeded (lookup (repo.id, key) db.warmed_packages)))
      snapshot.packages

abbrev pub trust : Env → Repo → Db → Db
trust env repo db =
    update_nix_trust env.new_id repo.id
      (policy_of repo.verify_signature repo.nix_public_keys (some repo.upstream)) db

abbrev pub announced : Env → Repo → DiffResult → World → World
announced env repo diff w =
    if diff.changed
    then (Notifications.emit env.settings "repository.changed" (repo.id, "") env.delivered w).0
    else w

unfoldable pub work_of : Env → Repo → RepoSnapshot → DiffResult → Db → Option CacheWork × Db
unfolding chosen
work_of env repo snapshot diff db =
    if repo.type == "nix"
    then (let db' = trust env repo db in
        (
          some (record {
            warm = retried repo snapshot (interested repo db) db';
            removed_filenames = diff.removed_filenames;
          }),
          db',
        ))
    else if not diff.changed
    then (work_for (get_pending_replacements repo.id db), db)
    else (
      some (record {
        warm =
            chosen (λ key. contains key diff.new_packages && contains key (interested repo db))
              snapshot.packages;
        removed_filenames = diff.removed_filenames;
      }),
      db,
    )

abbrev pub succeed_gpg : Env → Repo → World → World
succeed_gpg env repo w =
    if repo.type == "nix"
    then w
    else Notifications.record_success env.settings (repo.id, "gpg") env.delivered w

-- What follows a download that was verified.
unfoldable pub record_index :
    Env → Repo → Head → RepoSnapshot → List (String × String) → State → Option CacheWork × State
unfolding check_key_expiry work_of
record_index env repo head snapshot signers s =
    let s' = check_key_expiry env repo signers s in
    let meta : Meta = record {
      etag = head.etag;
      last_modified = head.last_modified;
      source = some repo.identity;
    } in
    let (db, diff) =
      record_snapshot (record { now = env.now; new_id = env.new_id }) snapshot meta s'.db in
    let (work, db') = work_of env repo snapshot diff db in
    (work, record { db = db'; notices = announced env repo diff (succeed_gpg env repo s'.notices) })

-- An error of the signature is reported, another one only logged; both end the check.
unfoldable pub finish_fetch : Env → Repo → Head → Fetched → State → Option CacheWork × State
unfolding record_index
finish_fetch env repo head (fetched snapshot signers) s =
    record_index env repo head snapshot signers s
finish_fetch env repo head (signature_error detail) s = (
  none,
  record s {
    notices =
        Notifications.record_failure env.settings env.now (repo.id, "gpg") detail env.delivered
          s.notices;
  },
)
finish_fetch env repo head fetch_error s = (none, s)

unfoldable pub check_index : Env → Repo → State → Option CacheWork × State
unfolding check_key_expiry finish_fetch
check_index env repo s =
    let s' = check_key_expiry env repo [] s in
    let previous = get_index_meta repo.id (some repo.identity) s'.db in
    let head = head_of (env.check_head previous) in
    if is_skipped repo head previous s'.db
    then (
      work_for (get_pending_replacements repo.id s'.db),
      record s' { db = touch_last_check env.now repo.id s'.db },
    )
    else finish_fetch env repo head env.fetch s'
