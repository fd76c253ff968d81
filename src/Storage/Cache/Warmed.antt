-- ===== src/Storage/Cache/Warmed.antt =====
-- storage/cache.py: the warm-up records, with what makes one stale or expired, and their removal.
pub mod Generations
pub mod Expiry
use repowatch.Prelude.{
  ℕ, ◌-◌, ◌*◌, String, Bool, true, false, not, ◌&&◌, ◌||◌, Option, none, some, List, [], ◌∷◌,
  if◌then◌else◌, ltb, ◌==◌, text_keys, pair_keys, Assoc, lookup, insert, remove, is_some,
  keep_where, count_where, contains, ◌+◌,
}
use repowatch.Storage.Tables.{Warmed, Package, Artifact, Db}

-- How the row of a package ends: its file, the time, whether it went well, and the new revision.
pub record Outcome : Type 0 where
  pub filename : String
  pub now : ℕ
  pub succeeded : Bool
  pub http_status : Option ℕ
  pub source : String
  pub revision : String

-- The source of the first time stays.
abbrev pub warmed_row : Outcome → Option Warmed → Warmed
warmed_row o none = record {
  filename = o.filename;
  warmed_at = o.now;
  succeeded = o.succeeded;
  http_status = o.http_status;
  source = o.source;
  revision = o.revision;
}
warmed_row o (some old) = record old {
  filename = o.filename;
  warmed_at = o.now;
  succeeded = o.succeeded;
  http_status = o.http_status;
  revision = o.revision;
}

unfoldable pub record_warmed_package : String → String → Outcome → Db → Db
record_warmed_package r key o db = record db {
  warmed_packages =
      insert (r, key) (warmed_row o (lookup (r, key) db.warmed_packages)) db.warmed_packages;
}

unfoldable pub remove_warmed_package : String → String → Db → Db × Bool
remove_warmed_package r key db = (
  record db { warmed_packages = remove (r, key) db.warmed_packages },
  is_some (lookup (r, key) db.warmed_packages),
)

abbrev add_removed : Bool → ℕ → ℕ
add_removed there n = if there then n + 1 else n

unfoldable pub remove_warmed_packages : String → List String → Db → Db × ℕ
unfolding remove_warmed_package
remove_warmed_packages r [] db = (db, 0)
remove_warmed_packages r (key ∷ ks) db =
    let (db', there) = remove_warmed_package r key db in
    let (db'', n) = remove_warmed_packages r ks db' in (db'', add_removed there n)

-- A warm-up record whose package is no longer in the catalogue.
abbrev pub is_stale : Assoc (String × String) Package → String × String → Warmed → Bool
is_stale packages key w = not (is_some (lookup key packages))

unfoldable pub find_all_stale_warmed : Db → Assoc (String × String) Warmed
find_all_stale_warmed db = keep_where (is_stale db.repo_packages) db.warmed_packages

unfoldable pub find_stale_warmed : String → Db → Assoc (String × String) Warmed
find_stale_warmed r db =
    keep_where (λ key w. key.0 == r && is_stale db.repo_packages key w) db.warmed_packages

unfoldable pub get_stale_warmed_packages : ℕ → ℕ → Db → Assoc (String × String) Warmed
get_stale_warmed_packages now days db =
    let limit = now - days * 86400 in keep_where (λ key w. ltb w.warmed_at limit) db.warmed_packages

-- A file of a package that is neither in the catalogue nor warmed any more.
abbrev pub is_owned :
    Assoc (String × String) Package
    → Assoc (String × String) Warmed
    → String × (String × String)
    → Artifact
    → Bool
is_owned packages warmed (r, (key, filename)) a =
    is_some (lookup (r, key) packages) || is_some (lookup (r, key) warmed)

unfoldable pub prune_warmed_packages : ℕ → ℕ → Db → Db × ℕ
prune_warmed_packages now days db =
    let limit = now - days * 86400 in
    let left = keep_where (λ key w. not (ltb w.warmed_at limit)) db.warmed_packages in
    (
      record db {
        warmed_packages = left;
        nix_artifacts = keep_where (is_owned db.repo_packages left) db.nix_artifacts;
      },
      count_where (λ key w. ltb w.warmed_at limit) db.warmed_packages,
    )

-- What is remembered of a row before the network is used: its file and its revision.
abbrev pub Records : Type 0
Records = Assoc String (String × String)

-- The time of a row is before `now - timedelta(days)`.
abbrev pub is_expired : ℕ → ℕ → Warmed → Bool
is_expired now days w = ltb w.warmed_at (now - days * 86400)

-- The condition on the time of a row: none, or to be expired at a time.
abbrev pub passes : Option (ℕ × ℕ) → Warmed → Bool
passes none w = true
passes (some (now, days)) w = is_expired now days w

abbrev pub captured : Option (ℕ × ℕ) → Option Warmed → Option (String × String)
captured expiry none = none
captured expiry (some w) = if passes expiry w then some (w.filename, w.revision) else none

abbrev pub set_record : String → Option (String × String) → Records → Records
set_record key none records = records
set_record key (some record_of) records = insert key record_of records

-- The program asks for five hundred keys at a time.
unfoldable pub get_warmed_records : String → List String → Option (ℕ × ℕ) → Db → Records
get_warmed_records r [] expiry db = []
get_warmed_records r (key ∷ ks) expiry db =
    set_record key (captured expiry (lookup (r, key) db.warmed_packages))
      (get_warmed_records r ks expiry db)

abbrev pub has_revision : String → Option Warmed → Bool
has_revision revision none = false
has_revision revision (some w) = w.revision == revision

-- One DELETE by key and revision, and whether it found a row.
abbrev pub remove_revision : String → String → Option (String × String) → Db → Db × ℕ
remove_revision r key none db = (db, 0)
remove_revision r key (some (filename, revision)) db =
    if has_revision revision (lookup (r, key) db.warmed_packages)
    then (record db { warmed_packages = remove (r, key) db.warmed_packages }, 1)
    else (db, 0)

unfoldable pub remove_purged_records : String → Records → List String → Db → Db × ℕ
remove_purged_records r records [] db = (db, 0)
remove_purged_records r records (key ∷ ks) db =
    let (db', n) = remove_revision r key (lookup key records) db in
    let (db'', m) = remove_purged_records r records ks db' in (db'', n + m)
