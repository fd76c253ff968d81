-- ===== src/Storage/Cache/Nix.antt =====
-- storage/cache.py: the files of the packages of a Nix repository, and the policy they were checked
-- under.
use repowatch.Prelude.{
  ℕ, String, Bool, true, false, not, ◌&&◌, ◌||◌, Option, none, some, List, [], ◌∷◌, if◌then◌else◌,
  ◌==◌, text_keys, pair_keys, Assoc, lookup, insert, is_some, contains, keep_where, sorted,
}
use repowatch.Storage.Tables.{Warmed, Package, Artifact, NixPolicy, Db}
use repowatch.Storage.Snapshots.{same_text}
use repowatch.Storage.Cache.Interest.{owners_of}

unfoldable pub distinct : List String → List String
distinct [] = []
distinct (k ∷ ks) = let rest = distinct ks in if contains k rest then rest else k ∷ rest

unfoldable pub same_texts : List String → List String → Bool
same_texts [] [] = true
same_texts (a ∷ as') (b ∷ bs) = a == b && same_texts as' bs
same_texts _ _ = false

abbrev pub same_bool : Bool → Bool → Bool
same_bool true b = b
same_bool false b = not b

unfoldable pub same_policy : NixPolicy → Option NixPolicy → Bool
unfolding same_texts
same_policy p none = false
same_policy p (some q) =
    same_bool p.verify q.verify && same_texts p.trusted q.trusted && same_text p.source q.source

-- `json.dumps([verify, sorted(set(keys)), source])`.
abbrev pub policy_of : Bool → List String → Option String → NixPolicy
unfolding distinct
policy_of verify trusted source = record {
  verify = verify;
  trusted = sorted (distinct trusted);
  source = source;
}

-- Every row of a repository is marked to be warmed again, under a new revision.
unfoldable pub fail_all :
    (String → String) → String → Assoc (String × String) Warmed → Assoc (String × String) Warmed
fail_all new_id r [] = []
fail_all new_id r (((q, key), w) ∷ m) =
    let rest = fail_all new_id r m in
    if q == r
    then ((q, key), record w { succeeded = false; revision = new_id key }) ∷ rest
    else ((q, key), w) ∷ rest

unfoldable pub update_nix_trust : (String → String) → String → NixPolicy → Db → Db
unfolding fail_all same_policy
update_nix_trust new_id r policy db =
    if same_policy policy (lookup r db.nix_trust) then db else record db {
      warmed_packages = fail_all new_id r db.warmed_packages;
      nix_trust = insert r policy db.nix_trust;
    }

unfoldable pub has_artifacts : String → String → Assoc (String × (String × String)) Artifact → Bool
has_artifacts r key [] = false
has_artifacts r key (((q, (k, f)), a) ∷ m) = (q == r && k == key) || has_artifacts r key m

unfoldable pub has_unknown : String → List String → Db → Assoc (String × String) Package → Bool
unfolding has_artifacts
has_unknown r excluded db [] = false
has_unknown r excluded db (((q, key), p) ∷ m) =
    (q == r && not (has_artifacts r key db.nix_artifacts) && not (contains key excluded))
    || has_unknown r excluded db m

unfoldable pub nix_has_unknown_owners : String → List String → Db → Bool
unfolding has_unknown
nix_has_unknown_owners r excluded db = has_unknown r excluded db db.repo_packages

unfoldable pub record_nix_artifacts : String → String → Assoc String Artifact → Db → Db
record_nix_artifacts r key [] db = db
record_nix_artifacts r key ((filename, a) ∷ rest) db =
    record_nix_artifacts r key rest
      (record db { nix_artifacts = insert (r, (key, filename)) a db.nix_artifacts })

unfoldable pub artifacts_of :
    String → String → Assoc (String × (String × String)) Artifact → Assoc String Artifact
artifacts_of r key [] = []
artifacts_of r key (((q, (k, filename)), a) ∷ m) =
    let rest = artifacts_of r key m in if q == r && k == key then (filename, a) ∷ rest else rest

unfoldable pub get_nix_artifacts : String → String → Db → Assoc String Artifact
unfolding artifacts_of
get_nix_artifacts r key db = artifacts_of r key db.nix_artifacts

unfoldable pub touch_rows :
    ℕ
    → (String → String)
    → String
    → List String
    → Assoc (String × String) Warmed
    → Assoc (String × String) Warmed
touch_rows now new_id r owners [] = []
touch_rows now new_id r owners (((q, key), w) ∷ m) =
    let rest = touch_rows now new_id r owners m in
    if q == r && w.succeeded && contains key owners
    then ((q, key), record w { warmed_at = now; revision = new_id key }) ∷ rest
    else ((q, key), w) ∷ rest

unfoldable pub touch_nix_artifact : ℕ → (String → String) → String → String → Db → Db
unfolding touch_rows owners_of
touch_nix_artifact now new_id r filename db = record db {
  warmed_packages =
      touch_rows now new_id r (owners_of r filename db.nix_artifacts) db.warmed_packages;
}

abbrev pub shares : String → List String → Db → String × (String × String) → Artifact → Bool
shares r excluded db (q, (key, filename)) a =
    q == r && is_some (lookup (q, key) db.repo_packages) && not (contains key excluded)

unfoldable pub files_of : Assoc (String × (String × String)) Artifact → List String
files_of [] = []
files_of (((q, (key, filename)), a) ∷ m) = filename ∷ files_of m

unfoldable pub nix_shared_files : String → List String → Db → List String
unfolding files_of
nix_shared_files r excluded db = files_of (keep_where (shares r excluded db) db.nix_artifacts)
