-- ===== src/Storage/Tables.antt =====
-- storage/schema.py: the tables of the catalogue and of the cache, each by its primary key. A time is
-- a number of seconds; `last_check` is `none` where the column holds the empty text.
use repowatch.Prelude.{ℕ, String, Bool, Option, List, Assoc}

pub record RepoState : Type 0 where
  pub last_check : Option ℕ
  pub changed_at : Option ℕ
  pub index_etag : Option String
  pub index_last_modified : Option String
  pub package_count : Option ℕ
  pub source_identity : Option String
  pub snapshot_revision : ℕ
  pub key_expires_at : Option ℕ
  pub key_expiry_known : Bool

pub record Package : Type 0 where
  pub package_name : Option String
  pub filename : String
  pub content_hash : Option String

pub record Replacement : Type 0 where
  pub targets : List (String × String)
  pub expected_hash : Option String
  pub revision : String
  pub last_error : Option String

pub record Warmed : Type 0 where
  pub filename : String
  pub warmed_at : ℕ
  pub succeeded : Bool
  pub http_status : Option ℕ
  pub source : String
  pub revision : String

pub record Change : Type 0 where
  pub repo_id : String
  pub ts : ℕ
  pub new_pkgs : List String
  pub removed_pkgs : List String
  pub modified_pkgs : List String

pub record Artifact : Type 0 where
  pub content_hash : Option String
  pub size : Option ℕ

-- The signature policy of a Nix repository, whose JSON text is the column `policy`.
pub record NixPolicy : Type 0 where
  pub verify : Bool
  pub trusted : List String
  pub source : Option String

pub record Db : Type 0 where
  pub repo_state : Assoc String RepoState
  pub repo_packages : Assoc (String × String) Package
  pub pending_replacements : Assoc (String × String) Replacement
  pub warmed_packages : Assoc (String × String) Warmed
  pub repo_events : List Change
  pub prefetch_bans : Assoc (String × String) ℕ
  pub nix_artifacts : Assoc (String × (String × String)) Artifact
  pub nix_trust : Assoc String NixPolicy
  pub package_interest : Assoc (String × (String × String)) (Unit {0})
