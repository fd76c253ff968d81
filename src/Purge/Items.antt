-- ===== src/Purge/Items.antt =====
-- operations/cleanup.py: `purge_items`, which picks the way to purge the files of some packages.
use repowatch.Prelude.{
  String, Bool, Option, none, some, [], ◌∷◌, if◌then◌else◌, ◌==◌, text_keys, Assoc, lookup,
}
use repowatch.Storage.Tables.{Db}
use repowatch.Purge.{Reply, Outcome, purge_batch, purge_selected_raw}
use repowatch.Purge.Nix.{purge}

pub record Repo : Type 0 where
  pub id : String
  pub is_nix : Bool

-- The settings of nginx, the addresses of a file, and what nginx answers.
pub record Nginx : Type 0 where
  pub enable_purge : Bool
  pub enable_cache_probe : Bool
  pub enable_dedup : Bool
  pub purge_url : String → String → String
  pub cache_key : String → Bool → String → String
  -- The path of a file in lower case, and the redirects to the keys of shared copies.
  pub uri : String → String → String
  pub redirects : Db → Assoc String String
  pub reply : String → String → Reply

abbrev pub shared_key : Option String → Option String
shared_key none = none
shared_key (some key) = if key == "" then none else some key

unfoldable pub canonical_keys :
    (String → String) → Assoc String String → Assoc String String → Assoc String String
canonical_keys uri redirects [] = []
canonical_keys uri redirects ((key, filename) ∷ items) =
    let rest = canonical_keys uri redirects items in
    elim (shared_key (lookup (uri filename) redirects)) [
      | none ↦ rest
      | some shared ↦ (filename, shared) ∷ rest
    ]

abbrev pub canonicals : Nginx → Repo → Assoc String String → Db → Assoc String String
unfolding canonical_keys
canonicals n repo items db =
    if n.enable_dedup then canonical_keys (n.uri repo.id) (n.redirects db) items else []

-- A Nix purge chooses by the same setting, and without shared keys.
abbrev purge_files : Nginx → Repo → Assoc String String → Assoc String Outcome
purge_files n repo files =
    if n.enable_cache_probe
    then purge_selected_raw n.reply (n.cache_key repo.id) n.enable_dedup [] files
    else purge_batch n.reply (n.purge_url repo.id) files

unfoldable pub purge_items : Nginx → Repo → Assoc String String → Db → Assoc String Outcome
purge_items n repo items db =
    if repo.is_nix
    then purge (purge_files n repo) repo.id items db
    else if n.enable_cache_probe
    then purge_selected_raw n.reply (n.cache_key repo.id) n.enable_dedup
        (canonicals n repo items db) items
    else purge_batch n.reply (n.purge_url repo.id) items
