-- ===== src/Dedup.antt =====
-- cache/dedup.py: `accepted_pairs`, the redirects whose two files have one known content. URLs are
-- given with their lower-case form; the pairs that nginx/render.py proposes are a parameter.
pub mod Tests
pub mod Chains
pub mod Owners
use repowatch.Prelude.{
  String, Bool, true, false, not, ◌&&◌, Option, none, some, List, [], ◌∷◌, if◌then◌else◌, ◌==◌,
  text_keys, Assoc, lookup, insert, is_some,
}
use repowatch.Storage.Snapshots.{truthy, same_text}

-- One row of `iter_file_hashes`.
pub record FileHash : Type 0 where
  pub repo_id : String
  pub filename : String
  pub content_hash : Option String

-- What is known of a URL: `unseen`, or its hash, which is `none` for several or unknown contents.
pub data Known : Type 0 where
  unseen : Known
  seen : Option String → Known

-- The URL of a file in lower case, of a repository that is configured.
abbrev pub Urls : Type 0
Urls = String → String → Option String

-- `content_hash or None`.
abbrev pub or_none : Option String → Option String
or_none hash = if truthy hash then hash else none

abbrev pub merged : Option String → Known → Known
merged hash unseen = seen (or_none hash)
merged hash (seen previous) = seen (if same_text previous hash then or_none hash else none)

unfoldable pub note_hash : Option String → String → Assoc String Known → Assoc String Known
note_hash hash uri hashes = elim (lookup uri hashes) [
  | none ↦ hashes
  | some previous ↦ insert uri (merged hash previous) hashes
]

abbrev pub note_file : Urls → FileHash → Assoc String Known → Assoc String Known
note_file urls f hashes = elim (urls f.repo_id f.filename) [
  | none ↦ hashes
  | some uri ↦ note_hash f.content_hash uri hashes
]

unfoldable pub note_files : Urls → List FileHash → Assoc String Known → Assoc String Known
unfolding note_hash
note_files urls [] hashes = hashes
note_files urls (f ∷ fs) hashes = note_files urls fs (note_file urls f hashes)

unfoldable pub proposed : (String → String) → List (String × String) → Assoc String Known
proposed lower [] = []
proposed lower ((source, target) ∷ pairs) =
    insert (lower source) unseen (insert (lower target) unseen (proposed lower pairs))

abbrev pub hash_of : Option Known → Option String
hash_of (some (seen hash)) = hash
hash_of _ = none

abbrev pub agree : Option String → Option String → Bool
agree (some a) (some b) = a == b
agree _ _ = false

unfoldable pub accepted :
    (String → String) → Assoc String Known → List (String × String) → List (String × String)
accepted lower hashes [] = []
accepted lower hashes ((source, target) ∷ pairs) =
    let rest = accepted lower hashes pairs in
    if agree (hash_of (lookup (lower source) hashes)) (hash_of (lookup (lower target) hashes))
    then (source, target) ∷ rest
    else rest

unfoldable pub accepted_pairs :
    Bool
    → (String → String)
    → Urls
    → List (String × String)
    → List FileHash
    → List (String × String)
unfolding note_files proposed accepted
accepted_pairs enable_dedup lower urls pairs files =
    if enable_dedup then accepted lower (note_files urls files (proposed lower pairs)) pairs else []
