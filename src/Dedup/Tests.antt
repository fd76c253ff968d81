-- ===== src/Dedup/Tests.antt =====
-- Redirects between two mirrors, for cache/dedup.py.
use repowatch.Prelude.{
  ◌≡◌, ◌⊎◌, refl, length, String, true, false, none, some, List, [], ◌∷◌, lookup, insert, contains,
  All, if◌then◌else◌, ◌==◌, text_keys, pair_keys,
}
use repowatch.Dedup.{FileHash, Urls, accepted_pairs}
use repowatch.Dedup.Chains.{
  Names, rewrites_from, targets_from, chase, or_empty, resolve, resolve_all, dedup_keys,
}
use repowatch.Dedup.Chains.Resolved.{dedup_keys-ends}
use repowatch.Dedup.Owners.{Owns, accepted_pairs-Owns}

abbrev files : List FileHash
files =
    record { repo_id = "a"; filename = "curl"; content_hash = some "aa" }
    ∷ record { repo_id = "b"; filename = "curl"; content_hash = some "aa" }
    ∷ record { repo_id = "a"; filename = "vim"; content_hash = some "bb" }
    ∷ record { repo_id = "b"; filename = "vim"; content_hash = none }
    ∷ []

abbrev urls : Urls
urls repo_id filename =
    if filename == "curl"
    then some (if repo_id == "a" then "/a/curl" else "/b/curl")
    else some (if repo_id == "a" then "/a/vim" else "/b/vim")

abbrev pairs : List (String × String)
pairs = ("/a/curl", "/b/curl") ∷ ("/a/vim", "/b/vim") ∷ []

accepted_pairs-Owns_example :
    (h : String) × All (Owns urls "/a/curl" h) files × All (Owns urls "/b/curl" h) files
unfolding accepted_pairs lookup insert contains
accepted_pairs-Owns_example =
    accepted_pairs-Owns true (λ uri. uri) urls pairs files "/a/curl" "/b/curl" refl

-- A file without a known hash keeps its own URL.
vim_refused :
    contains ("/a/vim", "/b/vim") (accepted_pairs true (λ uri. uri) urls pairs files) ≡ false
unfolding accepted_pairs lookup insert contains
vim_refused = refl

abbrev names : Names
names = record {
  lower = λ uri. uri;
  package_path = λ repo_id filename. filename;
  key = λ repo_id filename. "http/a";
  repos = "a" ∷ [];
}

-- The second redirect leads on, to a file that is not redirected.
abbrev chain : List (String × String)
chain = ("/c", "/b") ∷ ("/b", "/a") ∷ []

dedup_keys-ends_example :
    let rewrites = rewrites_from names.lower chain [] in
    let result = lookup "/c" (dedup_keys true names [] chain) in
    (t : String) × (seen : List String) × (chase names.lower rewrites
        (length rewrites)
        ("/c" ∷ [])
        "/b"
      ≡ some (t, seen))
    × ((result ≡ some "")
        ⊎ ((lookup (names.lower t) rewrites ≡ none)
            × (result ≡ some (or_empty (lookup t (targets_from names [] []))))))
unfolding lookup rewrites_from insert
dedup_keys-ends_example = dedup_keys-ends names [] chain "/c" "/b" refl

dedup_keys-chain :
    dedup_keys true names (record { canonical = "a"; filename = "/a" } ∷ []) chain
    ≡ ("/c", "http/a") ∷ ("/b", "http/a") ∷ []
unfolding dedup_keys resolve_all resolve chase rewrites_from targets_from lookup insert contains
dedup_keys-chain = refl
