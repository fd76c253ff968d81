-- ===== src/Purge.antt =====
-- cache/purge.py and cache/probe.py: the purge of files from nginx's cache, and its outcome for each
-- package.
pub mod Nix
pub mod Outcomes
pub mod Items
pub mod Kept
pub mod Tests
use repowatch.Prelude.{
  ℕ, String, Bool, true, false, ◌||◌, Option, none, some, List, [], ◌∷◌, ◌++◌, if◌then◌else◌, ◌==◌,
  nat_keys, text_keys, Assoc, lookup, contains,
}

-- What a GET of nginx ends in: a status, or an error of the request.
pub data Reply : Type 0 where
  answered : ℕ → Reply
  failed : String → Reply

pub data Outcome : Type 0 where
  purged : Outcome
  not_cached : Outcome
  retained_shared : Outcome
  http_error : ℕ → Outcome
  request_error : String → Outcome

abbrev pub outcome_of : Reply → Outcome
outcome_of (answered status) =
    if status == 200 then purged else if status == 404 then not_cached else http_error status
outcome_of (failed detail) = request_error detail

-- `outcome in ("purged", "not_cached")`.
abbrev pub is_gone : Outcome → Bool
is_gone purged = true
is_gone not_cached = true
is_gone _ = false

abbrev pub is_purged : Outcome → Bool
is_purged purged = true
is_purged _ = false

-- The requests of a batch run together; `reply` says what each one of a package gets.
unfoldable pub purge_batch :
    (String → String → Reply) → (String → String) → Assoc String String → Assoc String Outcome
purge_batch reply url [] = []
purge_batch reply url ((key, filename) ∷ items) =
    (key, outcome_of (reply key (url filename))) ∷ purge_batch reply url items

unfoldable pub failures_in : Assoc String Outcome → Assoc String Outcome
failures_in [] = []
failures_in ((key, outcome) ∷ results) =
    let rest = failures_in results in if is_gone outcome then rest else (key, outcome) ∷ rest

-- The automatic purge answers nothing: what it logs is modelled.
unfoldable pub purge_removed :
    Bool
    → (String → String → Reply)
    → (String → String)
    → Assoc String String
    → Assoc String Outcome
unfolding purge_batch failures_in
purge_removed enable_purge reply url removed =
    if enable_purge then failures_in (purge_batch reply url removed) else []

unfoldable pub first_error : List Outcome → Option Outcome
first_error [] = none
first_error (o ∷ os) = let rest = first_error os in if is_gone o then rest else some o

unfoldable pub any_purged : List Outcome → Bool
any_purged [] = false
any_purged (o ∷ os) = is_purged o || any_purged os

abbrev pub merged : Option Outcome → Bool → Outcome → Outcome
merged (some e) was_purged otherwise = e
merged none was_purged otherwise = if was_purged then purged else otherwise

-- A dict whose values are all None: the keys in the order in which they are first written.
abbrev pub with_key : String → List String → List String
with_key k ks = if contains k ks then ks else ks ++ (k ∷ [])

abbrev pub with_canonical : Option String → List String → List String
with_canonical none ks = ks
with_canonical (some k) ks = with_key k ks

-- The keys of a file under both settings of dedup, and the key of its shared copy.
unfoldable pub raw_keys :
    (Bool → String → String) → Bool → Assoc String String → String → List String
raw_keys cache_key enable_dedup canonical_keys filename =
    with_canonical (lookup filename canonical_keys) (
      with_key (cache_key (if enable_dedup then false else true) filename)
        (cache_key enable_dedup filename ∷ []))

unfoldable pub outcomes_of : (String → Reply) → List String → List Outcome
outcomes_of reply [] = []
outcomes_of reply (k ∷ ks) = outcome_of (reply k) ∷ outcomes_of reply ks

unfoldable pub total : List Outcome → Outcome
unfolding first_error any_purged
total os = merged (first_error os) (any_purged os) not_cached

unfoldable pub purge_selected_raw :
    (String → String → Reply)
    → (Bool → String → String)
    → Bool
    → Assoc String String
    → Assoc String String
    → Assoc String Outcome
unfolding raw_keys outcomes_of total
purge_selected_raw reply cache_key enable_dedup canonical_keys [] = []
purge_selected_raw reply cache_key enable_dedup canonical_keys ((key, filename) ∷ items) =
    (key, total (outcomes_of (reply key) (raw_keys cache_key enable_dedup canonical_keys filename)))
    ∷ purge_selected_raw reply cache_key enable_dedup canonical_keys items
