-- ===== src/Purge/Outcomes.antt =====
-- cache/probe.py and cache/nix.py: what the outcome of a purge says of the copies of a file, and which
-- files a purge leaves alone.
use repowatch.Prelude.{
  ◌≡◌, refl, ◌∙◌, String, Bool, true, false, ◌&&◌, ◌||◌, Option, none, some, List, [], ◌∷◌, ◌++◌,
  arith, ◌==◌, nat_keys, text_keys, pair_keys, Assoc, lookup, contains, eq_iff, Bool-cases,
  Option-cases, inl, inr,
}
use repowatch.Purge.{
  Reply, answered, failed, Outcome, is_gone, outcome_of, outcomes_of, total, first_error, with_key,
  with_canonical, raw_keys, purge_selected_raw,
}

-- nginx says that it removed the file, or that it has none.
abbrev pub is_confirmed : Reply → Bool
is_confirmed (answered status) = status == 200 || status == 404
is_confirmed (failed detail) = false

unfoldable pub all_confirmed : (String → Reply) → List String → Bool
all_confirmed reply [] = true
all_confirmed reply (k ∷ ks) = is_confirmed (reply k) && all_confirmed reply ks

abbrev pub is_resolved : Option Outcome → Bool
is_resolved none = false
is_resolved (some o) = is_gone o

is_gone-outcome_of : (r : Reply) → is_gone (outcome_of r) ≡ is_confirmed r
is_gone-outcome_of (answered status) = ground arith
is_gone-outcome_of (failed detail) = refl

unfoldable is_none : Option Outcome → Bool
is_none none = true
is_none (some o) = false

is_none-first_error :
    (reply : String → Reply) (ks : List String)
    → is_none (first_error (outcomes_of reply ks)) ≡ all_confirmed reply ks
unfolding first_error outcomes_of all_confirmed is_none
is_none-first_error reply [] = refl
is_none-first_error reply (k ∷ ks) =
    ground (arith, is_none-first_error reply ks, is_gone-outcome_of (reply k))

first_error_bad : (os : List Outcome) (o : Outcome) → first_error os ≡ some o → is_gone o ≡ false
unfolding first_error
first_error_bad [] o h = cc
first_error_bad (p ∷ os) o h = ground (arith, first_error_bad os o)

is_gone-total :
    (reply : String → Reply) (ks : List String)
    → is_gone (total (outcomes_of reply ks)) ≡ all_confirmed reply ks
unfolding is_none total
is_gone-total reply ks = elim (Option-cases (first_error (outcomes_of reply ks))) [
  | inl e ↦ ground (arith, e, is_none-first_error reply ks)
  | inr (o, e) ↦
      ground (arith, e, is_none-first_error reply ks, first_error_bad (outcomes_of reply ks) o e)
]

all_confirmed-append :
    (reply : String → Reply) (ks : List String) (k : String)
    → all_confirmed reply (ks ++ (k ∷ [])) ≡ (all_confirmed reply ks && is_confirmed (reply k))
unfolding all_confirmed
all_confirmed-append reply [] k = ground arith
all_confirmed-append reply (j ∷ ks) k = ground (arith, all_confirmed-append reply ks k)

is_confirmed-all :
    (reply : String → Reply) (k : String) (ks : List String)
    → contains k ks ≡ true
    → all_confirmed reply ks ≡ true
    → is_confirmed (reply k) ≡ true
unfolding all_confirmed contains
is_confirmed-all reply k [] m h = cc
is_confirmed-all reply k (j ∷ ks) m h = elim (Bool-cases (j == k)) [
  | inl same ↦ let same_key : k ≡ j = ground (arith, eq_iff j k) in rw same_key (ground arith)
  | inr other ↦ is_confirmed-all reply k ks (ground arith) (ground arith)
]

all_confirmed-with_key :
    (reply : String → Reply) (k : String) (ks : List String)
    → all_confirmed reply (with_key k ks) ≡ (all_confirmed reply ks && is_confirmed (reply k))
all_confirmed-with_key reply k ks =
    ground (arith, all_confirmed-append reply ks k, is_confirmed-all reply k ks)

abbrev pub shared_copy : Option String → List String
shared_copy none = []
shared_copy (some k) = k ∷ []

all_confirmed-with_canonical :
    (reply : String → Reply) (o : Option String) (ks : List String)
    → all_confirmed reply (with_canonical o ks)
      ≡ (all_confirmed reply ks && all_confirmed reply (shared_copy o))
unfolding all_confirmed
all_confirmed-with_canonical reply none ks = ground arith
all_confirmed-with_canonical reply (some k) ks = ground (arith, all_confirmed-with_key reply k ks)

all_confirmed-raw_keys :
    (reply : String → Reply) (cache_key : Bool → String → String) (d : Bool)
    (canonical_keys : Assoc String String) (filename : String)
    → all_confirmed reply (raw_keys cache_key d canonical_keys filename) ≡ (
        (is_confirmed (reply (cache_key true filename))
          && is_confirmed (reply (cache_key false filename)))
        && all_confirmed reply (shared_copy (lookup filename canonical_keys)))
unfolding raw_keys all_confirmed
all_confirmed-raw_keys reply cache_key true canonical_keys filename = ground (
  arith,
  all_confirmed-with_canonical reply (lookup filename canonical_keys)
      (with_key (cache_key false filename) (cache_key true filename ∷ [])),
  all_confirmed-with_key reply (cache_key false filename) (cache_key true filename ∷ []),
)
all_confirmed-raw_keys reply cache_key false canonical_keys filename = ground (
  arith,
  all_confirmed-with_canonical reply (lookup filename canonical_keys)
      (with_key (cache_key true filename) (cache_key false filename ∷ [])),
  all_confirmed-with_key reply (cache_key true filename) (cache_key false filename ∷ []),
)

-- A package of a raw purge ends as purged or not cached exactly when nginx answers 200 or 404
-- for its key under both settings of deduplication and for the shared key if it has one.
pub purge_selected_raw-is_resolved :
    (reply : String → String → Reply) (cache_key : Bool → String → String) (enable_dedup : Bool)
    (canonical_keys items : Assoc String String) (key filename : String)
    → lookup key items ≡ some filename
    → is_resolved
        (lookup key (purge_selected_raw reply cache_key enable_dedup canonical_keys items))
      ≡ ((is_confirmed (reply key (cache_key true filename))
            && is_confirmed (reply key (cache_key false filename)))
          && all_confirmed (reply key) (shared_copy (lookup filename canonical_keys)))
unfolding purge_selected_raw lookup
purge_selected_raw-is_resolved reply cache_key d canonical_keys [] key filename h = cc
purge_selected_raw-is_resolved reply cache_key d canonical_keys ((k, f) ∷ items) key filename h =
    elim (Bool-cases (k == key)) [
      | inl same ↦
          let here : f ≡ filename = ground arith in
          let key_eq : k ≡ key = ground (arith, eq_iff k key) in
          rw same (
            rw key_eq (
              rw here (
                is_gone-total (reply key) (raw_keys cache_key d canonical_keys filename)
                ∙ all_confirmed-raw_keys (reply key) cache_key d canonical_keys filename)))
      | inr other ↦ rw other (
          purge_selected_raw-is_resolved reply cache_key d canonical_keys items key filename
            (ground arith))
    ]
