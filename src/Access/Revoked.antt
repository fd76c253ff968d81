-- ===== src/Access/Revoked.antt =====
-- storage/access.py: a revoked token in any later history of the store.
use Prim.Native.String.{count}
use text.Mathlib.Text.{starts_with}
use repowatch.Prelude.{
  ℕ, ◌≡◌, refl, String, Bool, true, false, not, ◌||◌, Option, none, some, List, [], ◌∷◌, arith,
  if◌then◌else◌, ltb, ◌==◌, text_keys, Assoc, lookup, lookup-insert, is_some, Option-cases,
  Bool-cases, inl, inr,
}
use repowatch.Access.{
  Hashes, Store, Token, AdminSession, create_session, logout, new_token, insert_token, update_id,
  revoke_token, revoked, used, access_of, token_access, is_past, is_old,
}

pub data Event : Type 0 where
  signed_in : (now : ℕ) (secret password_hash : String) (secure : Bool) → Event
  signed_out : (secret : String) → Event
  issued :
      (now : ℕ) (token_id secret name : String) (expires_at : Option ℕ)
      (repo_ids : Option (List String))
      → Event
  withdrawn : (now : ℕ) (token_id : String) → Event
  asked : (now : ℕ) (secret : String) → Event

-- An operation that fails leaves the tables as they were.
abbrev pub session_store : Store → Option (AdminSession × Store) → Store
session_store s none = s
session_store s (some (a, s')) = s'

abbrev pub store_or : Store → Option Store → Store
store_or s none = s
store_or s (some s') = s'

unfoldable pub step : Hashes → Store → Event → Store
step d s (signed_in now secret password_hash secure) =
    session_store s (create_session d now secret password_hash secure s)
step d s (signed_out secret) = logout d secret s
step d s (issued now token_id secret name expires_at repo_ids) =
    store_or s (insert_token d now token_id secret name expires_at repo_ids s)
step d s (withdrawn now token_id) = (revoke_token now token_id s).1
step d s (asked now secret) = (token_access d now secret s).1

unfoldable pub run : Hashes → Store → List Event → Store
unfolding step
run d s [] = s
run d s (e ∷ es) = run d (step d s e) es

-- The digest is that of a revoked token.
abbrev pub is_withdrawn : Option Token → Bool
is_withdrawn none = false
is_withdrawn (some t) = is_some t.revoked_at

abbrev pub withdrawn_at : String → Store → Bool
withdrawn_at h s = is_withdrawn (lookup h s.host_tokens)

abbrev pub updated : String → (Token → Token) → Option Token → Option Token
updated id f none = none
updated id f (some t) = some (if t.id == id then f t else t)

lookup-update_id :
    (h id : String) (f : Token → Token) (tokens : Assoc String Token)
    → lookup h (update_id id f tokens) ≡ updated id f (lookup h tokens)
unfolding lookup update_id
lookup-update_id h id f [] = refl
lookup-update_id h id f ((j, t) ∷ tokens) = ground (arith, lookup-update_id h id f tokens)

is_some-revoked : (now : ℕ) (t : Token) → is_some (revoked now t).revoked_at ≡ true
is_some-revoked now t = elim (Option-cases t.revoked_at) [
  | inl h ↦ rw h refl
  | inr (at, h) ↦ rw h refl
]

revoked_at-used : (now : ℕ) (t : Token) → (used now t).revoked_at ≡ t.revoked_at
revoked_at-used now t = ground arith

is_withdrawn-revoked :
    (id : String) (now : ℕ) (t : Option Token)
    → is_withdrawn t ≡ true
    → is_withdrawn (updated id (revoked now) t) ≡ true
is_withdrawn-revoked id now none h = h
is_withdrawn-revoked id now (some t) h = ground (arith, is_some-revoked now t)

is_withdrawn-used :
    (id : String) (now : ℕ) (t : Option Token)
    → is_withdrawn t ≡ true
    → is_withdrawn (updated id (used now) t) ≡ true
is_withdrawn-used id now none h = h
is_withdrawn-used id now (some t) h = ground (arith, revoked_at-used now t)

withdrawn_at-access_of :
    (h : String) (now : ℕ) (t : Option Token) (s : Store)
    → withdrawn_at h s ≡ true
    → withdrawn_at h (access_of now t s).1 ≡ true
unfolding access_of
withdrawn_at-access_of h now none s w = w
withdrawn_at-access_of h now (some t) s w =
    let after = is_withdrawn-used t.id now (lookup h s.host_tokens) w in
    let read = lookup-update_id h t.id (used now) s.host_tokens in
    elim (Bool-cases (is_some t.revoked_at || is_past t.expires_at now)) [
      | inl refused ↦ rw refused w
      | inr left ↦ elim (Bool-cases (is_old t.last_used_at now)) [
        | inl old ↦ rw (left, old, read) after
        | inr recent ↦ rw (left, recent) w
      ]
    ]

withdrawn_at-token_access :
    (d : Hashes) (h : String) (now : ℕ) (secret : String) (s : Store)
    → withdrawn_at h s ≡ true
    → withdrawn_at h (token_access d now secret s).1 ≡ true
unfolding token_access
withdrawn_at-token_access d h now secret s w =
    elim (Bool-cases (not (starts_with secret "rw_") || ltb 128 (count secret))) [
      | inl refused ↦ rw refused w
      | inr on ↦ rw on (withdrawn_at-access_of h now (lookup (d.digest secret) s.host_tokens) s w)
    ]

withdrawn_at-step :
    (d : Hashes) (h : String) (s : Store) (e : Event)
    → withdrawn_at h s ≡ true
    → withdrawn_at h (step d s e) ≡ true
unfolding step create_session logout insert_token revoke_token
withdrawn_at-step d h s (signed_in now secret password_hash secure) w = ground arith
withdrawn_at-step d h s (signed_out secret) w = w
withdrawn_at-step d h s (issued now token_id secret name expires_at repo_ids) w = ground (
  arith,
  lookup-insert (d.digest secret) h (new_token now token_id name expires_at repo_ids) s.host_tokens,
  text_keys.eqb_iff (d.digest secret) h,
)
withdrawn_at-step d h s (withdrawn now token_id) w =
    rw (lookup-update_id h token_id (revoked now) s.host_tokens)
      (is_withdrawn-revoked token_id now (lookup h s.host_tokens) w)
withdrawn_at-step d h s (asked now secret) w = withdrawn_at-token_access d h now secret s w

withdrawn_at-run :
    (d : Hashes) (h : String) (s : Store) (es : List Event)
    → withdrawn_at h s ≡ true
    → withdrawn_at h (run d s es) ≡ true
unfolding run
withdrawn_at-run d h s [] w = w
withdrawn_at-run d h s (e ∷ es) w =
    withdrawn_at-run d h (step d s e) es (withdrawn_at-step d h s e w)

access_of-none :
    (now : ℕ) (t : Option Token) (s : Store) → is_withdrawn t ≡ true → (access_of now t s).0 ≡ none
unfolding access_of
access_of-none now none s w = refl
access_of-none now (some t) s w = rw w refl

token_access-none :
    (d : Hashes) (now : ℕ) (secret : String) (s : Store)
    → withdrawn_at (d.digest secret) s ≡ true
    → (token_access d now secret s).0 ≡ none
unfolding token_access
token_access-none d now secret s w =
    elim (Bool-cases (not (starts_with secret "rw_") || ltb 128 (count secret))) [
      | inl refused ↦ rw refused refl
      | inr on ↦ rw on (access_of-none now (lookup (d.digest secret) s.host_tokens) s w)
    ]

withdrawn_at-revoke_token :
    (now : ℕ) (h : String) (t : Token) (s : Store)
    → lookup h s.host_tokens ≡ some t
    → withdrawn_at h (revoke_token now t.id s).1 ≡ true
unfolding revoke_token
withdrawn_at-revoke_token now h t s found = ground (
  arith,
  lookup-update_id h t.id (revoked now) s.host_tokens,
  is_some-revoked now t,
  text_keys.eqb_iff t.id t.id,
)

-- A token of a host that has been revoked gives no access, after any history of sessions that
-- start and end, tokens that are inserted or revoked, and uses of tokens.
pub token_access-revoke_token :
    (d : Hashes) (now later : ℕ) (secret : String) (t : Token) (s : Store) (es : List Event)
    → lookup (d.digest secret) s.host_tokens ≡ some t
    → (token_access d later secret (run d (revoke_token now t.id s).1 es)).0 ≡ none
token_access-revoke_token d now later secret t s es found =
    let revoked_store = (revoke_token now t.id s).1 in
    token_access-none d later secret (run d revoked_store es) (
      withdrawn_at-run d (d.digest secret) revoked_store es
        (withdrawn_at-revoke_token now (d.digest secret) t s found))
