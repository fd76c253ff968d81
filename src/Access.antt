-- ===== src/Access.antt =====
-- storage/access.py: the sessions of administrators and the tokens of hosts. A row is found by the
-- digest of its secret, which is the key of a session and unique among tokens.
pub mod Revoked
pub mod Tests
use Prim.Native.String.{count}
use text.Mathlib.Text.{starts_with}
use repowatch.Prelude.{
  ℕ, ◌+◌, ◌*◌, String, Bool, true, false, not, ◌&&◌, ◌||◌, Option, none, some, List, [], ◌∷◌,
  if◌then◌else◌, ltb, leb, ◌==◌, text_keys, Assoc, lookup, insert, remove, keep_where, is_some,
}

abbrev pub session_seconds : ℕ
session_seconds = 12 * 60 * 60

pub record AdminSession : Type 0 where
  pub password_fingerprint : String
  pub csrf : String
  pub expires_at : ℕ

pub record SessionRow : Type 0 where
  pub password_fingerprint : String
  pub expires_at : ℕ
  pub secure : Bool

pub record Token : Type 0 where
  pub id : String
  pub name : String
  pub created_at : ℕ
  pub expires_at : Option ℕ
  pub last_used_at : Option ℕ
  pub revoked_at : Option ℕ
  pub repo_ids : Option (List String)

pub record Store : Type 0 where
  pub admin_sessions : Assoc String SessionRow
  pub host_tokens : Assoc String Token

-- The hashes of a secret.
pub record Hashes : Type 0 where
  pub digest : String → String
  pub csrf_for : String → String

-- A session of another password goes as soon as someone signs in, as does one that has expired. The
-- insertion fails on a digest that is there.
unfoldable pub create_session :
    Hashes → ℕ → String → String → Bool → Store → Option (AdminSession × Store)
create_session d now secret password_hash secure s =
    let fingerprint = d.digest password_hash in
    let left =
      keep_where (λ h r. not (leb r.expires_at now || not (r.password_fingerprint == fingerprint)))
        s.admin_sessions in
    let expires_at = now + session_seconds in
    let row : SessionRow = record {
      password_fingerprint = fingerprint;
      expires_at = expires_at;
      secure = secure;
    } in
    if is_some (lookup (d.digest secret) left)
    then none
    else some (
      record {
        password_fingerprint = fingerprint;
        csrf = d.csrf_for secret;
        expires_at = expires_at;
      },
      record s { admin_sessions = insert (d.digest secret) row left },
    )

unfoldable pub session_of :
    Hashes → ℕ → String → String → Bool → Option SessionRow → Option AdminSession
session_of d now secret password_hash secure none = none
session_of d now secret password_hash secure (some row) =
    if leb row.expires_at now || (row.secure && not secure)
    then none
    else if not (row.password_fingerprint == d.digest password_hash)
    then none
    else some (record {
      password_fingerprint = row.password_fingerprint;
      csrf = d.csrf_for secret;
      expires_at = row.expires_at;
    })

-- An empty password hash is none.
unfoldable pub session : Hashes → ℕ → String → Option String → Bool → Store → Option AdminSession
unfolding session_of
session d now secret none secure s = none
session d now secret (some password_hash) secure s =
    if password_hash == "" || secret == "" || ltb 128 (count secret)
    then none
    else session_of d now secret password_hash secure (lookup (d.digest secret) s.admin_sessions)

unfoldable pub logout : Hashes → String → Store → Store
logout d secret s = record s { admin_sessions = remove (d.digest secret) s.admin_sessions }

-- Some row has the identifier.
unfoldable pub has_id : String → Assoc String Token → Bool
has_id id [] = false
has_id id ((h, t) ∷ tokens) = t.id == id || has_id id tokens

abbrev pub new_token : ℕ → String → String → Option ℕ → Option (List String) → Token
new_token now token_id name expires_at repo_ids = record {
  id = token_id;
  name = name;
  created_at = now;
  expires_at = expires_at;
  last_used_at = none;
  revoked_at = none;
  repo_ids = repo_ids;
}

-- The insertion of a token that was checked: it fails on an identifier or a digest that is there.
unfoldable pub insert_token :
    Hashes → ℕ → String → String → String → Option ℕ → Option (List String) → Store → Option Store
unfolding has_id
insert_token d now token_id secret name expires_at repo_ids s =
    if has_id token_id s.host_tokens || is_some (lookup (d.digest secret) s.host_tokens)
    then none
    else some (record s {
      host_tokens =
          insert (d.digest secret) (new_token now token_id name expires_at repo_ids) s.host_tokens;
    })

-- UPDATE of the rows with an identifier.
unfoldable pub update_id : String → (Token → Token) → Assoc String Token → Assoc String Token
update_id id f [] = []
update_id id f ((h, t) ∷ tokens) =
    let rest = update_id id f tokens in (h, if t.id == id then f t else t) ∷ rest

-- COALESCE: the first time stays.
abbrev pub coalesce : Option ℕ → ℕ → Option ℕ
coalesce none now = some now
coalesce (some at) now = some at

abbrev pub revoked : ℕ → Token → Token
revoked now t = record t { revoked_at = coalesce t.revoked_at now }

unfoldable pub revoke_token : ℕ → String → Store → Bool × Store
unfolding update_id has_id
revoke_token now token_id s = (
  has_id token_id s.host_tokens,
  record s { host_tokens = update_id token_id (revoked now) s.host_tokens },
)

abbrev pub is_past : Option ℕ → ℕ → Bool
is_past none now = false
is_past (some expires_at) now = leb expires_at now

-- The last use that is noted is more than a minute old, or there is none.
abbrev pub is_old : Option ℕ → ℕ → Bool
is_old none now = true
is_old (some used) now = ltb (used + 60) now

abbrev pub used : ℕ → Token → Token
used now t =
    if not (is_some t.revoked_at) && is_old t.last_used_at now
    then record t { last_used_at = some now }
    else t

unfoldable pub access_of : ℕ → Option Token → Store → Option (Option (List String)) × Store
unfolding update_id
access_of now none s = (none, s)
access_of now (some t) s = if is_some t.revoked_at || is_past t.expires_at now then (none, s) else (
  some t.repo_ids,
  if is_old t.last_used_at now
      then record s { host_tokens = update_id t.id (used now) s.host_tokens }
      else s,
)

unfoldable pub token_access : Hashes → ℕ → String → Store → Option (Option (List String)) × Store
unfolding access_of
token_access d now secret s =
    if not (starts_with secret "rw_") || ltb 128 (count secret)
    then (none, s)
    else access_of now (lookup (d.digest secret) s.host_tokens) s
