-- ===== src/Access/Tests.antt =====
-- A token that is revoked and then used.
use repowatch.Prelude.{◌≡◌, refl, true, none, some, [], ◌∷◌, lookup}
use repowatch.Access.{Hashes, Store, Token, revoke_token, token_access, access_of, update_id}
use repowatch.Access.Revoked.{asked, signed_in, run, token_access-revoke_token}

abbrev hashes : Hashes
hashes = record { digest = λ secret. secret; csrf_for = λ secret. secret }

abbrev token : Token
token = record {
  id = "a";
  name = "build host";
  created_at = 10;
  expires_at = none;
  last_used_at = none;
  revoked_at = none;
  repo_ids = some ("core" ∷ []);
}

abbrev store : Store
store = record { admin_sessions = []; host_tokens = ("rw_x", token) ∷ [] }

token_access_before : (token_access hashes 20 "rw_x" store).0 ≡ some (some ("core" ∷ []))
unfolding token_access access_of lookup update_id
token_access_before = refl

token_access-revoke_token_example :
    (token_access hashes 40 "rw_x" (
      run hashes
        (revoke_token 20 "a" store).1
        (asked 25 "rw_x" ∷ signed_in 30 "cookie" "hash" true ∷ []))).0
    ≡ none
unfolding lookup
token_access-revoke_token_example =
    token_access-revoke_token hashes 20 40 "rw_x" token store
      (asked 25 "rw_x" ∷ signed_in 30 "cookie" "hash" true ∷ []) refl
