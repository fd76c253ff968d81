-- ===== src/Storage/Cache/Bans.antt =====
-- storage/cache.py: the names that are banned from automatic warming.
use repowatch.Prelude.{
  ℕ, ◌+◌, String, Option, none, some, List, [], ◌∷◌, if◌then◌else◌, ◌==◌, text_keys, pair_keys,
  Assoc, lookup, insert, remove, is_some, sorted,
}
use repowatch.Storage.Tables.{Db}

abbrev pub ban_one : ℕ → String → String → Db → Db
ban_one now r name db =
    if is_some (lookup (r, name) db.prefetch_bans)
    then db
    else record db { prefetch_bans = insert (r, name) now db.prefetch_bans }

unfoldable pub ban_packages : ℕ → String → List String → Db → Db
ban_packages now r [] db = db
ban_packages now r (name ∷ names) db = ban_packages now r names (ban_one now r name db)

abbrev pub ban_package : ℕ → String → String → Db → Db
unfolding ban_packages
ban_package now r name db = ban_packages now r (name ∷ []) db

unfoldable pub unban_packages : String → List String → Db → Db
unban_packages r [] db = db
unban_packages r (name ∷ names) db =
    unban_packages r names (record db { prefetch_bans = remove (r, name) db.prefetch_bans })

abbrev pub unban_package : String → String → Db → Db
unfolding unban_packages
unban_package r name db = unban_packages r (name ∷ []) db

unfoldable pub names_of {ℓ} : {V : Type ℓ} → String → Assoc (String × String) V → List String
names_of r [] = []
names_of r (((q, name), v) ∷ m) = let rest = names_of r m in if q == r then name ∷ rest else rest

unfoldable pub get_banned_packages : String → Db → List String
unfolding names_of
get_banned_packages r db = sorted (names_of r db.prefetch_bans)

abbrev one_more : Option ℕ → ℕ
one_more none = 1
one_more (some n) = n + 1

-- COUNT(*) by repository.
unfoldable pub counts_by_repo {ℓ} : {V : Type ℓ} → Assoc (String × String) V → Assoc String ℕ
counts_by_repo [] = []
counts_by_repo (((r, k), v) ∷ m) =
    let counts = counts_by_repo m in insert r (one_more (lookup r counts)) counts

unfoldable pub get_ban_counts : Db → Assoc String ℕ
unfolding counts_by_repo
get_ban_counts db = counts_by_repo db.prefetch_bans
