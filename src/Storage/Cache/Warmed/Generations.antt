-- ===== src/Storage/Cache/Warmed/Generations.antt =====
-- storage/cache.py: a purge forgets exactly the rows that it captured before it used the network.
use repowatch.Prelude.{
  ℕ, ◌≡◌, refl, String, Bool, false, ◌&&◌, Option, none, some, List, [], ◌∷◌, arith, if◌then◌else◌,
  ◌==◌, text_keys, pair_keys, lookup, contains, lookup-insert, lookup-remove, eq_iff,
}
use repowatch.Storage.Tables.{Warmed, Db}
use repowatch.Storage.Cache.Warmed.{
  Records, captured, passes, has_revision, get_warmed_records, remove_revision,
  remove_purged_records, set_record,
}

lookup-set_record :
    (key j : String) (found : Option (String × String)) (records : Records)
    → lookup j (set_record key found records) ≡ (elim found [
      | none ↦ lookup j records
      | some v ↦ if key == j then some v else lookup j records
    ])
lookup-set_record key j none records = refl
lookup-set_record key j (some v) records = lookup-insert key j v records

lookup-get_warmed_records :
    (r j : String) (ks : List String) (expiry : Option (ℕ × ℕ)) (db : Db)
    → lookup j (get_warmed_records r ks expiry db)
      ≡ (if contains j ks then captured expiry (lookup (r, j) db.warmed_packages) else none)
unfolding get_warmed_records contains
lookup-get_warmed_records r j [] expiry db = unfold lookup in refl
lookup-get_warmed_records r j (k ∷ ks) expiry db = ground (
  arith,
  lookup-get_warmed_records r j ks expiry db,
  lookup-set_record k j (captured expiry (lookup (r, k) db.warmed_packages))
      (get_warmed_records r ks expiry db),
  eq_iff k j,
)

abbrev pub same_generation : Option (String × String) → Option Warmed → Bool
same_generation none w = false
same_generation (some (filename, revision)) w = has_revision revision w

lookup-remove_revision :
    (r q key j : String) (found : Option (String × String)) (db : Db)
    → lookup (q, j) (remove_revision r key found db).0.warmed_packages ≡ (
        if (q == r && key == j) && same_generation found (lookup (q, j) db.warmed_packages)
        then none
        else lookup (q, j) db.warmed_packages)
lookup-remove_revision r q key j none db = ground arith
lookup-remove_revision r q key j (some (f, revision)) db =
    ground (
      arith,
      lookup-remove (r, key) (q, j) db.warmed_packages,
      eq_iff r q,
      eq_iff q r,
      eq_iff key j,
    )

lookup-remove_purged_records :
    (r q j : String) (records : Records) (ks : List String) (db : Db)
    → lookup (q, j) (remove_purged_records r records ks db).0.warmed_packages ≡ (
        if (q == r && contains j ks)
          && same_generation (lookup j records) (lookup (q, j) db.warmed_packages)
        then none
        else lookup (q, j) db.warmed_packages)
unfolding remove_purged_records contains
lookup-remove_purged_records r q j records [] db = ground arith
lookup-remove_purged_records r q j records (k ∷ ks) db =
    let db' = (remove_revision r k (lookup k records) db).0 in
    ground (
      arith,
      lookup-remove_purged_records r q j records ks db',
      lookup-remove_revision r q k j (lookup k records) db,
      eq_iff k j,
    )

-- The row that was captured is the row that is there.
abbrev pub unchanged : Option (ℕ × ℕ) → Option Warmed → Option Warmed → Bool
unchanged expiry (some before) (some now) = passes expiry before && now.revision == before.revision
unchanged expiry _ _ = false

pub lookup-remove_purged_records-get_warmed_records :
    (r q j : String) (ks resolved : List String) (expiry : Option (ℕ × ℕ)) (before db : Db)
    → lookup
        (q, j)
        (remove_purged_records r
          (get_warmed_records r ks expiry before)
          resolved
          db).0.warmed_packages
      ≡ (if (q == r && contains j resolved)
            && (contains j ks
                && unchanged expiry
                    (lookup (r, j) before.warmed_packages)
                    (lookup (r, j) db.warmed_packages))
          then none
          else lookup (q, j) db.warmed_packages)
lookup-remove_purged_records-get_warmed_records r q j ks resolved expiry before db = ground (
  arith,
  lookup-remove_purged_records r q j (get_warmed_records r ks expiry before) resolved db,
  lookup-get_warmed_records r j ks expiry before,
  eq_iff q r,
)
