-- ===== src/Storage/Repositories/Events.antt =====
-- storage/repositories.py: the events of a repository are pruned by their age and by their number.
use repowatch.Prelude.{
  ℕ, ◌+◌, ◌-◌, ◌*◌, suc, Bool, ◌&&◌, List, [], ◌∷◌, if◌then◌else◌, ltb, leb, ◌==◌, text_keys,
}
use repowatch.Storage.Tables.{Change, Db}

-- A DELETE by a condition, with its `rowcount`.
unfoldable pub drop_where : (Change → Bool) → List Change → List Change × ℕ
drop_where p [] = ([], 0)
drop_where p (e ∷ es) =
    let (left, n) = drop_where p es in if p e then (left, suc n) else (e ∷ left, n)

unfoldable pub prune_events : ℕ → ℕ → Db → Db × ℕ
unfolding drop_where
prune_events now retention_days db =
    let limit = now - retention_days * 86400 in
    let (left, n) = drop_where (λ e. ltb e.ts limit) db.repo_events in
    (record db { repo_events = left }, n)

unfoldable pub count_events : (Change → Bool) → List Change → ℕ
count_events p [] = 0
count_events p (e ∷ es) = let n = count_events p es in if p e then suc n else n

-- ROW_NUMBER by repository from the latest; of equal times, the one that is stored first.
unfoldable pub row_number : List Change → Change → List Change → ℕ
unfolding count_events
row_number before e after = suc (
    count_events (λ other. other.repo_id == e.repo_id && leb e.ts other.ts) before
    + count_events (λ other. other.repo_id == e.repo_id && ltb e.ts other.ts) after)

unfoldable pub keep_latest : ℕ → List Change → List Change → List Change × ℕ
unfolding row_number
keep_latest max_rows before [] = ([], 0)
keep_latest max_rows before (e ∷ es) =
    let (left, n) = keep_latest max_rows (e ∷ before) es in
    if ltb max_rows (row_number before e es) then (left, suc n) else (e ∷ left, n)

unfoldable pub prune_events_by_size : ℕ → Db → Db × ℕ
unfolding keep_latest
prune_events_by_size max_rows_per_repo db =
    let (left, n) = keep_latest max_rows_per_repo [] db.repo_events in
    (record db { repo_events = left }, n)
