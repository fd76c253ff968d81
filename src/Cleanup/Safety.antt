-- ===== src/Cleanup/Safety.antt =====
-- What a plan of operations/dedup_cleanup.py may remove.
use repowatch.Prelude.{
  contains-append, sorted, ◌≡◌, refl, sym, ◌∙◌, ap, String, Bool, true, false, Option, none, some,
  List, [], ◌∷◌, arith, if◌then◌else◌, ◌==◌, text_keys, Assoc, lookup, contains, keys,
  contains-keys, Bool-cases, inl, inr, eq_iff, All, subst, ok, err,
}
use repowatch.Cleanup.{Row, Evidence, Request, choose, Routes, CatalogRow, evidence}
use repowatch.Cleanup.Plan.{
  Scan, canonicals, watched, note, scan, nothing, is_safe, candidates_in, make_plan, shown, keep,
  CleanupPlan, is_zero, value_error, cleanup_changed,
}
use repowatch.Cleanup.Notes.{
  contains-canonicals, Grows, active_of_note, unsafe_of_note, owner_of_note, scan-Grows,
}

-- One owner of the catalogue leaves a key to be removed in favour of a canonical key: requests are
-- not sent to the key itself; a blocked owner uses neither of the two; and an owner whose package
-- may be cached under the key is sent to that canonical key.
pub record Allows (k canonical : String) (e : Evidence) : Type 0 where
  pub not_routed : (e.target == k) ≡ false
  pub not_blocked :
      e.blocked ≡ true
      → (contains k e.keys ≡ false) × (contains canonical (e.target ∷ e.keys) ≡ false)
  pub one_owner :
      e.eligible ≡ true → e.blocked ≡ false → contains k e.keys ≡ true → e.target ≡ canonical

note-Allows :
    (possible : Assoc String Row) (e : Evidence) (s final : Scan) (k : String) (row : Row)
    → lookup k possible ≡ some row
    → is_safe final k row ≡ true
    → Grows (note possible e s) final k
    → Grows (note possible e s) final row.canonical_key
    → Allows k row.canonical_key e
note-Allows possible e s final k row h safe g gc =
    let free = active_of_note possible e s final k row h (ground arith) g in
    let seen : contains k (watched possible) ≡ true =
      ground (
        arith,
        contains-append k (keys possible) (canonicals possible),
        contains-keys k possible,
      ) in
    let seen_canonical : contains row.canonical_key (watched possible) ≡ true = ground (
      arith,
      contains-append row.canonical_key (keys possible) (canonicals possible),
      contains-canonicals k row possible h,
    ) in
    record {
      not_routed = free;
      not_blocked = λ b. (
        unfold contains in
            ground (arith, unsafe_of_note possible e s final k seen (ground arith) g b),
        unsafe_of_note possible e s final row.canonical_key seen_canonical (ground arith) gc b,
      );
      one_owner = owner_of_note possible e s final k row h (ground arith) free g;
    }

scan-Allows :
    (possible : Assoc String Row) (es : List Evidence) (s : Scan) (k : String) (row : Row)
    → lookup k possible ≡ some row
    → is_safe (scan possible es s) k row ≡ true
    → All (Allows k row.canonical_key) es
unfolding scan
scan-Allows possible [] s k row h safe = tt
scan-Allows possible (e ∷ es) s k row h safe = (
  note-Allows possible e s (scan possible es (note possible e s)) k row h safe
      (scan-Grows possible k es (note possible e s))
      (scan-Grows possible row.canonical_key es (note possible e s)),
  scan-Allows possible es (note possible e s) k row h safe,
)

shown_canonical :
    (owner : Option (String × String)) (row : Row)
    → (shown owner row).canonical_key ≡ row.canonical_key
shown_canonical none row = refl
shown_canonical (some p) row = refl

-- What a kept candidate comes from.
abbrev Kept : Scan → Assoc String Row → String → Row → Type 0
Kept s possible k row =
    (r : Row) × (lookup k possible ≡ some r)
    × (is_safe s k r ≡ true)
    × (row.canonical_key ≡ r.canonical_key)

lookup-keep :
    (s : Scan) (possible : Assoc String Row) (j : String) (found : Option Row)
    (rest : Assoc String Row) (k : String) (row : Row)
    → lookup j possible ≡ found
    → lookup k (keep s j found rest) ≡ some row
    → (lookup k rest ≡ some row → Kept s possible k row)
    → Kept s possible k row
unfolding lookup
lookup-keep s possible j none rest k row at h ih = ih h
lookup-keep s possible j (some r) rest k row at h ih = elim (Bool-cases (is_safe s j r)) [
  | inr unsafe ↦ ih (ground arith)
  | inl safe ↦ elim (Bool-cases (j == k)) [
    | inr other ↦ ih (ground arith)
    | inl same ↦
        let j_k = (eq_iff j k).0 same in
        let is_row : shown (lookup j s.attributed) r ≡ row = ground arith in
        (
          r,
          (ground arith),
          (ground arith),
          sym (ap (λ (x : Row). x.canonical_key) is_row)
              ∙ shown_canonical (lookup j s.attributed) r,
        )
  ]
]

lookup-candidates_in :
    (s : Scan) (possible : Assoc String Row) (ks : List String) (k : String) (row : Row)
    → lookup k (candidates_in s possible ks) ≡ some row
    → Kept s possible k row
unfolding candidates_in lookup
lookup-candidates_in s possible [] k row h = cc
lookup-candidates_in s possible (j ∷ js) k row h =
    lookup-keep s possible j (lookup j possible) (candidates_in s possible js) k row refl h
      (lookup-candidates_in s possible js k row)

passed :
    (a b : Bool) (p p' : CleanupPlan)
    → (if a then err value_error else if b then ok p else err cleanup_changed) ≡ ok p'
    → p ≡ p'
passed true b p p' h = cc
passed false true p p' h = cc
passed false false p p' h = cc

-- Every key that a plan removes is allowed by every owner of the catalogue: no owner sends its
-- requests to the key, a blocked owner uses neither the key nor the canonical key of the plan's
-- row, and an eligible owner that is not blocked and may have its package under the key is sent
-- to that canonical key.
pub make_plan-Allows :
    (q : Request) (routes : Routes) (redirects : Assoc String String) (rows : List CatalogRow)
    (same : Bool) (plan : CleanupPlan) (k : String) (row : Row)
    → make_plan q routes redirects rows same ≡ ok plan
    → lookup k plan.candidates ≡ some row
    → All (Allows k row.canonical_key) (evidence routes redirects rows)
unfolding make_plan
make_plan-Allows q routes redirects rows same plan k row made listed =
    let es = evidence routes redirects rows in
    let possible = (choose q es).0 in
    let s = scan possible es nothing in
    let is_plan = passed (is_zero q.limit) same _ plan made in
    let (r, there, safe, canonical) : Kept s possible k row =
      lookup-candidates_in s possible (sorted (keys possible)) k row
        (ap (λ (p : CleanupPlan). lookup k p.candidates) is_plan ∙ listed) in
    subst (λ c. All (Allows k c) es) (sym canonical)
      (scan-Allows possible es nothing k r there safe)
