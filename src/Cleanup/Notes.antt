-- ===== src/Cleanup/Notes.antt =====
-- operations/dedup_cleanup.py: what one owner leaves in the sets of the second pass, which only grow.
use repowatch.Prelude.{
  contains-append, ◌≡◌, sym, String, true, false, not, ◌&&◌, some, List, [], ◌∷◌, arith, ◌==◌,
  text_keys, Assoc, lookup, contains, select, contains-select, Bool-cases, inl, inr, eq_iff, subst,
  beq_refl,
}
use repowatch.Cleanup.{Row, Evidence}
use repowatch.Cleanup.Plan.{
  Scan, canonicals, watched, note_active, note_unsafe, note_keys, note_key, note, scan,
}

pub contains-canonicals :
    (k : String) (row : Row) (m : Assoc String Row)
    → lookup k m ≡ some row
    → contains row.canonical_key (canonicals m) ≡ true
unfolding contains lookup
contains-canonicals k row [] h = cc
contains-canonicals k row ((j, r) ∷ m) h =
    ground (arith, contains-canonicals k row m, beq_refl row.canonical_key)

-- A scan only adds to its sets.
pub record Grows (a b : Scan) (k : String) : Type 0 where
  pub unsafe : contains k a.unsafe ≡ true → contains k b.unsafe ≡ true
  pub active : contains k a.active ≡ true → contains k b.active ≡ true
  pub conflicts : contains k a.conflicts ≡ true → contains k b.conflicts ≡ true

Grows-trans : {a b c : Scan} (k : String) → Grows a b k → Grows b c k → Grows a c k
Grows-trans k g h = record {
  unsafe = λ x. h.unsafe (g.unsafe x);
  active = λ x. h.active (g.active x);
  conflicts = λ x. h.conflicts (g.conflicts x);
}

module _ (possible : Assoc String Row) (k : String) where
  note_key-Grows : (e : Evidence) (j : String) (s : Scan) → Grows s (note_key possible e j s) k
  unfolding contains
  note_key-Grows e j s = ground arith

  note_keys-Grows :
      (e : Evidence) (js : List String) (s : Scan) → Grows s (note_keys possible e js s) k
  unfolding note_keys
  note_keys-Grows e [] s = ground arith
  note_keys-Grows e (j ∷ js) s =
      Grows-trans k (note_key-Grows e j s) (note_keys-Grows e js (note_key possible e j s))

  note_active-Grows : (e : Evidence) (s : Scan) → Grows s (note_active possible e s) k
  unfolding note_active contains
  note_active-Grows e s = ground arith

  note_unsafe-Grows : (e : Evidence) (s : Scan) → Grows s (note_unsafe possible e s) k
  unfolding note_unsafe
  note_unsafe-Grows e s = ground (
    arith,
    contains-append k (select (λ x. contains x (watched possible)) (e.target ∷ e.keys)) s.unsafe,
  )

  note-Grows : (e : Evidence) (s : Scan) → Grows s (note possible e s) k
  unfolding note
  note-Grows e s =
      let s' = note_active possible e s in
      let s'' = note_unsafe possible e s' in
      let g = Grows-trans k (note_active-Grows e s) (note_unsafe-Grows e s') in
      elim (Bool-cases (e.eligible && not e.blocked)) [
        | inl y ↦ rw y (Grows-trans k g (note_keys-Grows e e.keys s''))
        | inr n ↦ rw n g
      ]

  pub scan-Grows : (es : List Evidence) (s : Scan) → Grows s (scan possible es s) k
  unfolding scan
  scan-Grows [] s = ground arith
  scan-Grows (e ∷ es) s = Grows-trans k (note-Grows e s) (scan-Grows es (note possible e s))

-- What a noted owner leaves in the sets.
module _ (possible : Assoc String Row) (e : Evidence) where
  note_active_self :
      (s : Scan) (k : String) (row : Row)
      → lookup k possible ≡ some row
      → (e.target == k) ≡ true
      → contains k (note_active possible e s).active ≡ true
  unfolding note_active contains
  note_active_self s k row h same = ground (arith, eq_iff e.target k)

  note_unsafe_self :
      (s : Scan) (k : String)
      → contains k (watched possible) ≡ true
      → e.blocked ≡ true
      → contains k (e.target ∷ e.keys) ≡ true
      → contains k (note_unsafe possible e s).unsafe ≡ true
  unfolding note_unsafe
  note_unsafe_self s k w b h = ground (
    arith,
    contains-append k (select (λ x. contains x (watched possible)) (e.target ∷ e.keys)) s.unsafe,
    contains-select (λ x. contains x (watched possible)) k (e.target ∷ e.keys),
  )

  note_key_self :
      (s : Scan) (k : String) (row : Row)
      → lookup k possible ≡ some row
      → (k == e.target) ≡ false
      → (row.canonical_key == e.target) ≡ false
      → contains k (note_key possible e k s).conflicts ≡ true
  unfolding contains
  note_key_self s k row h a b = ground (arith, eq_iff k k)

  note_keys_self :
      (js : List String) (s : Scan) (k : String) (row : Row)
      → lookup k possible ≡ some row
      → (k == e.target) ≡ false
      → (row.canonical_key == e.target) ≡ false
      → contains k js ≡ true
      → contains k (note_keys possible e js s).conflicts ≡ true
  unfolding note_keys contains
  note_keys_self [] s k row h a b m = cc
  note_keys_self (j ∷ js) s k row h a b m = elim (Bool-cases (j == k)) [
    | inl same ↦ (note_keys-Grows possible k e js (note_key possible e j s)).conflicts (
        subst (λ x. contains k (note_key possible e x s).conflicts ≡ true)
          (sym ((eq_iff j k).0 same)) (note_key_self s k row h a b))
    | inr other ↦ note_keys_self js (note_key possible e j s) k row h a b (ground arith)
  ]

module _ (possible : Assoc String Row) (e : Evidence) (s final : Scan) where
  note_tail-Grows :
      (k : String) → Grows (note_unsafe possible e (note_active possible e s)) (note possible e s) k
  unfolding note
  note_tail-Grows k = elim (Bool-cases (e.eligible && not e.blocked)) [
    | inl y ↦ rw y (note_keys-Grows possible k e e.keys _)
    | inr n ↦ rw n (record { unsafe = λ x. x; active = λ x. x; conflicts = λ x. x })
  ]

  pub active_of_note :
      (k : String) (row : Row)
      → lookup k possible ≡ some row
      → contains k final.active ≡ false
      → Grows (note possible e s) final k
      → (e.target == k) ≡ false
  active_of_note k row h safe g = elim (Bool-cases (e.target == k)) [
    | inl same ↦
        let s' = note_active possible e s in
        let noted = g.active (
          (note_tail-Grows k).active (
            (note_unsafe-Grows possible k e s').active
              (note_active_self possible e s k row h same))) in
        cc
    | inr other ↦ other
  ]

  pub unsafe_of_note :
      (k : String)
      → contains k (watched possible) ≡ true
      → contains k final.unsafe ≡ false
      → Grows (note possible e s) final k
      → e.blocked ≡ true
      → contains k (e.target ∷ e.keys) ≡ false
  unsafe_of_note k w safe g b = elim (Bool-cases (contains k (e.target ∷ e.keys))) [
    | inl m ↦
        let s' = note_active possible e s in
        let noted =
          g.unsafe ((note_tail-Grows k).unsafe (note_unsafe_self possible e s' k w b m)) in
        cc
    | inr n ↦ n
  ]

  pub owner_of_note :
      (k : String) (row : Row)
      → lookup k possible ≡ some row
      → contains k final.conflicts ≡ false
      → (e.target == k) ≡ false
      → Grows (note possible e s) final k
      → e.eligible ≡ true
      → e.blocked ≡ false
      → contains k e.keys ≡ true
      → e.target ≡ row.canonical_key
  unfolding note
  owner_of_note k row h safe ne g y n m = elim (Bool-cases (row.canonical_key == e.target)) [
    | inl same ↦ sym ((eq_iff row.canonical_key e.target).0 same)
    | inr other ↦
        let s'' = note_unsafe possible e (note_active possible e s) in
        let found =
          note_keys_self possible e e.keys s'' k row h
            (ground (arith, eq_iff e.target k, eq_iff k e.target)) other m in
        absurd (ground (arith, found, g.conflicts))
  ]
