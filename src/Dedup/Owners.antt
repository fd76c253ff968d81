-- ===== src/Dedup/Owners.antt =====
-- cache/dedup.py: an accepted redirect joins two URLs whose owners all have one content.
use repowatch.Prelude.{
  ◌≡◌, refl, ◌∙◌, sym, String, Bool, true, false, Option, none, some, List, [], ◌∷◌, arith, ◌==◌,
  text_keys, pair_keys, Assoc, lookup, insert, contains, lookup-insert, eq_iff, Option-cases,
  Bool-cases, inl, inr, ◌⊎◌, All, beq_refl, subst, ap,
}
use repowatch.Dedup.{
  FileHash, Known, unseen, seen, Urls, merged, note_hash, note_file, note_files, proposed, hash_of,
  agree, accepted, accepted_pairs,
}

-- The hash of a file, if this is its URL.
abbrev pub Owns : Urls → String → String → FileHash → Type 0
Owns urls uri h f = urls f.repo_id f.filename ≡ some uri → f.content_hash ≡ some h

abbrev Open : Option Known → String → Type 0
Open o h = (o ≡ some unseen) ⊎ (o ≡ some (seen (some h)))

merged_hash :
    (hash : Option String) (k : Known) (h : String)
    → Open (some (merged hash k)) h
    → (hash ≡ some h) × Open (some k) h
merged_hash none unseen h o = absurd (ground (arith, o))
merged_hash none (seen none) h o = absurd (ground (arith, o))
merged_hash none (seen (some b)) h o = absurd (ground (arith, o))
merged_hash (some a) unseen h o = ground (arith, o)
merged_hash (some a) (seen none) h o = absurd (ground (arith, o))
merged_hash (some a) (seen (some b)) h o = ground (arith, o, eq_iff b a)

note_hash_same :
    (hash : Option String) (uri h : String) (hashes : Assoc String Known)
    → Open (lookup uri (note_hash hash uri hashes)) h
    → (hash ≡ some h) × Open (lookup uri hashes) h
unfolding note_hash
note_hash_same hash uri h hashes o = elim (Option-cases (lookup uri hashes)) [
  | inl e ↦ absurd (ground (arith, o, e))
  | inr (k, e) ↦
      let written : note_hash hash uri hashes ≡ insert uri (merged hash k) hashes =
        rw (e, note_hash) refl in
      let there : lookup uri (insert uri (merged hash k) hashes) ≡ some (merged hash k) =
        lookup-insert uri uri (merged hash k) hashes ∙ rw (beq_refl uri) refl in
      let (same, before) =
        merged_hash hash k h
          (subst (λ x. Open x h) there (subst (λ x. Open (lookup uri x) h) written o)) in
      (same, rw e before)
]

note_hash_other :
    (hash : Option String) (uri q h : String) (hashes : Assoc String Known)
    → (uri == q) ≡ false
    → lookup q (note_hash hash uri hashes) ≡ lookup q hashes
unfolding note_hash
note_hash_other hash uri q h hashes ne = elim (Option-cases (lookup uri hashes)) [
  | inl e ↦ rw (e, note_hash) refl
  | inr (k, e) ↦ rw (e, note_hash) (lookup-insert uri q (merged hash k) hashes ∙ rw ne refl)
]

note_file-Owns :
    (urls : Urls) (f : FileHash) (uri h : String) (hashes : Assoc String Known)
    → Open (lookup uri (note_file urls f hashes)) h
    → Owns urls uri h f × Open (lookup uri hashes) h
note_file-Owns urls f uri h hashes o = elim (Option-cases (urls f.repo_id f.filename)) [
  | inl e ↦ (
    λ own. absurd (ground (arith, e, own)),
    subst (λ x. Open (lookup uri x) h) (rw (e, note_file) refl) o,
  )
  | inr (q, e) ↦
      let o' : Open (lookup uri (note_hash f.content_hash q hashes)) h =
        subst (λ x. Open (lookup uri x) h) (rw (e, note_file) refl) o in
      elim (Bool-cases (q == uri)) [
        | inl same ↦
            let q_uri = (eq_iff q uri).0 same in
            let (hash, before) =
              note_hash_same f.content_hash uri h hashes
                (subst (λ x. Open (lookup uri (note_hash f.content_hash x hashes)) h) q_uri o') in
            (λ _. hash, before)
        | inr other ↦ (
          λ own. absurd (ground (arith, e, own, other, eq_iff q uri)),
          subst (λ x. Open x h) (note_hash_other f.content_hash q uri h hashes other) o',
        )
      ]
]

note_files-Owns :
    (urls : Urls) (fs : List FileHash) (uri h : String) (hashes : Assoc String Known)
    → Open (lookup uri (note_files urls fs hashes)) h
    → All (Owns urls uri h) fs × Open (lookup uri hashes) h
unfolding note_files
note_files-Owns urls [] uri h hashes o = (tt, o)
note_files-Owns urls (f ∷ fs) uri h hashes o =
    let (rest, o') = note_files-Owns urls fs uri h (note_file urls f hashes) o in
    let (own, before) = note_file-Owns urls f uri h hashes o' in ((own, rest), before)

hash_of-some : (o : Option Known) (h : String) → hash_of o ≡ some h → Open o h
hash_of-some none h e = cc
hash_of-some (some unseen) h e = cc
hash_of-some (some (seen hash)) h e = inr (ap (λ x. some (seen x)) e)

agree-some : (a b : Option String) → agree a b ≡ true → (h : String) × (a ≡ some h) × (b ≡ some h)
agree-some none b e = cc
agree-some (some a) none e = cc
agree-some (some a) (some b) e = (a, refl, ap some (sym ((eq_iff a b).0 e)))

-- What an accepted redirect passed.
accepted-agree :
    (lower : String → String) (hashes : Assoc String Known) (pairs : List (String × String))
    (source target : String)
    → contains (source, target) (accepted lower hashes pairs) ≡ true
    → agree (hash_of (lookup (lower source) hashes)) (hash_of (lookup (lower target) hashes)) ≡ true
unfolding accepted contains
accepted-agree lower hashes [] source target m = cc
accepted-agree lower hashes ((s, t) ∷ pairs) source target m =
    ground
      (arith, accepted-agree lower hashes pairs source target, eq_iff s source, eq_iff t target)

-- For an accepted redirect there is one hash that every catalogued file with the redirect's
-- source or its target as its URL has.
pub accepted_pairs-Owns :
    (enable_dedup : Bool) (lower : String → String) (urls : Urls) (pairs : List (String × String))
    (files : List FileHash) (source target : String)
    → contains (source, target) (accepted_pairs enable_dedup lower urls pairs files) ≡ true
    → (h : String) × All (Owns urls (lower source) h) files × All (Owns urls (lower target) h) files
unfolding accepted_pairs
accepted_pairs-Owns false lower urls pairs files source target m = unfold contains in cc
accepted_pairs-Owns true lower urls pairs files source target m =
    let hashes = note_files urls files (proposed lower pairs) in
    let (h, a, b) =
      agree-some (hash_of (lookup (lower source) hashes)) (hash_of (lookup (lower target) hashes))
        (accepted-agree lower hashes pairs source target m) in
    (
      h,
      (note_files-Owns urls files (lower source) h (proposed lower pairs) (hash_of-some _ h a)).0,
      (note_files-Owns urls files (lower target) h (proposed lower pairs) (hash_of-some _ h b)).0,
    )
