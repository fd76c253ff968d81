-- ===== src/Dedup/Chains/Resolved.antt =====
-- cache/dedup.py: every chain of redirects ends, at a path that is redirected no further or in a cycle.
use repowatch.Prelude.{
  ℕ, zero, suc, ◌≤◌, ◌<◌, ◌≡◌, ◌⊎◌, inl, inr, refl, ◌∙◌, ap, String, true, false, none, some, List,
  [], ◌∷◌, arith, if◌then◌else◌, text_keys, lookup, contains, is_some, length, eq_iff, Bool-cases,
}
use repowatch.Dedup.Chains.{
  FileRow, Names, rewrites_from, targets_from, dedup_keys, Paths, goes_on, or_self, chase, or_empty,
  key_of, resolve, resolve_all,
}

-- How many redirects start at a path that was not seen.
unfoldable left : List String → Paths → ℕ
left seen [] = 0
left seen ((source, target) ∷ rewrites) =
    let n = left seen rewrites in if contains source seen then n else suc n

left-le : (seen : List String) (rewrites : Paths) → left seen rewrites ≤ length rewrites
unfolding left
left-le seen [] = omega arith
left-le seen ((s, t) ∷ rewrites) = ground (arith, left-le seen rewrites)

unseen_grows :
    (p : String) (seen : List String) (rewrites : Paths)
    → left (p ∷ seen) rewrites ≤ left seen rewrites
unfolding left contains
unseen_grows p seen [] = omega arith
unseen_grows p seen ((s, t) ∷ rewrites) = ground (arith, unseen_grows p seen rewrites)

left-lt :
    (p : String) (seen : List String) (rewrites : Paths)
    → is_some (lookup p rewrites) ≡ true
    → contains p seen ≡ false
    → left (p ∷ seen) rewrites < left seen rewrites
unfolding left contains lookup
left-lt p seen [] there new = cc
left-lt p seen ((s, t) ∷ rewrites) there new =
    ground (arith, left-lt p seen rewrites, unseen_grows p seen rewrites, eq_iff s p, eq_iff p s)

-- With as many turns as there are left sources, the loop ends where its condition fails.
chase_ends :
    (lower : String → String) (rewrites : Paths) (turns : ℕ) (seen : List String) (target : String)
    → left seen rewrites ≤ turns
    → (t : String) × (seen' : List String) × (chase lower rewrites turns seen target
        ≡ some (t, seen'))
      × (goes_on lower rewrites seen' t ≡ false)
unfolding chase
chase_ends lower rewrites zero seen target le =
    elim (Bool-cases (goes_on lower rewrites seen target)) [
      | inl on ↦ ground (arith, on, le, left-lt (lower target) seen rewrites)
      | inr off ↦ (target, seen, rw off refl, off)
    ]
chase_ends lower rewrites (suc turns) seen target le =
    elim (Bool-cases (goes_on lower rewrites seen target)) [
      | inl on ↦
          let next = or_self (lookup (lower target) rewrites) target in
          let (t, seen', e, f) =
            chase_ends lower rewrites turns (lower target ∷ seen) next
              (ground (arith, on, le, left-lt (lower target) seen rewrites)) in
          (t, seen', rw on e, f)
      | inr off ↦ (target, seen, rw off refl, off)
    ]

lookup-resolve_all :
    (lower : String → String) (rewrites targets m : Paths) (source target : String)
    → lookup source m ≡ some target
    → lookup source (resolve_all lower rewrites targets m)
      ≡ some (resolve lower rewrites targets source target)
unfolding resolve_all lookup
lookup-resolve_all lower rewrites targets [] source target h = cc
lookup-resolve_all lower rewrites targets ((s, t) ∷ m) source target h =
    ground (arith, h, lookup-resolve_all lower rewrites targets m source target, eq_iff s source)

-- Outside a cycle the last path is redirected no further.
key_of-last :
    (lower : String → String) (rewrites targets : Paths) (t : String) (seen : List String)
    → goes_on lower rewrites seen t ≡ false
    → (key_of lower targets (some (t, seen)) ≡ "")
      ⊎ ((lookup (lower t) rewrites ≡ none)
          × (key_of lower targets (some (t, seen)) ≡ or_empty (lookup t targets)))
key_of-last lower rewrites targets t seen off = elim (Bool-cases (contains (lower t) seen)) [
  | inl cycle ↦ inl (rw cycle refl)
  | inr no_cycle ↦ inr (ground (arith, off, no_cycle), rw no_cycle refl)
]

-- For every source of a redirect the loop ends within as many turns as there are redirects, and
-- the key is empty, or the one of a file whose path is redirected no further, if it has one.
pub dedup_keys-ends :
    (n : Names) (rows : List FileRow) (pairs : List (String × String)) (source target : String)
    → lookup source (rewrites_from n.lower pairs []) ≡ some target
    → let rewrites = rewrites_from n.lower pairs [] in
      let result = lookup source (dedup_keys true n rows pairs) in
      (t : String) × (seen : List String) × (chase n.lower rewrites
          (length rewrites)
          (source ∷ [])
          target
        ≡ some (t, seen))
      × ((result ≡ some "")
          ⊎ ((lookup (n.lower t) rewrites ≡ none)
              × (result ≡ some (or_empty (lookup t (targets_from n rows []))))))
unfolding dedup_keys resolve
dedup_keys-ends n rows pairs source target h =
    let rewrites = rewrites_from n.lower pairs [] in
    let targets = targets_from n rows [] in
    let (t, seen, e, off) =
      chase_ends n.lower rewrites (length rewrites) (source ∷ []) target
        (left-le (source ∷ []) rewrites) in
    let found =
      lookup-resolve_all n.lower rewrites targets rewrites source target h
      ∙ ap (λ o. some (key_of n.lower targets o)) e in
    (
      t,
      seen,
      e,
      elim (key_of-last n.lower rewrites targets t seen off) [
        | inl cycle ↦ inl (found ∙ ap some cycle)
        | inr (last, key) ↦ inr (last, found ∙ ap some key)
      ],
    )
