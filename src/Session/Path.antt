-- ===== src/Session/Path.antt =====
-- session/tree.go, `PathTo`: in a session whose entries name earlier entries as their parents the loop
-- ends, and the path leads from a root to the entry.
use covonaut.Base.{
  ℕ, suc, ◌+◌, String, List, [], ◌∷◌, Option, none, some, ◌≡◌, ◌≢◌, ◌⊎◌, refl, ◌==◌, ◌∙◌, ap, subst,
  arith, eq_iff, length, Map, lookup, insert, get_or, lookup-insert, Bool-cases, inl, inr, count,
  Has, eqb,
}
use covonaut.Session.{Entry, parent_map, entry_map, climb, with_entry, reverse_entries, path_to}

-- Ids are new, and a parent is an earlier entry or none.
abbrev pub IsLog : List String → List Entry → Type 0
IsLog seen [] = Unit
IsLog seen (e ∷ es) =
    (count e.id seen ≡ 0) × ((e.parent_id ≡ "") ⊎ Has e.parent_id seen) × IsLog (e.id ∷ seen) es

-- From the entry `id` by parents, to one that has no parent.
abbrev pub Climbs : Map Entry → String → List Entry → Type 0
Climbs entries id [] = (id ≡ "") ⊎ (lookup id entries ≡ none)
Climbs entries id (e ∷ es) =
    (id ≢ "") × (lookup id entries ≡ some e) × Climbs entries e.parent_id es

abbrev pub parent_of : Option Entry → String
parent_of none = ""
parent_of (some e) = e.parent_id

pub parent_map-entry_map :
    (es : List Entry) (parents : Map String) (entries : Map Entry) (id : String)
    → ((k : String) → get_or k "" parents ≡ parent_of (lookup k entries))
    → get_or id "" (parent_map es parents) ≡ parent_of (lookup id (entry_map es entries))
unfolding parent_map entry_map
parent_map-entry_map [] parents entries id h = h id
parent_map-entry_map (e ∷ es) parents entries id h =
    parent_map-entry_map es (insert e.id e.parent_id parents) (insert e.id e entries) id (λ k.
      ground (arith, h k, lookup-insert e.id k e.parent_id parents, lookup-insert e.id k e entries))

abbrev pub seen_after : List Entry → List String → List String
seen_after [] seen = seen
seen_after (e ∷ es) seen = seen_after es (e.id ∷ seen)

lookup-entry_map :
    (es : List Entry) (m : Map Entry) (seen : List String) (id : String)
    → IsLog seen es
    → Has id seen
    → lookup id (entry_map es m) ≡ lookup id m
unfolding entry_map
lookup-entry_map [] m seen id log h = refl
lookup-entry_map (e ∷ es) m seen id log h = ground (
  arith,
  lookup-entry_map es (insert e.id e m) (e.id ∷ seen) id log.2 (omega arith),
  lookup-insert e.id id e m,
  eq_iff e.id id,
  log.0,
  h,
)

pub lookup-entry_map_unseen :
    (es : List Entry) (m : Map Entry) (seen : List String) (id : String)
    → count id (seen_after es seen) ≡ 0
    → (count id seen ≡ 0) × (lookup id (entry_map es m) ≡ lookup id m)
unfolding entry_map
lookup-entry_map_unseen [] m seen id h = (h, refl)
lookup-entry_map_unseen (e ∷ es) m seen id h = ground (
  arith,
  lookup-entry_map_unseen es (insert e.id e m) (e.id ∷ seen) id h,
  lookup-insert e.id id e m,
  eq_iff e.id id,
)

module _ (parents : Map String) (entries : Map Entry)
    (agree : (k : String) → get_or k "" parents ≡ parent_of (lookup k entries)) where
  -- With this fuel, and with more, the loop ends with a chain to a root.
  abbrev Ends : ℕ → String → Type 0
  Ends fuel id =
      (chain : List Entry) × ((more : ℕ) → climb (fuel + more) parents entries id ≡ some chain)
      × Climbs entries id chain

  Ends-more : (fuel more : ℕ) (id : String) → Ends fuel id → Ends (fuel + more) id
  Ends-more fuel more id (chain, e, c) = (
    chain,
    λ n.
        let same : fuel + more + n ≡ fuel + (more + n) = omega arith in
        ap (λ k. climb k parents entries id) same ∙ e (more + n),
    c,
  )

  Ends-absent : (id : String) → (id ≡ "") ⊎ (lookup id entries ≡ none) → Ends 1 id
  unfolding climb
  Ends-absent id h = ([], at_once, h)
    where
      at_once : (more : ℕ) → climb (1 + more) parents entries id ≡ some []
      at_once more =
          let same : 1 + more ≡ suc more = omega arith in
          ap (λ k. climb k parents entries id) same ∙ (elim (Bool-cases (id == "")) [
            | inl empty ↦ rw empty refl
            | inr named ↦ elim h [
              | inl empty ↦ absurd (ground (arith, named, empty, eq_iff id ""))
              | inr missing ↦ rw (named, missing) refl
            ]
          ])

  Ends-entry :
      (fuel : ℕ) (id : String) (e : Entry)
      → lookup id entries ≡ some e
      → Ends fuel e.parent_id
      → Ends (suc fuel) id
  unfolding climb
  Ends-entry fuel id e found (chain, ends, c) = elim (Bool-cases (id == "")) [
    | inl empty ↦
        let at_1 = Ends-absent id (inl ((eq_iff id "").0 empty)) in
        let same : 1 + fuel ≡ suc fuel = omega arith in
        subst (λ k. Ends k id) same (Ends-more 1 fuel id at_1)
    | inr named ↦
        let parent : get_or id "" parents ≡ e.parent_id = agree id ∙ ap parent_of found in
        (
          e ∷ chain,
          λ more.
              let same : suc fuel + more ≡ suc (fuel + more) = omega arith in
              ap (λ k. climb k parents entries id) same
              ∙ rw (named, found, parent) (ap (with_entry e) (ends more)),
          (λ empty. absurd (ground (arith, named, eq_iff id "")), found, c),
        )
  ]

module _ (parents : Map String) (entries : Map Entry)
    (agree : (k : String) → get_or k "" parents ≡ parent_of (lookup k entries)) where
  Ends-entries :
      (es : List Entry) (seen : List String) (m : Map Entry) (n : ℕ)
      → IsLog seen es
      → entries ≡ entry_map es m
      → ((id : String) → Has id seen → Ends parents entries agree (suc n) id)
      → (id : String) → Has id (seen_after es seen)
      → Ends parents entries agree (suc n + length es) id
  unfolding entry_map
  Ends-entries [] seen m n log same h id there =
      Ends-more parents entries agree (suc n) 0 id (h id there)
  Ends-entries (e ∷ es) seen m n log same h id there =
      let sum : suc (suc n) + length es ≡ suc n + suc (length es) = omega arith in
      subst (λ k. Ends parents entries agree k id) sum
        (Ends-entries es (e.id ∷ seen) (insert e.id e m) (suc n) log.2 same extended id there)
    where
      found : lookup e.id entries ≡ some e
      found =
          ap (lookup e.id) same
          ∙ lookup-entry_map es (insert e.id e m) (e.id ∷ seen) e.id log.2
              (ground (arith, eq_iff e.id e.id))
          ∙ ground (arith, lookup-insert e.id e.id e m, eq_iff e.id e.id)

      parent : Ends parents entries agree (suc n) e.parent_id
      parent = elim log.1 [
        | inl root ↦
            let sum : 1 + n ≡ suc n = omega arith in
            subst (λ k. Ends parents entries agree k e.parent_id) sum
              (Ends-more parents entries agree 1 n e.parent_id
                (Ends-absent parents entries agree e.parent_id (inl root)))
        | inr earlier ↦ h e.parent_id earlier
      ]

      extended : (k : String) → Has k (e.id ∷ seen) → Ends parents entries agree (suc (suc n)) k
      extended k hk = elim (Bool-cases (e.id == k)) [
        | inl this ↦
            let named : e.id ≡ k = (eq_iff e.id k).0 this in
            subst (Ends parents entries agree (suc (suc n))) named
              (Ends-entry parents entries agree (suc n) e.id e found parent)
        | inr other ↦
            let sum : suc n + 1 ≡ suc (suc n) = omega arith in
            subst (λ j. Ends parents entries agree j k) sum
              (Ends-more parents entries agree (suc n) 1 k (h k (ground (arith, other, hk))))
      ]

-- The loop of `PathTo` in such a session.
pub climb-Climbs :
    (entries : List Entry) (id : String)
    → IsLog [] entries
    → (chain : List Entry) × ((more : ℕ)
        → climb (suc (length entries) + more) (parent_map entries []) (entry_map entries []) id
          ≡ some chain)
      × Climbs (entry_map entries []) id chain
unfolding lookup
climb-Climbs entries id log =
    let parents = parent_map entries [] in
    let byid = entry_map entries [] in
    let agree = λ (k : String). parent_map-entry_map entries [] [] k (λ j. refl) in
    let n = length entries in
    elim (Bool-cases (eqb (count id (seen_after entries [])) 0)) [
      | inl unseen ↦
          let absent = lookup-entry_map_unseen entries [] [] id (ground (arith, unseen)) in
          let sum : 1 + n ≡ suc n = omega arith in
          subst (λ k. Ends parents byid agree k id) sum
            (Ends-more parents byid agree 1 n id (Ends-absent parents byid agree id (inr absent.1)))
      | inr seen ↦
          let sum : 1 + n ≡ suc n = omega arith in
          subst (λ k. Ends parents byid agree k id) sum
            (Ends-entries parents byid agree entries [] [] 0 log refl (λ k h. absurd (omega arith))
              id (ground (arith, seen)))
    ]

-- In a session whose ids are distinct and whose entries name earlier entries, or none, as their
-- parents, the loop of `PathTo` ends within one round more than there are entries, with the chain of
-- parents from the entry to one without a parent, which is returned in reverse; an unknown id has
-- the empty path.
pub path_to-Climbs :
    (entries : List Entry) (id : String) (more : ℕ)
    → IsLog [] entries
    → (chain : List Entry) × (path_to (suc (length entries) + more) entries id
        ≡ some (reverse_entries chain []))
      × Climbs (entry_map entries []) id chain
unfolding path_to
path_to-Climbs entries id more log =
    let (chain, ends, c) = climb-Climbs entries id log in
    (
      chain,
      ap
          (λ (o : Option (List Entry)). elim o as (λ _. Option (List Entry)) [
            | none ↦ none
            | some c ↦ some (reverse_entries c [])
          ])
          (ends more),
      c,
    )
