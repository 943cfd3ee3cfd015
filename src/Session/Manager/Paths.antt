-- ===== src/Session/Manager/Paths.antt =====
-- session/session.go: `pathToLeaf` in a session whose entries name earlier entries as their parents.
use covonaut.Base.{
  ℕ, zero, suc, ◌+◌, ◌<◌, String, List, [], ◌∷◌, Bool, true, false, Option, none, some, ◌==◌,
  if◌then◌else◌, length, contains, contains_iff, Has, Map, lookup, get_or, ◌≡◌, refl, sym, ap, ◌∙◌,
  arith, eq_iff, Bool-cases, inl, inr, subst,
}
use covonaut.Session.{Entry, parent_map, entry_map, climb, with_entry, reverse_entries, path_to}
use covonaut.Session.Path.{IsLog, Climbs, parent_of, parent_map-entry_map, climb-Climbs}
use covonaut.Session.Manager.{climb_to_root, path_to_leaf}

module _ (entries : Map Entry) where
  pub Climbs-unique :
      (c d : List Entry) (id : String) → Climbs entries id c → Climbs entries id d → c ≡ d
  Climbs-unique [] [] id p q = refl
  Climbs-unique [] (y ∷ d) id p (named, found, q) = elim p [
    | inl empty ↦ absurd (named empty)
    | inr missing ↦ cc
  ]
  Climbs-unique (x ∷ c) [] id (named, found, p) q = elim q [
    | inl empty ↦ absurd (named empty)
    | inr missing ↦ cc
  ]
  Climbs-unique (x ∷ c) (y ∷ d) id (named, found, p) (named', found', q) =
      let same : x ≡ y = cc (found, found') in
      ap (λ z. z ∷ c) same
      ∙ ap (λ t. y ∷ t)
          (Climbs-unique c d y.parent_id (subst (λ z. Climbs entries z.parent_id c) same p) q)

  module _ (parents : Map String)
      (agree : (k : String) → get_or k "" parents ≡ parent_of (lookup k entries)) where
    -- Entries that were visited stand further from the root.
    abbrev pub Behind : List String → ℕ → Type 0
    Behind visited n =
        (v : String) → Has v visited → (c : List Entry) × Climbs entries v c × (n < length c)

    climb_empty :
        (fuel : ℕ) (visited : List String)
        → 0 < fuel
        → climb_to_root fuel parents entries visited "" ≡ some []
    unfolding climb_to_root
    climb_empty zero visited more = absurd (omega arith)
    climb_empty (suc fuel) visited more = refl

    pub climb_to_root-Climbs :
        (chain : List Entry) (fuel : ℕ) (visited : List String) (id : String)
        → length chain + 1 < fuel
        → Climbs entries id chain
        → Behind visited (length chain)
        → climb_to_root fuel parents entries visited id ≡ some chain
    unfolding climb_to_root
    climb_to_root-Climbs chain zero visited id more climbs behind = absurd (omega arith)
    climb_to_root-Climbs [] (suc fuel) visited id more climbs behind =
        elim (Bool-cases (id == "")) [
          | inl empty ↦ rw empty refl
          | inr named ↦ elim (Bool-cases (contains visited id)) [
            | inl again ↦ rw (named, again) refl
            | inr new ↦ elim climbs [
              | inl empty ↦ absurd (ground (arith, named, empty, eq_iff id ""))
              | inr missing ↦
                  rw (named, new, missing)
                    (ap (climb_to_root fuel parents entries (id ∷ visited))
                        (agree id ∙ ap parent_of missing)
                      ∙ climb_empty fuel (id ∷ visited) (omega arith))
            ]
          ]
        ]
    climb_to_root-Climbs (e ∷ chain) (suc fuel) visited id more (named, found, climbs) behind =
        let not_empty : (id == "") ≡ false = ground (arith, named, eq_iff id "") in
        elim (Bool-cases (contains visited id)) [
          | inl again ↦
              let (c, other, longer) = behind id ((contains_iff visited id).0 again) in
              let same : e ∷ chain ≡ c =
                Climbs-unique (e ∷ chain) c id (named, found, climbs) other in
              absurd (omega (arith, ap length same))
          | inr new ↦
              rw (not_empty, new, found)
                (ap (with_entry e) (
                  ap (climb_to_root fuel parents entries (id ∷ visited))
                    (agree id ∙ ap parent_of found)
                  ∙ climb_to_root-Climbs chain fuel (id ∷ visited) e.parent_id (omega arith) climbs
                      (λ v there. elim (Bool-cases (id == v)) [
                        | inl this ↦ (
                          e ∷ chain,
                          subst (λ k. Climbs entries k (e ∷ chain)) ((eq_iff id v).0 this)
                              (named, found, climbs),
                          omega arith,
                        )
                        | inr earlier ↦
                            let (c, other, longer) = behind v (ground (arith, earlier, there)) in
                            (c, other, omega arith)
                      ])))
        ]

rest_of :
    (b : Bool) (o : Option Entry) (rest : Option (List Entry)) (x : Entry) (xs : List Entry)
    → (if b
        then some []
        else (elim o as (λ _. Option (List Entry)) [ none ↦ some [] | some e ↦ with_entry e rest ]))
      ≡ some (x ∷ xs)
    → rest ≡ some xs
rest_of true o rest x xs ended = cc
rest_of false none rest x xs ended = cc
rest_of false (some e) none x xs ended = cc
rest_of false (some e) (some c) x xs ended = cc

climb_within :
    (fuel : ℕ) (parents : Map String) (entries : Map Entry) (id : String) (chain : List Entry)
    → climb fuel parents entries id ≡ some chain
    → length chain < fuel
unfolding climb
climb_within zero parents entries id chain ended = cc
climb_within (suc fuel) parents entries id [] ended = omega arith
climb_within (suc fuel) parents entries id (x ∷ xs) ended =
    let next = get_or id "" parents in
    let rest : climb fuel parents entries next ≡ some xs =
      rest_of (id == "") (lookup id entries) (climb fuel parents entries next) x xs ended in
    omega (arith, climb_within fuel parents entries next xs rest)

-- In a session whose ids are distinct and whose entries name earlier entries, or none, as their
-- parents, `pathToLeaf` and `PathTo` give the same path.
pub path_to_leaf-path_to :
    (entries : List Entry) (id : String) (more : ℕ)
    → IsLog [] entries
    → path_to_leaf entries id ≡ path_to (suc (length entries) + more) entries id
unfolding path_to_leaf path_to lookup
path_to_leaf-path_to entries id more log =
    let (chain, ends, climbs) = climb-Climbs entries id log in
    let parents = parent_map entries [] in
    let short : length chain < suc (length entries) + 0 =
      climb_within (suc (length entries) + 0) parents (entry_map entries []) id chain (ends 0) in
    ap
      (λ (o : Option (List Entry)). elim o as (λ _. Option (List Entry)) [
        | none ↦ none
        | some c ↦ some (reverse_entries c [])
      ])
      (climb_to_root-Climbs (entry_map entries []) parents
          (λ k. parent_map-entry_map entries [] [] k (λ j. refl)) chain (length entries + 2) [] id
          (omega arith) climbs (λ v there. absurd (omega arith))
        ∙ sym (ends more))
