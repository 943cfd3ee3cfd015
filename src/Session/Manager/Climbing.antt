-- ===== src/Session/Manager/Climbing.antt =====
-- session/session.go: `pathToLeaf` ends on every list of entries, also where parents form a cycle.
use covonaut.Base.{
  ℕ, zero, suc, ◌+◌, ◌≤◌, ◌<◌, String, List, [], ◌∷◌, false, Option, none, some, ◌==◌,
  if◌then◌else◌, length, contains, Has, Map, keys, lookup, insert, get_or, ◌≡◌, refl, ap, ◌∙◌,
  arith, eq_iff, Bool-cases, Option-cases, inl, inr,
}
use covonaut.Session.{Entry, parent_map, entry_map, with_entry, reverse_entries}
use covonaut.Session.Manager.{climb_to_root, path_to_leaf}

-- How many of the keys have not been visited.
abbrev unvisited : List String → List String → ℕ
unvisited [] visited = 0
unvisited (k ∷ ks) visited = (if contains visited k then 0 else 1) + unvisited ks visited

unvisited-le :
    (ks visited : List String) (c : String) → unvisited ks (c ∷ visited) ≤ unvisited ks visited
unfolding contains
unvisited-le [] visited c = omega arith
unvisited-le (k ∷ ks) visited c = ground (arith, unvisited-le ks visited c)

unvisited-lt :
    (ks visited : List String) (c : String)
    → contains visited c ≡ false
    → Has c ks
    → unvisited ks (c ∷ visited) < unvisited ks visited
unfolding contains
unvisited-lt [] visited c new there = absurd (omega arith)
unvisited-lt (k ∷ ks) visited c new there =
    ground (arith, unvisited-lt ks visited c new, unvisited-le ks visited c, eq_iff k c, eq_iff c k)

unvisited-length : (ks visited : List String) → unvisited ks visited ≤ length ks
unvisited-length [] visited = omega arith
unvisited-length (k ∷ ks) visited = ground (arith, unvisited-length ks visited)

Has-keys : {V : Type 0} (k : String) (v : V) (m : Map V) → lookup k m ≡ some v → Has k (keys m)
unfolding lookup
Has-keys k v [] found = cc
Has-keys k v ((j, w) ∷ m) found = ground (arith, Has-keys k v m, eq_iff j k)

length-insert :
    {V : Type 0} (k : String) (v : V) (m : Map V)
    → length (keys (insert k v m)) ≤ suc (length (keys m))
unfolding insert
length-insert k v [] = omega arith
length-insert k v ((j, w) ∷ m) = ground (arith, length-insert k v m)

length-parent_map :
    (es : List Entry) (m : Map String)
    → length (keys (parent_map es m)) ≤ length es + length (keys m)
unfolding parent_map
length-parent_map [] m = omega arith
length-parent_map (e ∷ es) m =
    omega
      (arith, length-parent_map es (insert e.id e.parent_id m), length-insert e.id e.parent_id m)

module _ (parents : Map String) (entries : Map Entry) where
  abbrev Finishes : ℕ → List String → String → Type 0
  Finishes fuel visited current =
      (chain : List Entry) × (climb_to_root fuel parents entries visited current ≡ some chain)

  Finishes-empty : (fuel : ℕ) (visited : List String) → 0 < fuel → Finishes fuel visited ""
  unfolding climb_to_root
  Finishes-empty zero visited more = absurd (omega arith)
  Finishes-empty (suc fuel) visited more = ([], refl)

  Finishes-entry :
      (o : Option Entry) (rest : Option (List Entry)) (chain : List Entry)
      → rest ≡ some chain
      → (c : List Entry) × ((elim o as (λ _. Option (List Entry)) [
        | none ↦ rest
        | some e ↦ with_entry e rest
      ])
          ≡ some c)
  Finishes-entry none rest chain ended = (chain, ended)
  Finishes-entry (some e) rest chain ended = (e ∷ chain, ap (with_entry e) ended)

  climb_to_root-Finishes :
      (fuel : ℕ) (visited : List String) (current : String)
      → unvisited (keys parents) visited + 1 < fuel
      → Finishes fuel visited current
  unfolding climb_to_root
  climb_to_root-Finishes zero visited current more = absurd (omega arith)
  climb_to_root-Finishes (suc fuel) visited current more = elim (Bool-cases (current == "")) [
    | inl empty ↦ ([], rw empty refl)
    | inr named ↦ elim (Bool-cases (contains visited current)) [
      | inl again ↦ ([], rw (named, again) refl)
      | inr new ↦
          rw (named, new)
            (elim (Option-cases (lookup current parents)) [
              | inl root ↦
                  let (chain, ended) = Finishes-empty fuel (current ∷ visited) (omega arith) in
                  Finishes-entry (lookup current entries) _ chain (
                    ap
                      (λ (o : Option String).
                        climb_to_root fuel parents entries (current ∷ visited)
                          (elim o as (λ _. String) [ none ↦ "" | some p ↦ p ]))
                      root
                    ∙ ended)
              | inr (parent, found) ↦
                  let (chain, ended) =
                    climb_to_root-Finishes fuel (current ∷ visited) (get_or current "" parents) (
                      omega (
                        arith,
                        unvisited-lt (keys parents) visited current new
                            (Has-keys current parent parents found),
                      )) in
                  Finishes-entry (lookup current entries) _ chain ended
            ])
    ]
  ]

-- `pathToLeaf` ends on any entries and any leaf, also where the parents form a cycle.
pub path_to_leaf_total :
    (entries : List Entry) (leaf : String)
    → (path : List Entry) × (path_to_leaf entries leaf ≡ some path)
unfolding path_to_leaf
path_to_leaf_total entries leaf =
    let parents = parent_map entries [] in
    let (chain, ended) =
      climb_to_root-Finishes parents (entry_map entries []) (length entries + 2) [] leaf
        (omega (arith, length-parent_map entries [], unvisited-length (keys parents) [])) in
    (
      reverse_entries chain [],
      ap
          (λ (o : Option (List Entry)). elim o as (λ _. Option (List Entry)) [
            | none ↦ none
            | some c ↦ some (reverse_entries c [])
          ])
          ended,
    )
