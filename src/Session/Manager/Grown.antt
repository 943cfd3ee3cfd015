-- ===== src/Session/Manager/Grown.antt =====
-- session/session.go: what `Append` does to the path to the leaf.
use covonaut.Base.{
  ℕ, suc, ◌<◌, String, List, [], ◌∷◌, ◌++◌, Bool, true, false, not, ◌||◌, Option, none, some, ◌==◌,
  if◌then◌else◌, length, Has, count, Map, lookup, insert, ◌≡◌, ◌≢◌, ◌⊎◌, refl, sym, ap, ◌∙◌, arith,
  eq_iff, Bool-cases, inl, inr, lookup-insert, subst,
}
use covonaut.Session.{Entry, entry_map, reverse_entries, path_to}
use covonaut.Session.Path.{IsLog, Climbs, climb-Climbs, seen_after}
use covonaut.Session.Manager.{
  path_to_leaf, Codec, Manager, FileLine, Saved, persist_by, persist_entry, has_assistant, append,
  complete, add_entry,
}
use covonaut.Session.Manager.Paths.{Climbs-unique, path_to_leaf-path_to}

IsLog-snoc :
    (es : List Entry) (e : Entry) (seen : List String)
    → IsLog seen es
    → count e.id (seen_after es seen) ≡ 0
    → (e.parent_id ≡ "") ⊎ Has e.parent_id (seen_after es seen)
    → IsLog seen (es ++ e ∷ [])
IsLog-snoc [] e seen log new parent = (new, parent, tt)
IsLog-snoc (d ∷ es) e seen log new parent =
    (log.0, log.1, IsLog-snoc es e (d.id ∷ seen) log.2 new parent)

pub entry_map-snoc :
    (es : List Entry) (e : Entry) (m : Map Entry)
    → entry_map (es ++ e ∷ []) m ≡ insert e.id e (entry_map es m)
unfolding entry_map
entry_map-snoc [] e m = refl
entry_map-snoc (d ∷ es) e m = entry_map-snoc es e (insert d.id d m)

module _ (old : Map Entry) (e : Entry) (full : List Entry)
    (top : Climbs (insert e.id e old) e.id full) where
  -- Below the top of a climb no entry is its first.
  old_entry :
      (c : List Entry) (id : String) (x : Entry)
      → length (x ∷ c) < length full
      → Climbs (insert e.id e old) id (x ∷ c)
      → lookup id old ≡ some x
  old_entry c id x less climbs = elim (Bool-cases (e.id == id)) [
    | inl this ↦
        let same : full ≡ x ∷ c =
          Climbs-unique (insert e.id e old) full (x ∷ c) id
            (subst (λ k. Climbs (insert e.id e old) k full) ((eq_iff e.id id).0 this) top) climbs in
        absurd (omega (arith, ap length same))
    | inr other ↦ ground (arith, other, climbs.1, lookup-insert e.id id e old)
  ]

  -- A climb from an old entry does not meet the new one.
  same_climb :
      (c d : List Entry) (id : String)
      → length c < length full
      → Climbs (insert e.id e old) id c
      → Climbs old id d
      → c ≡ d
  same_climb [] [] id less p q = refl
  same_climb [] (y ∷ d) id less p (named, found, q) = elim p [
    | inl empty ↦ absurd (named empty)
    | inr missing ↦ absurd (ground (arith, missing, found, lookup-insert e.id id e old))
  ]
  same_climb (x ∷ c) [] id less p q = elim q [
    | inl empty ↦ absurd (p.0 empty)
    | inr missing ↦ cc (old_entry c id x less p)
  ]
  same_climb (x ∷ c) (y ∷ d) id less p (named, found, q) =
      let same : x ≡ y = cc (old_entry c id x less p, found) in
      ap (λ z. z ∷ c) same
      ∙ ap (λ t. y ∷ t)
          (same_climb c d y.parent_id (omega arith)
            (subst (λ z. Climbs (insert e.id e old) z.parent_id c) same p.2) q)

grown_climb :
    (old : Map Entry) (e : Entry) (full chain : List Entry)
    → e.id ≢ ""
    → Climbs (insert e.id e old) e.id full
    → Climbs old e.parent_id chain
    → full ≡ e ∷ chain
grown_climb old e [] chain named top climbs = elim top [
  | inl empty ↦ absurd (named empty)
  | inr missing ↦ absurd (ground (arith, missing, lookup-insert e.id e.id e old, eq_iff e.id e.id))
]
grown_climb old e (x ∷ c) chain named top climbs =
    let here : lookup e.id (insert e.id e old) ≡ some e =
      ground (arith, lookup-insert e.id e.id e old, eq_iff e.id e.id) in
    let same : x ≡ e = cc (top.1, here) in
    ap (λ z. z ∷ c) same
    ∙ ap (λ t. e ∷ t)
        (same_climb old e (x ∷ c) top c chain e.parent_id (omega arith)
          (subst (λ z. Climbs (insert e.id e old) z.parent_id c) same top.2) climbs)

reverse_entries-snoc :
    (es : List Entry) (done : List Entry) (e : Entry)
    → reverse_entries es (done ++ e ∷ []) ≡ reverse_entries es done ++ e ∷ []
unfolding reverse_entries
reverse_entries-snoc [] done e = refl
reverse_entries-snoc (x ∷ es) done e = reverse_entries-snoc es (x ∷ done) e

-- The path to a leaf, and the climb that it comes from.
path_of :
    (entries : List Entry) (id : String)
    → IsLog [] entries
    → (chain : List Entry) × Climbs (entry_map entries []) id chain
      × (path_to_leaf entries id ≡ some (reverse_entries chain []))
unfolding path_to lookup
path_of entries id log =
    let (chain, ends, climbs) = climb-Climbs entries id log in
    (
      chain,
      climbs,
      path_to_leaf-path_to entries id 0 log
          ∙ ap
              (λ (o : Option (List Entry)). elim o as (λ _. Option (List Entry)) [
                | none ↦ none
                | some c ↦ some (reverse_entries c [])
              ])
              (ends 0),
    )

-- In such a session, the path to a new entry is the path to its parent, and the entry.
path_to_leaf-snoc :
    (es : List Entry) (e : Entry)
    → IsLog [] es
    → e.id ≢ ""
    → count e.id (seen_after es []) ≡ 0
    → (e.parent_id ≡ "") ⊎ Has e.parent_id (seen_after es [])
    → (path : List Entry) × (path_to_leaf es e.parent_id ≡ some path)
      × (path_to_leaf (es ++ e ∷ []) e.id ≡ some (path ++ e ∷ []))
unfolding reverse_entries
path_to_leaf-snoc es e log named new parent =
    let old = entry_map es [] in
    let (chain, climbs, path) = path_of es e.parent_id log in
    let (full, top, path') = path_of (es ++ e ∷ []) e.id (IsLog-snoc es e [] log new parent) in
    let top' : Climbs (insert e.id e old) e.id full =
      subst (λ m. Climbs m e.id full) (entry_map-snoc es e []) top in
    let grown : full ≡ e ∷ chain = grown_climb old e full chain named top' climbs in
    (
      reverse_entries chain [],
      path,
      path'
          ∙ ap (λ c. some (reverse_entries c [])) grown
          ∙ ap some (reverse_entries-snoc chain [] e),
    )

module _ {M : Type 0} (codec : Codec M) where
  persist_by-entries :
      (off s f io : Bool) (e : Entry) (m : Manager) (file : List FileLine)
      → ((persist_by codec off s f io e m file).manager.entries ≡ m.entries)
        × ((persist_by codec off s f io e m file).manager.leaf_id ≡ m.leaf_id)
  persist_by-entries true s f io e m file = (refl, refl)
  persist_by-entries false false f io e m file = (refl, refl)
  persist_by-entries false true false true e m file = (refl, refl)
  persist_by-entries false true false false e m file = (refl, refl)
  persist_by-entries false true true true e m file = (refl, refl)
  persist_by-entries false true true false e m file = (refl, refl)

  pub append-entries :
      (io : Bool) (id_time now : ℕ) (e : Entry) (m : Manager) (file : List FileLine)
      → ((append codec io id_time now e m file).manager.entries
          ≡ m.entries ++ complete codec id_time now e m ∷ [])
        × ((append codec io id_time now e m file).manager.leaf_id
            ≡ (complete codec id_time now e m).id)
  unfolding append persist_entry
  append-entries io id_time now e m file =
      let e' = complete codec id_time now e m in
      let m' = add_entry codec e' (if e.id == "" then suc m.id_counter else m.id_counter) m in
      persist_by-entries (not m.persist || m.file_path == "") (has_assistant codec m'.entries)
        m.flushed io e' m' file

  -- Let the ids of a session be distinct, the parents earlier entries or none, and the leaf an entry or
  -- none. An entry with a new id that names no parent is put at the end of the path to the leaf,
  -- whether or not it could be written.
  pub path_to_leaf-append :
      (io : Bool) (id_time now : ℕ) (e : Entry) (m : Manager) (file : List FileLine) (a : Saved)
      → IsLog [] m.entries
      → (m.leaf_id ≡ "") ⊎ Has m.leaf_id (seen_after m.entries [])
      → e.parent_id ≡ ""
      → (complete codec id_time now e m).id ≢ ""
      → count (complete codec id_time now e m).id (seen_after m.entries []) ≡ 0
      → append codec io id_time now e m file ≡ a
      → (path : List Entry) × (path_to_leaf m.entries m.leaf_id ≡ some path)
        × (path_to_leaf a.manager.entries a.manager.leaf_id
            ≡ some (path ++ complete codec id_time now e m ∷ []))
  path_to_leaf-append io id_time now e m file a log leaf root named new is_a =
      let e' = complete codec id_time now e m in
      let parent : e'.parent_id ≡ m.leaf_id = ground (arith, root, eq_iff e.parent_id "") in
      let (entries', leaf') = append-entries io id_time now e m file in
      let (path, before, after) =
        path_to_leaf-snoc m.entries e' log named new
          (subst (λ p. (p ≡ "") ⊎ Has p (seen_after m.entries [])) (sym parent) leaf) in
      (
        path,
        ap (path_to_leaf m.entries) (sym parent) ∙ before,
        ap (λ s. path_to_leaf s.manager.entries s.manager.leaf_id) (sym is_a)
            ∙ ap (λ es. path_to_leaf es (append codec io id_time now e m file).manager.leaf_id)
                entries'
            ∙ ap (path_to_leaf (m.entries ++ e' ∷ [])) leaf'
            ∙ after,
      )
