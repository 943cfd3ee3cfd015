-- ===== src/Session/Manager/Copied.antt =====
-- session/session.go: `CreateBranchedSession` copies the path to the leaf without its label entries.
use mathlib.Core.List.{append_assoc, append-nil}
use covonaut.Base.{
  ℕ, suc, ◌+◌, ◌<◌, String, List, [], ◌∷◌, ◌++◌, Bool, true, false, Option, none, some, ◌==◌,
  if◌then◌else◌, eqb, length, count, lookup, ◌≡◌, ◌≢◌, ◌⊎◌, refl, sym, ap, ◌∙◌, arith, eq_iff,
  Bool-cases, inl, inr, lookup-insert, length-append,
}
use covonaut.Session.{Entry, entry_label, parent_map, entry_map, reverse_entries}
use covonaut.Session.Path.{parent_map-entry_map, seen_after, lookup-entry_map_unseen}
use covonaut.Session.Manager.{
  path_to_leaf, Codec, Manager, FileLine, Saved, append, complete, current_version, persist_by,
  persist_entry,
}
use covonaut.Session.Manager.Grown.{append-entries, entry_map-snoc}
use covonaut.Session.Manager.Paths.{climb_to_root-Climbs}
use covonaut.Session.Manager.Reading.{copy_entries}

-- A path: each entry names the one before it.
abbrev pub IsChain : String → List Entry → Type 0
IsChain before [] = Unit
IsChain before (e ∷ es) = (e.parent_id ≡ before) × (e.id ≢ "") × (0 < e.timestamp) × IsChain e.id es

abbrev pub is_label : Entry → Bool
is_label e = e.entry_type == entry_label

abbrev pub current : Entry → Entry
current e = record e { version = current_version }

-- The entries that are copied.
abbrev pub kept : List Entry → List Entry
kept [] = []
kept (e ∷ es) = let rest = kept es in if is_label e then rest else current e ∷ rest

abbrev pub final_id : String → List Entry → String
final_id leaf [] = leaf
final_id leaf (e ∷ es) = final_id e.id es

-- An entry whose parent is not in the session is a path of its own.
orphan_path :
    (es : List Entry) (e : Entry)
    → e.id ≢ ""
    → count e.parent_id (seen_after (es ++ e ∷ []) []) ≡ 0
    → path_to_leaf (es ++ e ∷ []) e.id ≡ some (e ∷ [])
unfolding path_to_leaf lookup reverse_entries
orphan_path es e named unseen =
    let all = es ++ e ∷ [] in
    let found : lookup e.id (entry_map all []) ≡ some e =
      ap (lookup e.id) (entry_map-snoc es e [])
      ∙ ground (arith, lookup-insert e.id e.id e (entry_map es []), eq_iff e.id e.id) in
    let missing : lookup e.parent_id (entry_map all []) ≡ none =
      (lookup-entry_map_unseen all [] [] e.parent_id unseen).1 in
    ap
      (λ (o : Option (List Entry)). elim o as (λ _. Option (List Entry)) [
        | none ↦ none
        | some c ↦ some (reverse_entries c [])
      ])
      (climb_to_root-Climbs (entry_map all []) (parent_map all [])
        (λ k. parent_map-entry_map all [] [] k (λ j. refl)) (e ∷ []) (length all + 2) [] e.id
        (omega (arith, length-append es (e ∷ []))) (named, found, inr missing)
        (λ v there. absurd (omega arith)))

kept-append : (es fs : List Entry) → kept (es ++ fs) ≡ kept es ++ kept fs
kept-append [] fs = refl
kept-append (e ∷ es) fs = elim (Bool-cases (is_label e)) [
  | inl label ↦ rw label (kept-append es fs)
  | inr other ↦ rw other (ap (λ r. current e ∷ r) (kept-append es fs))
]

final_id-snoc : (leaf : String) (es : List Entry) (e : Entry) → final_id leaf (es ++ e ∷ []) ≡ e.id
final_id-snoc leaf [] e = refl
final_id-snoc leaf (d ∷ es) e = final_id-snoc d.id es e

chain_end :
    (before : String) (es : List Entry) (l e : Entry)
    → IsChain before (es ++ l ∷ e ∷ [])
    → (e.parent_id ≡ l.id) × (e.id ≢ "")
chain_end before [] l e chain = (chain.3.0, chain.3.1)
chain_end before (d ∷ es) l e chain = chain_end d.id es l e chain.3

module _ {M : Type 0} (codec : Codec M) where
  persist_by-failed :
      (off s f : Bool) (e : Entry) (m : Manager) (file : List FileLine)
      → (persist_by codec off s f true e m file).failed ≡ false
  persist_by-failed true s f e m file = refl
  persist_by-failed false false f e m file = refl
  persist_by-failed false true false e m file = refl
  persist_by-failed false true true e m file = refl

  append_succeeds :
      (id_time now : ℕ) (e : Entry) (m : Manager) (file : List FileLine)
      → (append codec true id_time now e m file).failed ≡ false
  unfolding append persist_entry
  append_succeeds id_time now e m file = persist_by-failed _ _ _ _ _ file

  complete-current :
      (id_time now : ℕ) (e : Entry) (m : Manager)
      → e.id ≢ ""
      → 0 < e.timestamp
      → (e.parent_id ≢ "") ⊎ ((e.parent_id ≡ "") × (m.leaf_id ≡ ""))
      → complete codec id_time now (current e) m ≡ current e
  complete-current id_time now e m named dated parent =
      let id' : (e.id == "") ≡ false = ground (arith, named, eq_iff e.id "") in
      let time' : (eqb e.timestamp 0) ≡ false = ground arith in
      let parent' : (if e.parent_id == "" then m.leaf_id else e.parent_id) ≡ e.parent_id =
        elim parent [
          | inl given ↦ ground (arith, given, eq_iff e.parent_id "")
          | inr root ↦ ground (arith, root, eq_iff e.parent_id "")
        ] in
      λ i. record (current e) {
        id = (ap (λ b. if b then codec.format_id id_time (suc m.id_counter) else e.id) id') i;
        parent_id = parent' i;
        timestamp = (ap (λ b. if b then now else e.timestamp) time') i;
      }

  -- Entries with ids and times, each of which names the one before it, are copied whole but for label
  -- entries, where the first has a parent or the new session has no leaf.
  pub copy_entries-kept :
      (es : List Entry) (before : String) (clock : ℕ → ℕ) (m : Manager) (file : List FileLine)
      → IsChain before es
      → (before ≢ "") ⊎ ((before ≡ "") × (m.leaf_id ≡ ""))
      → ((copy_entries codec true clock es m file).failed ≡ false)
        × ((copy_entries codec true clock es m file).manager.entries ≡ m.entries ++ kept es)
        × ((copy_entries codec true clock es m file).manager.leaf_id ≡ final_id m.leaf_id (kept es))
  unfolding copy_entries
  copy_entries-kept [] before clock m file chain root = (refl, sym (append-nil m.entries), refl)
  copy_entries-kept (e ∷ es) before clock m file (parent, named, dated, chain) root =
      let copied = append codec true (clock 0) (clock 1) (current e) m file in
      let stored : complete codec (clock 0) (clock 1) (current e) m ≡ current e =
        complete-current (clock 0) (clock 1) e m named dated (elim root [
          | inl given ↦ inl (λ h. given (sym parent ∙ h))
          | inr (empty, at_root) ↦ inr (parent ∙ empty, at_root)
        ]) in
      let (grown, moved) = append-entries codec true (clock 0) (clock 1) (current e) m file in
      let (safe, entries', leaf') =
        copy_entries-kept es e.id (λ n. clock (n + 2)) copied.manager copied.file chain
          (inl named) in
      elim (Bool-cases (is_label e)) [
        | inl label ↦ rw label (copy_entries-kept es e.id clock m file chain (inl named))
        | inr other ↦
            rw (other, append_succeeds (clock 0) (clock 1) (current e) m file)
              (
                safe,
                entries'
                    ∙ ap (λ l. l ++ kept es) (grown ∙ ap (λ x. m.entries ++ x ∷ []) stored)
                    ∙ append_assoc m.entries (current e ∷ []) (kept es),
                leaf' ∙ ap (λ k. final_id k (kept es)) (moved ∙ ap (λ x. x.id) stored),
              )
      ]

  -- Where the last entry of the path follows a label entry, the copy of the path ends in it alone: its
  -- parent was not copied, and with it all entries before are off the path.
  pub copy_entries-label :
      (es : List Entry) (l e : Entry) (clock : ℕ → ℕ) (m : Manager) (file : List FileLine)
      (s : Saved)
      → m.entries ≡ []
      → m.leaf_id ≡ ""
      → IsChain "" (es ++ l ∷ e ∷ [])
      → is_label l ≡ true
      → is_label e ≡ false
      → count l.id (seen_after (kept es ++ current e ∷ []) []) ≡ 0
      → copy_entries codec true clock (es ++ l ∷ e ∷ []) m file ≡ s
      → (s.manager.entries ≡ kept es ++ current e ∷ [])
        × (path_to_leaf s.manager.entries s.manager.leaf_id ≡ some (current e ∷ []))
  copy_entries-label es l e clock m file s no_entries at_root chain label other unseen is_s =
      let (safe, entries', leaf') =
        copy_entries-kept (es ++ l ∷ e ∷ []) "" clock m file chain (inr (refl, at_root)) in
      let (parent, named) = chain_end "" es l e chain in
      let last : kept (l ∷ e ∷ []) ≡ current e ∷ [] = rw (label, other) refl in
      let all : kept (es ++ l ∷ e ∷ []) ≡ kept es ++ current e ∷ [] =
        kept-append es (l ∷ e ∷ []) ∙ ap (λ r. kept es ++ r) last in
      let grown : s.manager.entries ≡ kept es ++ current e ∷ [] =
        ap (λ t. t.manager.entries) (sym is_s)
        ∙ entries'
        ∙ ap (λ r. r ++ kept (es ++ l ∷ e ∷ [])) no_entries
        ∙ all in
      let at : s.manager.leaf_id ≡ e.id =
        ap (λ t. t.manager.leaf_id) (sym is_s)
        ∙ leaf'
        ∙ ap (final_id m.leaf_id) all
        ∙ final_id-snoc m.leaf_id (kept es) (current e) in
      (
        grown,
        ap (λ r. path_to_leaf r s.manager.leaf_id) grown
            ∙ ap (path_to_leaf (kept es ++ current e ∷ [])) at
            ∙ orphan_path (kept es) (current e) named
                (ap (λ p. count p (seen_after (kept es ++ current e ∷ []) [])) parent ∙ unseen),
      )
