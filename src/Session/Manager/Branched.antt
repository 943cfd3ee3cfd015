-- ===== src/Session/Manager/Branched.antt =====
-- session/session.go: what `CreateBranchedSession` puts into the new session.
use mathlib.Core.List.{append_assoc, append-nil}
use covonaut.Base.{
  ℕ, ◌+◌, String, List, [], ◌∷◌, ◌++◌, Bool, true, none, some, Map, lookup, ◌≡◌, refl, sym, ap, ◌∙◌,
  Option-cases, inl, inr,
}
use covonaut.Session.{Entry, entry_label}
use covonaut.Session.Manager.{
  Codec, Manager, FileLine, Saved, new_entry, complete, append, set_label,
}
use covonaut.Session.Manager.Grown.{append-entries}
use covonaut.Session.Manager.Reading.{copy_entries, copy_labels, copy_path}
use covonaut.Session.Manager.Copied.{IsChain, kept, final_id, copy_entries-kept}

final_id-append :
    (leaf : String) (xs ys : List Entry) → final_id leaf (xs ++ ys) ≡ final_id (final_id leaf xs) ys
final_id-append leaf [] ys = refl
final_id-append leaf (x ∷ xs) ys = final_id-append x.id xs ys

module _ {M : Type 0} (codec : Codec M) where
  -- A label entry for the entry of that id.
  abbrev pub Labels : String → String → Entry → Type 0
  Labels target label l =
      (l.entry_type ≡ entry_label)
      × (l.payload ≡ codec.write_label (record { target_id = target; label = label }))

  -- One label entry for each entry of the path that has a label, in the order of the path.
  abbrev pub IsLabelling : Map String → List Entry → List Entry → Type 0
  IsLabelling labels [] ls = ls ≡ []
  IsLabelling labels (e ∷ es) ls = elim (lookup e.id labels) [
    | none ↦ IsLabelling labels es ls
    | some label ↦
        (l : Entry) × ((rest : List Entry) × ((ls ≡ l ∷ rest)
            × Labels e.id label l
            × IsLabelling labels es rest))
  ]

  abbrev Grows : Map String → List Entry → Manager → Saved → Type 0
  Grows labels es m s =
      (ls : List Entry) × (s.manager.entries ≡ m.entries ++ ls)
      × (s.manager.leaf_id ≡ final_id m.leaf_id ls)
      × IsLabelling labels es ls

  copy_labels-Grows :
      (io : Bool) (clock : ℕ → ℕ) (labels : Map String) (es : List Entry) (m : Manager)
      (file : List FileLine)
      → Grows labels es m (copy_labels codec io clock labels es m file)
  unfolding copy_labels set_label
  copy_labels-Grows io clock labels [] m file = ([], sym (append-nil m.entries), refl, refl)
  copy_labels-Grows io clock labels (e ∷ es) m file = elim (Option-cases (lookup e.id labels)) [
    | inl plain ↦
        rw (plain, Grows, copy_labels, IsLabelling) (copy_labels-Grows io clock labels es m file)
    | inr (label, named) ↦
        let blank =
          new_entry entry_label (codec.write_label (record { target_id = e.id; label = label })) in
        let set = append codec io (clock 0) (clock 1) blank m file in
        let l = complete codec (clock 0) (clock 1) blank m in
        let (grown, moved) = append-entries codec io (clock 0) (clock 1) blank m file in
        let (ls, entries', leaf', labelling) =
          copy_labels-Grows io (λ (n : ℕ). clock (n + 2)) labels es set.manager set.file in
        rw (named, Grows, copy_labels, IsLabelling)
          (
            l ∷ ls,
            entries' ∙ ap (λ x. x ++ ls) grown ∙ append_assoc m.entries (l ∷ []) ls,
            leaf' ∙ ap (λ k. final_id k ls) moved,
            (l, (ls, (refl, (refl, refl), labelling))),
          )
  ]

  -- Let the new session be empty, let json.Marshal and the file operations succeed, and let the path
  -- start at an entry without a parent, each entry name the one before it as its parent, and each have
  -- an id and a time. Then the new session has the entries of the path but for its label entries, in
  -- order, with nothing changed but the version, and after them one label entry for each entry of the
  -- path that has a label; the last of all of them is the leaf.
  pub copy_path-kept :
      (es : List Entry) (clock clock' : ℕ → ℕ) (labels : Map String) (m : Manager)
      (file : List FileLine)
      → m.entries ≡ []
      → m.leaf_id ≡ ""
      → IsChain "" es
      → (ls : List Entry) × ((copy_path codec true clock clock' labels es m file).manager.entries
          ≡ kept es ++ ls)
        × ((copy_path codec true clock clock' labels es m file).manager.leaf_id
            ≡ final_id "" (kept es ++ ls))
        × IsLabelling labels es ls
  unfolding copy_path
  copy_path-kept es clock clock' labels m file no_entries no_leaf chain =
      let copied = copy_entries codec true clock es m file in
      let (safe, entries', leaf') =
        copy_entries-kept codec es "" clock m file chain (inr (refl, no_leaf)) in
      let (ls, entries'', leaf'', labelling) =
        copy_labels-Grows true clock' labels es copied.manager copied.file in
      rw safe (
        ls,
        entries'' ∙ ap (λ x. x ++ ls) (entries' ∙ ap (λ x. x ++ kept es) no_entries),
        leaf''
            ∙ ap (λ k. final_id k ls) (leaf' ∙ ap (λ k. final_id k (kept es)) no_leaf)
            ∙ sym (final_id-append "" (kept es) ls),
        labelling,
      )
