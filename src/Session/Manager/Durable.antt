-- ===== src/Session/Manager/Durable.antt =====
-- session/session.go: opening the file of a session gives back what json.Unmarshal reads of it.
use covonaut.Base.{
  subst, Option, Bool-cases, eq_iff, inl, inr, ℕ, ◌<◌, String, List, [], ◌∷◌, Bool, true, false,
  some, none, ◌==◌, eqb, ltb, if◌then◌else◌, map, Map, insert, delete, ◌≡◌, refl, sym, ap, ◌∙◌,
  arith,
}
use covonaut.Session.{Entry, entry_label}
use covonaut.Session.Manager.{
  LabelData, new_manager, Codec, Header, Manager, FileLine, marshaled, Saved, all_lines,
  apply_label, has_assistant, current_version,
}
use covonaut.Session.Manager.Opening.{
  entries_of, index_of, labels_of, last_id, loaded, finish_open, open_session, open_lines,
  lines_fit, buffer_size,
}
use covonaut.Session.Manager.Kept.{Reaches, Reaches-Holds}

-- The map with what is read back of its entries.
abbrev pub map_values : (Entry → Entry) → Map Entry → Map Entry
map_values f [] = []
map_values f ((k, e) ∷ m) = (k, f e) ∷ map_values f m

module _ {M : Type 0} (codec : Codec M) where
  -- The line of the entry fits the buffer of the scanner, and reading it gives the id, the type and,
  -- for a label, the label that were written. json.Unmarshal and json.Marshal see to the latter for
  -- texts in UTF-8.
  pub record IsReadable (e : Entry) : Type 0 where
    pub fits : codec.line_size e < buffer_size
    pub same_id : (codec.reread e).id ≡ e.id
    pub same_type : (codec.reread e).entry_type ≡ e.entry_type
    pub same_label :
        e.entry_type ≡ entry_label
        → codec.read_label (codec.reread e).payload ≡ codec.read_label e.payload

  abbrev pub AreReadable : List Entry → Type 0
  AreReadable [] = Unit
  AreReadable (e ∷ es) = IsReadable e × AreReadable es

  entries_of-written :
      (es : List Entry) → entries_of codec (map (marshaled codec) es) ≡ map codec.reread es
  unfolding entries_of
  entries_of-written [] = refl
  entries_of-written (e ∷ es) = ap (λ r. codec.reread e ∷ r) (entries_of-written es)

  lines_fit-written :
      (es : List Entry) → AreReadable es → lines_fit (map (marshaled codec) es) ≡ true
  unfolding lines_fit
  lines_fit-written [] readable = refl
  lines_fit-written (e ∷ es) (readable, others) =
      let fits = readable.fits in ground (arith, fits, lines_fit-written es others)

  pub lines_fit-all :
      (m : Manager)
      → codec.header_size m.header < buffer_size
      → AreReadable m.entries
      → lines_fit (all_lines codec m) ≡ true
  unfolding lines_fit
  lines_fit-all m short readable = ground (arith, short, lines_fit-written m.entries readable)

  last_id-reread : (es : List Entry) → AreReadable es → last_id (map codec.reread es) ≡ last_id es
  last_id-reread [] readable = refl
  last_id-reread (e ∷ []) readable = readable.0.same_id
  last_id-reread (e ∷ f ∷ es) readable = last_id-reread (f ∷ es) readable.1

  insert-map_values :
      (k : String) (e : Entry) (m : Map Entry)
      → insert k (codec.reread e) (map_values codec.reread m)
        ≡ map_values codec.reread (insert k e m)
  unfolding insert
  insert-map_values k e [] = refl
  insert-map_values k e ((j, f) ∷ m) = at_key (j == k) (insert-map_values k e m)
    where
      at_key :
          (b : Bool)
          → insert k (codec.reread e) (map_values codec.reread m)
            ≡ map_values codec.reread (insert k e m)
          → (if b
              then (k, codec.reread e) ∷ map_values codec.reread m
              else (j, codec.reread f) ∷ insert k (codec.reread e) (map_values codec.reread m))
            ≡ map_values codec.reread (if b then (k, e) ∷ m else (j, f) ∷ insert k e m)
      at_key true same = refl
      at_key false same = ap (λ r. (j, codec.reread f) ∷ r) same

  index_of-reread :
      (es : List Entry) (m : Map Entry)
      → AreReadable es
      → index_of (map codec.reread es) (map_values codec.reread m)
        ≡ map_values codec.reread (index_of es m)
  unfolding index_of
  index_of-reread [] m readable = refl
  index_of-reread (e ∷ es) m (readable, others) =
      ap
        (λ k.
          index_of (map codec.reread es) (insert k (codec.reread e) (map_values codec.reread m)))
        readable.same_id
      ∙ ap (index_of (map codec.reread es)) (insert-map_values e.id e m)
      ∙ index_of-reread es (insert e.id e m) others

  apply_label-reread :
      (e : Entry) (labels : Map String)
      → IsReadable e
      → apply_label codec (codec.reread e) labels ≡ apply_label codec e labels
  unfolding apply_label
  apply_label-reread e labels readable =
      ap
        (λ t.
          if t == entry_label then changed (codec.read_label (codec.reread e).payload) else labels)
        readable.same_type
      ∙ elim (Bool-cases (e.entry_type == entry_label)) [
        | inl label ↦
            let is_label : e.entry_type ≡ entry_label =
              ground (arith, label, eq_iff e.entry_type entry_label) in
            rw label (ap changed (readable.same_label is_label))
        | inr other ↦ rw other refl
      ]
    where
      changed : Option LabelData → Map String
      changed o = elim o [
        | none ↦ labels
        | some ld ↦
            if ld.label == ""
            then delete ld.target_id labels
            else insert ld.target_id ld.label labels
      ]

  labels_of-reread :
      (es : List Entry) (labels : Map String)
      → AreReadable es
      → labels_of codec (map codec.reread es) labels ≡ labels_of codec es labels
  unfolding labels_of
  labels_of-reread [] labels readable = refl
  labels_of-reread (e ∷ es) labels (readable, others) =
      ap (labels_of codec (map codec.reread es)) (apply_label-reread e labels readable)
      ∙ labels_of-reread es (apply_label codec e labels) others

module _ {M : Type 0} (codec : Codec M) (header : Header) (path : String) where
  finish_open-current :
      (io : Bool) (clock : ℕ → ℕ) (h : Header) (es : List Entry) (file : List FileLine)
      → h.version ≡ current_version
      → finish_open codec io clock path h es file
        ≡ record { manager = loaded codec h path es; file = file; failed = false }
  unfolding finish_open
  finish_open-current io clock h es file newest =
      let older : ltb (if eqb h.version 0 then 1 else h.version) current_version ≡ false =
        ground arith in
      rw older refl

  open_lines-written :
      (io : Bool) (clock : ℕ → ℕ) (session_id : String) (m : Manager)
      → (codec.reread_header m.header).version ≡ current_version
      → open_lines codec io clock session_id path (all_lines codec m)
        ≡ some (record {
          manager = loaded codec (codec.reread_header m.header) path (map codec.reread m.entries);
          file = all_lines codec m;
          failed = false;
        })
  unfolding open_lines
  open_lines-written io clock session_id m newest =
      let h = codec.reread_header m.header in
      ap (λ es. some (finish_open codec io clock path h es (all_lines codec m)))
        (entries_of-written codec m.entries)
      ∙ ap some
          (finish_open-current io clock h (map codec.reread m.entries) (all_lines codec m) newest)

  -- Let the methods build a session from a new one, let json.Marshal and the file operations succeed,
  -- and let an assistant have spoken. Let the version of the header be read back as the newest one,
  -- and let the header and each entry be written in a line that fits the buffer of `Open`, an entry
  -- such that its id, its type and the label of a label entry are read back. Then opening the file
  -- succeeds and gives the header and the entries that json.Unmarshal reads of those written, an index
  -- of the same ids, the same labels, and as the leaf the last entry, also after a branch.
  pub open_session-Reaches :
      {m : Manager} {file : List FileLine} (io : Bool) (clock : ℕ → ℕ) (session_id : String)
      → (path == "") ≡ false
      → Reaches codec header path m file
      → has_assistant codec m.entries ≡ true
      → (codec.reread_header header).version ≡ current_version
      → codec.header_size header < buffer_size
      → AreReadable codec m.entries
      → (s : Saved) × (open_session codec io clock session_id path file ≡ some s)
        × (s.failed ≡ false)
        × (s.manager.header ≡ codec.reread_header m.header)
        × (s.manager.entries ≡ map codec.reread m.entries)
        × (s.manager.labels_by_id ≡ m.labels_by_id)
        × (s.manager.index ≡ map_values codec.reread m.index)
        × (s.manager.leaf_id ≡ last_id m.entries)
  unfolding open_session new_manager
  open_session-Reaches {m} {file} io clock session_id named reached spoke newest short readable =
      let (kept, same_header, same_path) = Reaches-Holds codec header path named reached in
      let lines : file ≡ all_lines codec m = kept.synced (kept.spoken spoke) in
      let fit : lines_fit (all_lines codec m) ≡ true =
        lines_fit-all codec m
          (subst (λ h. codec.header_size h < buffer_size) (sym same_header) short) readable in
      (
        record {
          manager = loaded codec (codec.reread_header m.header) path (map codec.reread m.entries);
          file = all_lines codec m;
          failed = false;
        },
        ap (open_session codec io clock session_id path) lines
            ∙ ap
                (λ b.
                  if b then open_lines codec io clock session_id path (all_lines codec m) else none)
                fit
            ∙ open_lines-written io clock session_id m
                (ap (λ h. (codec.reread_header h).version) same_header ∙ newest),
        refl,
        refl,
        refl,
        labels_of-reread codec m.entries [] readable ∙ sym kept.labelled,
        index_of-reread codec m.entries [] readable
            ∙ ap (map_values codec.reread) (sym kept.pointed),
        last_id-reread codec m.entries readable,
      )
