-- ===== src/Session/Manager/Kept.antt =====
-- session/session.go: what a session keeps in its file.
use covonaut.Base.{
  ℕ, suc, String, List, [], ◌∷◌, ◌++◌, Bool, true, false, not, ◌||◌, none, some, ◌==◌,
  if◌then◌else◌, map, Map, insert, member, ◌≡◌, refl, sym, ap, ◌∙◌, arith, subst,
}
use covonaut.Session.{Entry}
use covonaut.Session.Manager.{
  Codec, Header, Manager, FileLine, marshaled, marshaled_header, new_manager, all_lines,
  apply_label, has_assistant, persist_by, persist_entry, append, complete, add_entry, branch,
}
use covonaut.Session.Manager.Opening.{index_of, labels_of}

module _ {M : Type 0} (codec : Codec M) where
  -- The file holds all lines as soon as an assistant has spoken; labels and index are those of the
  -- entries.
  pub record Kept (m : Manager) (file : List FileLine) : Type 0 where
    pub synced : m.flushed ≡ true → file ≡ all_lines codec m
    pub spoken : has_assistant codec m.entries ≡ true → m.flushed ≡ true
    pub labelled : m.labels_by_id ≡ labels_of codec m.entries []
    pub pointed : m.index ≡ index_of m.entries []
    pub persisting : m.persist ≡ true

  labels_of-snoc :
      (es : List Entry) (e : Entry) (labels : Map String)
      → labels_of codec (es ++ e ∷ []) labels ≡ apply_label codec e (labels_of codec es labels)
  unfolding labels_of
  labels_of-snoc [] e labels = refl
  labels_of-snoc (f ∷ es) e labels = labels_of-snoc es e (apply_label codec f labels)

  index_of-snoc :
      (es : List Entry) (e : Entry) (m : Map Entry)
      → index_of (es ++ e ∷ []) m ≡ insert e.id e (index_of es m)
  unfolding index_of
  index_of-snoc [] e m = refl
  index_of-snoc (f ∷ es) e m = index_of-snoc es e (insert f.id f m)

  pub map-snoc :
      (es : List Entry) (e : Entry)
      → map (marshaled codec) (es ++ e ∷ []) ≡ map (marshaled codec) es ++ marshaled codec e ∷ []
  map-snoc [] e = refl
  map-snoc (f ∷ es) e = ap (λ r. marshaled codec f ∷ r) (map-snoc es e)

  -- The last entry has been added, and is not in the file yet.
  persist_by-Kept :
      (s f : Bool) (e : Entry) (es : List Entry) (m : Manager) (file : List FileLine)
      → m.entries ≡ es ++ e ∷ []
      → has_assistant codec m.entries ≡ s
      → (f ≡ true → file ≡ marshaled_header codec m.header ∷ map (marshaled codec) es)
      → m.flushed ≡ f
      → m.labels_by_id ≡ labels_of codec m.entries []
      → m.index ≡ index_of m.entries []
      → m.persist ≡ true
      → Kept
          (persist_by codec false s f true e m file).manager
          (persist_by codec false s f true e m file).file
  persist_by-Kept false f e es m file grown spoke old flag labels ids kept = record {
    synced = λ h. cc;
    spoken = λ h. cc;
    labelled = labels;
    pointed = ids;
    persisting = kept;
  }
  persist_by-Kept true false e es m file grown spoke old flag labels ids kept = record {
    synced = λ h. refl;
    spoken = λ h. refl;
    labelled = labels;
    pointed = ids;
    persisting = kept;
  }
  persist_by-Kept true true e es m file grown spoke old flag labels ids kept = record {
    synced = λ h.
        ap (λ (l : List FileLine). l ++ marshaled codec e ∷ []) (old refl)
        ∙ ap (λ (l : List FileLine). marshaled_header codec m.header ∷ l)
            (sym (map-snoc es e) ∙ ap (map (marshaled codec)) (sym grown));
    spoken = λ h. flag;
    labelled = labels;
    pointed = ids;
    persisting = kept;
  }

  pub append-Kept :
      (id_time now : ℕ) (e : Entry) (m : Manager) (file : List FileLine)
      → (m.file_path == "") ≡ false
      → Kept m file
      → Kept
          (append codec true id_time now e m file).manager
          (append codec true id_time now e m file).file
  unfolding append persist_entry
  append-Kept id_time now e m file named kept =
      let e' = complete codec id_time now e m in
      let counter = if e.id == "" then suc m.id_counter else m.id_counter in
      let m' = add_entry codec e' counter m in
      let off : (not m.persist || m.file_path == "") ≡ false =
        ground (arith, kept.persisting, named) in
      subst
        (λ b.
          Kept
            (persist_by codec b (has_assistant codec m'.entries) m.flushed true e' m' file).manager
            (persist_by codec b (has_assistant codec m'.entries) m.flushed true e' m' file).file)
        (sym off)
        (persist_by-Kept (has_assistant codec m'.entries) m.flushed e' m.entries m' file refl refl
          kept.synced refl
          (ap (apply_label codec e') kept.labelled ∙ sym (labels_of-snoc m.entries e' []))
          (ap (insert e'.id e') kept.pointed ∙ sym (index_of-snoc m.entries e' [])) kept.persisting)

-- The sessions that the methods build from a new one, whose file operations succeed.
pub data Reaches {M : Type 0} (codec : Codec M) (header : Header) (path : String)
    : Manager → List FileLine → Type 0 where
  created :
      Reaches codec header path
        (record (new_manager header path true) { flushed = true })
        (marshaled_header codec header ∷ [])
  appended :
      {m : Manager} {file : List FileLine} (id_time now : ℕ) (e : Entry)
      → Reaches codec header path m file
      → Reaches codec header path
          (append codec true id_time now e m file).manager
          (append codec true id_time now e m file).file
  branched :
      {m next : Manager} {file : List FileLine} (id : String)
      → branch id m ≡ some next
      → Reaches codec header path m file
      → Reaches codec header path next file

module _ {M : Type 0} (codec : Codec M) (header : Header) (path : String) where
  abbrev pub Holds : Manager → List FileLine → Type 0
  Holds m file = Kept codec m file × (m.header ≡ header) × (m.file_path ≡ path)

  branch-leaf :
      (id : String) (m next : Manager) (b : Bool)
      → (if b then some (record m { leaf_id = id }) else none) ≡ some next
      → record m { leaf_id = id } ≡ next
  branch-leaf id m next true moved = cc
  branch-leaf id m next false moved = cc

  persist_by-header :
      (off s f io : Bool) (e : Entry) (m : Manager) (file : List FileLine)
      → ((persist_by codec off s f io e m file).manager.header ≡ m.header)
        × ((persist_by codec off s f io e m file).manager.file_path ≡ m.file_path)
  persist_by-header true s f io e m file = (refl, refl)
  persist_by-header false false f io e m file = (refl, refl)
  persist_by-header false true false true e m file = (refl, refl)
  persist_by-header false true false false e m file = (refl, refl)
  persist_by-header false true true true e m file = (refl, refl)
  persist_by-header false true true false e m file = (refl, refl)

  append-header :
      (io : Bool) (id_time now : ℕ) (e : Entry) (m : Manager) (file : List FileLine)
      → ((append codec io id_time now e m file).manager.header ≡ m.header)
        × ((append codec io id_time now e m file).manager.file_path ≡ m.file_path)
  unfolding append persist_entry
  append-header io id_time now e m file =
      let e' = complete codec id_time now e m in
      let m' = add_entry codec e' (if e.id == "" then suc m.id_counter else m.id_counter) m in
      persist_by-header (not m.persist || m.file_path == "") (has_assistant codec m'.entries)
        m.flushed io e' m' file

  pub Reaches-Holds :
      {m : Manager} {file : List FileLine}
      → (path == "") ≡ false
      → Reaches codec header path m file
      → Holds m file
  unfolding new_manager branch index_of labels_of
  Reaches-Holds named created = (
    record {
      synced = λ h. refl;
      spoken = λ h. refl;
      labelled = refl;
      pointed = refl;
      persisting = refl;
    },
    refl,
    refl,
  )
  Reaches-Holds named (appended {m} {file} id_time now e r) =
      let (kept, same_header, same_path) = Reaches-Holds named r in
      let (header', path') = append-header true id_time now e m file in
      (
        append-Kept codec id_time now e m file (ap (λ p. p == "") same_path ∙ named) kept,
        header' ∙ same_header,
        path' ∙ same_path,
      )
  Reaches-Holds named (branched {m} {next} {file} id moved r) =
      let (kept, same_header, same_path) = Reaches-Holds named r in
      subst (λ n. Holds n file) (branch-leaf id m next (member id m.index) moved)
        (
          record {
            synced = kept.synced;
            spoken = kept.spoken;
            labelled = kept.labelled;
            pointed = kept.pointed;
            persisting = kept.persisting;
          },
          same_header,
          same_path,
        )
