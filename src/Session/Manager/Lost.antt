-- ===== src/Session/Manager/Lost.antt =====
-- session/session.go: an entry whose write fails stays missing from the file.
use mathlib.Core.List.{append_assoc}
use covonaut.Base.{
  ℕ, suc, List, [], ◌∷◌, ◌++◌, Bool, true, false, not, ◌||◌, ◌==◌, if◌then◌else◌, map, ◌≡◌, refl,
  sym, ap, ◌∙◌, arith,
}
use covonaut.Session.{Entry}
use covonaut.Session.Manager.{
  Codec, Manager, FileLine, marshaled, marshaled_header, Saved, has_assistant, persist_by,
  persist_entry, append, complete, add_entry,
}
use covonaut.Session.Manager.{write_line, is_assistant_message}
use covonaut.Session.Manager.Kept.{Kept, map-snoc}

or_mono : (b c d : Bool) → (c ≡ true → d ≡ true) → (b || c) ≡ true → (b || d) ≡ true
or_mono true c d imp h = refl
or_mono false c d imp h = imp h

module _ {M : Type 0} (codec : Codec M) where
  has_assistant-snoc :
      (es : List Entry) (e : Entry)
      → has_assistant codec es ≡ true
      → has_assistant codec (es ++ e ∷ []) ≡ true
  has_assistant-snoc [] e spoke = cc
  has_assistant-snoc (d ∷ es) e spoke =
      or_mono (is_assistant_message codec d) _ _ (has_assistant-snoc es e) spoke

  -- With the file up to date an append only writes a line.
  append-write :
      (io : Bool) (id_time now : ℕ) (e : Entry) (m : Manager) (file : List FileLine)
      → m.persist ≡ true
      → (m.file_path == "") ≡ false
      → has_assistant codec m.entries ≡ true
      → m.flushed ≡ true
      → (counter : ℕ) × (append codec io id_time now e m file
          ≡ write_line codec io
              (complete codec id_time now e m)
              (add_entry codec (complete codec id_time now e m) counter m)
              file)
  unfolding append persist_entry
  append-write io id_time now e m file persisting named spoke flag =
      let e' = complete codec id_time now e m in
      let counter = if e.id == "" then suc m.id_counter else m.id_counter in
      let m' = add_entry codec e' counter m in
      let off : (not m.persist || m.file_path == "") ≡ false = ground (arith, persisting, named) in
      (
        counter,
        ap (λ b. persist_by codec b (has_assistant codec m'.entries) m.flushed io e' m' file) off
            ∙ ap (λ b. persist_by codec false b m.flushed io e' m' file)
                (has_assistant-snoc m.entries e' spoke)
            ∙ ap (λ b. persist_by codec false true b io e' m' file) flag,
      )

  -- If the write of an entry fails while the file is up to date, the manager keeps the entry, and an
  -- append after it, although it succeeds, writes only its own entry: the first one stays missing
  -- from the file.
  pub append-failed :
      (m : Manager) (file : List FileLine) (id_time now id_time' now' : ℕ) (e f : Entry)
      (a b : Saved)
      → (m.file_path == "") ≡ false
      → Kept codec m file
      → has_assistant codec m.entries ≡ true
      → append codec false id_time now e m file ≡ a
      → append codec true id_time' now' f a.manager a.file ≡ b
      → (a.failed ≡ true)
        × (b.failed ≡ false)
        × ((g h : Entry) × (b.manager.entries ≡ m.entries ++ g ∷ h ∷ [])
            × (b.file
                ≡ marshaled_header codec m.header ∷ map (marshaled codec) (m.entries ++ h ∷ [])))
  append-failed m file id_time now id_time' now' e f a b named kept spoke first second =
      let flag = kept.spoken spoke in
      let e' = complete codec id_time now e m in
      let (counter, is_a) =
        append-write false id_time now e m file kept.persisting named spoke flag in
      let m1 = add_entry codec e' counter m in
      let f' = complete codec id_time' now' f m1 in
      let (counter', is_b) =
        append-write true id_time' now' f m1 file kept.persisting named
          (has_assistant-snoc m.entries e' spoke) flag in
      let m2 = add_entry codec f' counter' m1 in
      let to_a : record { manager = m1; file = file; failed = true } ≡ a = sym is_a ∙ first in
      let to_b : write_line codec true f' m2 file ≡ b =
        sym is_b ∙ ap (λ s. append codec true id_time' now' f s.manager s.file) to_a ∙ second in
      (
        ap (λ s. s.failed) (sym to_a),
        ap (λ s. s.failed) (sym to_b),
        (
          e',
          f',
          ap (λ s. s.manager.entries) (sym to_b) ∙ append_assoc m.entries (e' ∷ []) (f' ∷ []),
          ap (λ s. s.file) (sym to_b)
              ∙ ap (λ (l : List FileLine). l ++ marshaled codec f' ∷ []) (kept.synced flag)
              ∙ ap (λ (l : List FileLine). marshaled_header codec m.header ∷ l)
                  (sym (map-snoc codec m.entries f')),
        ),
      )
