-- ===== src/Session/Manager/Messages.antt =====
-- session/session.go: which messages a compaction leaves on a path.
use covonaut.Base.{
  String, List, [], ◌∷◌, ◌++◌, Bool, true, false, not, Option, none, some, ◌==◌, if◌then◌else◌, ◌≡◌,
  refl, ap, ◌∙◌, Bool-cases, inl, inr,
}
use covonaut.Session.{Entry, entry_compaction}
use covonaut.Session.Manager.{Codec, CompactionData}
use covonaut.Session.Manager.Reading.{
  last_compaction, messages_of, messages_from, messages_on_path, type_compaction_summary,
}

-- The path from its first entry with this id on; all of it for no id.
abbrev pub from_entry : String → List Entry → List Entry
from_entry id [] = []
from_entry id (e ∷ es) = let rest = from_entry id es in if e.id == id then e ∷ es else rest

abbrev pub kept_from : String → List Entry → List Entry
kept_from id es = if id == "" then es else from_entry id es

module _ {M : Type 0} (codec : Codec M) where
  abbrev pub all_messages : List Entry → List M
  all_messages [] = []
  all_messages (e ∷ es) = messages_of codec e ++ all_messages es

  abbrev pub HasNoCompaction : List Entry → Type 0
  HasNoCompaction [] = Unit
  HasNoCompaction (e ∷ es) = ((e.entry_type == entry_compaction) ≡ false) × HasNoCompaction es

  messages_from-all :
      (id : String) (es : List Entry) → messages_from codec false id es ≡ all_messages es
  unfolding messages_from
  messages_from-all id [] = refl
  messages_from-all id (e ∷ es) = ap (λ r. messages_of codec e ++ r) (messages_from-all id es)

  messages_from-kept :
      (id : String) (es : List Entry)
      → messages_from codec true id es ≡ all_messages (from_entry id es)
  unfolding messages_from
  messages_from-kept id [] = refl
  messages_from-kept id (e ∷ es) = elim (Bool-cases (e.id == id)) [
    | inl here ↦ rw here (ap (λ r. messages_of codec e ++ r) (messages_from-all id es))
    | inr later ↦ rw later (messages_from-kept id es)
  ]

  last_compaction-none :
      (es : List Entry) (found : Option CompactionData)
      → HasNoCompaction es
      → last_compaction codec es found ≡ found
  unfolding last_compaction
  last_compaction-none [] found clear = refl
  last_compaction-none (e ∷ es) found clear = rw (clear.0) (last_compaction-none es found clear.1)

  last_compaction-some :
      (before after : List Entry) (c : Entry) (cd : CompactionData) (found : Option CompactionData)
      → (c.entry_type == entry_compaction) ≡ true
      → codec.read_compaction c.payload ≡ some cd
      → HasNoCompaction after
      → last_compaction codec (before ++ c ∷ after) found ≡ some cd
  unfolding last_compaction
  last_compaction-some [] after c cd found is_one reads clear =
      let step : (if c.entry_type == entry_compaction
            then (elim (codec.read_compaction c.payload) as (λ _. Option CompactionData) [
              | none ↦ found
              | some d ↦ some d
            ])
            else found)
          ≡ some cd =
        rw (is_one, reads) refl in
      ap (last_compaction codec after) step ∙ last_compaction-none after (some cd) clear
  last_compaction-some (e ∷ before) after c cd found is_one reads clear =
      last_compaction-some before after c cd _ is_one reads clear

  -- On a path whose last compaction entry can be read, the messages are its summary and those from the
  -- first kept entry on; if the compaction names no entry, those of the whole path.
  pub messages_on_path-compaction :
      (before after : List Entry) (c : Entry) (cd : CompactionData)
      → (c.entry_type == entry_compaction) ≡ true
      → codec.read_compaction c.payload ≡ some cd
      → HasNoCompaction after
      → messages_on_path codec (before ++ c ∷ after)
        ≡ codec.system_message cd.summary type_compaction_summary
          ∷ all_messages (kept_from cd.first_kept_entry_id (before ++ c ∷ after))
  unfolding messages_on_path
  messages_on_path-compaction before after c cd is_one reads clear =
      let path = before ++ c ∷ after in
      let id = cd.first_kept_entry_id in
      let summary = codec.system_message cd.summary type_compaction_summary in
      ap
        (λ (o : Option CompactionData). elim o as (λ _. List M) [
          | none ↦ messages_from codec false "" path
          | some d ↦
              codec.system_message d.summary type_compaction_summary
              ∷ messages_from codec (not (d.first_kept_entry_id == "")) d.first_kept_entry_id path
        ])
        (last_compaction-some before after c cd none is_one reads clear)
      ∙ ap (λ r. summary ∷ r) (by_id (id == "") id path)
    where
      by_id :
          (b : Bool) (id : String) (path : List Entry)
          → messages_from codec (not b) id path
            ≡ all_messages (if b then path else from_entry id path)
      by_id true id path = messages_from-all id path
      by_id false id path = messages_from-kept id path
