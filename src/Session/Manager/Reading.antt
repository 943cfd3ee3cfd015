-- ===== src/Session/Manager/Reading.antt =====
-- session/session.go: the messages on the path to the leaf, and the copy of a path into a new session.
use covonaut.Base.{
  ℕ, ◌+◌, String, List, [], ◌∷◌, ◌++◌, Bool, false, not, ◌&&◌, Option, none, some, ◌==◌,
  if◌then◌else◌, Map, lookup,
}
use covonaut.Session.{Entry, entry_message, entry_label, entry_compaction, entry_branch_summary}
use covonaut.Session.Manager.{
  Codec, CompactionData, Manager, FileLine, Saved, current_version, append, set_label,
}

abbrev pub type_compaction_summary : String
type_compaction_summary = "compaction_summary"

abbrev pub type_branch_summary : String
type_branch_summary = "branch_summary"

module _ {M : Type 0} (codec : Codec M) where
  unfoldable pub last_compaction : List Entry → Option CompactionData → Option CompactionData
  last_compaction [] found = found
  last_compaction (e ∷ es) found = last_compaction es (
      if e.entry_type == entry_compaction
      then (elim (codec.read_compaction e.payload) [ none ↦ found | some cd ↦ some cd ])
      else found)

  -- The `switch` on the type of an entry.
  abbrev pub messages_of : Entry → List M
  messages_of e =
      if e.entry_type == entry_message
      then (elim (codec.read_message e.payload) [ none ↦ [] | some m ↦ m ∷ [] ])
      else if e.entry_type == entry_branch_summary
      then (elim (codec.read_branch_summary e.payload) [
        | none ↦ []
        | some bs ↦ codec.system_message bs.summary type_branch_summary ∷ []
      ])
      else []

  unfoldable pub messages_from : Bool → String → List Entry → List M
  messages_from skipping skip_until [] = []
  messages_from skipping skip_until (e ∷ es) =
      let still = skipping && not (e.id == skip_until) in
      (if still then [] else messages_of e) ++ messages_from still skip_until es

  unfoldable pub messages_on_path : List Entry → List M
  messages_on_path path = elim (last_compaction path none) [
    | none ↦ messages_from false "" path
    | some cd ↦
        codec.system_message cd.summary type_compaction_summary
        ∷ messages_from (not (cd.first_kept_entry_id == "")) cd.first_kept_entry_id path
  ]

  -- The first loop of `CreateBranchedSession`, into the new session; it stops at an error. The clock
  -- is read at most twice in each round.
  unfoldable pub copy_entries : Bool → (ℕ → ℕ) → List Entry → Manager → List FileLine → Saved
  copy_entries io clock [] m file = record { manager = m; file = file; failed = false }
  copy_entries io clock (e ∷ es) m file =
      let copied =
        append codec io (clock 0) (clock 1) (record e { version = current_version }) m file in
      let later = λ (n : ℕ). clock (n + 2) in
      let skipped = copy_entries io clock es m file in
      let rest = copy_entries io later es copied.manager copied.file in
      if e.entry_type == entry_label then skipped else if copied.failed then copied else rest

  -- The second loop, whose errors are dropped.
  unfoldable pub copy_labels :
      Bool → (ℕ → ℕ) → Map String → List Entry → Manager → List FileLine → Saved
  copy_labels io clock labels [] m file = record { manager = m; file = file; failed = false }
  copy_labels io clock labels (e ∷ es) m file =
      let later = λ (n : ℕ). clock (n + 2) in
      let without = copy_labels io clock labels es m file in
      elim (lookup e.id labels) [
        | none ↦ without
        | some label ↦
            let set = set_label codec io (clock 0) (clock 1) e.id label m file in
            copy_labels io later labels es set.manager set.file
      ]

  -- What `CreateBranchedSession` does with the path and the labels of a session, in the new session
  -- that it has created; `clock` and `clock'` are the readings of the clock in the two loops.
  unfoldable pub copy_path :
      Bool → (ℕ → ℕ) → (ℕ → ℕ) → Map String → List Entry → Manager → List FileLine → Saved
  copy_path io clock clock' labels path m file =
      let copied = copy_entries io clock path m file in
      if copied.failed then copied else copy_labels io clock' labels path copied.manager copied.file
