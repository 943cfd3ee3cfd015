-- ===== src/Session/Manager/Opening.antt =====
-- session/session.go: `FileStore.Open` on the lines of a file, with the migrations of old versions.
use covonaut.Base.{
  ℕ, ◌+◌, String, List, [], ◌∷◌, Bool, true, false, not, ◌&&◌, Option, none, some, ◌==◌, eqb, ltb,
  if◌then◌else◌, Map, insert,
}
use covonaut.Session.{Entry, entry_message, entry_compaction}
use covonaut.Session.Manager.{
  Codec, Header, Manager, FileLine, header_line, entry_line, junk, Saved, current_version,
  new_manager, apply_label, flush_all,
}

abbrev pub entry_header : String
entry_header = "session"

unfoldable pub index_of : List Entry → Map Entry → Map Entry
index_of [] m = m
index_of (e ∷ es) m = index_of es (insert e.id e m)

abbrev pub last_id : List Entry → String
last_id [] = ""
last_id (e ∷ []) = e.id
last_id (e ∷ f ∷ es) = last_id (f ∷ es)

abbrev pub old_header : String → Header
old_header session_id = record {
  version = 1;
  session_id = session_id;
  created = "";
  cwd = "";
  parent_session = "";
}

-- `10*1024*1024`: the buffer must hold a line with its end.
abbrev pub buffer_size : ℕ
buffer_size = 10485760

abbrev pub size_of : FileLine → ℕ
size_of (header_line k h) = k
size_of (entry_line k e) = k
size_of (junk k) = k

unfoldable pub lines_fit : List FileLine → Bool
lines_fit [] = true
lines_fit (l ∷ ls) = let rest = lines_fit ls in if ltb (size_of l) buffer_size then rest else false

module _ {M : Type 0} (codec : Codec M) where
  -- `clock` is read for each new id, and `last_id` is the id before.
  unfoldable pub migrate_v1_to_v2 : (ℕ → ℕ) → String → List Entry → List Entry
  migrate_v1_to_v2 clock last_id [] = []
  migrate_v1_to_v2 clock last_id (e ∷ es) =
      let id' = if e.id == "" then codec.format_id (clock 0) 1 else e.id in
      let later = if e.id == "" then (λ (n : ℕ). clock (n + 1)) else clock in
      let parent = if e.parent_id == "" && not (last_id == "") then last_id else e.parent_id in
      record e { id = id'; parent_id = parent; version = 2 } ∷ migrate_v1_to_v2 later id' es

  unfoldable pub migrate_v2_to_v3 : List Entry → List Entry
  migrate_v2_to_v3 [] = []
  migrate_v2_to_v3 (e ∷ es) =
      record e {
        payload =
            if e.entry_type == entry_compaction then codec.without_index e.payload else e.payload;
        version = 3;
      }
      ∷ migrate_v2_to_v3 es

  unfoldable pub migrate_v3_to_v4 : List Entry → List Entry
  migrate_v3_to_v4 [] = []
  migrate_v3_to_v4 (e ∷ es) =
      record e {
        payload =
            if e.entry_type == entry_message then codec.with_custom_role e.payload else e.payload;
        version = 4;
      }
      ∷ migrate_v3_to_v4 es

  unfoldable pub migrate_entries : (ℕ → ℕ) → ℕ → List Entry → List Entry
  migrate_entries clock from entries =
      let to_2 = if ltb from 2 then migrate_v1_to_v2 clock "" entries else entries in
      let to_3 = if ltb from 3 then migrate_v2_to_v3 to_2 else to_2 in
      if ltb from 4 then migrate_v3_to_v4 to_3 else to_3

  -- Lines that are not entries are skipped.
  unfoldable pub entries_of : List FileLine → List Entry
  entries_of [] = []
  entries_of (header_line k h ∷ lines) = elim (codec.entry_of_header h) [
    | none ↦ entries_of lines
    | some e ↦ e ∷ entries_of lines
  ]
  entries_of (entry_line k e ∷ lines) = e ∷ entries_of lines
  entries_of (junk k ∷ lines) = entries_of lines

  unfoldable pub labels_of : List Entry → Map String → Map String
  labels_of [] labels = labels
  labels_of (e ∷ es) labels = labels_of es (apply_label codec e labels)

  abbrev pub loaded : Header → String → List Entry → Manager
  loaded header file_path entries = record (new_manager header file_path true) {
    entries = entries;
    flushed = true;
    index = index_of entries [];
    labels_by_id = labels_of entries [];
    leaf_id = last_id entries;
  }

  -- The manager for a header and its entries; `failed` is an error of `flushAll`.
  unfoldable pub finish_open : Bool → (ℕ → ℕ) → String → Header → List Entry → List FileLine → Saved
  finish_open io clock file_path header entries file =
      let from = if eqb header.version 0 then 1 else header.version in
      if ltb from current_version
      then flush_all codec io
          (loaded (record header { version = current_version }) file_path
            (migrate_entries clock from entries))
          file
      else record { manager = loaded header file_path entries; file = file; failed = false }

  -- What `Open` makes of the lines; `none` is an error: no line, or a header that cannot be read.
  unfoldable pub open_lines : Bool → (ℕ → ℕ) → String → String → List FileLine → Option Saved
  open_lines io clock session_id file_path [] = none
  open_lines io clock session_id file_path (header_line k h ∷ lines) =
      some (finish_open io clock file_path h (entries_of lines) (header_line k h ∷ lines))
  open_lines io clock session_id file_path (entry_line k e ∷ lines) =
      let file = entry_line k e ∷ lines in
      if e.entry_type == entry_header
      then (elim (codec.header_of_entry e) [
        | none ↦ none
        | some h ↦ some (finish_open io clock file_path h (entries_of lines) file)
      ])
      else some (finish_open io clock file_path (old_header session_id) (e ∷ entries_of lines) file)
  open_lines io clock session_id file_path (junk k ∷ lines) =
      some
        (finish_open io clock file_path (old_header session_id) (entries_of lines) (junk k ∷ lines))

  -- A line that does not fit the buffer of the scanner is an error, too.
  unfoldable pub open_session : Bool → (ℕ → ℕ) → String → String → List FileLine → Option Saved
  open_session io clock session_id file_path file =
      let opened = open_lines io clock session_id file_path file in
      if lines_fit file then opened else none
