-- ===== src/Session/Manager.antt =====
-- session/session.go: the manager of one session, with its file. JSON is a codec, which stands for
-- encoding/json at the types of the payloads, and formats ids; a message is what the codec reads.
-- The file is the list of the lines that it parses to, each with its number of bytes. `io` says
-- whether json.Marshal and the operations on the file succeed; where one fails, the file is left as
-- it was. What is read from a line that json.Marshal wrote is what the codec says: json.Marshal makes
-- a payload compact and escapes some of its characters, so it need not be the same entry.
mod Tests
pub mod Climbing
pub mod Paths
pub mod Grown
pub mod Copied
pub mod Branched
pub mod Reading
pub mod Messages
pub mod Opening
pub mod Kept
pub mod Durable
pub mod Lost
use covonaut.Base.{
  ℕ, zero, suc, ◌+◌, String, List, [], ◌∷◌, ◌++◌, Bool, true, false, not, ◌||◌, Option, none, some,
  ◌==◌, eqb, if◌then◌else◌, length, map, contains, Map, lookup, insert, delete, get_or, member,
}
use covonaut.Session.{
  Entry, entry_message, entry_label, parent_map, entry_map, with_entry, reverse_entries,
}

abbrev pub current_version : ℕ
current_version = 4

pub record Header : Type 0 where
  pub version : ℕ
  pub session_id : String
  pub created : String
  pub cwd : String
  pub parent_session : String

pub record LabelData : Type 0 where
  pub target_id : String
  pub label : String

pub record CompactionData : Type 0 where
  pub summary : String
  pub first_kept_entry_id : String
  pub kept_count : ℕ

pub record BranchSummaryData : Type 0 where
  pub summary : String
  pub branch_id : String

pub record Codec (M : Type 0) : Type 0 where
  pub read_message : String → Option M
  pub is_assistant : M → Bool
  -- a message of the role "system", with its content and its type
  pub system_message : String → String → M
  pub read_compaction : String → Option CompactionData
  pub read_branch_summary : String → Option BranchSummaryData
  pub read_label : String → Option LabelData
  pub write_label : LabelData → String
  pub format_id : ℕ → ℕ → String
  -- a header line read as an entry, and the other way around
  pub entry_of_header : Header → Option Entry
  pub header_of_entry : Entry → Option Header
  -- the payloads that migrations rewrite
  pub without_index : String → String
  pub with_custom_role : String → String
  -- what json.Unmarshal reads from the line that json.Marshal writes, and the bytes of that line
  pub reread : Entry → Entry
  pub reread_header : Header → Header
  pub line_size : Entry → ℕ
  pub header_size : Header → ℕ

pub record Manager : Type 0 where
  pub header : Header
  pub entries : List Entry
  pub leaf_id : String
  pub file_path : String
  pub persist : Bool
  pub flushed : Bool
  pub labels_by_id : Map String
  pub index : Map Entry
  pub id_counter : ℕ

pub data FileLine : Type 0 where
  header_line : ℕ → Header → FileLine
  entry_line : ℕ → Entry → FileLine
  junk : ℕ → FileLine

-- What a method leaves: the manager, the file, and whether it returned an error.
pub record Saved : Type 0 where
  pub manager : Manager
  pub file : List FileLine
  pub failed : Bool

unfoldable pub new_manager : Header → String → Bool → Manager
new_manager header file_path persist = record {
  header = header;
  entries = [];
  leaf_id = "";
  file_path = file_path;
  persist = persist;
  flushed = false;
  labels_by_id = [];
  index = [];
  id_counter = 0;
}

abbrev pub new_entry : String → String → Entry
new_entry entry_type payload = record {
  id = "";
  parent_id = "";
  entry_type = entry_type;
  payload = payload;
  timestamp = 0;
  version = 0;
}

module _ {M : Type 0} (codec : Codec M) where
  -- The lines that json.Marshal writes.
  abbrev pub marshaled : Entry → FileLine
  marshaled e = entry_line (codec.line_size e) (codec.reread e)

  abbrev pub marshaled_header : Header → FileLine
  marshaled_header h = header_line (codec.header_size h) (codec.reread_header h)

  abbrev pub all_lines : Manager → List FileLine
  all_lines m = marshaled_header m.header ∷ map marshaled m.entries

  abbrev pub flush_all : Bool → Manager → List FileLine → Saved
  flush_all true m file = record {
    manager = record m { flushed = true };
    file = all_lines m;
    failed = false;
  }
  flush_all false m file = record { manager = m; file = file; failed = true }

  abbrev pub write_line : Bool → Entry → Manager → List FileLine → Saved
  write_line true e m file = record { manager = m; file = file ++ marshaled e ∷ []; failed = false }
  write_line false e m file = record { manager = m; file = file; failed = true }

  -- The tests of `persistEntry`: whether the session is kept in memory only, whether an assistant has
  -- spoken, and whether the file is up to date.
  abbrev pub persist_by : Bool → Bool → Bool → Bool → Entry → Manager → List FileLine → Saved
  persist_by in_memory spoken flushed io e m file =
      if in_memory
      then record { manager = m; file = file; failed = false }
      else if not spoken
      then record { manager = record m { flushed = false }; file = file; failed = false }
      else if not flushed
      then flush_all io m file
      else write_line io e m file

  abbrev pub is_assistant_message : Entry → Bool
  is_assistant_message e =
      if e.entry_type == entry_message
      then elim (codec.read_message e.payload) [ none ↦ false | some m ↦ codec.is_assistant m ]
      else false

  abbrev pub has_assistant : List Entry → Bool
  has_assistant [] = false
  has_assistant (e ∷ es) = is_assistant_message e || has_assistant es

  unfoldable pub persist_entry : Bool → Entry → Manager → List FileLine → Saved
  persist_entry io e m file =
      persist_by (not m.persist || m.file_path == "") (has_assistant m.entries) m.flushed io e m
        file

  -- What a label entry does to the labels.
  unfoldable pub apply_label : Entry → Map String → Map String
  apply_label e labels =
      if e.entry_type == entry_label
      then (elim (codec.read_label e.payload) [
        | none ↦ labels
        | some ld ↦
            if ld.label == ""
            then delete ld.target_id labels
            else insert ld.target_id ld.label labels
      ])
      else labels

  -- The entry that `Append` stores.
  abbrev pub complete : ℕ → ℕ → Entry → Manager → Entry
  complete id_time now e m = record e {
    id = if e.id == "" then codec.format_id id_time (suc m.id_counter) else e.id;
    parent_id = if e.parent_id == "" then m.leaf_id else e.parent_id;
    version = if eqb e.version 0 then current_version else e.version;
    timestamp = if eqb e.timestamp 0 then now else e.timestamp;
  }

  abbrev pub add_entry : Entry → ℕ → Manager → Manager
  add_entry e counter m = record m {
    entries = m.entries ++ e ∷ [];
    index = insert e.id e m.index;
    leaf_id = e.id;
    labels_by_id = apply_label e m.labels_by_id;
    id_counter = counter;
  }

  -- The clock is read for the id, and then for the timestamp.
  unfoldable pub append : Bool → ℕ → ℕ → Entry → Manager → List FileLine → Saved
  append io id_time now e m file =
      let counter = if e.id == "" then suc m.id_counter else m.id_counter in
      let stored = complete id_time now e m in
      persist_entry io stored (add_entry stored counter m) file

  unfoldable pub set_label : Bool → ℕ → ℕ → String → String → Manager → List FileLine → Saved
  set_label io id_time now target label m file =
      append io id_time now
        (new_entry entry_label (codec.write_label (record { target_id = target; label = label }))) m
        file

-- `none` if there is no such entry
unfoldable pub branch : String → Manager → Option Manager
branch id m = if member id m.index then some (record m { leaf_id = id }) else none

-- The loop of `pathToLeaf`, whose chain starts at `current`; `none` if the fuel is used up.
unfoldable pub climb_to_root :
    ℕ → Map String → Map Entry → List String → String → Option (List Entry)
climb_to_root zero parents entries visited current = none
climb_to_root (suc fuel) parents entries visited current =
    let rest = climb_to_root fuel parents entries (current ∷ visited) (get_or current "" parents) in
    if current == ""
    then some []
    else if contains visited current
    then some []
    else elim (lookup current entries) [ none ↦ rest | some e ↦ with_entry e rest ]

-- Each round but the last two visits another entry.
unfoldable pub path_to_leaf : List Entry → String → Option (List Entry)
path_to_leaf entries leaf =
    elim (climb_to_root (length entries + 2) (parent_map entries []) (entry_map entries []) []
      leaf) [ none ↦ none | some chain ↦ some (reverse_entries chain []) ]
