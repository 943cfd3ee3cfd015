-- ===== src/Session/Manager/Tests.antt =====
-- session/session.go: a small session, and the theorems at it.
use covonaut.Base.{
  suc, ◌+◌, String, List, [], ◌∷◌, ◌++◌, true, false, none, some, ◌==◌, if◌then◌else◌, eqb, ◌≡◌,
  refl, arith, inl, inr, contains, lookup, insert, length, map, Map,
}
use covonaut.Session.{
  Entry, entry_message, entry_label, entry_compaction, parent_map, entry_map, reverse_entries,
  path_to, climb,
}
use covonaut.Session.Path.{IsLog}
use covonaut.Session.Manager.{
  Codec, Header, Manager, FileLine, header_line, entry_line, marshaled, marshaled_header, Saved,
  new_manager, new_entry, append, complete, persist_entry, apply_label, climb_to_root, path_to_leaf,
  has_assistant, branch,
}
use covonaut.Session.Manager.Climbing.{path_to_leaf_total}
use covonaut.Session.Manager.Paths.{path_to_leaf-path_to}
use covonaut.Session.Manager.Grown.{path_to_leaf-append}
use covonaut.Session.Manager.Reading.{copy_path, copy_entries, messages_on_path}
use covonaut.Session.Manager.Opening.{open_session, open_lines, lines_fit, index_of, labels_of}
use covonaut.Session.Manager.Kept.{Kept, Reaches, created, appended}
use covonaut.Session.Manager.Durable.{open_session-Reaches, map_values}
use covonaut.Session.Manager.Lost.{append-failed}
use covonaut.Session.Manager.Copied.{kept, final_id, copy_entries-label}
use covonaut.Session.Manager.Branched.{IsLabelling, copy_path-kept}
use covonaut.Session.Manager.Messages.{messages_on_path-compaction}

-- A payload is the message itself, and an assistant says "yes". A label names the entry "a".
abbrev codec : Codec String
codec = record {
  read_message = λ s. some s;
  is_assistant = λ s. s == "yes";
  system_message = λ content kind. content;
  read_compaction = λ s. some (record { summary = s; first_kept_entry_id = "b"; kept_count = 1 });
  read_branch_summary = λ s. none;
  read_label = λ s. some (record { target_id = "a"; label = s });
  write_label = λ ld. ld.label;
  format_id = λ now n. if eqb n 1 then "n1" else "n2";
  entry_of_header = λ h. none;
  header_of_entry = λ e. none;
  without_index = λ s. s;
  with_custom_role = λ s. s;
  reread = λ e. record e { payload = if e.payload == "why " then "why" else e.payload };
  reread_header = λ h. h;
  line_size = λ e. 100;
  header_size = λ h. 50;
}

abbrev entry : String → String → String → String → Entry
entry id parent_id kind payload = record {
  id = id;
  parent_id = parent_id;
  entry_type = kind;
  payload = payload;
  timestamp = 5;
  version = 4;
}

abbrev header : Header
header = record { version = 4; session_id = "s"; created = ""; cwd = ""; parent_session = "" }

abbrev empty : Manager
empty = record {
  header = header;
  entries = [];
  leaf_id = "";
  file_path = "s.jsonl";
  persist = true;
  flushed = true;
  labels_by_id = [];
  index = [];
  id_counter = 0;
}

abbrev question : Entry
question = entry "a" "" entry_message "why "

abbrev answer : Entry
answer = entry "b" "a" entry_message "yes"

abbrev asked : Manager
asked = record empty {
  entries = question ∷ answer ∷ [];
  leaf_id = "b";
  index = ("a", question) ∷ ("b", answer) ∷ [];
}

abbrev lines : List FileLine
lines =
    header_line 50 header
    ∷ entry_line 100 (entry "a" "" entry_message "why")
    ∷ entry_line 100 answer
    ∷ []

session_manager_program : Unit {0}
unfolding lookup insert contains parent_map entry_map reverse_entries climb path_to new_manager
    append persist_entry apply_label climb_to_root path_to_leaf branch copy_entries open_session
    open_lines lines_fit index_of labels_of messages_on_path
session_manager_program = tt

-- The file is written when the assistant answers.
append-asked :
    append codec true 1 2 answer
      (append codec true 1 2 question empty (header_line 50 header ∷ [])).manager
      (append codec true 1 2 question empty (header_line 50 header ∷ [])).file
    ≡ record { manager = asked; file = lines; failed = false }
unfolding session_manager_program
append-asked = refl

-- A cycle of two entries.
path_to_leaf_total_example :
    (path : List Entry) × (path_to_leaf
        (entry "a" "b" entry_message "" ∷ entry "b" "a" entry_message "" ∷ [])
        "a"
      ≡ some path)
path_to_leaf_total_example =
    path_to_leaf_total (entry "a" "b" entry_message "" ∷ entry "b" "a" entry_message "" ∷ []) "a"

asked-IsLog : IsLog [] asked.entries
asked-IsLog = (refl, inl refl, (refl, inr (omega arith), tt))

path_to_leaf-path_to_example :
    path_to_leaf asked.entries "b" ≡ path_to (suc (length asked.entries) + 1) asked.entries "b"
path_to_leaf-path_to_example = path_to_leaf-path_to asked.entries "b" 1 asked-IsLog

asked-Kept : Kept codec asked lines
unfolding session_manager_program
asked-Kept = record {
  synced = λ h. refl;
  spoken = λ h. refl;
  labelled = refl;
  pointed = refl;
  persisting = refl;
}

abbrev thanks : Entry
thanks = new_entry entry_message "thanks"

abbrev bye : Entry
bye = new_entry entry_message "bye"

abbrev more : Saved
more = append codec true 1 2 thanks asked lines

path_to_leaf-append_example :
    (path : List Entry) × (path_to_leaf asked.entries "b" ≡ some path)
    × (path_to_leaf more.manager.entries more.manager.leaf_id
        ≡ some (path ++ complete codec 1 2 thanks asked ∷ []))
path_to_leaf-append_example =
    path_to_leaf-append codec true 1 2 thanks asked lines more asked-IsLog (inr (omega arith)) refl
      (λ e. cc) refl refl

abbrev lost : Saved
lost = append codec false 1 2 thanks asked lines

abbrev later : Saved
later = append codec true 3 4 bye lost.manager lost.file

append-failed_example :
    (lost.failed ≡ true)
    × (later.failed ≡ false)
    × ((g h : Entry) × (later.manager.entries ≡ asked.entries ++ g ∷ h ∷ [])
        × (later.file
            ≡ marshaled_header codec header ∷ map (marshaled codec) (asked.entries ++ h ∷ [])))
append-failed_example =
    append-failed codec asked lines 1 2 3 4 thanks bye lost later refl asked-Kept refl refl refl

abbrev start : Manager
start = record (new_manager header "s.jsonl" true) { flushed = true }

abbrev reached : Saved
reached =
    append codec true 1 2 answer
      (append codec true 1 2 question start (header_line 50 header ∷ [])).manager
      (append codec true 1 2 question start (header_line 50 header ∷ [])).file

reached-Reaches : Reaches codec header "s.jsonl" reached.manager reached.file
reached-Reaches = appended 1 2 answer (appended 1 2 question created)

reached_spoke : has_assistant codec reached.manager.entries ≡ true
unfolding session_manager_program
reached_spoke = refl

-- The space that json.Marshal takes out of the first payload is not read back.
open_session-Reaches_example :
    (s : Saved) × (open_session codec true (λ n. n) "s" "s.jsonl" reached.file ≡ some s)
    × (s.failed ≡ false)
    × (s.manager.header ≡ reached.manager.header)
    × (s.manager.entries ≡ entry "a" "" entry_message "why" ∷ answer ∷ [])
    × (s.manager.labels_by_id ≡ reached.manager.labels_by_id)
    × (s.manager.index ≡ map_values codec.reread reached.manager.index)
    × (s.manager.leaf_id ≡ "b")
unfolding append persist_entry new_manager
open_session-Reaches_example =
    open_session-Reaches codec header "s.jsonl" true (λ n. n) "s" refl reached-Reaches reached_spoke
      refl (omega arith)
      (
        record { fits = omega arith; same_id = refl; same_type = refl; same_label = λ l. cc },
        (record { fits = omega arith; same_id = refl; same_type = refl; same_label = λ l. cc }, tt),
      )

-- A line of ten mebibytes does not fit.
open_session-long :
    open_session codec true
      (λ n. n)
      "s"
      "s.jsonl"
      (header_line 50 header ∷ entry_line 10485760 answer ∷ [])
    ≡ none
unfolding session_manager_program
open_session-long = refl

-- A question, its label, and the answer after it.
abbrev labelled : List Entry
labelled = question ∷ entry "l" "a" entry_label "first" ∷ entry "b" "l" entry_message "yes" ∷ []

abbrev labels : Map String
labels = ("a", "first") ∷ ("b", "last") ∷ []

copy_path-kept_example :
    (ls : List Entry) × ((copy_path codec true
        (λ n. n)
        (λ n. n)
        labels
        labelled
        empty
        lines).manager.entries
      ≡ kept labelled ++ ls)
    × ((copy_path codec true (λ n. n) (λ n. n) labels labelled empty lines).manager.leaf_id
        ≡ final_id "" (kept labelled ++ ls))
    × IsLabelling codec labels labelled ls
copy_path-kept_example =
    copy_path-kept codec labelled (λ n. n) (λ n. n) labels empty lines refl refl
      (
        refl,
        (λ e. cc),
        omega arith,
        (refl, (λ e. cc), omega arith, (refl, (λ e. cc), omega arith, tt)),
      )

abbrev copy : Saved
copy = copy_entries codec true (λ n. n) labelled empty lines

copy_entries-label_example :
    (copy.manager.entries ≡ question ∷ entry "b" "l" entry_message "yes" ∷ [])
    × (path_to_leaf copy.manager.entries copy.manager.leaf_id
        ≡ some (entry "b" "l" entry_message "yes" ∷ []))
copy_entries-label_example =
    copy_entries-label codec (question ∷ []) (entry "l" "a" entry_label "first")
      (entry "b" "l" entry_message "yes") (λ n. n) empty lines copy refl refl
      (
        refl,
        (λ e. cc),
        omega arith,
        (refl, (λ e. cc), omega arith, (refl, (λ e. cc), omega arith, tt)),
      )
      refl refl refl refl

-- The compaction keeps the messages from "b" on.
abbrev summary : Entry
summary = entry "c" "b" entry_compaction "summary"

messages_on_path-compaction_example :
    messages_on_path codec (question ∷ answer ∷ summary ∷ entry "d" "c" entry_message "so" ∷ [])
    ≡ "summary" ∷ "yes" ∷ "so" ∷ []
messages_on_path-compaction_example =
    messages_on_path-compaction codec (question ∷ answer ∷ [])
      (entry "d" "c" entry_message "so" ∷ []) summary
      (record { summary = "summary"; first_kept_entry_id = "b"; kept_count = 1 }) refl refl
      (refl, tt)
