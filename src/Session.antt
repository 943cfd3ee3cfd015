-- ===== src/Session.antt =====
-- session/tree.go and the entries of session/session.go: what is read off the entries of a session, each of which names its parent. A
-- moment is a number, and 0 is the zero time. `BuildTree` is not modelled.
pub mod Children
pub mod Path
pub mod Manager
mod Tests
use covonaut.Base.{
  ℕ, zero, suc, ◌+◌, String, List, [], ◌∷◌, ◌++◌, Bool, true, false, not, Option, none, some, ◌==◌,
  ltb, eqb, if◌then◌else◌, length, Map, lookup, insert, get_or,
}

abbrev pub entry_message : String
entry_message = "message"

abbrev pub entry_branch_summary : String
entry_branch_summary = "branch_summary"

abbrev pub entry_label : String
entry_label = "label"

abbrev pub entry_compaction : String
entry_compaction = "compaction"

pub record Entry : Type 0 where
  pub id : String
  pub parent_id : String
  pub entry_type : String
  pub payload : String
  pub timestamp : ℕ
  pub version : ℕ

-- `childCount[e.ParentID]++` for the entries with a parent.
unfoldable pub count_children : List Entry → Map ℕ → Map ℕ
count_children [] m = m
count_children (e ∷ es) m =
    count_children es
      (if e.parent_id == "" then m else insert e.parent_id (suc (get_or e.parent_id 0 m)) m)

-- `hasChild[e.ParentID] = true` for the entries with a parent.
unfoldable pub mark_parents : List Entry → Map Bool → Map Bool
mark_parents [] m = m
mark_parents (e ∷ es) m =
    mark_parents es (if e.parent_id == "" then m else insert e.parent_id true m)

unfoldable pub points_in : Map ℕ → List Entry → List Entry
points_in m [] = []
points_in m (e ∷ es) =
    let rest = points_in m es in if ltb 1 (get_or e.id 0 m) then e ∷ rest else rest

unfoldable pub branch_points : List Entry → List Entry
branch_points entries = points_in (count_children entries []) entries

unfoldable pub leaves_in : Map Bool → List Entry → List Entry
leaves_in m [] = []
leaves_in m (e ∷ es) = let rest = leaves_in m es in if get_or e.id false m then rest else e ∷ rest

unfoldable pub leaves : List Entry → List Entry
leaves entries = leaves_in (mark_parents entries []) entries

unfoldable pub parent_map : List Entry → Map String → Map String
parent_map [] m = m
parent_map (e ∷ es) m = parent_map es (insert e.id e.parent_id m)

unfoldable pub entry_map : List Entry → Map Entry → Map Entry
entry_map [] m = m
entry_map (e ∷ es) m = entry_map es (insert e.id e m)

abbrev pub with_entry : Entry → Option (List Entry) → Option (List Entry)
with_entry e none = none
with_entry e (some chain) = some (e ∷ chain)

-- The loop `for current != ""`, whose chain starts at `current`; `none` if the fuel is used up.
unfoldable pub climb : ℕ → Map String → Map Entry → String → Option (List Entry)
climb zero parents entries current = none
climb (suc fuel) parents entries current =
    let rest = climb fuel parents entries (get_or current "" parents) in
    if current == ""
    then some []
    else elim (lookup current entries) [ none ↦ some [] | some e ↦ with_entry e rest ]

unfoldable pub reverse_entries : List Entry → List Entry → List Entry
reverse_entries [] done = done
reverse_entries (e ∷ es) done = reverse_entries es (e ∷ done)

unfoldable pub path_to : ℕ → List Entry → String → Option (List Entry)
path_to fuel entries entry_id =
    elim (climb fuel (parent_map entries []) (entry_map entries []) entry_id) [
      | none ↦ none
      | some chain ↦ some (reverse_entries chain [])
    ]

pub record TreeStats : Type 0 where
  pub total_entries : ℕ
  pub message_count : ℕ
  pub branch_count : ℕ
  pub leaf_count : ℕ
  pub max_depth : ℕ
  pub first_entry : ℕ
  pub last_entry : ℕ
  pub compaction_count : ℕ

-- The first loop of `Stats`.
unfoldable pub scan_entries : List Entry → TreeStats → TreeStats
scan_entries [] s = s
scan_entries (e ∷ es) s = scan_entries es (record s {
  message_count = if e.entry_type == entry_message then suc s.message_count else s.message_count;
  compaction_count =
      if e.entry_type == entry_compaction then suc s.compaction_count else s.compaction_count;
  first_entry =
      if eqb s.first_entry 0
      then e.timestamp
      else if ltb e.timestamp s.first_entry
      then e.timestamp
      else s.first_entry;
  last_entry = if ltb s.last_entry e.timestamp then e.timestamp else s.last_entry;
})

-- The second loop: depths by the parents so far, and the greatest.
unfoldable pub scan_depths : List Entry → Map ℕ → ℕ → ℕ
scan_depths [] depths deepest = deepest
scan_depths (e ∷ es) depths deepest =
    let depth = if e.parent_id == "" then 0 else suc (get_or e.parent_id 0 depths) in
    scan_depths es (insert e.id depth depths) (if ltb deepest depth then depth else deepest)

unfoldable pub count_branches : Map ℕ → ℕ
count_branches [] = 0
count_branches ((id, n) ∷ m) = let rest = count_branches m in if ltb 1 n then suc rest else rest

unfoldable pub count_leaves : Map Bool → List Entry → ℕ
count_leaves m [] = 0
count_leaves m (e ∷ es) =
    let rest = count_leaves m es in if get_or e.id false m then rest else suc rest

unfoldable pub stats : List Entry → TreeStats
stats entries =
    record (scan_entries entries (record {
      total_entries = length entries;
      message_count = 0;
      branch_count = 0;
      leaf_count = 0;
      max_depth = 0;
      first_entry = 0;
      last_entry = 0;
      compaction_count = 0;
    })) {
      branch_count = count_branches (count_children entries []);
      leaf_count = count_leaves (mark_parents entries []) entries;
      max_depth = scan_depths entries [] 0;
    }
