-- ===== src/Session/Tests.antt =====
-- A small session, and the theorems at it.
use covonaut.Base.{
  suc, ◌+◌, List, [], ◌∷◌, ◌≡◌, refl, some, none, length, ltb, eqb, lookup, insert, inl, inr, arith,
}
use covonaut.Session.{
  Entry, entry_message, entry_compaction, count_children, mark_parents, points_in, branch_points,
  leaves_in, leaves, parent_map, entry_map, climb, reverse_entries, path_to, scan_entries,
  scan_depths, count_branches, count_leaves, stats,
}
use covonaut.Session.Children.{by_children, branch_points-by_children}
use covonaut.Session.Path.{IsLog, Climbs, path_to-Climbs}

session_program : Unit {0}
unfolding lookup insert count_children mark_parents points_in branch_points leaves_in leaves
    parent_map entry_map climb reverse_entries path_to scan_entries scan_depths count_branches
    count_leaves stats
session_program = tt

abbrev root_entry : Entry
root_entry = record {
  id = "a";
  parent_id = "";
  entry_type = entry_message;
  payload = "";
  timestamp = 3;
  version = 4;
}

abbrev first_child : Entry
first_child = record {
  id = "b";
  parent_id = "a";
  entry_type = entry_message;
  payload = "";
  timestamp = 5;
  version = 4;
}

abbrev second_child : Entry
second_child = record {
  id = "c";
  parent_id = "a";
  entry_type = entry_compaction;
  payload = "";
  timestamp = 4;
  version = 4;
}

abbrev session : List Entry
session = root_entry ∷ first_child ∷ second_child ∷ []

stats-session : stats session ≡ record {
  total_entries = 3;
  message_count = 2;
  branch_count = 1;
  leaf_count = 2;
  max_depth = 1;
  first_entry = 3;
  last_entry = 5;
  compaction_count = 1;
}
unfolding session_program
stats-session = refl

path_to-session : path_to 4 session "c" ≡ some (root_entry ∷ second_child ∷ [])
unfolding session_program
path_to-session = refl

-- An entry that is its own parent has no path within any of these numbers of rounds.
path_to-loop : path_to 20 (record root_entry { parent_id = "a" } ∷ []) "a" ≡ none
unfolding session_program
path_to-loop = refl

session-IsLog : IsLog [] session
session-IsLog = (refl, inl refl, (refl, inr (omega arith), (refl, inr (omega arith), tt)))

branch_points-by_children_example :
    (branch_points session ≡ by_children (ltb 1) session session)
    × (leaves session ≡ by_children (λ n. eqb n 0) session session)
    × ((stats session).leaf_count ≡ length (leaves session))
branch_points-by_children_example = branch_points-by_children session

path_to-Climbs_example :
    (chain : List Entry) × (path_to (suc (length session) + 2) session "c"
      ≡ some (reverse_entries chain []))
    × Climbs (entry_map session []) "c" chain
path_to-Climbs_example = path_to-Climbs session "c" 2 session-IsLog
