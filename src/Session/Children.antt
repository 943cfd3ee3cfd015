-- ===== src/Session/Children.antt =====
-- session/tree.go, `BranchPoints`, `Leaves` and `Stats`: what the maps of children hold.
use covonaut.Base.{
  ℕ, suc, ◌+◌, String, List, [], ◌∷◌, Bool, true, false, ◌||◌, ◌≡◌, refl, ◌==◌, ap, arith, eq_iff,
  ltb, eqb, if◌then◌else◌, length, Map, lookup, insert, get_or, lookup-insert, Bool-cases, inl, inr,
}
use covonaut.Session.{
  Entry, count_children, mark_parents, points_in, branch_points, leaves_in, leaves, count_leaves,
  stats,
}

-- The number of entries that name `id`, which is not empty, as their parent.
unfoldable pub children : String → List Entry → ℕ
children id [] = 0
children id (e ∷ es) =
    let rest = children id es in
    if e.parent_id == "" then rest else if e.parent_id == id then suc rest else rest

count_children-children :
    (es : List Entry) (m : Map ℕ) (id : String)
    → get_or id 0 (count_children es m) ≡ get_or id 0 m + children id es
unfolding count_children children
count_children-children [] m id = omega arith
count_children-children (e ∷ es) m id = elim (Bool-cases (e.parent_id == "")) [
  | inl root ↦ rw root (count_children-children es m id)
  | inr child ↦ rw child (
      ground (
        arith,
        child,
        count_children-children es (insert e.parent_id (suc (get_or e.parent_id 0 m)) m) id,
        lookup-insert e.parent_id id (suc (get_or e.parent_id 0 m)) m,
        eq_iff e.parent_id id,
      ))
]

mark_parents-children :
    (es : List Entry) (m : Map Bool) (id : String)
    → get_or id false (mark_parents es m) ≡ (get_or id false m || ltb 0 (children id es))
unfolding mark_parents children
mark_parents-children [] m id = ground arith
mark_parents-children (e ∷ es) m id = elim (Bool-cases (e.parent_id == "")) [
  | inl root ↦ rw root (mark_parents-children es m id)
  | inr child ↦ rw child (
      ground (
        arith,
        child,
        mark_parents-children es (insert e.parent_id true m) id,
        lookup-insert e.parent_id id true m,
        eq_iff e.parent_id id,
      ))
]

-- The entries that as many entries name as their parent as the test asks.
unfoldable pub by_children : (ℕ → Bool) → List Entry → List Entry → List Entry
by_children test entries [] = []
by_children test entries (e ∷ es) =
    let rest = by_children test entries es in
    if test (children e.id entries) then e ∷ rest else rest

points_in-by_children :
    (m : Map ℕ) (all es : List Entry)
    → ((id : String) → get_or id 0 m ≡ children id all)
    → points_in m es ≡ by_children (ltb 1) all es
unfolding points_in by_children
points_in-by_children m all [] h = refl
points_in-by_children m all (e ∷ es) h =
    rw (h e.id)
      (ap (λ r. if ltb 1 (children e.id all) then e ∷ r else r) (points_in-by_children m all es h))

leaves_in-by_children :
    (m : Map Bool) (all es : List Entry)
    → ((id : String) → get_or id false m ≡ ltb 0 (children id all))
    → leaves_in m es ≡ by_children (λ n. eqb n 0) all es
unfolding leaves_in by_children
leaves_in-by_children m all [] h = refl
leaves_in-by_children m all (e ∷ es) h = ground (arith, h e.id, leaves_in-by_children m all es h)

count_leaves-length : (m : Map Bool) (es : List Entry) → count_leaves m es ≡ length (leaves_in m es)
unfolding count_leaves leaves_in
count_leaves-length m [] = refl
count_leaves-length m (e ∷ es) = ground (arith, count_leaves-length m es)

-- The branch points are the entries that several entries name as their parent, the leaves those that
-- none does, both in the order of the session, and the statistics count these leaves.
pub branch_points-by_children :
    (entries : List Entry)
    → (branch_points entries ≡ by_children (ltb 1) entries entries)
      × (leaves entries ≡ by_children (λ n. eqb n 0) entries entries)
      × ((stats entries).leaf_count ≡ length (leaves entries))
unfolding branch_points leaves stats lookup
branch_points-by_children entries = (
  points_in-by_children _ entries entries
      (λ id. omega (arith, count_children-children entries [] id)),
  leaves_in-by_children _ entries entries (λ id. mark_parents-children entries [] id),
  count_leaves-length _ entries,
)
