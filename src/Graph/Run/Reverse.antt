-- ===== src/Graph/Run/Reverse.antt =====
-- The reverse edges that `Compile` collects are the edges, reversed.
use covonaut.Base.{
  ◌+◌, ◌≤◌, String, List, [], ◌∷◌, ◌++◌, ◌≡◌, arith, eq_iff, count, count-append, if◌then◌else◌,
  ◌==◌, Map, keys, lookup, insert, get_or, lookup-insert, member_iff,
}
use covonaut.Graph.{successors}
use covonaut.Graph.Topo.{reverse_targets, reverse_edges}

count-reverse_targets :
    (from : String) (ts : List String) (rev : Map (List String)) (p v : String)
    → count p (get_or v [] (reverse_targets from ts rev))
      ≡ count p (get_or v [] rev) + (if from == p then count v ts else 0)
unfolding reverse_targets
count-reverse_targets from [] rev p v = ground arith
count-reverse_targets from (t ∷ ts) rev p v =
    let value = get_or t [] rev ++ from ∷ [] in
    ground (
      arith,
      count-reverse_targets from ts (insert t value rev) p v,
      lookup-insert t v value rev,
      count-append p (get_or t [] rev) (from ∷ []),
      eq_iff t v,
    )

count-reverse_edges :
    (es rev : Map (List String)) (p v : String)
    → ((k : String) → count k (keys es) ≤ 1)
    → count p (get_or v [] (reverse_edges es rev))
      ≡ count p (get_or v [] rev) + count v (successors es p)
unfolding reverse_edges lookup
count-reverse_edges [] rev p v d = ground arith
count-reverse_edges ((f, ts) ∷ es) rev p v d = ground (
  arith,
  count-reverse_edges es (reverse_targets f ts rev) p v (λ k. ground (arith, d k)),
  count-reverse_targets f ts rev p v,
  member_iff p es,
  d p,
)

-- A node has its predecessors in the reverse edges, each once for every edge.
pub count-predecessors :
    (es : Map (List String)) (p v : String)
    → ((k : String) → count k (keys es) ≤ 1)
    → count p (get_or v [] (reverse_edges es [])) ≡ count v (successors es p)
unfolding lookup
count-predecessors es p v d = omega (arith, count-reverse_edges es [] p v d)
