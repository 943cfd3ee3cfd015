-- ===== src/Graph/Topo/Degrees.antt =====
-- The in-degree counters, against the number of edges from the nodes that are left.
use covonaut.Base.{
  ℕ, suc, ◌+◌, ◌≤◌, String, List, [], ◌∷◌, some, ◌≡◌, refl, arith, eq_iff, count, Has, length,
  remove, count-remove, length-remove, if◌then◌else◌, Map, keys, lookup, insert, delete,
  lookup-insert, lookup-delete, keys-insert_present, keys-delete, ℤ, pos, dec, get_or,
}
use covonaut.Graph.{successors}
use covonaut.Graph.Topo.{decrement_all, place, place_all, ready, is_zero}

-- The edges into `v` from the nodes of the list.
abbrev pub in_edges : Map (List String) → List String → String → ℕ
in_edges edges [] v = 0
in_edges edges (u ∷ us) v = count v (successors edges u) + in_edges edges us v

remove_absent : (k : String) (xs : List String) → count k xs ≡ 0 → remove k xs ≡ xs
unfolding remove
remove_absent k [] h = refl
remove_absent k (x ∷ xs) h = ground (arith, remove_absent k xs)

in_edges-remove :
    (edges : Map (List String)) (n : String) (us : List String) (v : String)
    → count n us ≡ 1
    → in_edges edges us v ≡ count v (successors edges n) + in_edges edges (remove n us) v
unfolding remove
in_edges-remove edges n [] v h = absurd (omega arith)
in_edges-remove edges n (u ∷ us) v h =
    ground (arith, eq_iff u n, in_edges-remove edges n us v, remove_absent n us)

pub count-le-in_edges :
    (edges : Map (List String)) (u : String) (us : List String) (v : String)
    → Has u us
    → count v (successors edges u) ≤ in_edges edges us v
count-le-in_edges edges u [] v h = absurd (omega arith)
count-le-in_edges edges u (x ∷ us) v h = ground (arith, eq_iff x u, count-le-in_edges edges u us v)

-- Every node that is left has its counter, and the edges out of these nodes stay among them.
pub record Counts (edges : Map (List String)) (m : Map ℤ) : Type 0 where
  pub distinct : (k : String) → count k (keys m) ≤ 1
  pub degree : (v : String) → Has v (keys m) → lookup v m ≡ some (pos (in_edges edges (keys m) v))
  pub closed : (u v : String) → Has u (keys m) → Has v (successors edges u) → Has v (keys m)

decrement_all-lookup :
    (ts : List String) (m : Map ℤ) (f : String → ℕ)
    → ((v : String) → Has v ts → Has v (keys m))
    → ((v : String) → Has v (keys m) → lookup v m ≡ some (pos (count v ts + f v)))
    → (keys (decrement_all ts m) ≡ keys m)
      × ((v : String) → Has v (keys m) → lookup v (decrement_all ts m) ≡ some (pos (f v)))
unfolding decrement_all
decrement_all-lookup [] m f sub val = (refl, λ v h. ground (arith, val v h))
decrement_all-lookup (t ∷ ts) m f sub val =
    let has_t : Has t (keys m) = sub t (ground (arith, eq_iff t t)) in
    let here : lookup t m ≡ some (pos (suc (count t ts + f t))) =
      ground (arith, val t has_t, eq_iff t t) in
    let m' = insert t (dec (get_or t (pos 0) m)) m in
    let same : keys m' ≡ keys m = keys-insert_present t (dec (get_or t (pos 0) m)) m has_t in
    let rest =
      decrement_all-lookup ts m' f (λ v h. ground (arith, sub v, same))
        (λ v h.
          ground (
            arith,
            same,
            val v,
            here,
            eq_iff t v,
            lookup-insert t v (dec (get_or t (pos 0) m)) m,
          )) in
    (ground (arith, rest.0, same), λ v h. ground (arith, rest.1 v, same))

module _ (edges : Map (List String)) where
  -- Removing a node that no remaining edge enters.
  place-Counts :
      (n : String) (m : Map ℤ)
      → Counts edges m
      → Has n (keys m)
      → in_edges edges (keys m) n ≡ 0
      → (keys (place edges n m) ≡ remove n (keys m)) × Counts edges (place edges n m)
  unfolding place
  place-Counts n m c h z =
      let less = keys-delete n m in
      let cnt = λ (k : String). count-remove n k (keys m) in
      let split =
        λ (v : String). in_edges-remove edges n (keys m) v (omega (arith, c.distinct n)) in
      let not_n = λ (u v : String). count-le-in_edges edges u (keys m) n in
      let (same, val) =
        decrement_all-lookup (successors edges n) (delete n m)
          (λ v. in_edges edges (remove n (keys m)) v)
          (λ v p. ground (arith, less, cnt v, eq_iff n v, c.closed n v h p, not_n n v h))
          (λ v p.
            ground (arith, less, cnt v, eq_iff n v, c.degree v, split v, lookup-delete n v m)) in
      (
        ground (arith, same, less),
        record {
          distinct = λ k. ground (arith, same, less, cnt k, c.distinct k);
          degree = λ v p. ground (arith, same, less, val v);
          closed = λ u v p q.
              ground (arith, same, less, cnt u, cnt v, eq_iff n v, c.closed u v, not_n u v);
        },
      )

  pub place_all-Counts :
      (ns : List String) (m : Map ℤ)
      → Counts edges m
      → ((k : String) → count k ns ≤ 1)
      → ((k : String) → Has k ns → Has k (keys m) × (in_edges edges (keys m) k ≡ 0))
      → Counts edges (place_all edges ns m)
        × ((k : String) → count k (keys (place_all edges ns m)) + count k ns ≡ count k (keys m))
        × (length (keys (place_all edges ns m)) + length ns ≡ length (keys m))
  unfolding place_all
  place_all-Counts [] m c d h = (c, λ k. omega arith, omega arith)
  place_all-Counts (n ∷ ns) m c d h =
      let n_in = h n (ground (arith, eq_iff n n)) in
      let (less, c') = place-Counts n m c n_in.0 n_in.1 in
      let one : count n (keys m) ≡ 1 = omega (arith, c.distinct n, n_in.0) in
      let cnt = λ (k : String). count-remove n k (keys m) in
      let (c'', sum, size) =
        place_all-Counts ns (place edges n m) c' (λ k. ground (arith, d k))
          (λ k p.
            ground
              (arith, h k, less, cnt k, eq_iff n k, d k, in_edges-remove edges n (keys m) k one)) in
      (
        c'',
        λ k. ground (arith, sum k, less, cnt k, eq_iff n k, one, d n),
        ground (arith, size, less, length-remove n (keys m), one),
      )

-- The nodes whose counter stands at zero.
pub count-ready :
    (m : Map ℤ) (ks : List String) (k : String)
    → count k (ready m ks) ≡ (if is_zero (get_or k (pos 0) m) then count k ks else 0)
unfolding ready
count-ready m [] k = ground arith
count-ready m (x ∷ ks) k = ground (arith, count-ready m ks k, eq_iff x k)
