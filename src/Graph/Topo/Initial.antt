-- ===== src/Graph/Topo/Initial.antt =====
-- The counters that `Compile` starts from.
use covonaut.Base.{
  ℕ, ◌+◌, ◌≤◌, String, List, [], ◌∷◌, some, ◌≡◌, refl, arith, eq_iff, count, Has, if◌then◌else◌,
  ◌==◌, Map, keys, lookup, insert, lookup-insert, member_iff, keys-insert_present, ℤ, pos, inc,
  get_or,
}
use covonaut.Graph.{Graph, successors}
use covonaut.Graph.WellFormed.{IsWf, names}
use covonaut.Graph.Topo.{increment_all, in_degrees, zero_degrees, degrees_of}
use covonaut.Graph.Topo.Degrees.{in_edges, Counts}

increment_all-lookup :
    (ts : List String) (m : Map ℤ) (f : String → ℕ)
    → ((v : String) → Has v ts → Has v (keys m))
    → ((v : String) → Has v (keys m) → lookup v m ≡ some (pos (f v)))
    → (keys (increment_all ts m) ≡ keys m)
      × ((v : String)
          → Has v (keys m)
          → lookup v (increment_all ts m) ≡ some (pos (count v ts + f v)))
unfolding increment_all
increment_all-lookup [] m f sub val = (refl, λ v h. ground (arith, val v h))
increment_all-lookup (t ∷ ts) m f sub val =
    let has_t : Has t (keys m) = sub t (ground (arith, eq_iff t t)) in
    let here = val t has_t in
    let m' = insert t (inc (get_or t (pos 0) m)) m in
    let same : keys m' ≡ keys m = keys-insert_present t (inc (get_or t (pos 0) m)) m has_t in
    let rest =
      increment_all-lookup ts m' (λ v. (if t == v then 1 else 0) + f v)
        (λ v h. ground (arith, sub v, same))
        (λ v h.
          ground (
            arith,
            same,
            val v,
            here,
            eq_iff t v,
            lookup-insert t v (inc (get_or t (pos 0) m)) m,
          )) in
    (ground (arith, rest.0, same), λ v h. ground (arith, rest.1 v, same))

-- The edges into `v`.
abbrev total : Map (List String) → String → ℕ
total [] v = 0
total ((from, tos) ∷ es) v = count v tos + total es v

abbrev IsClosed : Map (List String) → (String → Type 0) → Type 0
IsClosed edges P = (u v : String) → Has v (successors edges u) → P v

no_successors : (es : Map (List String)) (u : String) → count u (keys es) ≡ 0 → successors es u ≡ []
no_successors es u h = ground (arith, member_iff u es)

closed_tail :
    (f : String) (ts : List String) (es : Map (List String)) (P : String → Type 0)
    → count f (keys es) ≡ 0
    → IsClosed ((f, ts) ∷ es) P
    → IsClosed es P
unfolding lookup
closed_tail f ts es P h c u v p = c u v (ground (arith, eq_iff f u, no_successors es f h))

in_degrees-lookup :
    (es : Map (List String)) (m : Map ℤ) (f : String → ℕ)
    → ((k : String) → count k (keys es) ≤ 1)
    → IsClosed es (λ v. Has v (keys m))
    → ((v : String) → Has v (keys m) → lookup v m ≡ some (pos (f v)))
    → (keys (in_degrees es m) ≡ keys m)
      × ((v : String) → Has v (keys m) → lookup v (in_degrees es m) ≡ some (pos (total es v + f v)))
unfolding in_degrees lookup
in_degrees-lookup [] m f d c val = (refl, λ v h. ground (arith, val v h))
in_degrees-lookup ((from, tos) ∷ es) m f d c val =
    let fresh : count from (keys es) ≡ 0 = ground (arith, d from, eq_iff from from) in
    let (same, here) =
      increment_all-lookup tos m f (λ v p. c from v (ground (arith, eq_iff from from))) val in
    let (same', there) =
      in_degrees-lookup es (increment_all tos m) (λ v. count v tos + f v) (λ k. ground (arith, d k))
        (λ u v p. ground (arith, closed_tail from tos es (λ w. Has w (keys m)) fresh c u v p, same))
        (λ v p. ground (arith, here v, same)) in
    (ground (arith, same, same'), λ v p. ground (arith, there v, same))

-- Counted by source or by node, the edges are as many.
in_edges-absent :
    (f : String) (ts : List String) (es : Map (List String)) (us : List String) (v : String)
    → count f us ≡ 0
    → in_edges ((f, ts) ∷ es) us v ≡ in_edges es us v
unfolding lookup
in_edges-absent f ts es [] v h = refl
in_edges-absent f ts es (u ∷ us) v h =
    ground (arith, eq_iff u f, eq_iff f u, in_edges-absent f ts es us v)

in_edges-cons :
    (f : String) (ts : List String) (es : Map (List String)) (us : List String) (v : String)
    → count f us ≡ 1
    → count f (keys es) ≡ 0
    → in_edges ((f, ts) ∷ es) us v ≡ count v ts + in_edges es us v
unfolding lookup
in_edges-cons f ts es [] v h z = absurd (omega arith)
in_edges-cons f ts es (u ∷ us) v h z = ground (
  arith,
  eq_iff u f,
  eq_iff f u,
  in_edges-absent f ts es us v,
  no_successors es f z,
  in_edges-cons f ts es us v,
)

in_edges-nil : (us : List String) (v : String) → in_edges [] us v ≡ 0
unfolding lookup
in_edges-nil [] v = refl
in_edges-nil (u ∷ us) v = omega (arith, in_edges-nil us v)

total-eq-in_edges :
    (es : Map (List String)) (us : List String) (v : String)
    → ((k : String) → count k (keys es) ≤ 1)
    → ((k : String) → Has k (keys es) → count k us ≡ 1)
    → total es v ≡ in_edges es us v
total-eq-in_edges [] us v d s = ground (arith, in_edges-nil us v)
total-eq-in_edges ((f, ts) ∷ es) us v d s =
    let fresh : count f (keys es) ≡ 0 = ground (arith, d f, eq_iff f f) in
    ground (
      arith,
      in_edges-cons f ts es us v (s f (ground (arith, eq_iff f f))) fresh,
      total-eq-in_edges es us v (λ k. ground (arith, d k)) (λ k p. s k (ground arith)),
    )

keys-zero_degrees : (ks : List String) → keys (zero_degrees ks) ≡ ks
unfolding zero_degrees
keys-zero_degrees [] = refl
keys-zero_degrees (k ∷ ks) = ground (arith, keys-zero_degrees ks)

lookup-zero_degrees :
    (ks : List String) (v : String) → Has v ks → lookup v (zero_degrees ks) ≡ some (pos 0)
unfolding zero_degrees lookup
lookup-zero_degrees [] v h = absurd (omega arith)
lookup-zero_degrees (k ∷ ks) v h = ground (arith, lookup-zero_degrees ks v)

-- `Compile` counts the in-degrees right.
pub degrees_of-Counts :
    (g : Graph) → IsWf g → (keys (degrees_of g) ≡ names g) × Counts g.edges (degrees_of g)
unfolding degrees_of
degrees_of-Counts g w =
    let zeros = keys-zero_degrees (names g) in
    let (same, val) =
      in_degrees-lookup g.edges (zero_degrees (names g)) (λ v. 0) w.edges_distinct
        (λ u v p. ground (arith, zeros, w.targets u v p))
        (λ v p. lookup-zero_degrees (names g) v (ground (arith, zeros))) in
    let sum = λ (v : String).
      total-eq-in_edges g.edges (names g) v w.edges_distinct
        (λ k p. omega (arith, w.distinct k, w.sources k p)) in
    (
      ground (arith, same, zeros),
      record {
        distinct = λ k. ground (arith, same, zeros, w.distinct k);
        degree = λ v p. ground (arith, same, zeros, val v, sum v);
        closed = λ u v p q. ground (arith, same, zeros, w.targets u v q);
      },
    )
