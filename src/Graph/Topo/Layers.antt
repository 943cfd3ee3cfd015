-- ===== src/Graph/Topo/Layers.antt =====
-- The rounds of `topoSort`: what they return, and that they end.
use covonaut.Base.{
  ℕ, zero, suc, ◌+◌, ◌-◌, ◌≤◌, ◌<◌, String, List, [], ◌∷◌, ◌++◌, true, false, ◌≡◌, refl, ap, sym,
  subst, ◌⊎◌, inl, inr, arith, eq_iff, count, Has, length, concat, count-append, eqb, Map, keys, ℤ,
  Bool-cases, List-cases,
}
use covonaut.Graph.{Graph, successors, is_empty}
use covonaut.Graph.WellFormed.{IsWf, names}
use covonaut.Graph.Topo.{
  MapOrder, ready, place_all, Sorting, sorted, cyclic, out_of_fuel, with_layer, topo_rounds,
  topo_sort, degrees_of,
}
use covonaut.Graph.Topo.Degrees.{in_edges, count-le-in_edges, Counts, place_all-Counts, count-ready}
use covonaut.Graph.Topo.Initial.{degrees_of-Counts}

in_edges-pos :
    (edges : Map (List String)) (us : List String) (v : String)
    → 0 < in_edges edges us v
    → (u : String) × Has u us × Has v (successors edges u)
in_edges-pos edges [] v h = absurd (omega arith)
in_edges-pos edges (u ∷ us) v h = elim (count-cases (count v (successors edges u))) [
  | inl z ↦ let (w, p, q) = in_edges-pos edges us v (omega arith) in (w, omega arith, q)
  | inr p ↦ (u, ground (arith, eq_iff u u), p)
]
  where
    count-cases : (n : ℕ) → (n ≡ 0) ⊎ (0 < n)
    count-cases zero = inl refl
    count-cases (suc n) = inr (omega arith)

zero_eqb : (n : ℕ) → n ≤ 0 → eqb n 0 ≡ true
zero_eqb n h = ground arith

empty_keys : (ks : List String) (k : String) → length ks ≡ 0 → count k ks ≡ 0
empty_keys [] k h = refl
empty_keys (x ∷ ks) k h = absurd (omega arith)

is_empty-cons : (l : List String) (x : String) (xs : List String) → l ≡ x ∷ xs → is_empty l ≡ false
is_empty-cons l x xs e = rw e

-- Every predecessor of a node stands in an earlier layer, or in `seen`.
abbrev pub IsLayered : Map (List String) → List String → List String → List (List String) → Type 0
IsLayered edges ns seen [] = Unit
IsLayered edges ns seen (l ∷ ls) =
    ((u v : String) → Has v l → Has u ns → Has v (successors edges u) → Has u seen)
    × IsLayered edges ns (seen ++ l) ls

-- Some nodes, each with a predecessor among them.
abbrev pub HasCycle : Map (List String) → List String → Type 0
HasCycle edges ns =
    (us : List String) × (0 < length us)
    × ((v : String) → Has v us → Has v ns × ((u : String) × Has u us × Has v (successors edges u)))

abbrev pub Sorts : Map (List String) → List String → List String → List String → Sorting → Type 0
Sorts edges ns left seen (sorted ls) =
    ((k : String) → count k (concat ls) ≡ count k left) × IsLayered edges ns seen ls
Sorts edges ns left seen cyclic = HasCycle edges ns
Sorts edges ns left seen out_of_fuel = ⊥

with_layer-Sorts :
    (edges : Map (List String)) (ns left after seen layer : List String) (s : Sorting)
    → ((k : String) → count k after + count k layer ≡ count k left)
    → ((u v : String) → Has v layer → Has u ns → Has v (successors edges u) → Has u seen)
    → Sorts edges ns after (seen ++ layer) s
    → Sorts edges ns left seen (with_layer layer s)
with_layer-Sorts edges ns left after seen layer (sorted ls) sum before h =
    (λ k. omega (arith, h.0 k, sum k, count-append k layer (concat ls)), (before, h.1))
with_layer-Sorts edges ns left after seen layer cyclic sum before h = h
with_layer-Sorts edges ns left after seen layer out_of_fuel sum before h = h

module _ (o : MapOrder) (edges : Map (List String)) (ns : List String) where
  abbrev layer_of : Map ℤ → List String
  layer_of m = ready m (o.apply (keys m))

  layer-in_edges :
      (m : Map ℤ) (k : String)
      → Counts edges m
      → Has k (layer_of m)
      → Has k (keys m) × (in_edges edges (keys m) k ≡ 0)
  layer-in_edges m k c h =
      ground (arith, count-ready m (o.apply (keys m)) k, o.same k (keys m), c.degree k)

  stuck-HasCycle :
      (m : Map ℤ)
      → Counts edges m
      → ((k : String) → Has k (keys m) → Has k ns)
      → 0 < length (keys m)
      → layer_of m ≡ []
      → HasCycle edges ns
  stuck-HasCycle m c sub some_left e =
      (keys m, some_left, λ v h. (sub v h, in_edges-pos edges (keys m) v (entered v h)))
    where
      entered : (v : String) → Has v (keys m) → 0 < in_edges edges (keys m) v
      entered v h =
          ground (arith, e, count-ready m (o.apply (keys m)) v, o.same v (keys m), c.degree v h)

  rounds-Sorts :
      (fuel remaining : ℕ) (m : Map ℤ) (seen : List String)
      → Counts edges m
      → remaining ≡ length (keys m)
      → remaining ≤ fuel
      → ((k : String) → count k seen + count k (keys m) ≡ count k ns)
      → Sorts edges ns (keys m) seen (topo_rounds o fuel edges remaining m)
  unfolding topo_rounds
  rounds-Sorts zero remaining m seen c r f sum =
      rw (zero_eqb remaining (omega arith)) (λ k. ground (arith, empty_keys (keys m) k), tt)
  rounds-Sorts (suc fuel) remaining m seen c r f sum = elim (Bool-cases (eqb remaining 0)) [
    | inl done ↦ rw done (λ k. ground (arith, empty_keys (keys m) k), tt)
    | inr more ↦ rw more (elim (List-cases (layer_of m)) [
      | inl none_ready ↦
          rw none_ready (stuck-HasCycle m c (λ k h. omega (arith, sum k)) (ground arith) none_ready)
      | inr (x, xs, e) ↦
          let layer = layer_of m in
          let entry = λ (k : String) (h : Has k layer). layer-in_edges m k c h in
          let one : (k : String) → count k layer ≤ 1 = λ k.
            ground (arith, count-ready m (o.apply (keys m)) k, o.same k (keys m), c.distinct k) in
          let (c', left, size) = place_all-Counts edges layer m c one entry in
          let rest =
            rounds-Sorts fuel (remaining - length layer) (place_all edges layer m) (seen ++ layer)
              c' (omega (arith, size, r)) (omega (arith, ap length e, r, f))
              (λ k. omega (arith, count-append k seen layer, left k, sum k)) in
          rw (is_empty-cons layer x xs e) (
            with_layer-Sorts edges ns (keys m) (keys (place_all edges layer m)) seen layer _ left
              (λ u v h p q. ground (arith, entry v h, count-le-in_edges edges u (keys m) v, sum u))
              rest)
    ])
  ]

-- `topoSort` ends: on success its layers hold each node as often as it was given, every
-- predecessor of a node stands in an earlier layer, and a failure shows nodes each of which has a
-- predecessor among them.
pub topo_sort-Sorts :
    (o : MapOrder) (g : Graph)
    → IsWf g
    → Sorts g.edges (names g) (names g) [] (topo_sort o (names g) g.edges (degrees_of g))
unfolding topo_sort
topo_sort-Sorts o g w =
    let (same, c) = degrees_of-Counts g w in
    subst
      (λ ks.
        Sorts g.edges (names g) ks []
          (topo_rounds o (length (names g)) g.edges (length (names g)) (degrees_of g)))
      same
      (rounds-Sorts o g.edges (names g) (length (names g)) (length (names g)) (degrees_of g) [] c
        (ap length (sym same)) (omega arith) (λ k. ground (arith, same)))
