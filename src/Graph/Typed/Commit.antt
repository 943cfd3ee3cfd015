-- ===== src/Graph/Typed/Commit.antt =====
-- graph/typed_graph.go: the loop that takes the results of a layer.
use Prim.Native.String.{◌++◌ as text_append}
use covonaut.Base.{
  length, keys, ◌+◌, ◌≤◌, suc, String, List, [], ◌∷◌, Bool, true, false, some, ◌==◌, if◌then◌else◌,
  Map, lookup, insert, get_or, contains, contains_iff, count, Has, lookup-insert, ◌≡◌, refl, sym,
  ap, ◌∙◌, ◌⊎◌, ◌↔◌, inl, inr, arith, eq_iff, Bool-cases, subst,
}
use covonaut.Agentcore.Errors.{Result, ok, err, wrap_node_error}
use covonaut.Graph.{successors}
use covonaut.Graph.Typed.{CompiledTypedGraph, reach_all, commit_typed}

get_or-reach_all :
    (ts : List String) (r : Map Bool) (u : String)
    → get_or u false (reach_all ts r) ≡ (if contains ts u then true else get_or u false r)
unfolding reach_all contains
get_or-reach_all [] r u = refl
get_or-reach_all (t ∷ ts) r u =
    ground (arith, get_or-reach_all ts (insert t true r) u, lookup-insert t u true r)

module _ {ℓ} {T : Type ℓ} (z : T) (cg : CompiledTypedGraph T) where
  -- The result of the first node is a value, and the rest is taken after it.
  commit_typed-step :
      (n : String) (ns : List String) (rs : Map (Result T)) (o : Map T) (r : Map Bool)
      (x : Map T × Map Bool)
      → commit_typed z cg.edges (n ∷ ns) rs (o, r) ≡ ok x
      → (v : T) × (get_or n (ok z) rs ≡ ok v)
        × (commit_typed z cg.edges ns rs (insert n v o, reach_all (successors cg.edges n) r) ≡ ok x)
  unfolding commit_typed
  commit_typed-step n ns rs o r x e = taken (get_or n (ok z) rs) e
    where
      taken :
          (q : Result T)
          → elim q [
            | err f ↦ err (wrap_node_error f (text_append "typed_graph:" n))
            | ok v ↦
                commit_typed z cg.edges ns rs (insert n v o, reach_all (successors cg.edges n) r)
          ]
            ≡ ok x
          → (v : T) × (q ≡ ok v)
            × (commit_typed z cg.edges ns rs (insert n v o, reach_all (successors cg.edges n) r)
                ≡ ok x)
      taken (ok v) e' = (v, refl, e')
      taken (err f) e' = cc

  pub commit_typed-other :
      (ns : List String) (rs : Map (Result T)) (o o' : Map T) (r r' : Map Bool) (k : String)
      → commit_typed z cg.edges ns rs (o, r) ≡ ok (o', r')
      → count k ns ≡ 0
      → lookup k o' ≡ lookup k o
  unfolding commit_typed
  commit_typed-other [] rs o o' r r' k e h =
      ap (λ q. elim q [ ok y ↦ lookup k y.0 | err f ↦ lookup k o' ]) (sym e)
  commit_typed-other (n ∷ ns) rs o o' r r' k e h =
      let (v, own, e') = commit_typed-step n ns rs o r (o', r') e in
      ground (
        arith,
        eq_iff n k,
        lookup-insert n k v o,
        commit_typed-other ns rs (insert n v o) o' (reach_all (successors cg.edges n) r) r' k e',
      )

  pub commit_typed-taken :
      (ns : List String) (rs : Map (Result T)) (o o' : Map T) (r r' : Map Bool) (k : String)
      → commit_typed z cg.edges ns rs (o, r) ≡ ok (o', r')
      → Has k ns
      → (v : T) × (get_or k (ok z) rs ≡ ok v) × (lookup k o' ≡ some v)
  commit_typed-taken [] rs o o' r r' k e h = absurd (omega arith)
  commit_typed-taken (n ∷ ns) rs o o' r r' k e h =
      let (v, own, e') = commit_typed-step n ns rs o r (o', r') e in
      elim (Bool-cases (contains ns k)) [
        | inl later ↦
            commit_typed-taken ns rs (insert n v o) o' _ r' k e' ((contains_iff ns k).0 later)
        | inr last ↦
            let same : n ≡ k = ground (arith, eq_iff n k, contains_iff ns k) in
            let is_k : (n == k) ≡ true = ground (arith, eq_iff n k, contains_iff ns k) in
            let none_left : count k ns ≡ 0 = ground (arith, contains_iff ns k) in
            (
              v,
              subst (λ q. get_or q (ok z) rs ≡ ok v) same own,
              commit_typed-other ns rs (insert n v o) o' _ r' k e' none_left
                  ∙ lookup-insert n k v o
                  ∙ ap (λ b. if b then some v else lookup k o) is_k,
            )
      ]

  length-keys-insert :
      (k : String) (v : T) (m : Map T) → length (keys (insert k v m)) ≤ suc (length (keys m))
  unfolding insert
  length-keys-insert k v [] = omega arith
  length-keys-insert k v ((j, w) ∷ m) = ground (arith, length-keys-insert k v m)

  pub commit_typed-length :
      (ns : List String) (rs : Map (Result T)) (o o' : Map T) (r r' : Map Bool)
      → commit_typed z cg.edges ns rs (o, r) ≡ ok (o', r')
      → length (keys o') ≤ length (keys o) + length ns
  unfolding commit_typed
  commit_typed-length [] rs o o' r r' e =
      let same : length (keys o') ≡ length (keys o) =
        ap (λ q. elim q [ ok y ↦ length (keys y.0) | err f ↦ length (keys o') ]) (sym e) in
      omega arith
  commit_typed-length (n ∷ ns) rs o o' r r' e =
      let (v, own, e') = commit_typed-step n ns rs o r (o', r') e in
      omega (
        arith,
        length-keys-insert n v o,
        commit_typed-length ns rs (insert n v o) o' (reach_all (successors cg.edges n) r) r' e',
      )

  -- A node is reachable afterwards if it was before, or if an edge leads to it from a node of the list.
  pub commit_typed-reachable :
      (ns : List String) (rs : Map (Result T)) (o o' : Map T) (r r' : Map Bool) (u : String)
      → commit_typed z cg.edges ns rs (o, r) ≡ ok (o', r')
      → (get_or u false r' ≡ true)
        ↔ ((get_or u false r ≡ true) ⊎ ((n : String) × Has n ns × Has u (successors cg.edges n)))
  unfolding commit_typed
  commit_typed-reachable [] rs o o' r r' u e =
      let same : get_or u false r' ≡ get_or u false r =
        ap (λ q. elim q [ ok y ↦ get_or u false y.1 | err f ↦ get_or u false r' ]) (sym e) in
      (
        (λ h. inl (sym same ∙ h)),
        λ h. elim h [ inl before ↦ same ∙ before | inr (n, none_in, led) ↦ absurd (omega arith) ],
      )
  commit_typed-reachable (n ∷ ns) rs o o' r r' u e =
      let (v, own, e') = commit_typed-step n ns rs o r (o', r') e in
      let later =
        commit_typed-reachable ns rs (insert n v o) o' (reach_all (successors cg.edges n) r) r' u
          e' in
      let marked = get_or-reach_all (successors cg.edges n) r u in
      let leads = contains_iff (successors cg.edges n) u in
      (
        (λ h. elim (later.0 h) [
          | inl before ↦ elim (Bool-cases (contains (successors cg.edges n) u)) [
            | inl here ↦ inr (n, ground (arith, eq_iff n n), leads.0 here)
            | inr elsewhere ↦ inl (ground (arith, marked, before, elsewhere))
          ]
          | inr (m, within, led) ↦ inr (m, ground (arith, within, eq_iff n m), led)
        ]),
        λ h. elim h [
          | inl before ↦ later.1 (inl (ground (arith, marked, before)))
          | inr (m, within, led) ↦ elim (Bool-cases (n == m)) [
            | inl this ↦
                let same : m ≡ n = ground (arith, this, eq_iff n m) in
                later.1 (
                  inl (
                    ground
                      (arith, marked, leads, subst (λ q. Has u (successors cg.edges q)) same led)))
            | inr other ↦ later.1 (inr (m, ground (arith, within, other, eq_iff n m), led))
          ]
        ],
      )
