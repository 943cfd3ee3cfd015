-- ===== src/Pregel/Merge.antt =====
-- The order in which the results of a superstep are merged.
use mathlib.Core.Path.{fun_ext}
use covonaut.Base.{
  ℕ, zero, suc, String, List, [], ◌∷◌, Option, none, some, ◌≡◌, refl, ◌≢◌, ◌⊎◌, inl, inr, sym, ◌∙◌,
  arith, eq_iff, count, Has, ◌==◌, Map, lookup, get_or, Option-cases, Bool-cases,
}
use covonaut.Agentcore.Errors.{Result, ok, >>=-eq-ok, Result-cases}
use covonaut.Graph.Topo.{MapOrder}
use covonaut.Pregel.{
  State, Node, PregelGraph, Ending, Next, active, finished, failed_target, run_nodes, check_results,
  output_of, merge_results, write_all, continue, next_active, superstep, supersteps,
  CompiledPregelGraph, run,
}

module _ {V : Type 0} where
  -- What a node's result writes to a key.
  abbrev written : Map (Result (Map V)) → String → String → Option V
  written rs n k = lookup k (output_of (get_or n (ok []) rs))

  merge_results-written :
      (ns : List String) (rs : Map (Result (Map V))) (state : State V) (n k : String) (v : V)
      → written rs n k ≡ some v
      → ((m : String) → Has m ns → m ≢ n → written rs m k ≡ none)
      → (Has n ns ⊎ (state k ≡ some v))
      → merge_results ns rs state k ≡ some v
  unfolding merge_results write_all
  merge_results-written [] rs state n k v e other (inl h) = absurd (omega arith)
  merge_results-written [] rs state n k v e other (inr s) = s
  merge_results-written (m ∷ ns) rs state n k v e other h =
      merge_results-written ns rs (write_all (output_of (get_or m (ok []) rs)) state) n k v e
        (λ j p. other j (omega arith))
        (elim (Bool-cases (m == n)) [
          | inl same ↦ inr (ground (arith, eq_iff m n))
          | inr differ ↦ ground (arith, eq_iff m n, other m (ground (arith, eq_iff m m)))
        ])

  merge_results-unwritten :
      (ns : List String) (rs : Map (Result (Map V))) (state : State V) (k : String)
      → ((m : String) → Has m ns → written rs m k ≡ none)
      → merge_results ns rs state k ≡ state k
  unfolding merge_results write_all
  merge_results-unwritten [] rs state k none_writes = refl
  merge_results-unwritten (m ∷ ns) rs state k none_writes = ground (
    arith,
    none_writes m (ground (arith, eq_iff m m)),
    merge_results-unwritten ns rs (write_all (output_of (get_or m (ok []) rs)) state) k
        (λ j p. none_writes j (omega arith)),
  )

  writer :
      (ns : List String) (rs : Map (Result (Map V))) (k : String)
      → ((n : String) × (v : V) × Has n ns × (written rs n k ≡ some v))
        ⊎ ((m : String) → Has m ns → written rs m k ≡ none)
  writer [] rs k = inr (λ m h. absurd (omega arith))
  writer (n ∷ ns) rs k = elim (Option-cases (written rs n k)) [
    | inr (v, e) ↦ inl (n, v, ground (arith, eq_iff n n), e)
    | inl e ↦ elim (writer ns rs k) [
      | inl (m, v, h, e') ↦ inl (m, v, omega arith, e')
      | inr absent ↦ inr (λ m h. ground (arith, eq_iff n m, absent m))
    ]
  ]

  -- Of two results, no key is written by both.
  abbrev IsDisjoint : List String → Map (Result (Map V)) → Type 0
  IsDisjoint ns rs =
      (n m k : String) (v : V)
      → Has n ns
      → Has m ns
      → m ≢ n
      → written rs n k ≡ some v
      → written rs m k ≡ none

  merge_results-order :
      (xs ys : List String) (rs : Map (Result (Map V))) (state : State V)
      → ((k : String) → count k xs ≡ count k ys)
      → IsDisjoint xs rs
      → merge_results xs rs state ≡ merge_results ys rs state
  merge_results-order xs ys rs state same d = fun_ext λ k. elim (writer xs rs k) [
    | inl (n, v, h, e) ↦
        merge_results-written xs rs state n k v e (λ m p ne. d n m k v h p ne e) (inl h)
        ∙ sym (
            merge_results-written ys rs state n k v e
              (λ m p ne. d n m k v h (omega (arith, same m)) ne e) (inl (omega (arith, same n))))
    | inr absent ↦
        merge_results-unwritten xs rs state k absent
        ∙ sym (merge_results-unwritten ys rs state k (λ m p. absent m (omega (arith, same m))))
  ]

  check_results-none :
      (ns : List String) (rs : Map (Result (Map V))) (n : String)
      → check_results ns rs ≡ none
      → Has n ns
      → get_or n (ok []) rs ≡ ok (output_of (get_or n (ok []) rs))
  unfolding check_results
  check_results-none [] rs n e h = absurd (omega arith)
  check_results-none (m ∷ ns) rs n e h = ground (arith, eq_iff m n, check_results-none ns rs n)

  check_results-all :
      (ns : List String) (rs : Map (Result (Map V)))
      → ((n : String) → Has n ns → get_or n (ok []) rs ≡ ok (output_of (get_or n (ok []) rs)))
      → check_results ns rs ≡ none
  unfolding check_results
  check_results-all [] rs all = refl
  check_results-all (m ∷ ns) rs all = ground (
    arith,
    all m (ground (arith, eq_iff m m)),
    check_results-all ns rs (λ n h. all n (omega arith)),
  )

  run_nodes-cons :
      (g : PregelGraph V) (state : State V) (m : String) (ns : List String)
      (rs : Map (Result (Map V)))
      → run_nodes g state (m ∷ ns) ≡ ok rs
      → (f : Node V) × (more : Map (Result (Map V))) × (lookup m g.nodes ≡ some f)
        × (run_nodes g state ns ≡ ok more)
        × (rs ≡ (m, f state) ∷ more)
  unfolding run_nodes
  run_nodes-cons g state m ns rs e = elim (Option-cases (lookup m g.nodes)) [
    | inl absent ↦ absurd (cc (rw (absent, run_nodes) at e))
    | inr (f, there) ↦
        let (more, e', shape) = >>=-eq-ok (run_nodes g state ns) _ (rw (there, run_nodes) at e) in
        (f, more, there, e', ground arith)
  ]

  run_nodes-lookup :
      (g : PregelGraph V) (state : State V) (ns : List String) (rs : Map (Result (Map V)))
      (n : String)
      → run_nodes g state ns ≡ ok rs
      → Has n ns
      → (f : Node V) × (lookup n g.nodes ≡ some f) × (get_or n (ok []) rs ≡ f state)
  unfolding lookup
  run_nodes-lookup g state [] rs n e h = absurd (omega arith)
  run_nodes-lookup g state (m ∷ ns) rs n e h =
      let (f, more, there, e', shape) = run_nodes-cons g state m ns rs e in
      elim (Bool-cases (m == n)) [
        | inl same ↦ (f, ground (arith, eq_iff m n), ground (arith, shape))
        | inr differ ↦
            let (f', there', val) =
              run_nodes-lookup g state ns more n e' (ground (arith, differ)) in
            (f', there', ground (arith, shape))
      ]

  -- Different nodes never write to the same key.
  abbrev pub WritesApart : PregelGraph V → Type 0
  WritesApart g =
      (n m k : String) (f f' : Node V) (state : State V) (a b : Map V) (v : V)
      → m ≢ n
      → lookup n g.nodes ≡ some f
      → lookup m g.nodes ≡ some f'
      → f state ≡ ok a
      → f' state ≡ ok b
      → lookup k a ≡ some v
      → lookup k b ≡ none

  results-IsDisjoint :
      (g : PregelGraph V) (state : State V) (ns : List String) (rs : Map (Result (Map V)))
      → WritesApart g
      → run_nodes g state ns ≡ ok rs
      → ((n : String) → Has n ns → get_or n (ok []) rs ≡ ok (output_of (get_or n (ok []) rs)))
      → IsDisjoint ns rs
  results-IsDisjoint g state ns rs apart e all n m k v hn hm ne wr =
      let (f, at_n, vn) = run_nodes-lookup g state ns rs n e hn in
      let (f', at_m, vm) = run_nodes-lookup g state ns rs m e hm in
      apart n m k f f' state (output_of (get_or n (ok []) rs)) (output_of (get_or m (ok []) rs)) v
        ne at_n at_m (sym vn ∙ all n hn) (sym vm ∙ all m hm) wr

  continue-same :
      (n : Next) (state : State V) (f f' : List String → Ending V)
      → (continue n state f).error ≡ none
      → ((ns : List String) → (f ns).error ≡ none → f' ns ≡ f ns)
      → continue n state f' ≡ continue n state f
  continue-same (active ns) state f f' e same = same ns e
  continue-same finished state f f' e same = refl
  continue-same (failed_target x) state f f' e same = refl

  -- A superstep that succeeds, by its parts.
  superstep-ok :
      (o : MapOrder) (g : PregelGraph V) (state : State V) (ns : List String)
      (rest : State V → List String → Ending V)
      → (superstep o g state ns rest).error ≡ none
      → (rs : Map (Result (Map V))) × (run_nodes g state ns ≡ ok rs)
        × (check_results (o.apply ns) rs ≡ none)
  unfolding superstep
  superstep-ok o g state ns rest e = elim (Result-cases (run_nodes g state ns)) [
    | inr (x, bad) ↦ absurd (cc (rw (bad, superstep) at e))
    | inl (rs, good) ↦ elim (Option-cases (check_results (o.apply ns) rs)) [
      | inr (x, bad) ↦ absurd (cc (rw (good, superstep, bad) at e))
      | inl fine ↦ (rs, good, fine)
    ]
  ]

  superstep-eq :
      (o : MapOrder) (g : PregelGraph V) (state : State V) (ns : List String)
      (rest : State V → List String → Ending V) (rs : Map (Result (Map V)))
      → run_nodes g state ns ≡ ok rs
      → check_results (o.apply ns) rs ≡ none
      → superstep o g state ns rest
        ≡ continue
            (next_active g (merge_results (o.apply ns) rs state) ns [])
            (merge_results (o.apply ns) rs state)
            (rest (merge_results (o.apply ns) rs state))
  unfolding superstep
  superstep-eq o g state ns rest rs good fine = rw (good, superstep, fine)

  supersteps-order :
      (o p : MapOrder) (g : PregelGraph V) (left : ℕ) (state : State V) (ns : List String)
      → WritesApart g
      → (supersteps o g left state ns).error ≡ none
      → supersteps p g left state ns ≡ supersteps o g left state ns
  unfolding supersteps
  supersteps-order o p g left state [] apart e = refl
  supersteps-order o p g zero state (n ∷ ns) apart e = refl
  supersteps-order o p g (suc left) state (n ∷ ns) apart e =
      let names = n ∷ ns in
      let (rs, good, fine) = superstep-ok o g state names (supersteps o g left) e in
      let all = λ (m : String) (h : Has m names).
        check_results-none (o.apply names) rs m fine (omega (arith, o.same m names)) in
      let fine' : check_results (p.apply names) rs ≡ none =
        check_results-all (p.apply names) rs (λ m h. all m (omega (arith, p.same m names))) in
      let disjoint = results-IsDisjoint g state names rs apart good all in
      let merged : merge_results (p.apply names) rs state ≡ merge_results (o.apply names) rs state =
        merge_results-order (p.apply names) (o.apply names) rs state
          (λ k. omega (arith, o.same k names, p.same k names))
          (λ a b k v ha hb.
            disjoint a b k v (omega (arith, p.same a names)) (omega (arith, p.same b names))) in
      let state' = merge_results (o.apply names) rs state in
      superstep-eq p g state names (supersteps p g left) rs good fine'
      ∙ rw merged (
          continue-same (next_active g state' names []) state' (supersteps o g left state')
            (supersteps p g left state')
            (rw (superstep-eq o g state names (supersteps o g left) rs good fine) at e)
            (λ more. supersteps-order o p g left state' more apart))
      ∙ sym (superstep-eq o g state names (supersteps o g left) rs good fine)

-- If different nodes never write to the same key, a run that succeeds under one order of merging
-- ends with the same state under every other: the order in which Go ranges over the results does
-- not matter.
pub run-order :
    {V : Type 0} (o p : MapOrder) (c : CompiledPregelGraph V) (initial : State V)
    → WritesApart c.pg
    → (run o c initial).error ≡ none
    → run p c initial ≡ run o c initial
unfolding run
run-order o p c initial apart = supersteps-order o p c.pg c.max_steps initial (c.entry ∷ []) apart
