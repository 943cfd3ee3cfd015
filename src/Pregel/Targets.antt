-- ===== src/Pregel/Targets.antt =====
-- The nodes that a superstep activates.
use covonaut.Base.{
  ◌≤◌, String, List, [], ◌∷◌, true, false, Option, none, some, ◌≡◌, refl, arith, eq_iff, count, Has,
  count-append, ◌==◌, contains_iff, Map, keys, lookup, get_or, member, Bool-cases, inl, inr,
  Option-cases, ap, subst,
}
use covonaut.Agentcore.Errors.{Error, Result, ok}
use covonaut.Pregel.{
  pregel_end, State, Router, PregelGraph, Next, active, finished, failed_target, and_then,
  known_or_end, validate_conditional_target, add_active, add_static, add_routed, add_targets,
  next_active, run_nodes,
}
use covonaut.Pregel.Build.{IsWf, Built, Built-IsWf}

-- Known nodes, each once.
pub record IsReady {V : Type 0} (g : PregelGraph V) (names : List String) : Type 0 where
  pub once : (k : String) → count k names ≤ 1
  pub known : (k : String) → Has k names → member k g.nodes ≡ true

module _ {V : Type 0} (g : PregelGraph V) (w : IsWf g) where
  abbrev NextReady : Next → Type 0
  NextReady (active ns) = IsReady g ns
  NextReady finished = Unit
  NextReady (failed_target e) = Unit

  IsReady-add_active :
      (t : String) (next : List String)
      → IsReady g next
      → known_or_end g t ≡ true
      → (t == pregel_end) ≡ false
      → IsReady g (add_active t next)
  IsReady-add_active t next r k ne = record {
    once = λ j.
        ground (arith, r.once j, contains_iff next t, count-append j next (t ∷ []), eq_iff t j);
    known = λ j h.
        ground (arith, r.known j, contains_iff next t, count-append j next (t ∷ []), eq_iff t j);
  }

  add_static-NextReady :
      (ts next : List String)
      → ((t : String) → Has t ts → known_or_end g t ≡ true)
      → IsReady g next
      → NextReady (add_static ts next)
  unfolding add_static
  add_static-NextReady [] next k r = r
  add_static-NextReady (t ∷ ts) next k r = elim (Bool-cases (t == pregel_end)) [
    | inl stop ↦ rw stop tt
    | inr more ↦ rw more (
        add_static-NextReady ts (add_active t next) (λ j h. k j (omega arith))
          (IsReady-add_active t next r (k t (ground (arith, eq_iff t t))) more))
  ]

  add_routed-NextReady :
      (validate : String → Option Error) (ts next : List String)
      → ((t : String) → validate t ≡ none → known_or_end g t ≡ true)
      → IsReady g next
      → NextReady (add_routed validate ts next)
  unfolding add_routed
  add_routed-NextReady validate [] next k r = r
  add_routed-NextReady validate (t ∷ ts) next k r = elim (Option-cases (validate t)) [
    | inr (e, refused) ↦ rw (refused, add_routed) tt
    | inl accepted ↦ elim (Bool-cases (t == pregel_end)) [
      | inl stop ↦ rw (accepted, add_routed, stop) tt
      | inr more ↦
          rw (accepted, add_routed, more)
            (add_routed-NextReady validate ts (add_active t next) k
              (IsReady-add_active t next r (k t accepted) more))
    ]
  ]

  -- A target of a router that passes the check is known, or the end.
  validate-known :
      (source t : String) → validate_conditional_target g source t ≡ none → known_or_end g t ≡ true
  unfolding validate_conditional_target
  validate-known source t e =
      ground (arith, contains_iff (get_or source [] g.conditional_targets) t, w.declared source t)

  and_then-NextReady :
      (n : Next) (f : List String → Next)
      → NextReady n
      → ((ns : List String) → IsReady g ns → NextReady (f ns))
      → NextReady (and_then n f)
  and_then-NextReady (active ns) f r h = h ns r
  and_then-NextReady finished f r h = tt
  and_then-NextReady (failed_target e) f r h = tt

  routed-NextReady :
      (state : State V) (name : String) (router : Option (Router V)) (next : List String)
      → IsReady g next
      → NextReady (elim router [
        | none ↦ active next
        | some f ↦ add_routed (validate_conditional_target g name) (f state) next
      ])
  routed-NextReady state name none next r = r
  routed-NextReady state name (some f) next r =
      add_routed-NextReady (validate_conditional_target g name) (f state) next (validate-known name)
        r

  next_active-NextReady :
      (state : State V) (names next : List String)
      → IsReady g next
      → NextReady (next_active g state names next)
  unfolding next_active add_targets
  next_active-NextReady state [] next r = r
  next_active-NextReady state (n ∷ ns) next r =
      and_then-NextReady (add_targets g state n next) (next_active g state ns)
        (and_then-NextReady (add_static (get_or n [] g.edges) next) _
          (add_static-NextReady (get_or n [] g.edges) next (w.targets n) r)
          (λ next' r'. routed-NextReady state n (lookup n g.conditional_edges) next' r'))
        (λ next' r'. next_active-NextReady state ns next' r')

  -- Known nodes run: each has its result.
  run_nodes-known :
      (state : State V) (names : List String)
      → ((k : String) → Has k names → member k g.nodes ≡ true)
      → (rs : Map (Result (Map V))) × (run_nodes g state names ≡ ok rs) × (keys rs ≡ names)
  unfolding run_nodes
  run_nodes-known state [] k = ([], refl, refl)
  run_nodes-known state (n ∷ ns) k = elim (Option-cases (lookup n g.nodes)) [
    | inl absent ↦ absurd (cc (k n (ground (arith, eq_iff n n)), absent))
    | inr (node, there) ↦
        let (rs, e, same) = run_nodes-known state ns (λ j h. k j (omega arith)) in
        ((n, node state) ∷ rs, rw (there, run_nodes, e), ap (λ ks. n ∷ ks) same)
  ]

-- In a graph that the methods build, the nodes that a superstep activates are known nodes, each
-- activated once, and none of them is the reserved end; so the next superstep finds them all.
pub next_active-IsReady :
    {V : Type 0} (g : PregelGraph V) (state state' : State V) (names ns : List String)
    → Built g
    → next_active g state names [] ≡ active ns
    → IsReady g ns
      × (count pregel_end ns ≡ 0)
      × ((rs : Map (Result (Map V))) × (run_nodes g state' ns ≡ ok rs) × (keys rs ≡ ns))
next_active-IsReady g state state' names ns b e =
    let w = Built-IsWf b in
    let nothing : IsReady g [] = record {
      once = λ k. omega arith;
      known = λ k h. absurd (omega arith);
    } in
    let r : IsReady g ns =
      subst (NextReady g w) e (next_active-NextReady g w state names [] nothing) in
    (r, ground (arith, r.known pregel_end, w.unreserved), run_nodes-known g w state' ns r.known)
