-- ===== src/Graph/Run/Layer.antt =====
-- What one layer of `Run` writes, and what it leaves alone.
use covonaut.Base.{
  ℕ, String, List, [], ◌∷◌, false, Option, none, some, ◌≡◌, refl, arith, eq_iff, count, Has,
  contains, contains_iff, if◌then◌else◌, ◌==◌, ltb, Bool-cases, inl, inr, suc, Map, lookup, insert,
  get_or, member, lookup-insert,
}
use covonaut.Agentcore.Errors.{Result, ok, >>=-eq-ok}
use covonaut.Graph.{Graph, ConditionalEdge, successors}
use covonaut.Graph.WellFormed.{IsWf}
use covonaut.Graph.Topo.{MapOrder, CompiledGraph}
use covonaut.Graph.Run.{
  mark_all, activate_by, activate_successors, reached, outcome, launch, check_errors, value, commit,
  run_layer,
}

pub count-reached :
    (entry : String) (outputs : Map String) (ns : List String) (k : String)
    → count k (reached entry outputs ns)
      ≡ (if member k outputs then count k ns else if k == entry then count k ns else 0)
unfolding reached
count-reached entry outputs [] k = ground arith
count-reached entry outputs (n ∷ ns) k =
    ground (arith, count-reached entry outputs ns k, eq_iff n k)

lookup-mark_all :
    (ts : List String) (outputs : Map String) (k : String)
    → lookup k (mark_all ts outputs) ≡ (if contains ts k then some "" else lookup k outputs)
unfolding mark_all contains
lookup-mark_all [] outputs k = refl
lookup-mark_all (t ∷ ts) outputs k =
    ground (arith, lookup-mark_all ts (insert t "" outputs) k, lookup-insert t k "" outputs)

abbrev activated_by : Option ConditionalEdge → List String → String → List String
activated_by (some c) static out = if contains c.targets (c.route out) then c.route out ∷ [] else []
activated_by none static out = static

-- The targets that a node's output activates.
abbrev pub activated : Graph → String → String → List String
activated g name out = activated_by (lookup name g.conditional_edges) (successors g.edges name) out

lookup-activate_by :
    (c : Option ConditionalEdge) (static : List String) (name out : String)
    (outputs outputs' : Map String) (k : String)
    → activate_by c static name out outputs ≡ ok outputs'
    → lookup k outputs'
      ≡ (if contains (activated_by c static out) k then some "" else lookup k outputs)
unfolding contains
lookup-activate_by none static name out outputs outputs' k e =
    ground (arith, lookup-mark_all static outputs k)
lookup-activate_by (some c) static name out outputs outputs' k e =
    ground (arith, lookup-insert (c.route out) k "" outputs)

pub lookup-activate :
    (g : Graph) (name out : String) (outputs outputs' : Map String) (k : String)
    → activate_successors g name out outputs ≡ ok outputs'
    → lookup k outputs' ≡ (if contains (activated g name out) k then some "" else lookup k outputs)
unfolding activate_successors
lookup-activate g name out = lookup-activate_by (lookup name g.conditional_edges) _ name out

activated_by-static :
    (c : Option ConditionalEdge) (static : List String) (out k : String)
    → ((e : ConditionalEdge) → c ≡ some e → static ≡ e.targets)
    → Has k (activated_by c static out)
    → Has k static
activated_by-static none static out k w h = h
activated_by-static (some c) static out k w h =
    ground (arith, w c refl, contains_iff c.targets (c.route out), eq_iff (c.route out) k)

pub activated-successors :
    (g : Graph) (name out k : String)
    → IsWf g
    → Has k (activated g name out)
    → Has k (successors g.edges name)
activated-successors g name out k w =
    activated_by-static (lookup name g.conditional_edges) _ out k (λ e. w.conditional name e)

pub not_activated :
    (g : Graph) (name out k : String)
    → IsWf g
    → count k (successors g.edges name) ≡ 0
    → contains (activated g name out) k ≡ false
not_activated g name out k w z =
    ground (arith, contains_iff (activated g name out) k, activated-successors g name out k w)

pub launch-lookup :
    (cg : CompiledGraph) (input : String) (outputs : Map String) (ns : List String) (steps : ℕ)
    (rs : Map (Result String)) (s : ℕ) (k : String)
    → launch cg input outputs ns steps ≡ ok (rs, s)
    → Has k ns
    → lookup k rs ≡ some (outcome cg input outputs k)
unfolding launch lookup
launch-lookup cg input outputs [] steps rs s k e h = absurd (omega arith)
launch-lookup cg input outputs (n ∷ ns) steps rs s k e h =
    elim (Bool-cases (ltb cg.max_steps (suc steps))) [
      | inl over ↦ absurd (cc (rw (over, launch) at e))
      | inr fits ↦
          let (more, e', shape) =
            >>=-eq-ok (launch cg input outputs ns (suc steps)) _ (rw (fits, launch) at e) in
          ground (
            arith,
            shape,
            eq_iff n k,
            launch-lookup cg input outputs ns (suc steps) more.0 more.1 k e',
          )
    ]

pub check_errors-ok :
    (ns : List String) (rs : Map (Result String)) (k : String) (r : Result String)
    → check_errors ns rs ≡ ok tt
    → Has k ns
    → lookup k rs ≡ some r
    → r ≡ ok (value r)
unfolding check_errors
check_errors-ok [] rs k r e h l = absurd (omega arith)
check_errors-ok (n ∷ ns) rs k r e h l = ground (arith, eq_iff n k, check_errors-ok ns rs k r)

-- A key that no node of the list activates keeps the result of its own run, or its old value.
pub commit-lookup :
    (g : Graph) (ns : List String) (rs : Map (Result String)) (outputs outputs' : Map String)
    (k : String)
    → IsWf g
    → commit g ns rs outputs ≡ ok outputs'
    → ((n : String) → Has n ns → count k (successors g.edges n) ≡ 0)
    → lookup k outputs'
      ≡ (if contains ns k then some (value (get_or k (ok "") rs)) else lookup k outputs)
unfolding commit contains
commit-lookup g [] rs outputs outputs' k w e none_in = ground arith
commit-lookup g (n ∷ ns) rs outputs outputs' k w e none_in =
    let out = value (get_or n (ok "") rs) in
    let (mid, e1, e2) =
      >>=-eq-ok (activate_successors g n out (insert n out outputs)) (commit g ns rs) e in
    let untouched = not_activated g n out k w (none_in n (ground (arith, eq_iff n n))) in
    ground (
      arith,
      eq_iff n k,
      untouched,
      commit-lookup g ns rs mid outputs' k w e2 (λ m h. none_in m (omega arith)),
      lookup-activate g n out (insert n out outputs) mid k e1,
      lookup-insert n k out outputs,
    )

-- The three passes of a layer that succeeds.
pub record LayerRun (o : MapOrder) (cg : CompiledGraph) (input : String) (layer : List String)
    (outputs outputs' : Map String) (s s' : ℕ) : Type 0 where
  pub results : Map (Result String)
  pub launched : launch cg input outputs (reached cg.entry outputs layer) s ≡ ok (results, s')
  pub checked : check_errors (o.apply (reached cg.entry outputs layer)) results ≡ ok tt
  pub committed :
      commit cg.graph (o.apply (reached cg.entry outputs layer)) results outputs ≡ ok outputs'

pub run_layer-eq-ok :
    (o : MapOrder) (cg : CompiledGraph) (input : String) (layer : List String)
    (outputs outputs' : Map String) (s s' : ℕ)
    → run_layer o cg input layer (outputs, s) ≡ ok (outputs', s')
    → LayerRun o cg input layer outputs outputs' s s'
unfolding run_layer
run_layer-eq-ok o cg input layer outputs outputs' s s' e =
    let ns = reached cg.entry outputs layer in
    let ((rs, s1), launched, e1) = >>=-eq-ok (launch cg input outputs ns s) _ e in
    let (_, checked, e2) = >>=-eq-ok (check_errors (o.apply ns) rs) _ e1 in
    let (out, committed, e3) = >>=-eq-ok (commit cg.graph (o.apply ns) rs outputs) _ e2 in
    record { results = rs; launched = ground arith; checked = checked; committed = ground arith }
