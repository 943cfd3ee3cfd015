-- ===== src/Graph/Typed/Ran.antt =====
-- graph/typed_graph.go: what holds between the layers of a run, and what the input of a node depends on.
use Prim.Native.String.{◌++◌ as text_append}
use covonaut.Base.{
  length, ◌≤◌, String, List, [], ◌∷◌, true, false, Option, none, some, if◌then◌else◌, Map, keys,
  lookup, get_or, member, count, Has, ◌≡◌, refl, sym, ap, ◌∙◌, ◌⊎◌, arith, eq_iff,
}
use covonaut.Agentcore.Errors.{ok}
use covonaut.Graph.{successors, is_empty}
use covonaut.Graph.Topo.{reverse_edges}
use covonaut.Graph.Typed.{CompiledTypedGraph, Running, values_of, merge_values, typed_input, invoke}

-- What `Compile` sees to, apart from the layers.
pub record IsReady {ℓ} {T : Type ℓ} (cg : CompiledTypedGraph T) : Type ℓ where
  pub distinct : (k : String) → count k (keys cg.nodes) ≤ 1
  pub edges_distinct : (k : String) → count k (keys cg.edges) ≤ 1
  pub sources : (k : String) → Has k (keys cg.edges) → Has k (keys cg.nodes)
  pub reversed : cg.rev_edges ≡ reverse_edges cg.edges []

module _ {ℓ} {T : Type ℓ} (z : T) (cg : CompiledTypedGraph T) (root : T) where
  -- The output of the node is what its runnable makes of the outputs of its predecessors.
  abbrev pub Solves : Map T → String → Type ℓ
  Solves outputs n =
      (v : T) × ((w : T) × ((typed_input cg n root outputs ≡ ok v)
          × (invoke (lookup n cg.nodes) v ≡ ok w)
          × (lookup n outputs ≡ some w)))

  -- What holds when the layers that make up `seen` have run.
  pub record Ran (seen : List String) (s : Running T) : Type ℓ where
    pub closed :
        (u v : String)
        → Has v seen
        → Has u (keys cg.nodes)
        → Has v (successors cg.edges u)
        → Has u seen
    pub only : (n : String) → member n s.outputs ≡ true → Has n seen
    pub arrived :
        (n : String) → Has n seen → get_or n false s.reachable ≡ true → member n s.outputs ≡ true
    pub shown : (n : String) → member n s.outputs ≡ true → get_or n false s.reachable ≡ true
    pub entered : get_or cg.entry false s.reachable ≡ true
    pub spreads :
        (n u : String)
        → member n s.outputs ≡ true
        → Has u (successors cg.edges n)
        → get_or u false s.reachable ≡ true
    pub reached :
        (u : String)
        → get_or u false s.reachable ≡ true
        → (u ≡ cg.entry)
          ⊎ ((n : String) × (member n s.outputs ≡ true) × Has u (successors cg.edges n))
    pub solved : (n : String) → member n s.outputs ≡ true → Solves s.outputs n
    pub counted : length (keys s.outputs) ≤ s.steps
    pub limited : s.steps ≤ cg.max_steps

  pub member-some : (n : String) (o : Map T) (w : T) → lookup n o ≡ some w → member n o ≡ true
  member-some n o w is_w = ap (λ q. elim q [ none ↦ false | some v ↦ true ]) is_w

  pub member-same :
      (n : String) (o o' : Map T)
      → lookup n o ≡ lookup n o'
      → member n o ≡ true
      → member n o' ≡ true
  member-same n o o' same there =
      ap (λ q. elim q [ none ↦ false | some v ↦ true ]) (sym same) ∙ there

  found :
      (q : Option T) (rest rest' : List T)
      → rest ≡ rest'
      → elim q [ none ↦ rest | some v ↦ v ∷ rest ] ≡ elim q [ none ↦ rest' | some v ↦ v ∷ rest' ]
  found none rest rest' same = same
  found (some v) rest rest' same = ap (λ l. v ∷ l) same

  values_of-cong :
      (a b : Map T) (ps : List String)
      → ((p : String) → Has p ps → lookup p a ≡ lookup p b)
      → values_of a ps ≡ values_of b ps
  unfolding values_of
  values_of-cong a b [] same = refl
  values_of-cong a b (p ∷ ps) same =
      ap (λ q. elim q [ none ↦ values_of a ps | some v ↦ v ∷ values_of a ps ])
        (same p (ground (arith, eq_iff p p)))
      ∙ found (lookup p b) (values_of a ps) (values_of b ps)
          (values_of-cong a b ps (λ q h. same q (omega arith)))

  pub typed_input-cong :
      (a b : Map T) (n : String)
      → ((p : String) → Has p (get_or n [] cg.rev_edges) → lookup p a ≡ lookup p b)
      → typed_input cg n root a ≡ typed_input cg n root b
  unfolding typed_input
  typed_input-cong a b n same =
      ap
        (λ vs.
          if is_empty (get_or n [] cg.rev_edges)
          then ok root
          else merge_values cg.merge (text_append "node " n) vs)
        (values_of-cong a b (get_or n [] cg.rev_edges) same)
