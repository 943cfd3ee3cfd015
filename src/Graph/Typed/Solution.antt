-- ===== src/Graph/Typed/Solution.antt =====
-- graph/typed_graph.go: what a run computes, told from the nodes and edges of the graph.
use Prim.Native.String.{◌++◌ as text_append}
use covonaut.Base.{
  subst, ◌≤◌, String, List, [], ◌∷◌, Bool, true, false, ◌&&◌, Option, none, some, if◌then◌else◌,
  Map, keys, lookup, get_or, member, count, Has, length, ◌≡◌, refl, ap, ◌∙◌, ◌⊎◌,
}
use covonaut.Agentcore.Errors.{Result, ok, err}
use covonaut.Graph.{successors, is_empty}
use covonaut.Graph.Run.{sort_strings}
use covonaut.Graph.Run.Reverse.{count-predecessors}
use covonaut.Graph.Typed.{
  Runnable, TypedMerge, CompiledTypedGraph, values_of, terminal_values, merge_values, typed_input,
  invoke,
}
use covonaut.Graph.Typed.Ran.{IsReady, Solves}

-- One value stands for itself, several are merged, and none has no merge.
pub data IsMerge {ℓ} {T : Type ℓ} : Option (TypedMerge T) → List T → T → Type ℓ where
  single : (merge : Option (TypedMerge T)) (v : T) → IsMerge merge (v ∷ []) v
  several :
      (m : TypedMerge T) (a b : T) (vs : List T) (v : T)
      → m (a ∷ b ∷ vs) ≡ ok v
      → IsMerge (some m) (a ∷ b ∷ vs) v

module _ {ℓ} {T : Type ℓ} (z : T) (cg : CompiledTypedGraph T) (root : T) where
  -- The node gets the input of the run if no edge leads to it, and otherwise what the outputs merge to
  -- that there are of its predecessors, each as often as an edge leads from it.
  abbrev pub IsInput : Map T → String → T → Type ℓ
  IsInput outputs n v =
      (ps : List String) × ((p : String) → count p ps ≡ count n (successors cg.edges p))
      × (if is_empty ps then root ≡ v else IsMerge cg.merge (values_of outputs ps) v)

  -- The terminal nodes among the given ones that have an output.
  abbrev pub ended : Map T → List String → List String
  ended outputs [] = []
  ended outputs (n ∷ ns) =
      let rest = ended outputs ns in
      if is_empty (successors cg.edges n) && member n outputs then n ∷ rest else rest

  -- The nodes with an output are the entry and those that edges lead to from one of them, no more than
  -- the limit allows; the output of each is what its runnable makes of its input; and the result
  -- merges the outputs of the terminal nodes, sorted by name.
  pub record IsSolution (outputs : Map T) (result : T) : Type ℓ where
    pub entered : member cg.entry outputs ≡ true
    pub spreads :
        (n u : String)
        → member n outputs ≡ true
        → Has u (successors cg.edges n)
        → member u outputs ≡ true
    pub reached :
        (u : String)
        → member u outputs ≡ true
        → (u ≡ cg.entry)
          ⊎ ((n : String) × (member n outputs ≡ true) × Has u (successors cg.edges n))
    pub limited : length (keys outputs) ≤ cg.max_steps
    pub solved :
        (n : String)
        → member n outputs ≡ true
        → (v : T) × ((w : T) × ((r : Runnable T T) × (IsInput outputs n v
                × (lookup n cg.nodes ≡ some r)
                × (r v ≡ ok w)
                × (lookup n outputs ≡ some w))))
    pub merged :
        IsMerge cg.merge
          (terminal_values z outputs (sort_strings (ended outputs (keys cg.nodes))))
          result

  pub merge_values-IsMerge :
      (merge : Option (TypedMerge T)) (location : String) (vs : List T) (v : T)
      → merge_values merge location vs ≡ ok v
      → IsMerge merge vs v
  unfolding merge_values
  merge_values-IsMerge merge location [] v e = cc
  merge_values-IsMerge merge location (a ∷ []) v e =
      subst (IsMerge merge (a ∷ [])) (ap (λ q. elim q [ ok x ↦ x | err f ↦ v ]) e) (single merge a)
  merge_values-IsMerge none location (a ∷ b ∷ vs) v e = cc
  merge_values-IsMerge (some m) location (a ∷ b ∷ vs) v e = several m a b vs v e

  invoke-some :
      (r : Option (Runnable T T)) (v w : T)
      → invoke r v ≡ ok w
      → (f : Runnable T T) × ((r ≡ some f) × (f v ≡ ok w))
  unfolding invoke
  invoke-some none v w e = cc
  invoke-some (some f) v w e = (f, (refl, e))

  typed_input-IsInput :
      (outputs : Map T) (n : String) (v : T)
      → IsReady cg
      → typed_input cg n root outputs ≡ ok v
      → IsInput outputs n v
  unfolding typed_input
  typed_input-IsInput outputs n v ready e =
      let ps = get_or n [] cg.rev_edges in
      (
        ps,
        (λ p.
            ap (λ rev. count p (get_or n [] rev)) ready.reversed
            ∙ count-predecessors cg.edges p n ready.edges_distinct),
        by_emptiness (is_empty ps)
            (merge_values cg.merge (text_append "node " n) (values_of outputs ps))
            (IsMerge cg.merge (values_of outputs ps) v)
            (λ m. merge_values-IsMerge cg.merge (text_append "node " n) (values_of outputs ps) v m)
            e,
      )
    where
      by_emptiness :
          (b : Bool) (q : Result T) (Merged : Type ℓ)
          → (q ≡ ok v → Merged)
          → (if b then ok root else q) ≡ ok v
          → if b then root ≡ v else Merged
      by_emptiness true q Merged merges e' = ap (λ k. elim k [ ok x ↦ x | err f ↦ v ]) e'
      by_emptiness false q Merged merges e' = merges e'

  pub Solves-IsInput :
      (outputs : Map T) (n : String)
      → IsReady cg
      → Solves z cg root outputs n
      → (v : T) × ((w : T) × ((r : Runnable T T) × (IsInput outputs n v
              × (lookup n cg.nodes ≡ some r)
              × (r v ≡ ok w)
              × (lookup n outputs ≡ some w))))
  Solves-IsInput outputs n ready (v, (w, (given, result, stored))) =
      let (r, (known, runs)) = invoke-some (lookup n cg.nodes) v w result in
      (v, (w, (r, (typed_input-IsInput outputs n v ready given, known, runs, stored))))
