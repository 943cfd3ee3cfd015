-- ===== src/Graph/Typed/Fed.antt =====
-- graph/typed_graph.go: an entry node that has a predecessor.
use Prim.Native.String.{◌++◌ as text_append}
use covonaut.Base.{
  ◌<◌, String, List, [], ◌∷◌, true, false, ◌==◌, ltb, lookup, get_or, ◌≡◌, refl, arith, eq_iff, Has,
  concat, count, count-append, Bool-cases, inl, inr, ◌⊎◌,
}
use covonaut.Agentcore.Errors.{ok, err, plain, no_values}
use covonaut.Graph.{is_empty}
use covonaut.Graph.Typed.{
  CompiledTypedGraph, Running, reachable_names, merge_values, values_of, typed_input, launch_typed,
  commit_typed, run_typed_layer, run_typed_layers, run_typed,
}

module _ {ℓ} {T : Type ℓ} where
  values_of-empty : (ps : List String) → values_of {T = T} [] ps ≡ []
  unfolding values_of lookup
  values_of-empty [] = refl
  values_of-empty (p ∷ ps) = values_of-empty ps

  -- At first only the entry can be reached.
  abbrev started : String → Running T
  started entry = record { outputs = []; reachable = (entry, true) ∷ []; steps = 0 }

  module _ (z : T) (cg : CompiledTypedGraph T) (input : T)
      (fed : is_empty (get_or cg.entry [] cg.rev_edges) ≡ false) (room : 0 < cg.max_steps) where
    entry_input :
        typed_input cg cg.entry input [] ≡ err (plain (no_values (text_append "node " cg.entry)))
    unfolding typed_input merge_values
    entry_input = rw (fed, values_of-empty (get_or cg.entry [] cg.rev_edges)) refl

    launch-fed :
        (ns : List String)
        → launch_typed cg input [] (cg.entry ∷ ns) 0
          ≡ err (plain (no_values (text_append "node " cg.entry)))
    unfolding launch_typed
    launch-fed ns =
        let within : ltb cg.max_steps 1 ≡ false = ground arith in rw (within, entry_input) refl

    -- Either nothing of a layer starts, or the first node to start is the entry.
    first_reached :
        (layer : List String)
        → ((reachable_names ((cg.entry, true) ∷ []) layer ≡ []) × (count cg.entry layer ≡ 0))
          ⊎ ((ns : List String) × (reachable_names ((cg.entry, true) ∷ []) layer ≡ cg.entry ∷ ns))
    unfolding reachable_names lookup
    first_reached [] = inl (refl, refl)
    first_reached (n ∷ ns) = elim (Bool-cases (cg.entry == n)) [
      | inl this ↦
          inr (reachable_names ((cg.entry, true) ∷ []) ns, ground (arith, this, eq_iff cg.entry n))
      | inr other ↦ elim (first_reached ns) [
        | inl (idle, never) ↦ inl (
          ground (arith, other, idle),
          ground (arith, other, never, eq_iff cg.entry n, eq_iff n cg.entry),
        )
        | inr (later, first) ↦ inr (later, ground (arith, other, first))
      ]
    ]

    -- A layer of which nothing starts changes nothing.
    layer-idle :
        (l : List String)
        → reachable_names ((cg.entry, true) ∷ []) l ≡ []
        → run_typed_layer z cg input l (started cg.entry) ≡ ok (started cg.entry)
    unfolding run_typed_layer launch_typed commit_typed
    layer-idle l idle = rw idle refl

    layer-fed :
        (l ns : List String)
        → reachable_names ((cg.entry, true) ∷ []) l ≡ cg.entry ∷ ns
        → run_typed_layer z cg input l (started cg.entry)
          ≡ err (plain (no_values (text_append "node " cg.entry)))
    unfolding run_typed_layer
    layer-fed l ns first = rw (first, launch-fed ns) refl

    layers-fed :
        (ls : List (List String))
        → Has cg.entry (concat ls)
        → run_typed_layers z cg input ls (started cg.entry)
          ≡ err (plain (no_values (text_append "node " cg.entry)))
    unfolding run_typed_layers
    layers-fed [] some_entry = absurd (omega arith)
    layers-fed (l ∷ ls) some_entry = elim (first_reached l) [
      | inl (idle, never) ↦
          rw (layer-idle l idle)
            (layers-fed ls (omega (arith, never, count-append cg.entry l (concat ls))))
      | inr (ns, first) ↦ rw (layer-fed l ns first) refl
    ]

-- Let the entry of a compiled typed graph have a predecessor, let it stand in a layer, and let the
-- step limit not be zero. Then every run fails, since there is no value for the entry: the input of
-- the run goes only to a node without predecessors.
pub run_typed-fed {ℓ} :
    {T : Type ℓ} (z : T) (cg : CompiledTypedGraph T) (input : T)
    → is_empty (get_or cg.entry [] cg.rev_edges) ≡ false
    → 0 < cg.max_steps
    → Has cg.entry (concat cg.layers)
    → run_typed z cg input ≡ err (plain (no_values (text_append "node " cg.entry)))
unfolding run_typed
run_typed-fed z cg input fed room placed = rw (layers-fed z cg input fed room cg.layers placed) refl
