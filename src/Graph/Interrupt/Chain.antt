-- ===== src/Graph/Interrupt/Chain.antt =====
-- Passes over layers of single nodes.
use covonaut.Base.{
  ℕ, suc, ◌+◌, ◌≤◌, String, List, [], ◌∷◌, ◌≡◌, ◌⊎◌, refl, sym, subst, arith, length, drop, Map,
  inl, inr,
}
use covonaut.Graph.Topo.{CompiledGraph}
use covonaut.Graph.Run.{reached}
use covonaut.Graph.Interrupt.{
  InterruptConfig, Progress, Pass, going, stopped, broken, and_then, visit, visit_all, visit_layers,
}
use covonaut.Graph.Interrupt.Plain.{
  Plain, done, bad, plain_then, plain_node, plain_all, plain_layers, visit-Visits, Passes, drop-suc,
  Passes-cons, visit-Passes, done, bad,
}

-- Every layer is a single node.
abbrev pub IsChain : List (List String) → Type 0
IsChain [] = Unit
IsChain (l ∷ ls) = (length l ≡ 1) × IsChain ls

module _ (cg : CompiledGraph) (input : String) (interrupts : Map InterruptConfig)
    (stamp : String) where
  and_then-going : (x : Pass) (f : Progress → Pass) → and_then (and_then x going) f ≡ and_then x f
  and_then-going (going p) f = refl
  and_then-going (stopped o cp ir) f = refl
  and_then-going (broken o e) f = refl

  plain_then-done :
      (r : Plain) (f : Map String → Plain) → plain_then (plain_then r done) f ≡ plain_then r f
  plain_then-done (done o) f = refl
  plain_then-done (bad o e) f = refl

  reached-single :
      (outputs : Map String) (n : String)
      → (reached cg.entry outputs (n ∷ []) ≡ []) ⊎ (reached cg.entry outputs (n ∷ []) ≡ n ∷ [])
  unfolding reached
  reached-single outputs n = ground arith

  plain_layers-reached :
      (n : String) (ls : List (List String)) (outputs : Map String)
      → reached cg.entry outputs (n ∷ []) ≡ n ∷ []
      → plain_layers cg input ((n ∷ []) ∷ ls) outputs
        ≡ plain_then (plain_node cg input n outputs) (plain_layers cg input ls)
  unfolding plain_layers plain_all
  plain_layers-reached n ls outputs e =
      rw e (plain_then-done (plain_node cg input n outputs) (plain_layers cg input ls))

  visit_layers-reached :
      (n : String) (ls : List (List String)) (idx : ℕ) (p : Progress)
      → reached cg.entry p.outputs (n ∷ []) ≡ n ∷ []
      → visit_layers cg interrupts input stamp ((n ∷ []) ∷ ls) idx p
        ≡ and_then
            (visit cg interrupts input stamp n idx p)
            (visit_layers cg interrupts input stamp ls (suc idx))
  unfolding visit_layers visit_all
  visit_layers-reached n ls idx p e =
      rw e (and_then-going (visit cg interrupts input stamp n idx p) _)

  pub layers-Passes :
      (all ls : List (List String)) (idx : ℕ) (p : Progress)
      → IsChain ls
      → drop idx all ≡ ls
      → p.steps + length ls ≤ cg.max_steps
      → Passes cg input interrupts stamp all ls p.skip
          (plain_layers cg input ls p.outputs)
          (visit_layers cg interrupts input stamp ls idx p)
  unfolding visit_layers plain_layers visit_all plain_all
  layers-Passes all [] idx p chain d fits = refl
  layers-Passes all ([] ∷ ls) idx p chain d fits = absurd (omega arith)
  layers-Passes all ((n ∷ m ∷ l) ∷ ls) idx p chain d fits = absurd (omega arith)
  layers-Passes all ((n ∷ []) ∷ ls) idx p chain d fits = elim (reached-single p.outputs n) [
    | inl idle ↦ rw idle (
        Passes-cons cg input interrupts stamp all (n ∷ []) ls p.skip p.skip _ _ (
          layers-Passes all ls (suc idx) p chain.1
            (drop-suc cg input interrupts stamp idx all (n ∷ []) ls d) (omega arith)))
    | inr runs ↦
        subst
          (Passes cg input interrupts stamp all ((n ∷ []) ∷ ls) p.skip
            (plain_layers cg input ((n ∷ []) ∷ ls) p.outputs))
          (sym (visit_layers-reached n ls idx p runs))
          (visit-Passes cg input interrupts stamp all (n ∷ []) ls idx p.outputs p.steps p.skip
            (plain_node cg input n p.outputs) _ d (plain_layers-reached n ls p.outputs runs)
            (visit-Visits cg input interrupts stamp n idx p.outputs p.steps p.skip (omega arith))
            (λ q s.
              layers-Passes all ls (suc idx) q chain.1
                (drop-suc cg input interrupts stamp idx all (n ∷ []) ls d) (omega arith)))
  ]
