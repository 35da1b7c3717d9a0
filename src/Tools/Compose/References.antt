-- ===== src/Tools/Compose/References.antt =====
-- The references of a tool among the edges of the graph that is searched for cycles.
use omnibase.Prelude.{◌≡◌, refl, inl, inr, true, false, some, List, [], ◌∷◌, arith, Bool-cases}
use omnibase.Text.{Text, text_eq}
use omnibase.Text.Laws.{text_eq_iff, text_eq_refl}
use omnibase.Collections.{Map, lookup, has}
use omnibase.Collections.Laws.{has-add}
use omnibase.Types.{ComposeStep, CustomToolConfig}
use omnibase.Tools.Cycles.{
  named_tool, add_named, refs_of, compose_refs, edge, edges_of, neighbors_of,
}
use omnibase.Tools.Cycles.Sound.{Below}

-- The references of a pipeline hold those of each of its steps.
pub has-refs_of :
    (t : Text) (refs : List Text) (steps : List ComposeStep)
    → has t refs ≡ true
    → has t (refs_of refs steps) ≡ true
unfolding refs_of
has-refs_of t refs [] h = h
has-refs_of t refs (step ∷ steps) h =
    has-refs_of t (add_named (named_tool step.tool) refs) steps (added (named_tool step.tool))
  where
    added : (named : List Text) → has t (add_named named refs) ≡ true
    added [] = h
    added (n ∷ ns) = rw (has-add n t refs) (ground (arith, h))

pub edge_of :
    (name : Text) (refs : List Text) (rest : Map (List Text)) (t : Text)
    → has t refs ≡ true
    → has t (neighbors_of (edge name refs rest) name) ≡ true
edge_of name [] rest t h = let bad : false ≡ true = (unfold has in h) in cc
edge_of name (r ∷ refs) rest t h = unfold lookup in rw (text_eq_refl name) h

pub edge_other :
    (k name : Text) (refs : List Text) (rest : Map (List Text))
    → text_eq k name ≡ false
    → neighbors_of (edge k refs rest) name ≡ neighbors_of rest name
edge_other k name [] rest h = refl
edge_other k name (r ∷ refs) rest h = unfold lookup in rw h refl

some-injective : {A : Type 0} {a b : A} → some a ≡ some b → a ≡ b
some-injective h = cc

-- A tool refers to what its pipeline names.
pub named-Below :
    (tools : Map CustomToolConfig) (name : Text) (tool : CustomToolConfig) (t : Text)
    → lookup name tools ≡ some tool
    → has t (compose_refs tool.compose) ≡ true
    → Below (edges_of tools) t name
unfolding lookup edges_of
named-Below [] name tool t found h = cc
named-Below ((k, first) ∷ rest) name tool t found h = elim (Bool-cases (text_eq k name)) [
  | inl same ↦
      let e : k ≡ name = (text_eq_iff k name).0 same in
      let is : first ≡ tool = some-injective (rw same at found) in
      rw (e, is) (edge_of name (compose_refs tool.compose) (edges_of rest) t h)
  | inr other ↦
      rw (edge_other k name (compose_refs first.compose) (edges_of rest) other)
        (named-Below rest name tool t (rw other at found) h)
]
