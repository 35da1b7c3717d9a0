-- ===== src/Relationships/Graph.antt =====
-- The graph says what the relationships say.
use omnibase.Prelude.{
  ◌≡◌, refl, ap, ◌∙◌, ◌&&◌, ◌||◌, inl, inr, Bool-cases, List, [], ◌∷◌, any, arith, if◌then◌else◌,
}
use omnibase.Text.{Text, text_eq}
use omnibase.Text.Laws.{text_eq_iff}
use omnibase.Collections.{Map, lookup, insert, has, add}
use omnibase.Collections.Laws.{lookup-insert, has-add}
use omnibase.Relationships.{
  Relationship, TableNode, node_of, get_node, label, reverse_label, add_reference,
  add_referenced_by, add_relationship, build_graph,
}

node_of-insert :
    (name other : Text) (node : TableNode) (nodes : Map TableNode)
    → node_of other (insert name node nodes)
      ≡ (if text_eq name other then node else node_of other nodes)
unfolding node_of
node_of-insert name other node nodes =
    rw (lookup-insert name other node nodes) (elim (Bool-cases (text_eq name other)) [
      | inl same ↦ rw same refl
      | inr apart ↦ rw apart refl
    ])

-- Setting a node that agrees in `part` with the one it replaces.
part-insert :
    {A : Type 0} (part : TableNode → A) (name other : Text) (node : TableNode)
    (nodes : Map TableNode)
    → part node ≡ part (node_of name nodes)
    → part (node_of other (insert name node nodes)) ≡ part (node_of other nodes)
part-insert part name other node nodes agree =
    ap part (node_of-insert name other node nodes) ∙ elim (Bool-cases (text_eq name other)) [
      | inl same ↦
          rw same (agree ∙ ap (λ n. part (node_of n nodes)) ((text_eq_iff name other).0 same))
      | inr apart ↦ rw apart refl
    ]

-- Setting a node that has one text more in `part` than the one it replaces.
part-insert_more :
    (part : TableNode → List Text) (name other text wanted : Text) (node : TableNode)
    (nodes : Map TableNode)
    → part node ≡ add text (part (node_of name nodes))
    → has wanted (part (node_of other (insert name node nodes)))
      ≡ (text_eq name other && text_eq text wanted || has wanted (part (node_of other nodes)))
part-insert_more part name other text wanted node nodes more =
    ap (λ n. has wanted (part n)) (node_of-insert name other node nodes)
    ∙ elim (Bool-cases (text_eq name other)) [
      | inl same ↦ rw same (
          ap (has wanted) more
          ∙ has-add text wanted (part (node_of name nodes))
          ∙ ap (λ n. text_eq text wanted || has wanted (part (node_of n nodes)))
              ((text_eq_iff name other).0 same))
      | inr apart ↦ rw apart refl
    ]

-- One relationship adds its label to the node it starts from, and nothing else, to `references`.
references-add_relationship :
    (nodes : Map TableNode) (rel : Relationship) (name text : Text)
    → has text (node_of name (add_relationship nodes rel)).references ≡ (
        text_eq rel.from_table name && text_eq (label rel) text
        || has text (node_of name nodes).references)
unfolding add_relationship add_reference add_referenced_by get_node
references-add_relationship nodes rel name text =
    ap (has text) (part-insert (λ n. n.references) rel.to_table name _ _ refl)
    ∙ part-insert_more (λ n. n.references) rel.from_table name (label rel) text _ _ refl
    ∙ ap (λ refs. text_eq rel.from_table name && text_eq (label rel) text || has text refs)
        (part-insert (λ n. n.references) rel.to_table name _ _ refl
          ∙ part-insert (λ n. n.references) rel.from_table name _ _ refl)

referenced_by-add_relationship :
    (nodes : Map TableNode) (rel : Relationship) (name text : Text)
    → has text (node_of name (add_relationship nodes rel)).referenced_by ≡ (
        text_eq rel.to_table name && text_eq (reverse_label rel) text
        || has text (node_of name nodes).referenced_by)
unfolding add_relationship add_reference add_referenced_by get_node
referenced_by-add_relationship nodes rel name text =
    part-insert_more (λ n. n.referenced_by) rel.to_table name (reverse_label rel) text _ _ refl
    ∙ ap (λ refs. text_eq rel.to_table name && text_eq (reverse_label rel) text || has text refs)
        (part-insert (λ n. n.referenced_by) rel.from_table name _ _ refl
          ∙ part-insert (λ n. n.referenced_by) rel.to_table name _ _ refl
          ∙ part-insert (λ n. n.referenced_by) rel.from_table name _ _ refl)

references-build_graph :
    (nodes : Map TableNode) (rels : List Relationship) (name text : Text)
    → has text (node_of name (build_graph nodes rels)).references ≡ (
        any (λ r. text_eq r.from_table name && text_eq (label r) text) rels
        || has text (node_of name nodes).references)
unfolding build_graph
references-build_graph nodes [] name text = refl
references-build_graph nodes (rel ∷ rels) name text = ground (
  arith,
  references-build_graph (add_relationship nodes rel) rels name text,
  references-add_relationship nodes rel name text,
)

referenced_by-build_graph :
    (nodes : Map TableNode) (rels : List Relationship) (name text : Text)
    → has text (node_of name (build_graph nodes rels)).referenced_by ≡ (
        any (λ r. text_eq r.to_table name && text_eq (reverse_label r) text) rels
        || has text (node_of name nodes).referenced_by)
unfolding build_graph
referenced_by-build_graph nodes [] name text = refl
referenced_by-build_graph nodes (rel ∷ rels) name text = ground (
  arith,
  referenced_by-build_graph (add_relationship nodes rel) rels name text,
  referenced_by-add_relationship nodes rel name text,
)

-- In the graph of any relationships, a node lists a reference exactly where one of the
-- relationships starts at its table and has that label, and it is listed as referenced exactly
-- where one of them ends there and has that reverse label.
pub build_graph-exact :
    (rels : List Relationship) (name text : Text)
    → (has text (node_of name (build_graph [] rels)).references
        ≡ any (λ r. text_eq r.from_table name && text_eq (label r) text) rels)
      × (has text (node_of name (build_graph [] rels)).referenced_by
          ≡ any (λ r. text_eq r.to_table name && text_eq (reverse_label r) text) rels)
unfolding has node_of lookup
build_graph-exact rels name text = (
  ground (arith, references-build_graph [] rels name text),
  ground (arith, referenced_by-build_graph [] rels name text),
)
