-- ===== src/Graph/Edges.antt =====
-- Which edges `createEdge` and a round of `bfsBuild` add.
use cc_base.Base.{
  ℕ, Bool, true, ◌&&◌, ◌||◌, List, [], ◌∷◌, ◌≡◌, refl, ap, ◌∙◌, inl, inr, arith, Bool-cases,
  Option-cases,
}
use cc_base.Cstring.{Bytes, streq}
use cc_base.Cstring.Laws.{streq_refl}
use cc_base.Sources.Keys.{mem_text, find_key}
use cc_base.Graph.{
  Graphviz, Graph, edge_at, set_node_attribute, set_edge_attribute, create_edge, decorate_node,
  decorate_edge, generate_id,
}
use cc_base.Graph.Search.{Search, Walk, visit, draw, scan}

-- The nodes and the edges that Graphviz finds by their names, and what its calls do to them.
pub record Finds {G : Type 0} (V : Graphviz G) : Type 0 where
  pub has_node : G → Bytes → Bool
  pub has_edge : G → Bytes → Bytes → Bool
  pub edge_agedge :
      (g : G) (a b id u v : Bytes)
      → has_node g a ≡ true
      → has_node g b ≡ true
      → has_edge (V.agedge g a b id).0 u v ≡ (has_edge g u v || (streq u a && streq v b))
  pub node_agedge : (g : G) (a b id x : Bytes) → has_node (V.agedge g a b id).0 x ≡ has_node g x
  pub edge_set_node :
      (g : G) (n k d u v : Bytes) → has_edge (V.agsafeset_node g n k d) u v ≡ has_edge g u v
  pub node_set_node :
      (g : G) (n k d x : Bytes) → has_node (V.agsafeset_node g n k d) x ≡ has_node g x
  pub edge_set_edge :
      (g : G) (e : ℕ) (k d u v : Bytes) → has_edge (V.agsafeset_edge g e k d) u v ≡ has_edge g u v
  pub node_set_edge :
      (g : G) (e : ℕ) (k d x : Bytes) → has_node (V.agsafeset_edge g e k d) x ≡ has_node g x

-- The relation of a search: its nodes do not depend on what is drawn, it makes nodes of them, keeps
-- all other nodes, and draws no edge.
pub record Relates {G : Type 0} (V : Graphviz G) (f : Finds V) (w : Walk G)
    (related : Bytes → List Bytes) : Type 0 where
  pub same : (g : Graph G) (n : Bytes) → (w.relations g n).1 ≡ related n
  pub made :
      (g : Graph G) (n m : Bytes)
      → mem_text m (related n) ≡ true
      → f.has_node (w.relations g n).0.graph m ≡ true
  pub kept :
      (g : Graph G) (n x : Bytes)
      → f.has_node g.graph x ≡ true
      → f.has_node (w.relations g n).0.graph x ≡ true
  pub undrawn :
      (g : Graph G) (n u v : Bytes)
      → f.has_edge (w.relations g n).0.graph u v ≡ f.has_edge g.graph u v

module _ {G : Type 0} (V : Graphviz G) (f : Finds V) where
  graph-edge_at : (g : Graph G) (edge : Bytes) → (edge_at V g edge).0.graph ≡ g.graph
  unfolding edge_at
  graph-edge_at g edge = elim (Option-cases (find_key g.edge_map edge)) [
    | inl e ↦ rw (edge_at, e) refl
    | inr (a, e) ↦ rw (edge_at, e) refl
  ]

  edge-set_edge_attribute :
      (g : Graph G) (edge key value u v : Bytes)
      → f.has_edge (set_edge_attribute V g edge key value).graph u v ≡ f.has_edge g.graph u v
  unfolding set_edge_attribute
  edge-set_edge_attribute g edge key value u v =
      f.edge_set_edge _ (edge_at V g edge).1 key value u v
      ∙ ap (λ x. f.has_edge x u v) (graph-edge_at g edge)

  node-set_edge_attribute :
      (g : Graph G) (edge key value x : Bytes)
      → f.has_node (set_edge_attribute V g edge key value).graph x ≡ f.has_node g.graph x
  unfolding set_edge_attribute
  node-set_edge_attribute g edge key value x =
      f.node_set_edge _ (edge_at V g edge).1 key value x
      ∙ ap (λ y. f.has_node y x) (graph-edge_at g edge)

  edge-decorate_edge :
      (g : Graph G) (edge : Bytes) (d : List (Bytes × Bytes)) (u v : Bytes)
      → f.has_edge (decorate_edge V g edge d).graph u v ≡ f.has_edge g.graph u v
  unfolding decorate_edge
  edge-decorate_edge g edge [] u v = refl
  edge-decorate_edge g edge ((key, value) ∷ d) u v =
      edge-decorate_edge (set_edge_attribute V g edge key value) edge d u v
      ∙ edge-set_edge_attribute g edge key value u v

  node-decorate_edge :
      (g : Graph G) (edge : Bytes) (d : List (Bytes × Bytes)) (x : Bytes)
      → f.has_node (decorate_edge V g edge d).graph x ≡ f.has_node g.graph x
  unfolding decorate_edge
  node-decorate_edge g edge [] x = refl
  node-decorate_edge g edge ((key, value) ∷ d) x =
      node-decorate_edge (set_edge_attribute V g edge key value) edge d x
      ∙ node-set_edge_attribute g edge key value x

  edge-decorate_node :
      (g : Graph G) (node : Bytes) (d : List (Bytes × Bytes)) (u v : Bytes)
      → f.has_edge (decorate_node V g node d).graph u v ≡ f.has_edge g.graph u v
  unfolding decorate_node set_node_attribute
  edge-decorate_node g node [] u v = refl
  edge-decorate_node g node ((key, value) ∷ d) u v =
      edge-decorate_node (set_node_attribute V g node key value) node d u v
      ∙ f.edge_set_node g.graph node key value u v

  node-decorate_node :
      (g : Graph G) (node : Bytes) (d : List (Bytes × Bytes)) (x : Bytes)
      → f.has_node (decorate_node V g node d).graph x ≡ f.has_node g.graph x
  unfolding decorate_node set_node_attribute
  node-decorate_node g node [] x = refl
  node-decorate_node g node ((key, value) ∷ d) x =
      node-decorate_node (set_node_attribute V g node key value) node d x
      ∙ f.node_set_node g.graph node key value x

  edge-create_edge :
      (g : Graph G) (a b u v : Bytes)
      → f.has_node g.graph a ≡ true
      → f.has_node g.graph b ≡ true
      → f.has_edge (create_edge V g a b).0.graph u v
        ≡ (f.has_edge g.graph u v || (streq u a && streq v b))
  unfolding create_edge generate_id
  edge-create_edge g a b u v ha hb =
      edge-set_edge_attribute _ _ _ _ u v
      ∙ (edge-set_edge_attribute _ _ _ _ u v ∙ f.edge_agedge g.graph a b _ u v ha hb)

  node-create_edge :
      (g : Graph G) (a b x : Bytes)
      → f.has_node (create_edge V g a b).0.graph x ≡ f.has_node g.graph x
  unfolding create_edge generate_id
  node-create_edge g a b x =
      node-set_edge_attribute _ _ _ _ x
      ∙ (node-set_edge_attribute _ _ _ _ x ∙ f.node_agedge g.graph a b _ x)

module _ {G : Type 0} (V : Graphviz G) (f : Finds V) (w : Walk G) where
  graph-visit :
      (node u v x : Bytes) (s : Search G)
      → (f.has_edge (visit V w node s).graph.graph u v ≡ f.has_edge s.graph.graph u v)
        × (f.has_node (visit V w node s).graph.graph x ≡ f.has_node s.graph.graph x)
  unfolding visit
  graph-visit node u v x s = elim (Bool-cases (mem_text node s.visited)) [
    | inl seen ↦ rw seen (refl, refl)
    | inr new ↦ rw new (
      edge-decorate_node V f s.graph node w.node_decoration u v,
      node-decorate_node V f s.graph node w.node_decoration x,
    )
  ]

  node-draw :
      (x current node : Bytes) (s : Search G)
      → f.has_node (draw V w current node (visit V w node s)).graph.graph x
        ≡ f.has_node s.graph.graph x
  unfolding draw
  node-draw x current node s =
      node-decorate_edge V f _ _ w.edge_decoration x
      ∙ (node-create_edge V f (visit V w node s).graph current node x
          ∙ (graph-visit node x x x s).1)

  edge-draw :
      (u v current node : Bytes) (s : Search G)
      → f.has_node s.graph.graph current ≡ true
      → f.has_node s.graph.graph node ≡ true
      → f.has_edge (draw V w current node (visit V w node s)).graph.graph u v
        ≡ (f.has_edge s.graph.graph u v || (streq u current && streq v node))
  unfolding draw
  edge-draw u v current node s h h2 =
      edge-decorate_edge V f _ _ w.edge_decoration u v
      ∙ (edge-create_edge V f (visit V w node s).graph current node u v
            ((graph-visit node u v current s).1 ∙ h) ((graph-visit node u v node s).1 ∙ h2)
          ∙ ap (λ b. b || (streq u current && streq v node)) (graph-visit node u v u s).0)

  pub node-scan :
      (x current : Bytes) (nodes : List Bytes) (s : Search G)
      → f.has_node (scan V w current nodes s).graph.graph x ≡ f.has_node s.graph.graph x
  unfolding scan draw
  node-scan x current [] s = refl
  node-scan x current (node ∷ nodes) s =
      node-scan x current nodes (draw V w current node (visit V w node s))
      ∙ node-draw x current node s

  pub edge-scan :
      (u v current : Bytes) (nodes : List Bytes) (s : Search G)
      → f.has_node s.graph.graph current ≡ true
      → ((n : Bytes) → mem_text n nodes ≡ true → f.has_node s.graph.graph n ≡ true)
      → f.has_edge (scan V w current nodes s).graph.graph u v
        ≡ (f.has_edge s.graph.graph u v || (streq u current && mem_text v nodes))
  unfolding scan draw mem_text
  edge-scan u v current [] s h hs = ground arith
  edge-scan u v current (node ∷ nodes) s h hs =
      let rest =
        edge-scan u v current nodes (draw V w current node (visit V w node s))
          (node-draw current current node s ∙ h)
          (λ n m. node-draw n current node s ∙ hs n (ground (arith, m))) in
      ground
        (arith, rest, edge-draw u v current node s h (hs node (ground (arith, streq_refl node))))
