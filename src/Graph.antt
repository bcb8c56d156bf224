-- ===== src/Graph.antt =====
-- util/src/graph.cpp and util/include/util/graph.h: a graph that is drawn by Graphviz.
pub mod Ids
pub mod Search
pub mod Scan
pub mod Work
pub mod Reached
pub mod Limited
pub mod Edges
pub mod Drawn
use cc_base.Base.{
  ℕ, zero, suc, Bool, true, false, Option, none, some, List, [], ◌∷◌, if◌then◌else◌, ◌==◌, length,
}
use cc_base.Cstring.{Bytes, codes, streq}
use cc_base.Sources.Keys.{bytes_lt, mem_text, find_key, assign_key}

-- What the code calls of Graphviz, on the graphs `G` of that library. An edge is a pointer.
pub record Graphviz (G : Type 0) : Type 0 where
  -- `agnode (g, name, 1)`
  pub agnode : G → Bytes → G
  -- `agedge (g, agnode (g, from, 0), agnode (g, to, 0), name, 1)`
  pub agedge : G → Bytes → Bytes → Bytes → G × ℕ
  -- `agsafeset` of the node `agnode (g, name, 0)`, and of an edge
  pub agsafeset_node : G → Bytes → Bytes → Bytes → G
  pub agsafeset_edge : G → ℕ → Bytes → Bytes → G

-- `ids` and `edge_map` are an `unordered_set` and an `unordered_map`, whose order is never seen.
pub record Graph (G : Type 0) : Type 0 where
  pub graph : G
  pub edge_map : List (Bytes × ℕ)
  pub ids : List Bytes
  pub current_id : Bytes

-- The body of the loop of `generateId`: letters `z` turn into `a` up to the first other letter,
-- which is increased, or up to the end, where an `a` is put.
unfoldable pub next_id : Bytes → Bytes
next_id [] = b'a' ∷ []
next_id (c ∷ id) = let rest = next_id id in if c == b'z' then b'a' ∷ rest else suc c ∷ id

-- The loop of `generateId`, with the number of rounds that may still reject an identifier. The
-- round behind them is the last one.
unfoldable pub unused_id : List Bytes → ℕ → Bytes → Bytes
unfolding next_id
unused_id ids zero id = next_id id
unused_id ids (suc n) id =
    let rest = unused_id ids n (next_id id) in
    if mem_text (next_id id) ids then rest else next_id id

-- `insert` into a `std::set`
unfoldable pub insert_text : Bytes → List Bytes → List Bytes
insert_text x [] = x ∷ []
insert_text x (y ∷ ys) =
    let rest = insert_text x ys in
    if streq x y then y ∷ ys else if bytes_lt x y then x ∷ (y ∷ ys) else y ∷ rest

module _ {G : Type 0} (V : Graphviz G) where
  -- `generateId`
  unfoldable pub generate_id : Graph G → Graph G × Bytes
  unfolding unused_id
  generate_id g =
      let id = unused_id g.ids (length g.ids) g.current_id in (record g { current_id = id }, id)

  -- `setNodeAttribute`
  unfoldable pub set_node_attribute : Graph G → Bytes → Bytes → Bytes → Graph G
  set_node_attribute g node key value = record g { graph = V.agsafeset_node g.graph node key value }

  -- `_edgeMap[edge_]`: a missing edge becomes a null pointer.
  unfoldable pub edge_at : Graph G → Bytes → Graph G × ℕ
  edge_at g edge = elim (find_key g.edge_map edge) [
    | some e ↦ (g, e)
    | none ↦ (record g { edge_map = assign_key edge 0 g.edge_map }, 0)
  ]

  -- `setEdgeAttribute`
  unfoldable pub set_edge_attribute : Graph G → Bytes → Bytes → Bytes → Graph G
  unfolding edge_at
  set_edge_attribute g edge key value =
      let (g, e) = edge_at g edge in record g { graph = V.agsafeset_edge g.graph e key value }

  -- An empty name stands for a generated one.
  unfoldable pub node_id : Graph G → Bytes → Graph G × Bytes
  unfolding generate_id
  node_id g [] = generate_id g
  node_id g (c ∷ name) = (g, c ∷ name)

  -- `getOrCreateNode` in the root graph. The font size is set at the name that was given.
  unfoldable pub get_or_create_node : Graph G → Bytes → Graph G × Bytes
  unfolding node_id set_node_attribute
  get_or_create_node g name =
      let (g, id) = node_id g name in
      let g = record g { ids = insert_text id g.ids; graph = V.agnode g.graph id } in
      let g = set_node_attribute g name (codes "fontsize") (codes "11") in
      (set_node_attribute g id (codes "id") id, id)

  -- `createNode` in the root graph
  unfoldable pub create_node : Graph G → Graph G × Bytes
  unfolding generate_id get_or_create_node
  create_node g = let (g, id) = generate_id g in get_or_create_node g id

  -- `createEdge`
  unfoldable pub create_edge : Graph G → Bytes → Bytes → Graph G × Bytes
  unfolding generate_id set_edge_attribute
  create_edge g source target =
      let (g, id) = generate_id g in
      let (drawn, e) = V.agedge g.graph source target id in
      let g = record g { graph = drawn; edge_map = assign_key id e g.edge_map } in
      let g = set_edge_attribute g id (codes "fontsize") (codes "11") in
      (set_edge_attribute g id (codes "id") id, id)

  -- The loops over a decoration.
  unfoldable pub decorate_node : Graph G → Bytes → List (Bytes × Bytes) → Graph G
  unfolding set_node_attribute
  decorate_node g node [] = g
  decorate_node g node ((key, value) ∷ d) =
      decorate_node (set_node_attribute g node key value) node d

  unfoldable pub decorate_edge : Graph G → Bytes → List (Bytes × Bytes) → Graph G
  unfolding set_edge_attribute
  decorate_edge g edge [] = g
  decorate_edge g edge ((key, value) ∷ d) =
      decorate_edge (set_edge_attribute g edge key value) edge d
