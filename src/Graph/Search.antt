-- ===== src/Graph/Search.antt =====
-- `bfsBuild` of util/include/util/graph.h.
use cc_base.Base.{
  ℕ, zero, suc, Bool, false, Option, none, some, List, [], ◌∷◌, ◌++◌, if◌then◌else◌, ◌==◌,
}
use cc_base.Cstring.{Bytes}
use cc_base.Sources.Keys.{mem_text}
use cc_base.Graph.{Graphviz, Graph, insert_text, create_edge, decorate_node, decorate_edge}

-- The limit `level_`: `negsuc n` is -1 - n.
pub data ℤ : Type 0 where
  pos negsuc : ℕ → ℤ

pub record Search (G : Type 0) : Type 0 where
  pub graph : Graph G
  pub visited : List Bytes
  pub queue : List Bytes
  pub level : ℕ

-- A call of bfsBuild: the relation, which may add nodes to the graph, and the decorations.
pub record Walk (G : Type 0) : Type 0 where
  pub relations : Graph G → Bytes → Graph G × List Bytes
  pub node_decoration : List (Bytes × Bytes)
  pub edge_decoration : List (Bytes × Bytes)

-- `walkLevel` behind a round is the negation of this.
unfoldable pub is_last : ℤ → ℕ → Bool
is_last (pos limit) level = level == limit
is_last (negsuc n) level = false

module _ {G : Type 0} (V : Graphviz G) (w : Walk G) where
  -- A node that was not visited is queued and decorated.
  unfoldable pub visit : Bytes → Search G → Search G
  unfolding insert_text
  visit node s = if mem_text node s.visited then s else record s {
    queue = s.queue ++ node ∷ [];
    visited = insert_text node s.visited;
    graph = decorate_node V s.graph node w.node_decoration;
  }

  unfoldable pub draw : Bytes → Bytes → Search G → Search G
  draw current node s =
      let (g, edge) = create_edge V s.graph current node in
      record s { graph = decorate_edge V g edge w.edge_decoration }

  -- The loop over the related nodes.
  unfoldable pub scan : Bytes → List Bytes → Search G → Search G
  unfolding visit draw
  scan current [] s = s
  scan current (node ∷ nodes) s = scan current nodes (draw current node (visit node s))

  -- A round, with the node at the front of the queue and the rest of the queue.
  unfoldable pub expand : Bytes → List Bytes → Search G → Search G
  unfolding scan
  expand current rest s =
      let (g, nodes) = w.relations s.graph current in
      let s = scan current nodes (record s { graph = g; queue = rest }) in
      record s { level = suc s.level }

  -- The loop, with the number of rounds that may follow; none when they do not suffice.
  unfoldable pub rounds : ℤ → ℕ → Search G → Option (Search G)
  unfolding expand is_last
  rounds limit zero s = elim s.queue [ [] ↦ some s | node ∷ rest ↦ none ]
  rounds limit (suc n) s = elim s.queue [
    | [] ↦ some s
    | node ∷ rest ↦
        let next = expand node rest s in
        let more = rounds limit n next in if is_last limit next.level then some next else more
  ]

  abbrev pub start : Graph G → Bytes → Search G
  start g node = record { graph = g; visited = []; queue = node ∷ []; level = 0 }

  -- `bfsBuild`, with the state at the end, which holds the returned set and the graph.
  unfoldable pub bfs_build : ℤ → ℕ → Graph G → Bytes → Option (Search G)
  unfolding rounds
  bfs_build (pos limit) n g node = rounds (pos limit) n (start g node)
  bfs_build (negsuc zero) n g node = rounds (negsuc zero) n (start g node)
  bfs_build (negsuc (suc k)) n g node = some (record (start g node) { queue = [] })
