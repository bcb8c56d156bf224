-- ===== src/Graph/Drawn.antt =====
-- A search without a limit draws the relation between the nodes that can be reached.
use cc_base.Base.{
  suc, Bool, true, ◌&&◌, ◌||◌, some, List, [], ◌∷◌, ◌≡◌, ap, sym, ◌∙◌, inl, inr, arith, length, All,
  Bool-cases,
}
use cc_base.Cstring.{Bytes, streq}
use cc_base.Cstring.Laws.{streq_refl, streq→eq}
use cc_base.Sources.Keys.{mem_text}
use cc_base.Graph.{Graphviz, Graph}
use cc_base.Graph.Search.{negsuc, Search, Walk, expand, start, bfs_build}
use cc_base.Graph.Work.{work-start, visited-expand, queue-expand}
use cc_base.Graph.Reached.{rounds_rule, rounds_end}
use cc_base.Graph.Edges.{Finds, Relates, node-scan, edge-scan}

module _ {G : Type 0} (V : Graphviz G) (f : Finds V) (w : Walk G) (related : Bytes → List Bytes)
    (r : Relates V f w related) where
  -- A round keeps the nodes, makes nodes of the related ones, and draws the edges to them.
  abbrev popped : Bytes → List Bytes → Search G → Search G
  popped node rest s = record s { graph = (w.relations s.graph node).0; queue = rest }

  node-expand :
      (x node : Bytes) (rest : List Bytes) (s : Search G)
      → f.has_node s.graph.graph x ≡ true
      → f.has_node (expand V w node rest s).graph.graph x ≡ true
  unfolding expand
  node-expand x node rest s h =
      node-scan V f w x node (w.relations s.graph node).1 (popped node rest s)
      ∙ r.kept s.graph node x h

  made-expand :
      (x node : Bytes) (rest : List Bytes) (s : Search G)
      → mem_text x (related node) ≡ true
      → f.has_node (expand V w node rest s).graph.graph x ≡ true
  unfolding expand
  made-expand x node rest s m =
      node-scan V f w x node (w.relations s.graph node).1 (popped node rest s)
      ∙ r.made s.graph node x m

  edge-expand :
      (u v node : Bytes) (rest : List Bytes) (s : Search G)
      → f.has_node s.graph.graph node ≡ true
      → f.has_edge (expand V w node rest s).graph.graph u v
        ≡ (f.has_edge s.graph.graph u v || (streq u node && mem_text v (related node)))
  unfolding expand
  edge-expand u v node rest s h = rw (r.same s.graph node) (
      edge-scan V f w u v node (related node) (popped node rest s) (r.kept s.graph node node h)
        (r.made s.graph node)
      ∙ ap (λ b. b || (streq u node && mem_text v (related node))) (r.undrawn s.graph node u v))

  module _ (g : Graph G) (source : Bytes) where
    abbrev known : Search G → Bytes → Bool
    known s u = streq u source || mem_text u s.visited

    record Inv (s : Search G) : Type 0 where
      queued : (u : Bytes) → mem_text u s.queue ≡ true → known s u ≡ true
      nodes : (u : Bytes) → mem_text u s.queue ≡ true → f.has_node s.graph.graph u ≡ true
      kept : (u v : Bytes) → f.has_edge g.graph u v ≡ true → f.has_edge s.graph.graph u v ≡ true
      sound :
          (u v : Bytes)
          → f.has_edge s.graph.graph u v ≡ true
          → (f.has_edge g.graph u v || (known s u && mem_text v (related u))) ≡ true
      closed :
          (u v : Bytes)
          → known s u ≡ true
          → mem_text v (related u) ≡ true
          → (mem_text u s.queue || f.has_edge s.graph.graph u v) ≡ true

    Inv-expand :
        (s : Search G) (node : Bytes) (rest : List Bytes)
        → s.queue ≡ node ∷ rest
        → Inv s
        → Inv (expand V w node rest s)
    unfolding mem_text
    Inv-expand s node rest e h =
        let seen = λ (x : Bytes). visited-expand V w related r.same x node rest s in
        let queue = λ (x : Bytes). queue-expand V w related r.same x node rest s in
        let front = λ (x : Bytes). ap (mem_text x) e in
        let first : mem_text node s.queue ≡ true = ground (arith, front node, streq_refl node) in
        let edge = λ (u v : Bytes). edge-expand u v node rest s (h.nodes node first) in
        let has = h.queued node first in
        record {
          queued = λ u q. ground (arith, seen u, queue u, h.queued u, front u);
          nodes = λ u q. elim (Bool-cases (mem_text u rest)) [
            | inl before ↦ node-expand u node rest s (h.nodes u (ground (arith, before, front u)))
            | inr new ↦ made-expand u node rest s (ground (arith, q, new, queue u))
          ];
          kept = λ u v d. ground (arith, edge u v, h.kept u v d);
          sound = λ u v d. elim (Bool-cases (streq u node)) [
            | inl hit ↦
                let at_node = ap (λ x. mem_text v (related x)) (streq→eq u node hit) in
                let had = ap (known s) (streq→eq u node hit) ∙ has in
                ground (arith, edge u v, d, at_node, had, seen u, h.sound u v)
            | inr miss ↦ ground (arith, edge u v, d, miss, seen u, h.sound u v)
          ];
          closed = λ u v k m. elim (Bool-cases (streq u node)) [
            | inl hit ↦
                let at_node = sym (ap (λ x. mem_text v (related x)) (streq→eq u node hit)) ∙ m in
                ground (arith, edge u v, hit, at_node)
            | inr miss ↦ elim (Bool-cases (known s u)) [
              | inl before ↦ ground (arith, miss, h.closed u v before m, front u, queue u, edge u v)
              | inr new ↦ ground (arith, k, new, seen u, queue u)
            ]
          ];
        }

    Inv-start : f.has_node g.graph source ≡ true → Inv (start V w g source)
    unfolding mem_text
    Inv-start h = record {
      queued = λ u q. ground (arith, q);
      nodes = λ u q. ap (f.has_node g.graph) (streq→eq u source (ground (arith, q))) ∙ h;
      kept = λ u v d. d;
      sound = λ u v d. ground (arith, d);
      closed = λ u v k m. ground (arith, k);
    }

    drawn :
        (t : Search G)
        → Inv t
        → t.queue ≡ []
        → (u v : Bytes)
        → f.has_edge t.graph.graph u v
          ≡ (f.has_edge g.graph u v || (known t u && mem_text v (related u)))
    unfolding mem_text
    drawn t h e u v = ground (arith, h.kept u v, h.sound u v, h.closed u v, ap (mem_text u) e)

-- If Graphviz finds what was made and drawn, the related nodes do not depend on what is drawn and
-- are among the names of a list, and the start is a node, then a search without a limit ends within
-- one round more than the list has names. It then has added exactly the edges from the start and
-- from the nodes of the returned set to their related nodes.
pub bfs_build_draws :
    {G : Type 0} (V : Graphviz G) (f : Finds V) (w : Walk G) (related : Bytes → List Bytes)
    (names : List Bytes) (g : Graph G) (source : Bytes)
    → Relates V f w related
    → ((n : Bytes) → All (λ m. mem_text m names ≡ true) (related n))
    → f.has_node g.graph source ≡ true
    → (t : Search G) × (bfs_build V w (negsuc 0) (suc (length names)) g source ≡ some t)
      × ((u v : Bytes)
          → f.has_edge t.graph.graph u v ≡ (
              f.has_edge g.graph u v
              || ((streq u source || mem_text u t.visited) && mem_text v (related u))))
unfolding bfs_build
bfs_build_draws V f w related names g source r finite node =
    let (t, ends) =
      rounds_end V w related r.same source names (suc (length names)) (start V w g source) finite
        (work-start V w names g source) in
    let (inv, empty) =
      rounds_rule V w (Inv V f w related r g source) (Inv-expand V f w related r g source)
        (suc (length names)) (start V w g source) t (Inv-start V f w related r g source node)
        ends in
    (t, ends, drawn V f w related r g source t inv empty)
