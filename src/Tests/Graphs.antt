-- ===== src/Tests/Graphs.antt =====
-- Graphs and searches at concrete inputs.
use cc_base.Base.{
  Bool, true, false, ◌&&◌, ◌||◌, some, ◌>>=◌, List, [], ◌∷◌, ◌++◌, ◌≡◌, ◌↔◌, ◌<◌, refl, inl, inr,
  arith, All, Bool-cases, if◌then◌else◌,
}
use cc_base.Cstring.{Bytes, codes, streq}
use cc_base.Sources.Keys.{mem_text, find_key, assign_key, bytes_lt}
use cc_base.Graph.{
  Graphviz, Graph, next_id, unused_id, generate_id, insert_text, create_edge, edge_at,
  set_edge_attribute, decorate_node, decorate_edge,
}
use cc_base.Graph.Ids.{IsId, number, generate_id-IsFresh}
use cc_base.Graph.Search.{
  pos, negsuc, Search, Walk, rounds, expand, scan, visit, draw, is_last, bfs_build,
}
use cc_base.Graph.Scan.{mem_text-append}
use cc_base.Graph.Reached.{Reaches, bfs_build-Reaches}
use cc_base.Graph.Limited.{Ends, bfs_build_limited}
use cc_base.Graph.Edges.{Finds, Relates}
use cc_base.Graph.Drawn.{bfs_build_draws}

record Drawing : Type 0 where
  nodes : List Bytes
  edges : List (Bytes × Bytes)

abbrev paper : Graphviz Drawing
paper = record {
  agnode = λ g n. record g { nodes = n ∷ g.nodes };
  agedge = λ g a b id. (record g { edges = (a, b) ∷ g.edges }, 1);
  agsafeset_node = λ g n k v. g;
  agsafeset_edge = λ g e k v. g;
}

abbrev mem_edge : Bytes → Bytes → List (Bytes × Bytes) → Bool
mem_edge u v [] = false
mem_edge u v ((a, b) ∷ es) = mem_edge u v es || (streq u a && streq v b)

abbrev found : Finds paper
found = record {
  has_node = λ g x. mem_text x g.nodes;
  has_edge = λ g u v. mem_edge u v g.edges;
  edge_agedge = λ g a b id u v h k. refl;
  node_agedge = λ g a b id x. refl;
  edge_set_node = λ g n k d u v. refl;
  node_set_node = λ g n k d x. refl;
  edge_set_edge = λ g e k d u v. refl;
  node_set_edge = λ g e k d x. refl;
}

-- 1 → 2, 2 → 1, 2 → 3
abbrev related : Bytes → List Bytes
related n =
    if streq n (codes "1")
    then codes "2" ∷ []
    else if streq n (codes "2")
    then codes "1" ∷ (codes "3" ∷ [])
    else []

abbrev walk : Walk Drawing
walk = record {
  relations = λ g n.
      (record g { graph = record g.graph { nodes = related n ++ g.graph.nodes } }, related n);
  node_decoration = [];
  edge_decoration = (codes "color", codes "red") ∷ [];
}

abbrev blank : Graph Drawing
blank = record {
  graph = record { nodes = codes "1" ∷ []; edges = [] };
  edge_map = [];
  ids = codes "1" ∷ (codes "aa" ∷ []);
  current_id = codes "z";
}

abbrev names : List Bytes
names = codes "1" ∷ (codes "2" ∷ (codes "3" ∷ []))

related-names : (n : Bytes) → All (λ m. mem_text m names ≡ true) (related n)
unfolding mem_text streq
related-names n = elim (Bool-cases (streq n (codes "1"))) [
  | inl one ↦ rw one (refl, tt)
  | inr other ↦ elim (Bool-cases (streq n (codes "2"))) [
    | inl two ↦ rw (other, two) (refl, (refl, tt))
    | inr more ↦ rw (other, more) tt
  ]
]

walk-Relates : Relates paper found walk related
walk-Relates = record {
  same = λ g n. refl;
  made = λ g n m h. ground (arith, h, mem_text-append m (related n) g.graph.nodes);
  kept = λ g n x h. ground (arith, h, mem_text-append x (related n) g.graph.nodes);
  undrawn = λ g n u v. refl;
}

second_id : (generate_id paper blank).1 ≡ codes "ba"
unfolding generate_id unused_id next_id mem_text streq
second_id = refl

generate_id-IsFresh_example :
    ((mem_text (generate_id paper blank).1 (codes "1" ∷ (codes "aa" ∷ [])) ≡ false)
      × (number (codes "z") < number (generate_id paper blank).1)
      × IsId (generate_id paper blank).1)
    × ((generate_id paper blank).0.current_id ≡ (generate_id paper blank).1)
generate_id-IsFresh_example = generate_id-IsFresh paper blank ((omega arith, omega arith), tt)

bfs_build-Reaches_example :
    (t : Search Drawing) × (bfs_build paper walk (negsuc 0) 4 blank (codes "1") ≡ some t)
    × ((v : Bytes) → (mem_text v t.visited ≡ true) ↔ ∥ Reaches related (codes "1") v ∥₁)
bfs_build-Reaches_example =
    bfs_build-Reaches paper walk related names blank (codes "1") (λ g n. refl) related-names

bfs_build_draws_example :
    (t : Search Drawing) × (bfs_build paper walk (negsuc 0) 4 blank (codes "1") ≡ some t)
    × ((u v : Bytes)
        → mem_edge u v t.graph.graph.edges
          ≡ (false || ((streq u (codes "1") || mem_text u t.visited) && mem_text v (related u))))
unfolding mem_text streq
bfs_build_draws_example =
    bfs_build_draws paper found walk related names blank (codes "1") walk-Relates related-names refl

bfs_build_limited_example :
    (t : Search Drawing) × (bfs_build paper walk (pos 2) 2 blank (codes "1") ≡ some t)
    × Ends paper walk 2 t
bfs_build_limited_example = bfs_build_limited paper walk blank (codes "1") 1

-- The start is expanded twice when it lies on a cycle, and so its edges are drawn twice.
drawn_twice :
    (bfs_build paper walk (negsuc 0) 4 blank (codes "1") >>= λ t. some t.graph.graph.edges)
    ≡ some (
        (codes "1", codes "2")
        ∷ ((codes "2", codes "3") ∷ ((codes "2", codes "1") ∷ ((codes "1", codes "2") ∷ []))))
unfolding bfs_build rounds expand is_last scan visit draw insert_text create_edge generate_id
    unused_id next_id set_edge_attribute edge_at decorate_node decorate_edge mem_text streq find_key
    assign_key bytes_lt
drawn_twice = refl
