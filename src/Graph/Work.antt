-- ===== src/Graph/Work.antt =====
-- What a round of `bfsBuild` does, and how much work is left behind it.
use cc_base.Base.{
  ℕ, suc, ◌+◌, ◌≤◌, true, false, not, ◌&&◌, ◌||◌, List, [], ◌∷◌, ◌≡◌, ap, ◌∙◌, inl, inr, arith,
  if◌then◌else◌, length, All, Bool-cases, length-append, subst,
}
use cc_base.Cstring.{Bytes, streq}
use cc_base.Cstring.Laws.{streq→eq}
use cc_base.Sources.Keys.{mem_text}
use cc_base.Sources.Erased.{streq_sym}
use cc_base.Graph.{Graphviz, Graph, insert_text}
use cc_base.Graph.Search.{Search, Walk, visit, draw, scan, expand, start}
use cc_base.Graph.Scan.{mem_text-insert_text, visited-scan, queue-scan}

-- How many names of a list are not visited.
abbrev left : List Bytes → List Bytes → ℕ
left [] seen = 0
left (u ∷ names) seen = let rest = left names seen in if mem_text u seen then rest else suc rest

left-insert_text :
    (names : List Bytes) (x : Bytes) (seen : List Bytes)
    → left names (insert_text x seen) ≤ left names seen
left-insert_text [] x seen = omega arith
left-insert_text (u ∷ names) x seen =
    ground (arith, left-insert_text names x seen, mem_text-insert_text u x seen)

left-length : (names seen : List Bytes) → left names seen ≤ length names
left-length [] seen = omega arith
left-length (u ∷ names) seen = ground (arith, left-length names seen)

left-new :
    (names : List Bytes) (x : Bytes) (seen : List Bytes)
    → mem_text x names ≡ true
    → mem_text x seen ≡ false
    → suc (left names (insert_text x seen)) ≤ left names seen
unfolding mem_text
left-new [] x seen h new = absurd (cc)
left-new (u ∷ names) x seen h new = elim (Bool-cases (streq x u)) [
  | inl hit ↦
      let unseen : mem_text u seen ≡ false =
        subst (λ y. mem_text y seen ≡ false) (streq→eq x u hit) new in
      let now : mem_text u (insert_text x seen) ≡ true =
        mem_text-insert_text u x seen ∙ ap (λ b. b || mem_text u seen) (streq_sym u x ∙ hit) in
      rw (unseen, now) (omega (arith, left-insert_text names x seen))
  | inr miss ↦
      ground
        (arith, left-new names x seen (ground (arith, h, miss)) new, mem_text-insert_text u x seen)
]

module _ {G : Type 0} (V : Graphviz G) (w : Walk G) (names : List Bytes) where
  -- Names of the list that are still to be visited, and nodes in the queue.
  abbrev pub work : Search G → ℕ
  work s = left names s.visited + length s.queue

  pub work-start : (g : Graph G) (node : Bytes) → work (start V w g node) ≤ suc (length names)
  work-start g node = omega (arith, left-length names [])

  work-visit :
      (node : Bytes) (s : Search G) → mem_text node names ≡ true → work (visit V w node s) ≤ work s
  unfolding visit
  work-visit node s h = elim (Bool-cases (mem_text node s.visited)) [
    | inl seen ↦ rw seen (omega arith)
    | inr new ↦
        rw new
          (omega (arith, left-new names node s.visited h new, length-append s.queue (node ∷ [])))
  ]

  work-scan :
      (current : Bytes) (nodes : List Bytes) (s : Search G)
      → All (λ n. mem_text n names ≡ true) nodes
      → work (scan V w current nodes s) ≤ work s
  unfolding scan draw
  work-scan current [] s h = omega arith
  work-scan current (node ∷ nodes) s h = omega (
    arith,
    work-scan current nodes (draw V w current node (visit V w node s)) h.1,
    work-visit node s h.0,
  )

-- The relation does not depend on the graph drawn so far.
module _ {G : Type 0} (V : Graphviz G) (w : Walk G) (related : Bytes → List Bytes)
    (same : (g : Graph G) (n : Bytes) → (w.relations g n).1 ≡ related n) where
  -- A round pops one node, and what it visits and queues.
  pub work-expand :
      (names : List Bytes) (node : Bytes) (rest : List Bytes) (s : Search G)
      → ((n : Bytes) → All (λ m. mem_text m names ≡ true) (related n))
      → s.queue ≡ node ∷ rest
      → suc (work V w names (expand V w node rest s)) ≤ work V w names s
  unfolding expand
  work-expand names node rest s finite e = rw (same s.graph node) (
      omega (
        arith,
        ap length e,
        work-scan V w names node (related node)
            (record s { graph = (w.relations s.graph node).0; queue = rest }) (finite node),
      ))

  pub visited-expand :
      (x node : Bytes) (rest : List Bytes) (s : Search G)
      → mem_text x (expand V w node rest s).visited
        ≡ (mem_text x s.visited || mem_text x (related node))
  unfolding expand
  visited-expand x node rest s = rw (same s.graph node) (visited-scan V w x node (related node) _)

  pub queue-expand :
      (x node : Bytes) (rest : List Bytes) (s : Search G)
      → mem_text x (expand V w node rest s).queue
        ≡ (mem_text x rest || (mem_text x (related node) && not (mem_text x s.visited)))
  unfolding expand
  queue-expand x node rest s = rw (same s.graph node) (queue-scan V w x node (related node) _)
