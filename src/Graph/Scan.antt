-- ===== src/Graph/Scan.antt =====
-- The loop of `bfsBuild` over the related nodes of a node.
use cc_base.Base.{
  not, ◌&&◌, ◌||◌, List, [], ◌∷◌, ◌++◌, ◌≡◌, refl, ap, ◌∙◌, inl, inr, arith, Bool-cases,
}
use cc_base.Cstring.{Bytes, streq}
use cc_base.Cstring.Laws.{streq→eq}
use cc_base.Sources.Keys.{bytes_lt, mem_text}
use cc_base.Graph.{Graphviz, insert_text}
use cc_base.Graph.Search.{Search, Walk, visit, draw, scan}

pub mem_text-insert_text :
    (x y : Bytes) (ys : List Bytes) → mem_text x (insert_text y ys) ≡ (streq x y || mem_text x ys)
unfolding mem_text insert_text
mem_text-insert_text x y [] = refl
mem_text-insert_text x y (z ∷ ys) = elim (Bool-cases (streq y z)) [
  | inl hit ↦ rw hit (ground (arith, ap (streq x) (streq→eq y z hit)))
  | inr miss ↦ elim (Bool-cases (bytes_lt y z)) [
    | inl before ↦ rw (miss, before) refl
    | inr behind ↦ rw (miss, behind) (ground (arith, mem_text-insert_text x y ys))
  ]
]

pub mem_text-append :
    (x : Bytes) (xs ys : List Bytes) → mem_text x (xs ++ ys) ≡ (mem_text x xs || mem_text x ys)
unfolding mem_text
mem_text-append x [] ys = refl
mem_text-append x (z ∷ xs) ys = ground (arith, mem_text-append x xs ys)

-- What the loop over the related nodes does to the set and to the queue.
module _ {G : Type 0} (V : Graphviz G) (w : Walk G) where
  visited-visit :
      (x node : Bytes) (s : Search G)
      → mem_text x (visit V w node s).visited ≡ (mem_text x s.visited || streq x node)
  unfolding visit
  visited-visit x node s = elim (Bool-cases (mem_text node s.visited)) [
    | inl seen ↦ rw seen (elim (Bool-cases (streq x node)) [
      | inl hit ↦ ground (arith, hit, seen, ap (λ y. mem_text y s.visited) (streq→eq x node hit))
      | inr miss ↦ ground (arith, miss)
    ])
    | inr new ↦ rw new (ground (arith, mem_text-insert_text x node s.visited))
  ]

  queue-visit :
      (x node : Bytes) (s : Search G)
      → mem_text x (visit V w node s).queue
        ≡ (mem_text x s.queue || (streq x node && not (mem_text x s.visited)))
  unfolding visit mem_text
  queue-visit x node s = elim (Bool-cases (mem_text node s.visited)) [
    | inl seen ↦ rw seen (elim (Bool-cases (streq x node)) [
      | inl hit ↦ ground (arith, hit, seen, ap (λ y. mem_text y s.visited) (streq→eq x node hit))
      | inr miss ↦ ground (arith, miss)
    ])
    | inr new ↦ rw new (elim (Bool-cases (streq x node)) [
      | inl hit ↦ ground (
        arith,
        hit,
        new,
        ap (λ y. mem_text y s.visited) (streq→eq x node hit),
        mem_text-append x s.queue (node ∷ []),
      )
      | inr miss ↦ ground (arith, miss, mem_text-append x s.queue (node ∷ []))
    ])
  ]

  level-visit : (node : Bytes) (s : Search G) → (visit V w node s).level ≡ s.level
  unfolding visit
  level-visit node s = elim (Bool-cases (mem_text node s.visited)) [
    | inl seen ↦ rw seen refl
    | inr new ↦ rw new refl
  ]

  pub visited-scan :
      (x current : Bytes) (nodes : List Bytes) (s : Search G)
      → mem_text x (scan V w current nodes s).visited ≡ (mem_text x s.visited || mem_text x nodes)
  unfolding scan draw mem_text
  visited-scan x current [] s = ground arith
  visited-scan x current (node ∷ nodes) s = ground (
    arith,
    visited-scan x current nodes (draw V w current node (visit V w node s)),
    visited-visit x node s,
  )

  pub queue-scan :
      (x current : Bytes) (nodes : List Bytes) (s : Search G)
      → mem_text x (scan V w current nodes s).queue
        ≡ (mem_text x s.queue || (mem_text x nodes && not (mem_text x s.visited)))
  unfolding scan draw mem_text
  queue-scan x current [] s = ground arith
  queue-scan x current (node ∷ nodes) s = ground (
    arith,
    queue-scan x current nodes (draw V w current node (visit V w node s)),
    visited-visit x node s,
    queue-visit x node s,
  )

  pub level-scan :
      (current : Bytes) (nodes : List Bytes) (s : Search G)
      → (scan V w current nodes s).level ≡ s.level
  unfolding scan draw visit
  level-scan current [] s = refl
  level-scan current (node ∷ nodes) s =
      level-scan current nodes (draw V w current node (visit V w node s)) ∙ level-visit node s
