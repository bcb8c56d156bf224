-- ===== src/Graph/Limited.antt =====
-- Searches with a limit.
use cc_base.Base.{
  ℕ, zero, suc, ◌+◌, ◌≤◌, true, false, some, List, [], ◌∷◌, ◌≡◌, refl, ap, sym, ◌∙◌, if◌then◌else◌,
  inl, inr, arith, ◌==◌, ◌⊎◌,
}
use cc_base.Cstring.{Bytes}
use cc_base.Graph.{Graphviz, Graph}
use cc_base.Graph.Search.{ℤ, pos, negsuc, Search, Walk, is_last, expand, rounds, start, bfs_build}
use cc_base.Graph.Scan.{level-scan}
use cc_base.Graph.Reached.{List-cases}

module _ {G : Type 0} (V : Graphviz G) (w : Walk G) where
  level-expand :
      (node : Bytes) (rest : List Bytes) (s : Search G)
      → (expand V w node rest s).level ≡ suc s.level
  unfolding expand
  level-expand node rest s = ap suc (level-scan V w node (w.relations s.graph node).1 _)

  -- A search ends with an empty queue, or behind as many nodes as the limit allows.
  abbrev pub Ends : ℕ → Search G → Type 0
  Ends limit t = (t.queue ≡ []) × (t.level ≤ limit) ⊎ (t.level ≡ limit)

  rounds_step :
      (limit : ℤ) (n : ℕ) (s : Search G) (node : Bytes) (rest : List Bytes)
      → s.queue ≡ node ∷ rest
      → rounds V w limit (suc n) s ≡ (
          if is_last limit (expand V w node rest s).level
          then some (expand V w node rest s)
          else rounds V w limit n (expand V w node rest s))
  unfolding rounds
  rounds_step limit n s node rest e = rw (rounds, e) refl

  rounds_empty : (limit : ℤ) (n : ℕ) (s : Search G) → s.queue ≡ [] → rounds V w limit n s ≡ some s
  unfolding rounds
  rounds_empty limit zero s e = ground (arith, e)
  rounds_empty limit (suc n) s e = ground (arith, e)

  rounds_limited :
      (limit n : ℕ) (s : Search G)
      → s.level + suc n ≡ limit
      → (t : Search G) × (rounds V w (pos limit) (suc n) s ≡ some t) × Ends limit t
  unfolding is_last
  rounds_limited limit zero s sum = elim (List-cases s.queue) [
    | inl empty ↦ (s, rounds_empty (pos limit) 1 s empty, inl (empty, omega (arith, sum)))
    | inr (node, rest, e) ↦
        let next = expand V w node rest s in
        let last : (next.level == limit) ≡ true = ground (arith, level-expand node rest s, sum) in
        (
          next,
          rounds_step (pos limit) zero s node rest e
              ∙ ap (λ b. if b then some next else rounds V w (pos limit) zero next) last,
          inr (omega (arith, level-expand node rest s, sum)),
        )
  ]
  rounds_limited limit (suc n) s sum = elim (List-cases s.queue) [
    | inl empty ↦
        (s, rounds_empty (pos limit) (suc (suc n)) s empty, inl (empty, omega (arith, sum)))
    | inr (node, rest, e) ↦
        let next = expand V w node rest s in
        let up = level-expand node rest s in
        let goes_on : (next.level == limit) ≡ false = ground (arith, up, sum) in
        let (t, ends, is) = rounds_limited limit n next (omega (arith, up, sum)) in
        (
          t,
          rounds_step (pos limit) (suc n) s node rest e
              ∙ (ap (λ b. if b then some next else rounds V w (pos limit) (suc n) next) goes_on
                  ∙ ends),
          is,
        )
  ]

  rounds_zero : (n : ℕ) (s : Search G) → rounds V w (pos 0) n s ≡ rounds V w (negsuc 0) n s
  unfolding is_last rounds
  rounds_zero zero s = refl
  rounds_zero (suc n) s = elim (List-cases s.queue) [
    | inl empty ↦
        rounds_empty (pos 0) (suc n) s empty ∙ sym (rounds_empty (negsuc 0) (suc n) s empty)
    | inr (node, rest, e) ↦
        let next = expand V w node rest s in
        let goes_on : (next.level == 0) ≡ false = ground (arith, level-expand node rest s) in
        rounds_step (pos 0) n s node rest e
        ∙ (ap (λ b. if b then some next else rounds V w (pos 0) n next) goes_on
            ∙ (rounds_zero n next ∙ sym (rounds_step (negsuc 0) n s node rest e)))
  ]

-- With a limit above 0 a search ends within as many rounds as the limit says, whatever the relation:
-- it ends with an empty queue, or behind exactly that many nodes, not levels.
pub bfs_build_limited :
    {G : Type 0} (V : Graphviz G) (w : Walk G) (g : Graph G) (source : Bytes) (limit : ℕ)
    → (t : Search G) × (bfs_build V w (pos (suc limit)) (suc limit) g source ≡ some t)
      × Ends V w (suc limit) t
unfolding bfs_build
bfs_build_limited V w g source limit =
    rounds_limited V w (suc limit) limit (start V w g source) (omega arith)

-- The limit 0 is no limit: the search is that of the limit -1, whatever the rounds that are left.
pub bfs_build_zero :
    {G : Type 0} (V : Graphviz G) (w : Walk G) (g : Graph G) (source : Bytes) (n : ℕ)
    → bfs_build V w (pos 0) n g source ≡ bfs_build V w (negsuc 0) n g source
unfolding bfs_build
bfs_build_zero V w g source n = rounds_zero V w n (start V w g source)
