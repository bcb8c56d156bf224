-- ===== src/Graph/Reached.antt =====
-- A search without a limit ends, and visits what can be reached.
use mathlib.Core.Logic.{∥∥₁_elim}
use mathlib.Core.Bool.{So-prop}
use cc_base.Base.{
  ℕ, zero, suc, ◌≤◌, true, ◌||◌, some, List, [], ◌∷◌, ◌≡◌, refl, ap, inl, inr, ◌⊎◌, ◌↔◌, arith,
  length, All, Bool-cases, subst,
}
use cc_base.Cstring.{Bytes, streq}
use cc_base.Cstring.Laws.{streq_refl, streq→eq}
use cc_base.Sources.Keys.{mem_text}
use cc_base.Graph.{Graphviz, Graph}
use cc_base.Graph.Search.{negsuc, Search, Walk, is_last, expand, rounds, start, bfs_build}
use cc_base.Graph.Work.{work, work-start, work-expand, visited-expand, queue-expand}

-- The nodes that some steps lead to.
pub data Reaches (related : Bytes → List Bytes) (start : Bytes) : Bytes → Type 0 where
  child : {v : Bytes} → mem_text v (related start) ≡ true → Reaches related start v
  further :
      {u v : Bytes}
      → Reaches related start u
      → mem_text v (related u) ≡ true
      → Reaches related start v

pub List-cases {ℓ} :
    {A : Type ℓ} (xs : List A) → (xs ≡ []) ⊎ ((x : A) × (rest : List A) × (xs ≡ x ∷ rest))
List-cases [] = inl refl
List-cases (x ∷ xs) = inr (x, xs, refl)

module _ {G : Type 0} (V : Graphviz G) (w : Walk G) where
  -- What each round keeps holds at the end, where the queue is empty.
  pub rounds_rule :
      (P : Search G → Type 0)
      → ((s : Search G) (node : Bytes) (rest : List Bytes)
          → s.queue ≡ node ∷ rest
          → P s
          → P (expand V w node rest s))
      → (n : ℕ) (s t : Search G) → P s
      → rounds V w (negsuc 0) n s ≡ some t
      → P t × (t.queue ≡ [])
  unfolding rounds is_last
  rounds_rule P keep zero s t p h = elim (List-cases s.queue) [
    | inl empty ↦
        let same : s ≡ t = ground (arith, empty, h) in
        subst (λ x. P x × (x.queue ≡ [])) same (p, empty)
    | inr (node, rest, e) ↦ absurd (ground (arith, e, h))
  ]
  rounds_rule P keep (suc n) s t p h = elim (List-cases s.queue) [
    | inl empty ↦
        let same : s ≡ t = ground (arith, empty, h) in
        subst (λ x. P x × (x.queue ≡ [])) same (p, empty)
    | inr (node, rest, e) ↦
        rounds_rule P keep n (expand V w node rest s) t (keep s node rest e p) (rw (e, rounds) at h)
  ]

module _ {G : Type 0} (V : Graphviz G) (w : Walk G) (related : Bytes → List Bytes)
    (same : (g : Graph G) (n : Bytes) → (w.relations g n).1 ≡ related n) (source : Bytes) where
  record Inv (s : Search G) : Type 0 where
    queued :
        (v : Bytes) → mem_text v s.queue ≡ true → (streq v source || mem_text v s.visited) ≡ true
    sound : (v : Bytes) → mem_text v s.visited ≡ true → Reaches related source v
    closed :
        (u v : Bytes)
        → (streq u source || mem_text u s.visited) ≡ true
        → mem_text v (related u) ≡ true
        → (mem_text u s.queue || mem_text v s.visited) ≡ true

  from_known :
      (s : Search G) (u v : Bytes)
      → Inv s
      → (streq u source || mem_text u s.visited) ≡ true
      → mem_text v (related u) ≡ true
      → Reaches related source v
  from_known s u v h known e = elim (Bool-cases (streq u source)) [
    | inl hit ↦ child (subst (λ x. mem_text v (related x) ≡ true) (streq→eq u source hit) e)
    | inr miss ↦ further (h.sound u (ground (arith, known, miss))) e
  ]

  Inv-expand :
      (s : Search G) (node : Bytes) (rest : List Bytes)
      → s.queue ≡ node ∷ rest
      → Inv s
      → Inv (expand V w node rest s)
  unfolding mem_text
  Inv-expand s node rest e h =
      let seen = λ (x : Bytes). visited-expand V w related same x node rest s in
      let queue = λ (x : Bytes). queue-expand V w related same x node rest s in
      let front = λ (x : Bytes). ap (mem_text x) e in
      let known = h.queued node (ground (arith, front node, streq_refl node)) in
      record {
        queued = λ v q. ground (arith, seen v, queue v, h.queued v, front v);
        sound = λ v m. elim (Bool-cases (mem_text v s.visited)) [
          | inl before ↦ h.sound v before
          | inr new ↦ from_known s node v h known (ground (arith, seen v, m, new))
        ];
        closed = λ u v now r. elim (Bool-cases (streq u node)) [
          | inl hit ↦
              let child : mem_text v (related node) ≡ true =
                subst (λ x. mem_text v (related x) ≡ true) (streq→eq u node hit) r in
              ground (arith, seen v, child)
          | inr miss ↦ elim (Bool-cases (streq u source || mem_text u s.visited)) [
            | inl before ↦ ground (arith, miss, h.closed u v before r, front u, queue u, seen v)
            | inr new ↦ ground (arith, now, new, seen u, queue u)
          ]
        ];
      }

  Inv-start : (g : Graph G) → Inv (start V w g source)
  unfolding mem_text
  Inv-start g = record {
    queued = λ v q. ground (arith, q);
    sound = λ v m. absurd (cc);
    closed = λ u v known r. ground (arith, known);
  }

  -- With an empty queue the visited nodes are closed under the relation.
  complete :
      (t : Search G)
      → Inv t
      → t.queue ≡ []
      → {v : Bytes} → Reaches related source v
      → mem_text v t.visited ≡ true
  unfolding mem_text
  complete t h e (child {v} r) =
      let c = h.closed source v (ground (arith, streq_refl source)) r in
      ground (arith, c, ap (mem_text source) e)
  complete t h e (further {u} {v} path r) =
      let c = h.closed u v (ground (arith, complete t h e path)) r in
      ground (arith, c, ap (mem_text u) e)

  pub rounds_end :
      (names : List Bytes) (n : ℕ) (s : Search G)
      → ((x : Bytes) → All (λ m. mem_text m names ≡ true) (related x))
      → work V w names s ≤ n
      → (t : Search G) × (rounds V w (negsuc 0) n s ≡ some t)
  unfolding rounds is_last
  rounds_end names zero s finite le = elim (List-cases s.queue) [
    | inl empty ↦ (s, ground (arith, empty))
    | inr (node, rest, e) ↦ absurd (omega (arith, le, ap length e))
  ]
  rounds_end names (suc n) s finite le = elim (List-cases s.queue) [
    | inl empty ↦ (s, ground (arith, empty))
    | inr (node, rest, e) ↦
        let (t, ends) =
          rounds_end names n (expand V w node rest s) finite
            (omega (arith, le, work-expand V w related same names node rest s finite e)) in
        (t, rw (rounds, e) ends)
  ]

-- If the related nodes do not depend on what is drawn and are among the names of a list, then a
-- search without a limit ends within one round more than the list has names, and the returned set
-- holds exactly the nodes that one or more steps lead to.
pub bfs_build-Reaches :
    {G : Type 0} (V : Graphviz G) (w : Walk G) (related : Bytes → List Bytes) (names : List Bytes)
    (g : Graph G) (source : Bytes)
    → ((h : Graph G) (n : Bytes) → (w.relations h n).1 ≡ related n)
    → ((n : Bytes) → All (λ m. mem_text m names ≡ true) (related n))
    → (t : Search G) × (bfs_build V w (negsuc 0) (suc (length names)) g source ≡ some t)
      × ((v : Bytes) → (mem_text v t.visited ≡ true) ↔ ∥ Reaches related source v ∥₁)
unfolding bfs_build
bfs_build-Reaches V w related names g source same finite =
    let (t, ends) =
      rounds_end V w related same source names (suc (length names)) (start V w g source) finite
        (work-start V w names g source) in
    let (inv, empty) =
      rounds_rule V w (Inv V w related same source) (Inv-expand V w related same source)
        (suc (length names)) (start V w g source) t (Inv-start V w related same source g) ends in
    (
      t,
      ends,
      λ v. (
        λ m. ∣ inv.sound v m ∣₁,
        λ r. ∥∥₁_elim r (So-prop _) (complete V w related same source t inv empty),
      ),
    )
