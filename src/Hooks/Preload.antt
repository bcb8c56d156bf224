-- ===== src/Hooks/Preload.antt =====
-- For which programs LD_PRELOAD is taken out of the environment.
use cc_base.Base.{
  ℕ, suc, ◌-◌, true, false, none, some, [], ◌∷◌, ◌++◌, ◌≡◌, ◌≢◌, refl, ap, ◌∙◌, ◌⊎◌, inl, inr,
  arith, ◌==◌, length, length-append, get_elem?, append_assoc, Bool-cases, Option-cases,
}
use cc_base.Cstring.{Bytes, slash, strstr}
use cc_base.Cstring.Laws.{strstr-some, strstr-append}
use cc_base.Host.{Environ, getenv, unsetenv}
use cc_base.Hooks.{ldd, is_ldd}

-- The byte before a position, when the string in front of it is not empty.
last_is :
    (a r : Bytes) (c : ℕ)
    → a ≢ []
    → get_elem? (a ++ r) (length a - 1) ≡ some c
    → (d : Bytes) × (a ≡ d ++ c ∷ [])
last_is [] r c ne h = absurd (ne refl)
last_is (x ∷ []) r c ne h = ([], ground arith)
last_is (x ∷ y ∷ a) r c ne h =
    let one : suc (suc (length a)) - 1 ≡ suc (length a) = omega arith in
    let two : suc (length a) - 1 ≡ length a = omega arith in
    let below : get_elem? (x ∷ y ∷ a ++ r) (suc (length a)) ≡ some c = rw one at h in
    let (d, e) = last_is (y ∷ a) r c (λ p. cc) (rw two below) in (x ∷ d, ap (λ l. x ∷ l) e)

List-cases : (a : Bytes) → (a ≡ []) ⊎ (a ≢ [])
List-cases [] = inl refl
List-cases (x ∷ a) = inr (λ e. cc)

nil_of_length : (b : Bytes) → length b ≡ 0 → b ≡ []
nil_of_length [] h = refl
nil_of_length (x ∷ b) h = absurd (omega arith)

-- The two halves of the test, when the first "ldd" stands behind `a` and before `b`.
record Test (a b : Bytes) : Type 0 where
  at_end : b ≡ []
  in_front : (a ≡ []) ⊎ (get_elem? (a ++ (ldd ++ b)) (length a - 1) ≡ some slash)

before_is_slash :
    (filename r : Bytes)
    → strstr filename ldd ≡ some r
    → (length filename - length r == 0) ≡ false
    → is_ldd filename ≡ true
    → get_elem? filename (length filename - length r - 1) ≡ some slash
unfolding is_ldd
before_is_slash filename r e nz h =
    elim (Option-cases (get_elem? filename (length filename - length r - 1))) [
      | inl g ↦ absurd (ground (arith, e, nz, h, g))
      | inr (c, g) ↦ ground (arith, e, nz, h, g)
    ]

is_ldd-Test :
    (filename a b r : Bytes)
    → strstr filename ldd ≡ some r
    → filename ≡ a ++ (ldd ++ b)
    → r ≡ ldd ++ b
    → is_ldd filename ≡ true
    → Test a b
unfolding is_ldd
is_ldd-Test filename a b r e p q h =
    let whole = ap length p ∙ length-append a (ldd ++ b) in
    let rest = ap length q ∙ length-append ldd b in
    let pos : length filename - length r ≡ length a = omega (arith, whole, rest) in
    record {
      at_end = nil_of_length b (ground (arith, e, whole, rest, h));
      in_front = elim (Bool-cases (length filename - length r == 0)) [
        | inl z ↦ inl (nil_of_length a (ground (arith, pos, z)))
        | inr nz ↦ inr (rw (← p, ← pos) (before_is_slash filename r e nz h))
      ];
    }

-- A program whose name is taken for ldd is called "ldd", or by a path that ends in /ldd.
pub is_ldd_sound :
    (filename : Bytes)
    → is_ldd filename ≡ true
    → (filename ≡ ldd) ⊎ ((dir : Bytes) × (filename ≡ dir ++ slash ∷ ldd))
unfolding is_ldd
is_ldd_sound filename h = elim (Option-cases (strstr filename ldd)) [
  | inl e ↦ absurd (ground (arith, h, e))
  | inr (r, e) ↦
      let (a, b, p, q) = strstr-some filename ldd r e in
      let whole = p ∙ ap (◌++◌ a) q in
      let t = is_ldd-Test filename a b r e whole q h in
      let end : filename ≡ a ++ (ldd ++ []) = whole ∙ ap (λ l. a ++ (ldd ++ l)) t.at_end in
      elim t.in_front [
        | inl z ↦ inl (end ∙ ap (λ l. l ++ ldd) z)
        | inr g ↦ elim (List-cases a) [
          | inl z ↦ inl (end ∙ ap (λ l. l ++ ldd) z)
          | inr ne ↦
              let (dir, d) = last_is a (ldd ++ b) slash ne g in
              inr (dir, end ∙ ap (λ l. l ++ ldd) d ∙ append_assoc dir (slash ∷ []) ldd)
        ]
      ]
]

-- The first "ldd" is looked at alone: a path that ends in /ldd and has another "ldd" before that
-- is not taken for ldd.
pub is_ldd_misses : (a b : Bytes) → is_ldd (a ++ (ldd ++ (b ++ slash ∷ ldd))) ≡ false
unfolding is_ldd
is_ldd_misses a b =
    let (r, e, le) = strstr-append a ldd (b ++ slash ∷ ldd) in
    let (d, t, p, q) = strstr-some (a ++ (ldd ++ (b ++ slash ∷ ldd))) ldd r e in
    ground (
      arith,
      e,
      le,
      length-append a (ldd ++ (b ++ slash ∷ ldd)),
      length-append ldd (b ++ slash ∷ ldd),
      length-append b (slash ∷ ldd),
      ap length p,
      length-append d r,
    )

getenv-unsetenv : (env : Environ) (name : Bytes) → getenv (unsetenv env name) name ≡ none
unfolding getenv unsetenv
getenv-unsetenv [] name = refl
getenv-unsetenv (entry ∷ env) name = ground (arith, getenv-unsetenv env name)
