-- ===== src/Javac/Arguments.antt =====
-- Which arguments of javac become sources, and the lines of an argument file.
use cc_base.Base.{
  ℕ, true, false, ◌||◌, none, some, List, [], ◌∷◌, ◌++◌, ◌≡◌, ◌≢◌, refl, subst, inl, inr, arith,
  All, All-append, Bool-cases, Option-cases,
}
use cc_base.Cstring.{Bytes, codes, streq, isspace}
use cc_base.Cstring.Laws.{Lacks}
use cc_base.Paths.{make_path_abs, get_file_ext}
use cc_base.Host.{Host}
use cc_base.Vector.Spec.{append_unique}
use cc_base.Vector.Items.{Distinct, append_unique-Distinct}
use cc_base.Javac.{
  State, normal, in_class_dir, in_class_path, ParserData, skip_open, until_quote, path_max,
  handle_class_path, class_path_text, add_common, file_arg, normal_arg, arg_step, process_arg,
  process_args, expand_argument, process_argv,
}

sources-add_common : (arg : Bytes) (p : ParserData) → (add_common arg p).sources ≡ p.sources
unfolding add_common
sources-add_common [] p = refl
sources-add_common (c ∷ arg) p = refl

-- A word in double quotes, whatever follows the second one, is read as the word.
until_quote-append :
    (word rest : Bytes) → Lacks b'"' word → until_quote (word ++ b'"' ∷ rest) ≡ word
unfolding until_quote
until_quote-append [] rest h = refl
until_quote-append (c ∷ word) rest h = ground (arith, h.0, until_quote-append word rest h.1)

until_quote-Lacks : (word : Bytes) → Lacks b'"' word → until_quote word ≡ word
unfolding until_quote
until_quote-Lacks [] h = refl
until_quote-Lacks (c ∷ word) h = ground (arith, h.0, until_quote-Lacks word h.1)

skip_open_quote : (s : Bytes) → skip_open (b'"' ∷ s) ≡ skip_open s
unfolding skip_open isspace
skip_open_quote s = refl

skip_open_word : (c : ℕ) (s : Bytes) → isspace c ≡ false → c ≢ b'"' → skip_open (c ∷ s) ≡ c ∷ s
unfolding skip_open
skip_open_word c s h ne = ground (arith, h)

-- A line of an argument file that begins with a byte other than white space, and a word without
-- double quotes: between double quotes it is read as what
-- they enclose, and without quotes it is read whole, the newline at its end included.
pub line_of_argument_file :
    (c : ℕ) (word rest : Bytes)
    → isspace c ≡ false
    → Lacks b'"' (c ∷ word)
    → (until_quote (skip_open (b'"' ∷ (c ∷ word ++ b'"' ∷ rest))) ≡ c ∷ word)
      × (until_quote (skip_open (c ∷ word ++ 10 ∷ [])) ≡ c ∷ word ++ 10 ∷ [])
line_of_argument_file c word rest h lacks = (
  rw (skip_open_quote (c ∷ word ++ b'"' ∷ rest), skip_open_word c (word ++ b'"' ∷ rest) h lacks.0)
      (until_quote-append (c ∷ word) rest lacks),
  rw (skip_open_word c (word ++ 10 ∷ []) h lacks.0) (
      until_quote-Lacks (c ∷ word ++ 10 ∷ [])
        (All-append (λ x. x ≢ b'"') (c ∷ word) (10 ∷ []) lacks (λ e. absurd (omega arith), tt))),
)

module _ (host : Host) where
  -- What one argument does to the sources.
  pub data Sourced (arg : Bytes) (before : List Bytes) : List Bytes → Type 0 where
    kept : {after : List Bytes} → after ≡ before → Sourced arg before after
    added :
        {after : List Bytes} (ext path : Bytes)
        → get_file_ext arg true ≡ some ext
        → make_path_abs host.fs arg false ≡ some path
        → streq ext (codes "java") ≡ true
        → after ≡ append_unique streq before path
        → Sourced arg before after

  file_arg-Sourced :
      (arg : Bytes) (p : ParserData) → Sourced arg p.sources (file_arg host arg p).sources
  unfolding file_arg
  file_arg-Sourced arg p = elim (Option-cases (get_file_ext arg true)) [
    | inl e ↦ rw (file_arg, e) (kept (sources-add_common arg p))
    | inr (ext, e) ↦ elim (Bool-cases (streq ext (codes "java"))) [
      | inr f ↦ rw (file_arg, e, f) (kept (sources-add_common arg p))
      | inl f ↦ elim (Option-cases (make_path_abs host.fs arg false)) [
        | inl g ↦ rw (file_arg, e, f, g) (kept (sources-add_common arg p))
        | inr (path, g) ↦ rw (file_arg, e, f, g) (added ext path e g f refl)
      ]
    ]
  ]

  normal_arg-Sourced :
      (arg : Bytes) (p : ParserData) → Sourced arg p.sources (normal_arg host arg p).sources
  unfolding normal_arg
  normal_arg-Sourced arg p = elim (Bool-cases (streq arg (codes "-sourcepath"))) [
    | inl e ↦ rw (normal_arg, e) (kept (sources-add_common arg _))
    | inr e ↦ elim (Bool-cases (streq arg (codes "-d"))) [
      | inl f ↦ rw (normal_arg, e, f) (kept (sources-add_common arg _))
      | inr f ↦ elim (Bool-cases (streq arg (codes "-cp") || streq arg (codes "-classpath"))) [
        | inl g ↦ rw (normal_arg, e, f, g) (kept (sources-add_common arg _))
        | inr g ↦ rw (normal_arg, e, f, g) (file_arg-Sourced arg p)
      ]
    ]
  ]

  arg_step-Sourced :
      (state : State) (arg : Bytes) (p p' : ParserData)
      → arg_step host state arg p ≡ some p'
      → Sourced arg p.sources p'.sources
  unfolding arg_step
  arg_step-Sourced normal arg p p' h =
      let e : normal_arg host arg p ≡ p' = ground arith in
      subst (λ (q : ParserData). Sourced arg p.sources q.sources) e (normal_arg-Sourced arg p)
  arg_step-Sourced in_class_dir arg p p' h =
      let q =
        sources-add_common (elim (make_path_abs host.fs arg false) [ none ↦ arg | some q ↦ q ]) in
      kept (
        ground (
          arith,
          q (record p {
            classdir = elim (make_path_abs host.fs arg false) [ none ↦ arg | some q ↦ q ];
            state = normal;
          }),
        ))
  arg_step-Sourced in_class_path arg p p' h =
      elim (Option-cases (class_path_text (handle_class_path host path_max arg))) [
        | inl e ↦ absurd (ground (arith, e, h))
        | inr (text, e) ↦
            kept (ground (arith, e, h, sources-add_common text (record p { state = normal })))
      ]

  process_arg-Sourced :
      (arg : Bytes) (p p' : ParserData)
      → process_arg host arg p ≡ some p'
      → Sourced arg p.sources p'.sources
  unfolding process_arg
  process_arg-Sourced arg p p' h = elim (Bool-cases (host.grants path_max)) [
    | inl e ↦ arg_step-Sourced p.state arg p p' (ground (arith, e, h))
    | inr e ↦ kept (ground (arith, e, h))
  ]

  pub Sourced-Distinct :
      {arg : Bytes} {before after : List Bytes}
      → Sourced arg before after
      → Distinct before
      → Distinct after
  Sourced-Distinct (kept e) d = rw e d
  Sourced-Distinct {before = before} (added ext path e g f a) d =
      rw a (append_unique-Distinct before path d)

  -- A property of the sources that each of the arguments keeps is kept by all.
  module _ (P : List Bytes → Type 0) where
    abbrev pub Keeps : Bytes → Type 0
    Keeps arg = (before after : List Bytes) → Sourced arg before after → P before → P after

    process_args-keep :
        (args : List Bytes) (p p' : ParserData)
        → All Keeps args
        → process_args host args p ≡ some p'
        → P p.sources
        → P p'.sources
    unfolding process_args
    process_args-keep [] p p' k h i =
        let e : p ≡ p' = ground arith in subst (λ (q : ParserData). P q.sources) e i
    process_args-keep (arg ∷ args) p p' k h i = elim (Option-cases (process_arg host arg p)) [
      | inl e ↦ absurd (ground (arith, e, h))
      | inr (q, e) ↦
          process_args-keep args q p' k.1 (ground (arith, e, h))
            (k.0 p.sources q.sources (process_arg-Sourced arg p q e) i)
    ]

    pub process_argv-keep :
        (argv : List Bytes) (p p' : ParserData)
        → All (λ arg. All Keeps (expand_argument host arg)) argv
        → process_argv host argv p ≡ some p'
        → P p.sources
        → P p'.sources
    unfolding process_argv
    process_argv-keep [] p p' k h i =
        let e : p ≡ p' = ground arith in subst (λ (q : ParserData). P q.sources) e i
    process_argv-keep (arg ∷ argv) p p' k h i =
        elim (Option-cases (process_args host (expand_argument host arg) p)) [
          | inl e ↦ absurd (ground (arith, e, h))
          | inr (q, e) ↦
              process_argv-keep argv q p' k.1 (ground (arith, e, h))
                (process_args-keep (expand_argument host arg) p q k.0 e i)
        ]
