-- ===== src/Javac/Named.antt =====
-- What a command line of javac asks for, read from the left: the sources it names, and the arguments
-- that all its actions share.
use cc_base.Base.{
  Bool, true, false, ◌||◌, Option, none, some, List, [], ◌∷◌, ◌++◌, ◌≡◌, refl, sym, ap, ◌∙◌, inl,
  inr, if◌then◌else◌, ◌>>=◌, Bool-cases, Option-cases, append-nil,
}
use cc_base.Cstring.{Bytes, codes, streq}
use cc_base.Cstring.Laws.{streq→eq}
use cc_base.Paths.{make_path_abs, get_file_ext}
use cc_base.Host.{Host}
use cc_base.Vector.Items.{add_all}
use cc_base.Javac.{
  State, normal, in_class_dir, in_class_path, ParserData, path_max, handle_class_path,
  class_path_text, add_common, file_arg, normal_arg,
}

-- The state behind an argument: `-d` and `-cp` take the next one.
unfoldable pub next_state : State → Bytes → State
next_state in_class_dir arg = normal
next_state in_class_path arg = normal
next_state normal arg =
    if streq arg (codes "-d")
    then in_class_dir
    else if streq arg (codes "-cp") || streq arg (codes "-classpath")
    then in_class_path
    else normal

-- Whether an argument is `-sourcepath`.
unfoldable pub asks : State → Bytes → Bool
asks in_class_dir arg = false
asks in_class_path arg = false
asks normal arg = streq arg (codes "-sourcepath")

-- An argument that has become empty is left out.
abbrev pub keep : Bytes → List Bytes
keep [] = []
keep (c ∷ text) = (c ∷ text) ∷ []

module _ (host : Host) where
  -- The absolute path of a source: a java file that is no option.
  unfoldable pub source_path : Bytes → Option Bytes
  source_path arg =
      if streq arg (codes "-sourcepath")
        || (streq arg (codes "-d") || (streq arg (codes "-cp") || streq arg (codes "-classpath")))
      then none
      else (do
        ext ← get_file_ext arg true
        path ← make_path_abs host.fs arg false
        if streq ext (codes "java") then some path else none)

  -- The source that an argument names.
  unfoldable pub found : State → Bytes → List Bytes
  unfolding source_path
  found in_class_dir arg = []
  found in_class_path arg = []
  found normal arg = elim (source_path arg) [ none ↦ [] | some path ↦ path ∷ [] ]

  -- What an argument adds to those that all actions share.
  unfoldable pub written : State → Bytes → List Bytes
  unfolding source_path
  written in_class_dir arg =
      keep (elim (make_path_abs host.fs arg false) [ none ↦ arg | some path ↦ path ])
  written in_class_path arg = elim (class_path_text (handle_class_path host path_max arg)) [
    | none ↦ []
    | some text ↦ keep text
  ]
  written normal arg = elim (source_path arg) [ none ↦ keep arg | some path ↦ [] ]

  -- The parser did what one argument asks for.
  pub record IsRead (state : State) (arg : Bytes) (p p' : ParserData) : Type 0 where
    pub then_state : p'.state ≡ next_state state arg
    pub sources : p'.sources ≡ add_all p.sources (found state arg)
    pub common : p'.common_args ≡ p.common_args ++ written state arg
    pub source_path : p'.has_source_path ≡ (p.has_source_path || asks state arg)

  pub add_common-IsRead :
      (text : Bytes) (state : State) (arg : Bytes) (p q : ParserData)
      → q.common_args ≡ p.common_args
      → q.sources ≡ p.sources
      → q.state ≡ next_state state arg
      → q.has_source_path ≡ (p.has_source_path || asks state arg)
      → found state arg ≡ []
      → written state arg ≡ keep text
      → IsRead state arg p (add_common text q)
  unfolding add_common add_all
  add_common-IsRead [] state arg p q common sources at has no_source kept = record {
    then_state = at;
    sources = sources ∙ sym (ap (add_all p.sources) no_source);
    common = common ∙ (sym (append-nil p.common_args) ∙ sym (ap (λ l. p.common_args ++ l) kept));
    source_path = has;
  }
  add_common-IsRead (c ∷ text) state arg p q common sources at has no_source kept = record {
    then_state = at;
    sources = sources ∙ sym (ap (add_all p.sources) no_source);
    common = ap (λ l. l ++ (c ∷ text) ∷ []) common ∙ sym (ap (λ l. p.common_args ++ l) kept);
    source_path = has;
  }

  pub or_false : (b : Bool) → b ≡ (b || false)
  or_false true = refl
  or_false false = refl

  or_asked : (b : Bool) → true ≡ (b || true)
  or_asked true = refl
  or_asked false = refl

  file_arg-IsRead :
      (arg : Bytes) (p : ParserData)
      → p.state ≡ normal
      → streq arg (codes "-sourcepath") ≡ false
      → streq arg (codes "-d") ≡ false
      → (streq arg (codes "-cp") || streq arg (codes "-classpath")) ≡ false
      → IsRead normal arg p (file_arg host arg p)
  unfolding file_arg source_path found written next_state asks add_all
  file_arg-IsRead arg p at a b c = elim (Option-cases (get_file_ext arg true)) [
    | inl e ↦ rw (file_arg, e) (plain (rw (source_path, a, b, c, e) refl))
    | inr (ext, e) ↦ elim (Bool-cases (streq ext (codes "java"))) [
      | inr f ↦
          rw (file_arg, e, f)
            (plain (elim (Option-cases (make_path_abs host.fs arg false)) [
              | inl g ↦ rw (source_path, a, b, c, e, g) refl
              | inr (path, g) ↦ rw (source_path, a, b, c, e, g, f) refl
            ]))
      | inl f ↦ elim (Option-cases (make_path_abs host.fs arg false)) [
        | inl g ↦ rw (file_arg, e, f, g) (plain (rw (source_path, a, b, c, e, g) refl))
        | inr (path, g) ↦
            let is : source_path arg ≡ some path = rw (source_path, a, b, c, e, g, f) refl in
            rw (file_arg, e, f, g)
              (record {
                then_state = next;
                sources = rw (found, is) refl;
                common = rw (written, is) (sym (append-nil p.common_args));
                source_path = has;
              })
      ]
    ]
  ]
    where
      next : p.state ≡ next_state normal arg
      next = at ∙ rw (next_state, b, c) refl

      has : p.has_source_path ≡ (p.has_source_path || asks normal arg)
      has = rw (asks, a) (or_false p.has_source_path)

      plain : source_path arg ≡ none → IsRead normal arg p (add_common arg p)
      plain is =
          add_common-IsRead arg normal arg p p refl refl next has (rw (found, is) refl)
            (rw (written, is) refl)

  -- An argument that is `-sourcepath` is no other option.
  other :
      (option arg : Bytes)
      → streq arg (codes "-sourcepath") ≡ true
      → streq (codes "-sourcepath") option ≡ false
      → streq arg option ≡ false
  other option arg is differs =
      ap (λ x. streq x option) (streq→eq arg (codes "-sourcepath") is) ∙ differs

  pub normal_arg-IsRead :
      (arg : Bytes) (p : ParserData)
      → p.state ≡ normal
      → IsRead normal arg p (normal_arg host arg p)
  unfolding normal_arg source_path found written next_state asks streq
  normal_arg-IsRead arg p at = elim (Bool-cases (streq arg (codes "-sourcepath"))) [
    | inl a ↦
        rw (normal_arg, a)
          (add_common-IsRead arg normal arg p (record p { has_source_path = true }) refl refl
            (at
              ∙ rw
                  (
                    next_state,
                    other (codes "-d") arg a refl,
                    other (codes "-cp") arg a refl,
                    other (codes "-classpath") arg a refl,
                  )
                  refl)
            (rw (asks, a) (or_asked p.has_source_path)) (rw (found, source_path, a) refl)
            (rw (written, source_path, a) refl))
    | inr a ↦ elim (Bool-cases (streq arg (codes "-d"))) [
      | inl b ↦
          rw (normal_arg, a, b)
            (add_common-IsRead arg normal arg p (record p { state = in_class_dir }) refl refl
              (rw (next_state, b) refl) (rw (asks, a) (or_false p.has_source_path))
              (rw (found, source_path, a, b) refl) (rw (written, source_path, a, b) refl))
      | inr b ↦ elim (Bool-cases (streq arg (codes "-cp") || streq arg (codes "-classpath"))) [
        | inl c ↦
            rw (normal_arg, a, b, c)
              (add_common-IsRead arg normal arg p (record p { state = in_class_path }) refl refl
                (rw (next_state, b, c) refl) (rw (asks, a) (or_false p.has_source_path))
                (rw (found, source_path, a, b, c) refl) (rw (written, source_path, a, b, c) refl))
        | inr c ↦ rw (normal_arg, a, b, c) (file_arg-IsRead arg p at a b c)
      ]
    ]
  ]
