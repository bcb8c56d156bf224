-- ===== src/Javac/Reading.antt =====
-- The parser of javac does what the command line asks for.
use cc_base.Base.{
  Bool, true, false, ◌||◌, none, some, List, [], ◌∷◌, ◌++◌, ◌≡◌, refl, sym, ap, ◌∙◌, inl, inr,
  arith, subst, ◌>>=◌, Bool-cases, Option-cases, append-nil, append_assoc,
}
use cc_base.Cstring.{Bytes, codes}
use cc_base.Paths.{make_path_abs}
use cc_base.Host.{Host}
use cc_base.Vector.Items.{add_all, add_all-append}
use cc_base.Javac.{
  State, normal, in_class_dir, in_class_path, ParserData, path_max, handle_class_path,
  class_path_text, add_common, normal_arg, arg_step,
}
use cc_base.Javac.{process_arg, process_args, expand_argument, process_argv, add_source_path}
use cc_base.Javac.Named.{
  next_state, asks, found, written, IsRead, add_common-IsRead, or_false, normal_arg-IsRead,
}

module _ (host : Host) where
  arg_step-IsRead :
      (state : State) (arg : Bytes) (p p' : ParserData)
      → p.state ≡ state
      → arg_step host state arg p ≡ some p'
      → IsRead host state arg p p'
  unfolding arg_step found written next_state asks
  arg_step-IsRead normal arg p p' at h =
      let e : normal_arg host arg p ≡ p' = ground arith in
      subst (λ (q : ParserData). IsRead host normal arg p q) e (normal_arg-IsRead host arg p at)
  arg_step-IsRead in_class_dir arg p p' at h =
      let dir : Bytes = elim (make_path_abs host.fs arg false) [ none ↦ arg | some q ↦ q ] in
      let q : ParserData = record p { classdir = dir; state = normal } in
      let e : add_common dir q ≡ p' = ground arith in
      subst (λ (q : ParserData). IsRead host in_class_dir arg p q) e
        (add_common-IsRead host dir in_class_dir arg p q refl refl refl
          (or_false host p.has_source_path) refl refl)
  arg_step-IsRead in_class_path arg p p' at h =
      elim (Option-cases (class_path_text (handle_class_path host path_max arg))) [
        | inl e ↦ absurd (ground (arith, e, h))
        | inr (text, e) ↦
            let q : ParserData = record p { state = normal } in
            let is : add_common text q ≡ p' = ground (arith, e, h) in
            subst (λ (q : ParserData). IsRead host in_class_path arg p q) is
              (add_common-IsRead host text in_class_path arg p q refl refl refl
                (or_false host p.has_source_path) refl (rw (written, e) refl))
      ]

  -- The sources that the arguments name, in their order.
  unfoldable pub named : State → List Bytes → List Bytes
  unfolding found next_state
  named state [] = []
  named state (arg ∷ args) = found host state arg ++ named (next_state state arg) args

  -- What they add to the arguments that all actions share.
  unfoldable pub shared : State → List Bytes → List Bytes
  unfolding written next_state
  shared state [] = []
  shared state (arg ∷ args) = written host state arg ++ shared (next_state state arg) args

  -- Whether one of them is the option `-sourcepath`.
  unfoldable pub asks_any : State → List Bytes → Bool
  unfolding asks next_state
  asks_any state [] = false
  asks_any state (arg ∷ args) = asks state arg || asks_any (next_state state arg) args

  -- The state behind them.
  unfoldable pub state_behind : State → List Bytes → State
  unfolding next_state
  state_behind state [] = state
  state_behind state (arg ∷ args) = state_behind (next_state state arg) args

  -- The parser did what some arguments ask for.
  pub record AreRead (args : List Bytes) (p p' : ParserData) : Type 0 where
    pub sources : p'.sources ≡ add_all p.sources (named p.state args)
    pub common : p'.common_args ≡ p.common_args ++ shared p.state args
    pub source_path : p'.has_source_path ≡ (p.has_source_path || asks_any p.state args)

  AreRead-nil : (p : ParserData) → AreRead [] p p
  unfolding named shared asks_any add_all
  AreRead-nil p = record {
    sources = refl;
    common = sym (append-nil p.common_args);
    source_path = or_false host p.has_source_path;
  }

  or_assoc : (a b c : Bool) → ((a || b) || c) ≡ (a || (b || c))
  or_assoc true b c = refl
  or_assoc false b c = refl

  AreRead-cons :
      (arg : Bytes) (args : List Bytes) (p q p' : ParserData)
      → IsRead host p.state arg p q
      → AreRead args q p'
      → AreRead (arg ∷ args) p p'
  unfolding named shared asks_any
  AreRead-cons arg args p q p' one rest = record {
    sources =
        rest.sources
        ∙ ap (λ s. add_all s (named q.state args)) one.sources
        ∙ ap (λ s. add_all (add_all p.sources (found host p.state arg)) (named s args))
            one.then_state
        ∙ sym (
            add_all-append p.sources (found host p.state arg)
              (named (next_state p.state arg) args));
    common =
        rest.common
        ∙ ap (λ s. s ++ shared q.state args) one.common
        ∙ ap (λ s. (p.common_args ++ written host p.state arg) ++ shared s args) one.then_state
        ∙ append_assoc p.common_args (written host p.state arg)
            (shared (next_state p.state arg) args);
    source_path =
        rest.source_path
        ∙ ap (λ b. b || asks_any q.state args) one.source_path
        ∙ ap (λ s. (p.has_source_path || asks p.state arg) || asks_any s args) one.then_state
        ∙ or_assoc p.has_source_path (asks p.state arg) (asks_any (next_state p.state arg) args);
  }

  process_args-AreRead :
      (args : List Bytes) (p p' : ParserData)
      → host.grants path_max ≡ true
      → process_args host args p ≡ some p'
      → AreRead args p p'
  unfolding process_args process_arg
  process_args-AreRead [] p p' room h =
      let e : p ≡ p' = ground arith in subst (λ (q : ParserData). AreRead [] p q) e (AreRead-nil p)
  process_args-AreRead (arg ∷ args) p p' room h =
      elim (Option-cases (arg_step host p.state arg p)) [
        | inl e ↦ absurd (ground (arith, e, room, h))
        | inr (q, e) ↦
            AreRead-cons arg args p q p' (arg_step-IsRead p.state arg p q refl e)
              (process_args-AreRead args q p' room (ground (arith, e, room, h)))
      ]

  -- The arguments that a command line stands for, those of the argument files among them.
  unfoldable pub expand_all : List Bytes → List Bytes
  unfolding expand_argument
  expand_all [] = []
  expand_all (arg ∷ argv) = expand_argument host arg ++ expand_all argv

  process_args-append :
      (xs ys : List Bytes) (p : ParserData)
      → process_args host (xs ++ ys) p ≡ (do q ← process_args host xs p; process_args host ys q)
  unfolding process_args
  process_args-append [] ys p = refl
  process_args-append (x ∷ xs) ys p = elim (Option-cases (process_arg host x p)) [
    | inl e ↦ rw (process_args, e) refl
    | inr (q, e) ↦ rw (process_args, e) (process_args-append xs ys q)
  ]

  process_argv-process_args :
      (argv : List Bytes) (p : ParserData)
      → process_argv host argv p ≡ process_args host (expand_all argv) p
  unfolding process_argv expand_all process_args
  process_argv-process_args [] p = refl
  process_argv-process_args (arg ∷ argv) p =
      elim (Option-cases (process_args host (expand_argument host arg) p)) [
        | inl e ↦
            rw
              (
                process_argv,
                expand_all,
                process_args-append (expand_argument host arg) (expand_all argv) p,
                e,
              )
              refl
        | inr (q, e) ↦
            rw
              (
                process_argv,
                expand_all,
                process_args-append (expand_argument host arg) (expand_all argv) p,
                e,
              )
              (process_argv-process_args argv q)
      ]

  pub process_argv-AreRead :
      (argv : List Bytes) (p p' : ParserData)
      → host.grants path_max ≡ true
      → process_argv host argv p ≡ some p'
      → AreRead (expand_all argv) p p'
  process_argv-AreRead argv p p' room h =
      process_args-AreRead (expand_all argv) p p' room (sym (process_argv-process_args argv p) ∙ h)

  -- The option for the working directory, if there is none on the command line.
  unfoldable pub default_source_path : Bool → List Bytes
  default_source_path true = []
  default_source_path false = elim (make_path_abs host.fs (codes ".") false) [
    | none ↦ []
    | some workdir ↦ codes "-sourcepath" ∷ workdir ∷ []
  ]

  -- The sources of a command line, each once, and the arguments that its actions share.
  abbrev pub sources_of : List Bytes → List Bytes
  sources_of argv = add_all [] (named normal (expand_all argv))

  abbrev pub common_of : Bytes → List Bytes → List Bytes
  common_of tool_name argv =
      (tool_name ∷ shared normal (expand_all argv))
      ++ default_source_path (asks_any normal (expand_all argv))

  pub common-add_source_path :
      (p : ParserData)
      → (add_source_path host p).common_args
        ≡ p.common_args ++ default_source_path p.has_source_path
  unfolding add_source_path default_source_path
  common-add_source_path p = elim (Bool-cases p.has_source_path) [
    | inl e ↦ rw (add_source_path, e) (sym (append-nil p.common_args))
    | inr e ↦ elim (Option-cases (make_path_abs host.fs (codes ".") false)) [
      | inl f ↦ rw (add_source_path, e, default_source_path, f) (sym (append-nil p.common_args))
      | inr (q, f) ↦ rw (add_source_path, e, default_source_path, f) refl
    ]
  ]
