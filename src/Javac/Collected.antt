-- ===== src/Javac/Collected.antt =====
-- The actions that the parser of javac collects.
use cc_base.Base.{
  true, false, some, List, [], ◌∷◌, ◌++◌, ◌≡◌, refl, ◌∙◌, inl, inr, arith, All, Bool-cases,
  Option-cases, append-nil,
}
use cc_base.Cstring.{Bytes, codes, slash}
use cc_base.Cstring.Laws.{Lacks}
use cc_base.Paths.{make_path_abs}
use cc_base.Paths.Parts.{relative_has_no_parts}
use cc_base.Host.{Host}
use cc_base.Tool.{Action}
use cc_base.Javac.{
  ParserData, expand_argument, process_argv, add_source_path, output_file, source_action,
  source_actions, initial, collect_actions,
}
use cc_base.Javac.Arguments.{kept, added, Keeps, process_argv-keep}

-- One action for each source, in order: it compiles the source, and its command is the common
-- arguments with the source behind them.
pub data Actions (common : List Bytes) : List Bytes → List Action → Type 0 where
  done : {acts : List Action} → acts ≡ [] → Actions common [] acts
  next :
      {src : Bytes} {sources : List Bytes} {acts : List Action} (a : Action) (rest : List Action)
      → a.sources ≡ src ∷ []
      → a.arguments ≡ common ++ src ∷ []
      → Actions common sources rest
      → acts ≡ a ∷ rest
      → Actions common (src ∷ sources) acts

Actions-nil : {common : List Bytes} {acts : List Action} → Actions common [] acts → acts ≡ []
Actions-nil (done e) = e

no_actions : (actions new : List Action) → new ≡ [] → actions ++ new ≡ actions
no_actions actions new e = rw e (append-nil actions)

abbrev IsEmpty : List Bytes → Type 0
IsEmpty sources = sources ≡ []

module _ (host : Host) (tool_name : Bytes) where
  source_action-fields :
      (p : ParserData) (src : Bytes) (a : Action)
      → source_action host tool_name p src ≡ some a
      → (a.sources ≡ src ∷ []) × (a.arguments ≡ p.common_args ++ src ∷ [])
  unfolding source_action
  source_action-fields p src a h = elim (Option-cases (output_file p.classdir src)) [
    | inl e ↦ absurd (ground (arith, e, h))
    | inr (file, e) ↦ (ground (arith, e, h), ground (arith, e, h))
  ]

  source_actions-Actions :
      (p : ParserData) (sources : List Bytes) (acts : List Action)
      → source_actions host tool_name p sources ≡ some acts
      → Actions p.common_args sources acts
  unfolding source_actions
  source_actions-Actions p [] acts h = done (ground arith)
  source_actions-Actions p (src ∷ sources) acts h =
      elim (Option-cases (source_action host tool_name p src)) [
        | inl e ↦ absurd (ground (arith, e, h))
        | inr (a, e) ↦ elim (Option-cases (source_actions host tool_name p sources)) [
          | inl f ↦ absurd (ground (arith, e, f, h))
          | inr (rest, f) ↦
              let fields = source_action-fields p src a e in
              next a rest fields.0 fields.1 (source_actions-Actions p sources rest f)
                (ground (arith, e, f, h))
        ]
      ]

  sources-add_source_path : (p : ParserData) → (add_source_path host p).sources ≡ p.sources
  unfolding add_source_path
  sources-add_source_path p = elim (Bool-cases p.has_source_path) [
    | inl e ↦ ground (arith, e)
    | inr e ↦ elim (Option-cases (make_path_abs host.fs (codes ".") false)) [
      | inl f ↦ ground (arith, e, f)
      | inr (q, f) ↦ ground (arith, e, f)
    ]
  ]

  -- The parts of a successful run.
  record Run (argv : List Bytes) (actions result : List Action) : Type 0 where
    parsed : ParserData
    ran : process_argv host argv (initial tool_name) ≡ some parsed
    new : List Action
    made :
        source_actions host tool_name
          (add_source_path host parsed)
          (add_source_path host parsed).sources
        ≡ some new
    out : result ≡ actions ++ new

  collect_actions-Run :
      (argv : List Bytes) (actions result : List Action)
      → collect_actions host tool_name argv actions ≡ some result
      → Run argv actions result
  unfolding collect_actions
  collect_actions-Run argv actions result h =
      elim (Option-cases (process_argv host argv (initial tool_name))) [
        | inl e ↦ absurd (ground (arith, e, h))
        | inr (p, e) ↦
            let q = add_source_path host p in
            elim (Option-cases (source_actions host tool_name q q.sources)) [
              | inl f ↦ absurd (ground (arith, e, f, h))
              | inr (new, f) ↦ record {
                parsed = p;
                ran = e;
                new = new;
                made = f;
                out = ground (arith, e, f, h);
              }
            ]
      ]

  Sourced_no_slash : (arg : Bytes) → Lacks slash arg → Keeps host IsEmpty arg
  Sourced_no_slash arg lacks before after (kept e) h = e ∙ h
  Sourced_no_slash arg lacks before after (added ext path e g f a) h =
      absurd (cc (e, (relative_has_no_parts arg true lacks).2))

  -- A source is recognised only by a path with a slash in it: a command line whose arguments have
  -- none gives no action, whatever java files it names.
  pub collect_actions_no_slash :
      (argv : List Bytes) (actions result : List Action)
      → All (λ arg. All (Lacks slash) (expand_argument host arg)) argv
      → collect_actions host tool_name argv actions ≡ some result
      → result ≡ actions
  unfolding add_source_path
  collect_actions_no_slash argv actions result lacks h =
      let r = collect_actions-Run argv actions result h in
      let none_found : r.parsed.sources ≡ [] =
        process_argv-keep host IsEmpty argv (initial tool_name) r.parsed (every argv lacks) r.ran
          refl in
      let made : source_actions host tool_name (add_source_path host r.parsed) [] ≡ some r.new =
        rw (sources-add_source_path r.parsed, none_found) at r.made in
      r.out ∙ no_actions actions r.new (Actions-nil (source_actions-Actions _ [] r.new made))
    where
      all_keep : (args : List Bytes) → All (Lacks slash) args → All (Keeps host IsEmpty) args
      all_keep [] l = tt
      all_keep (arg ∷ args) l = (Sourced_no_slash arg l.0, all_keep args l.1)

      every :
          (args : List Bytes)
          → All (λ arg. All (Lacks slash) (expand_argument host arg)) args
          → All (λ arg. All (Keeps host IsEmpty) (expand_argument host arg)) args
      every [] l = tt
      every (arg ∷ args) l = (all_keep (expand_argument host arg) l.0, every args l.1)
