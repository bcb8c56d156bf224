-- ===== src/Gcc/Arguments.antt =====
-- What the parser of gcc makes of the arguments of a command line.
use cc_base.Base.{
  Bool, true, false, none, some, List, [], ◌∷◌, ◌++◌, ◌≡◌, refl, sym, ap, ◌∙◌, inl, inr, arith,
  length, All, Bool-cases, Option-cases, append-nil, append_assoc,
}
use cc_base.Cstring.{Bytes, codes, streq}
use cc_base.Paths.{FileSystem, make_path_abs, get_file_ext}
use cc_base.Vector.Spec.{append_unique}
use cc_base.Vector.Items.{Distinct, append_unique-Distinct, append_unique-All}
use cc_base.Tool.{Action}
use cc_base.Gcc.{
  State, normal, in_output_arg, src_exts, is_src_ext, dir_option, Step, plain_argument,
  normal_argument, output_argument, argument_step, add_argument, process_argument, inc_pos,
  Progress, process_arguments,
}

-- An argument that has become empty is left out.
abbrev pub keep : Bytes → List Bytes
keep [] = []
keep (c ∷ out) = (c ∷ out) ∷ []

pub arguments-add_argument :
    (out : Bytes) (action : Action)
    → (add_argument out action).arguments ≡ action.arguments ++ keep out
unfolding add_argument
arguments-add_argument [] action = sym (append-nil action.arguments)
arguments-add_argument (c ∷ out) action = refl

pub sources-add_argument :
    (out : Bytes) (action : Action) → (add_argument out action).sources ≡ action.sources
unfolding add_argument
sources-add_argument [] action = refl
sources-add_argument (c ∷ out) action = refl

module _ (fs : FileSystem) where
  -- `src` is a file that `arg` names and that exists, with one of the accepted extensions.
  pub record IsSource (src arg : Bytes) : Type 0 where
    pub resolved : make_path_abs fs arg true ≡ some src
    pub ext : Bytes
    pub has_ext : get_file_ext src true ≡ some ext
    pub accepted : is_src_ext src_exts ext ≡ true

  -- How an argument is written down: as it is, as an absolute path, or as `-I` or `-L` with an
  -- absolute path.
  pub data Rewritten (arg : Bytes) : Bytes → Type 0 where
    same : {out : Bytes} → out ≡ arg → Rewritten arg out
    path :
        {out : Bytes} (must_exist : Bool)
        → make_path_abs fs arg must_exist ≡ some out
        → Rewritten arg out
    dir :
        {out : Bytes} (flag rest q : Bytes)
        → dir_option arg ≡ some (flag, rest)
        → make_path_abs fs rest false ≡ some q
        → out ≡ flag ++ q
        → Rewritten arg out

  -- What one argument does to the sources: nothing, or it adds the file that it names.
  pub data Sourced (arg : Bytes) (before : List Bytes) : List Bytes → Type 0 where
    kept : {after : List Bytes} → after ≡ before → Sourced arg before after
    added :
        {after : List Bytes} (src : Bytes)
        → IsSource src arg
        → after ≡ append_unique streq before src
        → Sourced arg before after

  -- The parts of one step.
  pub record Describes (arg : Bytes) (action : Action) (s : Step) : Type 0 where
    pub rewritten : Rewritten arg s.arg_to_add
    pub sourced : Sourced arg action.sources s.action.sources
    pub arguments : s.action.arguments ≡ action.arguments

  abbrev untouched : Bytes → Action → State → Step
  untouched arg action state = record { state = state; arg_to_add = arg; action = action }

  untouched_lem :
      (arg : Bytes) (action : Action) (state : State)
      → Describes arg action (untouched arg action state)
  untouched_lem arg action state = record {
    rewritten = same refl;
    sourced = kept refl;
    arguments = refl;
  }

  plain_argument_lem :
      (arg : Bytes) (action : Action) → Describes arg action (plain_argument fs arg action)
  unfolding plain_argument
  plain_argument_lem arg action = elim (Option-cases (make_path_abs fs arg true)) [
    | inl e ↦ rw (plain_argument, e) (untouched_lem arg action normal)
    | inr (full, e) ↦ elim (Option-cases (get_file_ext full true)) [
      | inl f ↦ rw (plain_argument, e, f) (untouched_lem arg action normal)
      | inr (ext, f) ↦ elim (Bool-cases (is_src_ext src_exts ext)) [
        | inr g ↦ rw (plain_argument, e, f, g) (untouched_lem arg action normal)
        | inl g ↦
            rw (plain_argument, e, f, g)
              (record {
                rewritten = path true e;
                sourced =
                    added full (record { resolved = e; ext = ext; has_ext = f; accepted = g }) refl;
                arguments = refl;
              })
      ]
    ]
  ]

  dir_argument_lem :
      (arg flag rest : Bytes) (action : Action)
      → dir_option arg ≡ some (flag, rest)
      → Describes arg action (record {
        state = normal;
        arg_to_add = elim (make_path_abs fs rest false) [ none ↦ arg | some q ↦ flag ++ q ];
        action = action;
      })
  dir_argument_lem arg flag rest action d = elim (Option-cases (make_path_abs fs rest false)) [
    | inl e ↦ record { rewritten = same (ground (arith, e)); sourced = kept refl; arguments = refl }
    | inr (q, e) ↦ record {
      rewritten = dir flag rest q d e (ground (arith, e));
      sourced = kept refl;
      arguments = refl;
    }
  ]

  normal_argument_lem :
      (arg : Bytes) (action : Action) → Describes arg action (normal_argument fs arg action)
  unfolding normal_argument
  normal_argument_lem arg action = elim (Bool-cases (streq arg (codes "-o"))) [
    | inl e ↦ rw (normal_argument, e) (untouched_lem arg action in_output_arg)
    | inr e ↦ elim (Option-cases (dir_option arg)) [
      | inl f ↦ rw (normal_argument, e, f) (plain_argument_lem arg action)
      | inr ((flag, rest), f) ↦ rw (normal_argument, e, f) (dir_argument_lem arg flag rest action f)
    ]
  ]

  output_argument_lem :
      (arg : Bytes) (action : Action) → Describes arg action (output_argument fs arg action)
  unfolding output_argument
  output_argument_lem arg action = elim (Option-cases (make_path_abs fs arg false)) [
    | inl e ↦ record { rewritten = same (ground (arith, e)); sourced = kept refl; arguments = refl }
    | inr (q, e) ↦ record {
      rewritten = path false (ground (arith, e));
      sourced = kept refl;
      arguments = refl;
    }
  ]

  pub argument_step_lem :
      (state : State) (arg : Bytes) (action : Action)
      → Describes arg action (argument_step fs state arg action)
  unfolding argument_step
  argument_step_lem in_output_arg arg action = output_argument_lem arg action
  argument_step_lem normal arg action = normal_argument_lem arg action

  abbrev pub step_of : Bytes → Progress → Step
  step_of arg p = argument_step fs p.state arg p.action

  -- The loop's state after one argument.
  abbrev pub advance : Bytes → Progress → Progress
  advance arg p =
      let action = add_argument (step_of arg p).arg_to_add (step_of arg p).action in
      record {
        state = (step_of arg p).state;
        action = action;
        last_inc_pos = inc_pos arg (length action.arguments) p.last_inc_pos;
      }

  -- The arguments that are collected for those of the command line, in their order.
  pub data Command : List Bytes → List Bytes → Type 0 where
    done : {outs : List Bytes} → outs ≡ [] → Command [] outs
    next :
        {arg : Bytes} {argv outs : List Bytes} (out : Bytes) (rest : List Bytes)
        → Rewritten arg out
        → Command argv rest
        → outs ≡ keep out ++ rest
        → Command (arg ∷ argv) outs

  -- The arguments collected are those given, in order, each as it is or with its path made
  -- absolute, less those that are empty.
  pub process_arguments-Command :
      (argv : List Bytes) (p : Progress)
      → (outs : List Bytes) × ((process_arguments fs argv p).action.arguments
          ≡ p.action.arguments ++ outs)
        × Command argv outs
  unfolding process_arguments process_argument
  process_arguments-Command [] p = ([], sym (append-nil p.action.arguments), done refl)
  process_arguments-Command (arg ∷ argv) p =
      let (rest, e, c) = process_arguments-Command argv (advance arg p) in
      let s = step_of arg p in
      let d = argument_step_lem p.state arg p.action in
      (
        keep s.arg_to_add ++ rest,
        e
            ∙ ap (λ l. l ++ rest)
                (arguments-add_argument s.arg_to_add s.action
                  ∙ ap (λ l. l ++ keep s.arg_to_add) d.arguments)
            ∙ append_assoc p.action.arguments (keep s.arg_to_add) rest,
        next s.arg_to_add rest d.rewritten c refl,
      )

  Sourced-Distinct :
      {arg : Bytes} {before after : List Bytes}
      → Sourced arg before after
      → Distinct before
      → Distinct after
  Sourced-Distinct (kept e) d = rw e d
  Sourced-Distinct {before = before} (added src h e) d = rw e (append_unique-Distinct before src d)

  Sourced-All :
      (P : Bytes → Type 0) {arg : Bytes} {before after : List Bytes}
      → Sourced arg before after
      → ((src : Bytes) → IsSource src arg → P src)
      → All P before
      → All P after
  Sourced-All P (kept e) new h = rw e h
  Sourced-All P {before = before} (added src s e) new h =
      rw e (append_unique-All P before src h (new src s))

  pub process_arguments-Distinct :
      (argv : List Bytes) (p : Progress)
      → Distinct p.action.sources
      → Distinct (process_arguments fs argv p).action.sources
  unfolding process_arguments process_argument
  process_arguments-Distinct [] p d = d
  process_arguments-Distinct (arg ∷ argv) p d =
      let s = step_of arg p in
      process_arguments-Distinct argv (advance arg p) (
        rw (sources-add_argument s.arg_to_add s.action)
          (Sourced-Distinct (argument_step_lem p.state arg p.action).sourced d))

  -- If the sources before the loop have a property that every source named by an argument has,
  -- then so have those after it.
  pub process_arguments-All :
      (P : Bytes → Type 0) (argv : List Bytes) (p : Progress)
      → All (λ arg. (src : Bytes) → IsSource src arg → P src) argv
      → All P p.action.sources
      → All P (process_arguments fs argv p).action.sources
  unfolding process_arguments process_argument
  process_arguments-All P [] p new h = h
  process_arguments-All P (arg ∷ argv) p new h =
      let s = step_of arg p in
      process_arguments-All P argv (advance arg p) new.1 (
        rw (sources-add_argument s.arg_to_add s.action)
          (Sourced-All P (argument_step_lem p.state arg p.action).sourced new.0 h))
