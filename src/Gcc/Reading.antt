-- ===== src/Gcc/Reading.antt =====
-- The parser of gcc does what the command line asks for.
use cc_base.Base.{
  ℕ, ◌+◌, List, [], ◌∷◌, ◌++◌, ◌≡◌, refl, sym, ap, ◌∙◌, length, length-append, append-nil,
  append_assoc,
}
use cc_base.Cstring.{Bytes}
use cc_base.Paths.{FileSystem}
use cc_base.Vector.Items.{add_all, add_all-append}
use cc_base.Gcc.{State, normal, Progress, process_argument, process_arguments}
use cc_base.Gcc.Arguments.{keep, step_of, advance, arguments-add_argument, sources-add_argument}
use cc_base.Gcc.Named.{
  next_state, place_behind, inc_pos-place_behind, found, written, argument_step-IsRead,
}

module _ (fs : FileSystem) where
  -- The sources that the arguments name, in their order.
  unfoldable pub named : State → List Bytes → List Bytes
  unfolding found next_state
  named state [] = []
  named state (arg ∷ argv) = found fs state arg ++ named (next_state state arg) argv

  -- How the arguments are written down, less those that have become empty.
  unfoldable pub outs_of : State → List Bytes → List Bytes
  unfolding written next_state
  outs_of state [] = []
  outs_of state (arg ∷ argv) = keep (written fs state arg) ++ outs_of (next_state state arg) argv

  -- The place for the default includes, from the number of arguments and the place before.
  unfoldable pub place : State → List Bytes → ℕ → ℕ → ℕ
  unfolding written next_state place_behind
  place state [] size pos = pos
  place state (arg ∷ argv) size pos =
      let grown = size + length (keep (written fs state arg)) in
      place (next_state state arg) argv grown (place_behind arg grown pos)

  -- The parser did what some arguments ask for.
  pub record AreRead (argv : List Bytes) (p p' : Progress) : Type 0 where
    pub sources : p'.action.sources ≡ add_all p.action.sources (named p.state argv)
    pub arguments : p'.action.arguments ≡ p.action.arguments ++ outs_of p.state argv
    pub last_inc_pos :
        p'.last_inc_pos ≡ place p.state argv (length p.action.arguments) p.last_inc_pos

  -- One argument in front of others.
  advance-AreRead :
      (arg : Bytes) (argv : List Bytes) (p p' : Progress)
      → AreRead argv (advance fs arg p) p'
      → AreRead (arg ∷ argv) p p'
  unfolding named outs_of place
  advance-AreRead arg argv p p' rest =
      let s = step_of fs arg p in
      let q = advance fs arg p in
      let one = argument_step-IsRead fs p.state arg p.action in
      let sources : q.action.sources ≡ add_all p.action.sources (found fs p.state arg) =
        sources-add_argument s.arg_to_add s.action ∙ one.sources in
      let arguments : q.action.arguments ≡ p.action.arguments ++ keep (written fs p.state arg) =
        arguments-add_argument s.arg_to_add s.action
        ∙ ap (λ l. l ++ keep s.arg_to_add) one.arguments
        ∙ ap (λ t. p.action.arguments ++ keep t) one.text in
      let size : length q.action.arguments
          ≡ length p.action.arguments + length (keep (written fs p.state arg)) =
        ap length arguments ∙ length-append p.action.arguments (keep (written fs p.state arg)) in
      record {
        sources =
            rest.sources
            ∙ ap (λ l. add_all l (named q.state argv)) sources
            ∙ ap (λ st. add_all (add_all p.action.sources (found fs p.state arg)) (named st argv))
                one.then_state
            ∙ sym (
                add_all-append p.action.sources (found fs p.state arg)
                  (named (next_state p.state arg) argv));
        arguments =
            rest.arguments
            ∙ ap (λ l. l ++ outs_of q.state argv) arguments
            ∙ ap (λ st. (p.action.arguments ++ keep (written fs p.state arg)) ++ outs_of st argv)
                one.then_state
            ∙ append_assoc p.action.arguments (keep (written fs p.state arg))
                (outs_of (next_state p.state arg) argv);
        last_inc_pos =
            rest.last_inc_pos
            ∙ ap (λ st. place st argv (length q.action.arguments) q.last_inc_pos) one.then_state
            ∙ ap (λ pos. place (next_state p.state arg) argv (length q.action.arguments) pos)
                (inc_pos-place_behind arg (length q.action.arguments) p.last_inc_pos)
            ∙ ap (λ n. place (next_state p.state arg) argv n (place_behind arg n p.last_inc_pos))
                size;
      }

  pub process_arguments-AreRead :
      (argv : List Bytes) (p : Progress) → AreRead argv p (process_arguments fs argv p)
  unfolding process_arguments process_argument named outs_of place add_all
  process_arguments-AreRead [] p = record {
    sources = refl;
    arguments = sym (append-nil p.action.arguments);
    last_inc_pos = refl;
  }
  process_arguments-AreRead (arg ∷ argv) p =
      advance-AreRead arg argv p _ (process_arguments-AreRead argv (advance fs arg p))

  -- The sources of a command line, each once.
  abbrev pub sources_of : List Bytes → List Bytes
  sources_of argv = add_all [] (named normal argv)

  -- The place for the default includes, where the tool's name is the first argument.
  abbrev pub place_of : List Bytes → ℕ
  place_of argv = place normal argv 1 1
