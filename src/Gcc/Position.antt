-- ===== src/Gcc/Position.antt =====
-- The place where the default includes go.
use cc_base.Base.{
  ℕ, ◌+◌, ◌≤◌, Bool, false, none, some, List, [], ◌∷◌, ◌++◌, ◌≡◌, ◌≢◌, refl, ap, ◌∙◌, arith, ◌>>=◌,
  length, length-append, take, drop,
}
use cc_base.Cstring.{Bytes, codes}
use cc_base.Paths.{FileSystem, make_path_abs}
use cc_base.Paths.Absolute.{make_path_abs-prefix}
use cc_base.Host.{Host, Environ}
use cc_base.Vector.Spec.{insert_at}
use cc_base.Tool.{Action}
use cc_base.Gcc.{
  inc_pos, Progress, process_argument, process_arguments, add_defaults, start, drop_output,
  default_includes, collect_actions,
}
use cc_base.Gcc.Arguments.{
  Rewritten, same, path, dir, keep, step_of, advance, argument_step_lem, arguments-add_argument,
}

-- The position is at most one behind the end, and behind the tool's name.
record InReach (p : Progress) : Type 0 where
  from : 1 ≤ p.last_inc_pos
  upto : p.last_inc_pos ≤ length p.action.arguments + 1
  named : 1 ≤ length p.action.arguments

inc_pos_upto :
    (arg : Bytes) (size pos : ℕ)
    → 1 ≤ size
    → 1 ≤ pos
    → pos ≤ size + 1
    → (1 ≤ inc_pos arg size pos) × (inc_pos arg size pos ≤ size + 1)
unfolding inc_pos
inc_pos_upto [] size pos h f u = (f, u)
inc_pos_upto (a ∷ []) size pos h f u = (f, u)
inc_pos_upto (a ∷ c ∷ []) size pos h f u = ground arith
inc_pos_upto (a ∷ c ∷ d ∷ rest) size pos h f u = ground arith

-- Behind an argument that is not a bare `-I` the position is not past the end.
inc_pos_in :
    (arg : Bytes) (size pos : ℕ) → arg ≢ codes "-I" → pos ≤ size → inc_pos arg size pos ≤ size
unfolding inc_pos
inc_pos_in [] size pos ne u = u
inc_pos_in (a ∷ []) size pos ne u = u
inc_pos_in (a ∷ c ∷ []) size pos ne u = ground arith
inc_pos_in (a ∷ c ∷ d ∷ rest) size pos ne u = ground arith

inc_pos_bare : (size pos : ℕ) → inc_pos (codes "-I") size pos ≡ size + 1
unfolding inc_pos
inc_pos_bare size pos = refl

module _ (fs : FileSystem) where
  size_of_next :
      (arg : Bytes) (p : Progress)
      → length (advance fs arg p).action.arguments
        ≡ length p.action.arguments + length (keep (step_of fs arg p).arg_to_add)
  size_of_next arg p =
      let s = step_of fs arg p in
      ap length (arguments-add_argument s.arg_to_add s.action)
      ∙ length-append s.action.arguments (keep s.arg_to_add)
      ∙ ap (λ l. length l + length (keep s.arg_to_add))
          (argument_step_lem fs p.state arg p.action).arguments

  advance-InReach : (arg : Bytes) (p : Progress) → InReach p → InReach (advance fs arg p)
  advance-InReach arg p r =
      let size = length (advance fs arg p).action.arguments in
      let grown : length p.action.arguments ≤ size = omega (arith, size_of_next arg p) in
      let pos =
        inc_pos_upto arg size p.last_inc_pos (omega (arith, grown, r.named)) r.from
          (omega (arith, grown, r.upto)) in
      record { from = pos.0; upto = pos.1; named = omega (arith, grown, r.named) }

  process_arguments-InReach :
      (argv : List Bytes) (p : Progress) → InReach p → InReach (process_arguments fs argv p)
  unfolding process_arguments process_argument
  process_arguments-InReach [] p r = r
  process_arguments-InReach (arg ∷ argv) p r =
      process_arguments-InReach argv (advance fs arg p) (advance-InReach arg p r)

  process_arguments-append :
      (xs ys : List Bytes) (p : Progress)
      → process_arguments fs (xs ++ ys) p ≡ process_arguments fs ys (process_arguments fs xs p)
  unfolding process_arguments
  process_arguments-append [] ys p = refl
  process_arguments-append (x ∷ xs) ys p = process_arguments-append xs ys _

  start-InReach : (tool_name : Bytes) → InReach (start fs tool_name)
  start-InReach tool_name = record { from = omega arith; upto = omega arith; named = omega arith }

append_ne_nil : (xs ys : Bytes) → ys ≢ [] → xs ++ ys ≢ []
append_ne_nil [] ys h = h
append_ne_nil (x ∷ xs) ys h = λ e. cc

append_ne_nil_left : (xs ys : Bytes) → xs ≢ [] → xs ++ ys ≢ []
append_ne_nil_left [] ys h = absurd (h refl)
append_ne_nil_left (x ∷ xs) ys h = λ e. cc

length-keep : (out : Bytes) → out ≢ [] → length (keep out) ≡ 1
length-keep [] h = absurd (h refl)
length-keep (c ∷ out) h = refl

module _ (fs : FileSystem) (real : (p q : Bytes) → fs.realpath p ≡ some q → q ≢ []) where
  make_path_abs_ne_nil :
      (p q : Bytes) (must_exist : Bool) → make_path_abs fs p must_exist ≡ some q → q ≢ []
  make_path_abs_ne_nil p q must_exist h =
      let (known, rest, base, a, k, e) = make_path_abs-prefix fs p q must_exist h in
      rw e (append_ne_nil_left base rest (real known base k))

  Rewritten-ne_nil : {arg out : Bytes} → Rewritten fs arg out → arg ≢ [] → out ≢ []
  Rewritten-ne_nil (same e) ne = rw e ne
  Rewritten-ne_nil {arg} {out} (path must_exist e) ne = make_path_abs_ne_nil arg out must_exist e
  Rewritten-ne_nil (dir flag rest q d e o) ne =
      rw o (append_ne_nil flag q (make_path_abs_ne_nil rest q false e))

module _ (host : Host) (env : Environ) (prog tool_name : Bytes) where
  abbrev pub parsed : List Bytes → Progress
  parsed argv = process_arguments host.fs argv (start host.fs tool_name)

  parsed-InReach : (argv : List Bytes) → InReach (parsed argv)
  parsed-InReach argv =
      process_arguments-InReach host.fs argv (start host.fs tool_name)
        (start-InReach host.fs tool_name)

  collected_of :
      (argv : List Bytes) (actions : List Action)
      → collect_actions host env prog tool_name argv actions ≡ (do
        arguments ←
            add_defaults
              (parsed argv).action.arguments
              (default_includes host env prog)
              (parsed argv).last_inc_pos
        some (actions ++ drop_output (record (parsed argv).action { arguments = arguments }) ∷ []))
  unfolding collect_actions
  collected_of argv actions = refl

  parsed_snoc :
      (argv : List Bytes) (last : Bytes)
      → parsed (argv ++ last ∷ []) ≡ advance host.fs last (parsed argv)
  unfolding process_arguments process_argument
  parsed_snoc argv last =
      process_arguments-append host.fs argv (last ∷ []) (start host.fs tool_name)

  add_defaults_far :
      (arguments : List Bytes) (d : Bytes) (ds : List Bytes)
      → add_defaults arguments (d ∷ ds) (length arguments + 1) ≡ none
  unfolding add_defaults insert_at
  add_defaults_far arguments d ds = ground arith

  -- A command line that ends with a bare `-I` fails the assertion of `loggerVectorAddFrom`, and so
  -- stops the process, if there is a default include.
  pub collect_actions_bare_include :
      (argv : List Bytes) (d : Bytes) (ds : List Bytes) (actions : List Action)
      → default_includes host env prog ≡ d ∷ ds
      → collect_actions host env prog tool_name (argv ++ codes "-I" ∷ []) actions ≡ none
  collect_actions_bare_include argv d ds actions h =
      let p = parsed argv in
      let size = length (advance host.fs (codes "-I") p).action.arguments in
      rw (collected_of (argv ++ codes "-I" ∷ []) actions, h, parsed_snoc argv (codes "-I"))
        (rw (
          inc_pos_bare size p.last_inc_pos,
          add_defaults_far (advance host.fs (codes "-I") p).action.arguments d ds,
        ))

  add_defaults_near :
      (arguments defaults : List Bytes) (pos : ℕ)
      → pos ≤ length arguments
      → (result : List Bytes) × (add_defaults arguments defaults pos ≡ some result)
  unfolding add_defaults insert_at
  add_defaults_near arguments [] pos h = (arguments, refl)
  add_defaults_near arguments (d ∷ ds) pos h =
      (take pos arguments ++ ((d ∷ ds) ++ drop pos arguments), ground arith)

  -- If the last argument is neither empty nor a bare `-I`, and no real path is empty, then the
  -- command line is parsed.
  pub collect_actions_total :
      (argv : List Bytes) (last : Bytes) (actions : List Action)
      → ((p q : Bytes) → host.fs.realpath p ≡ some q → q ≢ [])
      → last ≢ []
      → last ≢ codes "-I"
      → (result : List Action) × (collect_actions host env prog tool_name
            (argv ++ last ∷ [])
            actions
          ≡ some result)
  collect_actions_total argv last actions real ne bare =
      let p = parsed argv in
      let q = advance host.fs last p in
      let out = (step_of host.fs last p).arg_to_add in
      let rewritten = (argument_step_lem host.fs p.state last p.action).rewritten in
      let one = length-keep out (Rewritten-ne_nil host.fs real rewritten ne) in
      let reach = parsed-InReach argv in
      let inside =
        inc_pos_in last (length q.action.arguments) p.last_inc_pos bare
          (omega (arith, size_of_next host.fs last p, one, reach.upto)) in
      let (arguments, e) =
        add_defaults_near q.action.arguments (default_includes host env prog) q.last_inc_pos
          inside in
      (
        actions ++ drop_output (record q.action { arguments = arguments }) ∷ [],
        rw (collected_of (argv ++ last ∷ []) actions, parsed_snoc argv last, e),
      )
