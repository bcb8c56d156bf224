-- ===== src/Gcc/Named.antt =====
-- What an argument of a command line of gcc asks for.
use cc_base.Base.{
  ℕ, ◌+◌, true, false, Option, none, some, List, [], ◌∷◌, ◌++◌, ◌≡◌, refl, inl, inr, arith,
  if◌then◌else◌, ◌>>=◌, Bool-cases, Option-cases,
}
use cc_base.Cstring.{Bytes, codes, streq}
use cc_base.Paths.{FileSystem, make_path_abs, get_file_ext}
use cc_base.Vector.Items.{add_all}
use cc_base.Tool.{Action}
use cc_base.Gcc.{
  State, normal, in_output_arg, src_exts, is_src_ext, dir_option, Step, plain_argument,
  normal_argument, output_argument, argument_step, inc_pos,
}

-- The state behind an argument: `-o` takes the next one.
unfoldable pub next_state : State → Bytes → State
next_state in_output_arg arg = normal
next_state normal arg = if streq arg (codes "-o") then in_output_arg else normal

-- Where the default includes go behind an argument, given the number of those collected with it:
-- behind the last `-I`, and behind the argument that follows a bare one.
unfoldable pub place_behind : Bytes → ℕ → ℕ → ℕ
place_behind arg size place = if streq arg (codes "-I") then size + 1 else elim (dir_option arg) [
  | none ↦ place
  | some (flag, path) ↦ if streq flag (codes "-I") then size else place
]

pub inc_pos-place_behind :
    (arg : Bytes) (size pos : ℕ) → inc_pos arg size pos ≡ place_behind arg size pos
unfolding inc_pos place_behind dir_option streq
inc_pos-place_behind [] size pos = refl
inc_pos-place_behind (a ∷ []) size pos = ground arith
inc_pos-place_behind (a ∷ c ∷ []) size pos = ground arith
inc_pos-place_behind (a ∷ c ∷ d ∷ rest) size pos = ground arith

module _ (fs : FileSystem) where
  -- The source that an argument names: neither `-o` nor a directory option, but a path that exists,
  -- with one of the accepted extensions.
  unfoldable pub source_of : Bytes → Option Bytes
  source_of arg = if streq arg (codes "-o") then none else elim (dir_option arg) [
    | some option ↦ none
    | none ↦ (do
      full ← make_path_abs fs arg true
      ext ← get_file_ext full true
      if is_src_ext src_exts ext then some full else none)
  ]

  unfoldable pub found : State → Bytes → List Bytes
  unfolding source_of
  found in_output_arg arg = []
  found normal arg = elim (source_of arg) [ none ↦ [] | some full ↦ full ∷ [] ]

  -- How a path is written down: absolute, if there is such a path.
  abbrev pub absolute_or : Bytes → Bytes → Bytes → Bytes
  absolute_or flag path arg = elim (make_path_abs fs path false) [
    | none ↦ arg
    | some full ↦ flag ++ full
  ]

  -- How an argument is written down.
  unfoldable pub written : State → Bytes → Bytes
  unfolding source_of
  written in_output_arg arg = absolute_or [] arg arg
  written normal arg = if streq arg (codes "-o") then arg else elim (dir_option arg) [
    | some (flag, path) ↦ absolute_or flag path arg
    | none ↦ elim (source_of arg) [ none ↦ arg | some full ↦ full ]
  ]

  -- A step did what the argument asks for.
  pub record IsRead (state : State) (arg : Bytes) (action : Action) (s : Step) : Type 0 where
    pub then_state : s.state ≡ next_state state arg
    pub text : s.arg_to_add ≡ written state arg
    pub sources : s.action.sources ≡ add_all action.sources (found state arg)
    pub arguments : s.action.arguments ≡ action.arguments

  plain_argument-IsRead :
      (arg : Bytes) (action : Action)
      → streq arg (codes "-o") ≡ false
      → dir_option arg ≡ none
      → IsRead normal arg action (plain_argument fs arg action)
  unfolding plain_argument source_of found written next_state add_all
  plain_argument-IsRead arg action a b = elim (Option-cases (make_path_abs fs arg true)) [
    | inl e ↦ rw (plain_argument, e) (no_source (rw (source_of, a, b, e) refl))
    | inr (full, e) ↦ elim (Option-cases (get_file_ext full true)) [
      | inl f ↦ rw (plain_argument, e, f) (no_source (rw (source_of, a, b, e, f) refl))
      | inr (ext, f) ↦ elim (Bool-cases (is_src_ext src_exts ext)) [
        | inr g ↦ rw (plain_argument, e, f, g) (no_source (rw (source_of, a, b, e, f, g) refl))
        | inl g ↦
            let is : source_of arg ≡ some full = rw (source_of, a, b, e, f, g) refl in
            rw (plain_argument, e, f, g)
              (record {
                then_state = rw (next_state, a) refl;
                text = rw (written, a, b, is) refl;
                sources = rw (found, is) refl;
                arguments = refl;
              })
      ]
    ]
  ]
    where
      no_source :
          source_of arg ≡ none
          → IsRead normal arg action (record { state = normal; arg_to_add = arg; action = action })
      no_source is = record {
        then_state = rw (next_state, a) refl;
        text = rw (written, a, b, is) refl;
        sources = rw (found, is) refl;
        arguments = refl;
      }

  pub argument_step-IsRead :
      (state : State) (arg : Bytes) (action : Action)
      → IsRead state arg action (argument_step fs state arg action)
  unfolding argument_step output_argument normal_argument source_of found written next_state add_all
  argument_step-IsRead in_output_arg arg action = record {
    then_state = refl;
    text = refl;
    sources = refl;
    arguments = refl;
  }
  argument_step-IsRead normal arg action = elim (Bool-cases (streq arg (codes "-o"))) [
    | inl a ↦
        rw (argument_step, normal_argument, a)
          (record {
            then_state = rw (next_state, a) refl;
            text = rw (written, a) refl;
            sources = rw (found, source_of, a) refl;
            arguments = refl;
          })
    | inr a ↦ elim (Option-cases (dir_option arg)) [
      | inl b ↦ rw (argument_step, normal_argument, a, b) (plain_argument-IsRead arg action a b)
      | inr ((flag, path), b) ↦
          rw (argument_step, normal_argument, a, b)
            (record {
              then_state = rw (next_state, a) refl;
              text = rw (written, a, b) refl;
              sources = rw (found, source_of, a, b) refl;
              arguments = refl;
            })
    ]
  ]
