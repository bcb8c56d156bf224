-- ===== src/Gcc/Collected.antt =====
-- The action that the parser of gcc collects, and when it collects one.
use cc_base.Base.{
  ℕ, zero, suc, ◌≤◌, some, List, [], ◌∷◌, ◌++◌, ◌≡◌, ◌≢◌, refl, sym, ap, subst, ◌∙◌, ◌⊎◌, inl, inr,
  arith, length, take, drop, All, Any, Option-cases,
}
use cc_base.Cstring.{Bytes, streq}
use cc_base.Paths.{FileSystem}
use cc_base.Vector.Spec.{index_of, insert_at}
use cc_base.Vector.Items.{
  Distinct, without, removed, removed-without, All-without, without-Distinct, without-ne,
}
use cc_base.Tool.{Action, action_new}
use cc_base.Gcc.{normal, process_arguments, add_defaults, drop_output, start}
use cc_base.Gcc.Reading.{outs_of, sources_of, place_of, process_arguments-AreRead}
use cc_base.Gcc.Arguments.{
  IsSource, Command, process_arguments-Command, process_arguments-Distinct, process_arguments-All,
}

sources-drop_output : (a : Action) → (drop_output a).sources ≡ removed a.output a.sources
unfolding drop_output
sources-drop_output a = elim (Option-cases (index_of streq a.sources a.output)) [
  | inl e ↦ ground (arith, e)
  | inr (i, e) ↦ ground (arith, e)
]

fields-drop_output :
    (a : Action) → ((drop_output a).output ≡ a.output) × ((drop_output a).arguments ≡ a.arguments)
unfolding drop_output
fields-drop_output a = elim (Option-cases (index_of streq a.sources a.output)) [
  | inl e ↦ ground (arith, e)
  | inr (i, e) ↦ ground (arith, e)
]

-- Of sources none of which stands twice, exactly the output is removed.
pub drop_output-without :
    (a : Action) → Distinct a.sources → (drop_output a).sources ≡ without a.output a.sources
drop_output-without a d = sources-drop_output a ∙ removed-without a.output a.sources d

take-append-drop : (n : ℕ) (xs : List Bytes) → xs ≡ take n xs ++ drop n xs
take-append-drop zero xs = refl
take-append-drop (suc n) [] = refl
take-append-drop (suc n) (x ∷ xs) = ap (λ l. x ∷ l) (take-append-drop n xs)

-- The position that defaults go to, when it is in range.
insert_at-some :
    (xs new ys : List Bytes) (pos : ℕ)
    → insert_at xs new pos ≡ some ys
    → (pos ≤ length xs) × (ys ≡ take pos xs ++ (new ++ drop pos xs))
unfolding insert_at
insert_at-some xs new ys pos h = ground arith

-- How the defaults stand in the command: all together, behind a beginning of it.
pub record Inserted (arguments defaults result : List Bytes) (pos : ℕ) : Type 0 where
  pub before : List Bytes
  pub after : List Bytes
  pub split : arguments ≡ before ++ after
  pub placed : before ≡ take pos arguments
  pub joined : result ≡ before ++ (defaults ++ after)
  pub begins : 1 ≤ pos → 1 ≤ length arguments → before ≢ []

take_ne_nil : (pos : ℕ) (xs : List Bytes) → 1 ≤ pos → 1 ≤ length xs → take pos xs ≢ []
take_ne_nil zero xs h k = absurd (omega arith)
take_ne_nil (suc pos) [] h k = absurd (omega arith)
take_ne_nil (suc pos) (x ∷ xs) h k = λ e. cc

pub add_defaults-Inserted :
    (arguments defaults result : List Bytes) (pos : ℕ)
    → add_defaults arguments defaults pos ≡ some result
    → Inserted arguments defaults result pos
unfolding add_defaults
add_defaults-Inserted arguments [] result pos h = record {
  before = take pos arguments;
  after = drop pos arguments;
  split = take-append-drop pos arguments;
  placed = refl;
  joined = ground (arith, take-append-drop pos arguments);
  begins = take_ne_nil pos arguments;
}
add_defaults-Inserted arguments (d ∷ ds) result pos h = record {
  before = take pos arguments;
  after = drop pos arguments;
  split = take-append-drop pos arguments;
  placed = refl;
  joined = (insert_at-some arguments (d ∷ ds) result pos h).1;
  begins = take_ne_nil pos arguments;
}

-- What the collected action holds.
pub record IsCollected (fs : FileSystem) (argv : List Bytes) (tool_name : Bytes)
    (defaults : List Bytes) (a : Action) : Type 0 where
  -- The arguments: the tool's name and what the given ones became, with the defaults put in at
  -- their place behind the first.
  pub command : Command fs argv (outs_of fs normal argv)
  pub before : List Bytes
  pub after : List Bytes
  pub split : tool_name ∷ outs_of fs normal argv ≡ before ++ after
  pub placed : before ≡ take (place_of fs argv) (tool_name ∷ outs_of fs normal argv)
  pub begins : before ≢ []
  pub arguments : a.arguments ≡ before ++ (defaults ++ after)
  -- The sources: those that the arguments name, less the output; no repetition, none is the output,
  -- and each is a file named by an argument.
  pub sources : a.sources ≡ without a.output (sources_of fs argv)
  pub distinct : Distinct a.sources
  pub not_output : All (λ src. src ≢ a.output) a.sources
  pub named : All (λ src. Any (λ arg. IsSource fs src arg) argv) a.sources

Any-at :
    (P : Bytes → Bytes → Type 0) (xs : List Bytes)
    → All (λ x. (s : Bytes) → P s x → Any (λ y. P s y) xs) xs
Any-at P [] = tt
Any-at P (x ∷ xs) = (λ s h. inl h, weaken xs (Any-at P xs))
  where
    weaken :
        (ys : List Bytes)
        → All (λ y. (s : Bytes) → P s y → Any (λ z. P s z) xs) ys
        → All (λ y. (s : Bytes) → P s y → P s x ⊎ Any (λ z. P s z) xs) ys
    weaken [] h = tt
    weaken (y ∷ ys) h = (λ s p. inr (h.0 s p), weaken ys h.1)

tail_of : (x : Bytes) (xs ys : List Bytes) → x ∷ xs ≡ x ∷ ys → xs ≡ ys
tail_of x xs ys e = ap (drop 1) e

pub drop_output-IsCollected :
    (fs : FileSystem) (argv : List Bytes) (tool_name : Bytes) (defaults arguments : List Bytes)
    → let p = process_arguments fs argv (start fs tool_name) in
      1 ≤ p.last_inc_pos
      → Inserted p.action.arguments defaults arguments p.last_inc_pos
      → IsCollected fs argv tool_name defaults
          (drop_output (record p.action { arguments = arguments }))
unfolding action_new
drop_output-IsCollected fs argv tool_name defaults arguments pos ins =
    let p = process_arguments fs argv (start fs tool_name) in
    let a = record p.action { arguments = arguments } in
    let (outs, eq, cmd) = process_arguments-Command fs argv (start fs tool_name) in
    let read = process_arguments-AreRead fs argv (start fs tool_name) in
    let distinct = process_arguments-Distinct fs argv (start fs tool_name) tt in
    let src = drop_output-without a distinct in
    let out = (fields-drop_output a).0 in
    record {
      command =
          subst (Command fs argv)
            (tail_of tool_name outs (outs_of fs normal argv) (sym eq ∙ read.arguments)) cmd;
      before = ins.before;
      after = ins.after;
      split = sym read.arguments ∙ ins.split;
      placed =
          ins.placed
          ∙ ap (λ l. take p.last_inc_pos l) read.arguments
          ∙ ap (λ n. take n (tool_name ∷ outs_of fs normal argv)) read.last_inc_pos;
      sources =
          src
          ∙ ap (λ o. without o p.action.sources) (sym out)
          ∙ ap (without (drop_output a).output) read.sources;
      begins = ins.begins pos (rw eq (omega arith));
      arguments = (fields-drop_output a).1 ∙ ins.joined;
      distinct = rw src (without-Distinct a.output a.sources distinct);
      not_output = rw (src, out) (without-ne a.output a.sources);
      named = rw src (
          All-without _ a.output a.sources (
            process_arguments-All fs (λ s. Any (λ arg. IsSource fs s arg) argv) argv
              (start fs tool_name) (Any-at (IsSource fs) argv) tt));
    }
