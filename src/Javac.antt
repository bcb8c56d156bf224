-- ===== src/Javac.antt =====
-- logger/src/ldlogger-tool-javac.c: the parser of command lines of javac. `none` as the result of
-- a step is an access out of bounds.
pub mod ClassPath
pub mod Arguments
pub mod Named
pub mod Reading
pub mod Collected
use cc_base.Base.{
  ℕ, ◌+◌, ◌*◌, ◌-◌, Bool, true, false, ◌&&◌, ◌||◌, not, Option, none, some, List, [], ◌∷◌, ◌++◌,
  ◌==◌, leb, if◌then◌else◌, length, take, get_elem?, ◌>>=◌,
}
use cc_base.Cstring.{Bytes, codes, slash, streq, strtok, isspace}
use cc_base.Paths.{make_path_abs, get_file_ext, get_file_name, get_file_path_without_ext}
use cc_base.Host.{Host}
use cc_base.Vector.Spec.{append_unique}
use cc_base.Tool.{Action, action_new, file_init_from_path, colon}

-- `JavaArgsState`
pub data State : Type 0 where
  normal in_class_dir in_class_path : State

abbrev pub path_max : ℕ
path_max = 4096

abbrev double_quote : ℕ
double_quote = b'"'

-- The two scans over a line of an argument file.
unfoldable pub skip_open : Bytes → Bytes
skip_open [] = []
skip_open (c ∷ s) = let rest = skip_open s in if isspace c || c == double_quote then rest else c ∷ s

unfoldable pub until_quote : Bytes → Bytes
until_quote [] = []
until_quote (c ∷ s) = let rest = until_quote s in if c == double_quote then [] else c ∷ rest

-- The `getline` loop.
unfoldable pub read_lines : List Bytes → List Bytes
unfolding skip_open until_quote
read_lines [] = []
read_lines (line ∷ rest) = until_quote (skip_open line) ∷ read_lines rest

unfoldable pub read_arguments_from_file : Host → Bytes → List Bytes
unfolding read_lines
read_arguments_from_file host file = elim (host.fopen file) [
  | none ↦ []
  | some lines ↦ read_lines lines
]

-- `*resCp_`, the text in it, its size, and `currSize`.
pub record Buffer : Type 0 where
  pub text : Bytes
  pub size : ℕ
  pub curr_size : ℕ

-- What the call leaves in the buffer: the expanded path and 1, the given path and 0, or nothing,
-- since the byte before the buffer is read.
pub data Expansion : Type 0 where
  expanded : Bytes → Expansion
  kept : Bytes → Expansion
  out_of_bounds : Expansion

-- `struct _ParserData`
pub record ParserData : Type 0 where
  pub has_source_path : Bool
  pub state : State
  pub common_args : List Bytes
  pub sources : List Bytes
  pub classdir : Bytes

-- The end of `handleClassPath`: the last colon is cut off.
unfoldable pub cut_colon : Bytes → Expansion
cut_colon [] = out_of_bounds
cut_colon (c ∷ text) =
    let last = length text in
    elim (get_elem? (c ∷ text) last) [
      | none ↦ out_of_bounds
      | some d ↦ if d == colon then expanded (take last (c ∷ text)) else expanded (c ∷ text)
    ]

-- `if (argToAdd[0])`
unfoldable pub add_common : Bytes → ParserData → ParserData
add_common [] p = p
add_common (c ∷ arg) p = record p { common_args = p.common_args ++ (c ∷ arg) ∷ [] }

-- The text that `handleClassPath` leaves in `argToAdd`.
unfoldable pub class_path_text : Expansion → Option Bytes
class_path_text (expanded text) = some text
class_path_text (kept text) = some text
class_path_text out_of_bounds = none

abbrev pub initial : Bytes → ParserData
initial tool_name = record {
  has_source_path = false;
  state = normal;
  common_args = tool_name ∷ [];
  sources = [];
  classdir = [];
}

-- The path of the class file; `none` is a NULL name that is handed to `strcat`.
unfoldable pub output_file : Bytes → Bytes → Option Bytes
output_file [] src = some (get_file_path_without_ext src ++ codes ".class")
output_file (c ∷ classdir) src = do
  fname ← get_file_name src true
  some (c ∷ classdir ++ slash ∷ (fname ++ codes ".class"))

module _ (host : Host) where
  -- The test for room and the call of realloc; `none` says that memory ran out.
  unfoldable pub make_room : Buffer → Option Buffer
  make_room b =
      if leb b.size b.curr_size
      then (if host.grants (b.curr_size * 2)
          then some (record b { size = b.curr_size * 2 })
          else none)
      else some b

  unfoldable pub append_path : Bytes → Buffer → Option Buffer
  unfolding make_room
  append_path path b = do
    room ← make_room (record b { curr_size = b.curr_size + (length path + 1) })
    some (record room { text = room.text ++ (path ++ colon ∷ []) })

  -- The loop over the words of one part.
  unfoldable pub append_words : List Bytes → Buffer → Option Buffer
  unfolding append_path
  append_words [] b = some b
  append_words (word ∷ words) b = elim (make_path_abs host.fs word true) [
    | none ↦ append_words words b
    | some path ↦ do b' ← append_path path b; append_words words b'
  ]

  -- The `strtok` loop.
  unfoldable pub append_parts : List Bytes → Buffer → Option Buffer
  unfolding append_words
  append_parts [] b = some b
  append_parts (part ∷ parts) b = do
    words ← host.wordexp part
    b' ← append_words words b
    append_parts parts b'

  unfoldable pub handle_class_path : ℕ → Bytes → Expansion
  unfolding append_parts cut_colon
  handle_class_path size cp =
      elim (append_parts (strtok colon cp) (record { text = []; size = size; curr_size = 1 })) [
        | none ↦ kept cp
        | some b ↦ cut_colon b.text
      ]

  -- The branch on `loggerGetFileExt`: a java file is a source and no common argument.
  unfoldable pub file_arg : Bytes → ParserData → ParserData
  unfolding add_common
  file_arg arg p = elim (get_file_ext arg true) [
    | none ↦ add_common arg p
    | some ext ↦
        if streq ext (codes "java")
        then elim (make_path_abs host.fs arg false) [
          | none ↦ add_common arg p
          | some path ↦ record p { sources = append_unique streq p.sources path }
        ]
        else add_common arg p
  ]

  unfoldable pub normal_arg : Bytes → ParserData → ParserData
  unfolding file_arg
  normal_arg arg p =
      if streq arg (codes "-sourcepath")
      then add_common arg (record p { has_source_path = true })
      else if streq arg (codes "-d")
      then add_common arg (record p { state = in_class_dir })
      else if streq arg (codes "-cp") || streq arg (codes "-classpath")
      then add_common arg (record p { state = in_class_path })
      else file_arg arg p

  unfoldable pub arg_step : State → Bytes → ParserData → Option ParserData
  unfolding normal_arg handle_class_path class_path_text
  arg_step in_class_dir arg p =
      let dir : Bytes = elim (make_path_abs host.fs arg false) [ none ↦ arg | some q ↦ q ] in
      some (add_common dir (record p { classdir = dir; state = normal }))
  arg_step in_class_path arg p = do
    text ← class_path_text (handle_class_path path_max arg)
    some (add_common text (record p { state = normal }))
  arg_step normal arg p = some (normal_arg arg p)

  -- `processArg`; without memory for `argToAdd` nothing happens.
  unfoldable pub process_arg : Bytes → ParserData → Option ParserData
  unfolding arg_step
  process_arg arg p = if host.grants path_max then arg_step p.state arg p else some p

  unfoldable pub process_args : List Bytes → ParserData → Option ParserData
  unfolding process_arg
  process_args [] p = some p
  process_args (arg ∷ args) p = do p' ← process_arg arg p; process_args args p'

  -- The arguments that one element of `argv_` stands for.
  unfoldable pub expand_argument : Bytes → List Bytes
  unfolding read_arguments_from_file
  expand_argument [] = [] ∷ []
  expand_argument (c ∷ arg) =
      if c == b'@' then read_arguments_from_file host arg else (c ∷ arg) ∷ []

  -- The loop over `argv_[1]` and what follows it.
  unfoldable pub process_argv : List Bytes → ParserData → Option ParserData
  unfolding process_args expand_argument
  process_argv [] p = some p
  process_argv (arg ∷ argv) p = do p' ← process_args (expand_argument arg) p; process_argv argv p'

  -- `if (!data.hasSourcePath)`
  unfoldable pub add_source_path : ParserData → ParserData
  add_source_path p =
      if p.has_source_path then p else elim (make_path_abs host.fs (codes ".") false) [
        | none ↦ p
        | some workdir ↦ record p {
          common_args = p.common_args ++ codes "-sourcepath" ∷ workdir ∷ [];
        }
      ]

  -- One round of the loop over the sources.
  unfoldable pub source_action : Bytes → ParserData → Bytes → Option Action
  unfolding output_file
  source_action tool_name p src = do
    file ← output_file p.classdir src
    some (record (action_new host.fs tool_name) {
      arguments = p.common_args ++ src ∷ [];
      sources = src ∷ [];
      output = file_init_from_path host.fs file;
    })

  unfoldable pub source_actions : Bytes → ParserData → List Bytes → Option (List Action)
  unfolding source_action
  source_actions tool_name p [] = some []
  source_actions tool_name p (src ∷ sources) = do
    action ← source_action tool_name p src
    rest ← source_actions tool_name p sources
    some (action ∷ rest)

  -- `loggerJavacParserCollectActions`, over the arguments behind the first.
  unfoldable pub collect_actions : Bytes → List Bytes → List Action → Option (List Action)
  unfolding process_argv add_source_path source_actions
  collect_actions tool_name argv actions = do
    p ← process_argv argv (initial tool_name)
    let q = add_source_path p
    collected ← source_actions tool_name q q.sources
    some (actions ++ collected)
