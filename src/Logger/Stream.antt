-- ===== src/Logger/Stream.antt =====
-- The stream on the log file, and the functions of ldlogger-logger.c that write to it.
use cc_base.Base.{
  ℕ, ◌+◌, ◌-◌, none, some, List, [], ◌∷◌, ◌++◌, ltb, ◌==◌, if◌then◌else◌, length, take, drop,
}
use cc_base.Cstring.{Bytes, codes}
use cc_base.Host.{Host}
use cc_base.Tool.{Action}
use cc_base.Logger.Command.{create_json_command_string}

-- A file and the position in it.
pub record Stream : Type 0 where
  pub bytes : Bytes
  pub pos : ℕ

-- `fprintf`: the text goes over what stands at the position.
unfoldable pub fprintf : Stream → Bytes → Stream
fprintf s text = record {
  bytes = take s.pos s.bytes ++ (text ++ drop (s.pos + length text) s.bytes);
  pos = s.pos + length text;
}

-- `fseek (stream, -back, SEEK_END)`
unfoldable pub seek_end : Stream → ℕ → Stream
seek_end s back = record s { pos = length s.bytes - back }

-- The text of one entry, with the three values put in.
unfoldable pub entry_text : Bytes → Bytes → Bytes → Bytes
entry_text directory command file =
    codes "\t{\n\t\t\"directory\": \""
    ++ (directory
        ++ (codes "\",\n\t\t\"command\": \""
            ++ (command ++ (codes "\",\n\t\t\"file\": \"" ++ (file ++ codes "\"\n\t}\n")))))

abbrev pub separator : Bytes
separator = codes "\t,\n"

-- The loop over the sources; `++(*entryCount_) > 1` puts a comma before every entry but the first.
unfoldable pub write_sources : Bytes → Bytes → List Bytes → Stream × ℕ → Stream × ℕ
write_sources wd command [] (stream, count) = (stream, count)
write_sources wd command (source ∷ sources) (stream, count) =
    let before = if ltb 1 (count + 1) then fprintf stream separator else stream in
    write_sources wd command sources (fprintf before (entry_text wd command source), count + 1)

unfoldable pub write_action : Host → Bytes → Action → Stream × ℕ → Stream × ℕ
write_action host wd action out = elim (create_json_command_string host action.arguments) [
  | none ↦ out
  | some command ↦ write_sources wd command action.sources out
]

-- The loop over the actions.
unfoldable pub write_each : Host → Bytes → List Action → Stream × ℕ → Stream × ℕ
write_each host wd [] out = out
write_each host wd (action ∷ actions) out =
    write_each host wd actions (write_action host wd action out)

-- What is done at the end of the file before the first entry.
unfoldable pub open_array : Stream → Stream × ℕ
unfolding seek_end
open_array stream =
    let at_end = seek_end stream 0 in
    let fsize = at_end.pos in
    if fsize == 0
    then (fprintf at_end (codes "[\n"), 0)
    else (seek_end stream 1, if ltb 5 fsize then 1 else 0)

unfoldable pub write_actions : Host → Bytes → List Action → Stream → Stream
write_actions host wd [] stream = stream
write_actions host wd (action ∷ actions) stream =
    fprintf (write_each host wd (action ∷ actions) (open_array stream)).0 (codes "]")
