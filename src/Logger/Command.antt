-- ===== src/Logger/Command.antt =====
-- `createJsonCommandString` of logger/src/ldlogger-logger.c.
use cc_base.Base.{ℕ, ◌+◌, ◌*◌, Option, none, some, List, [], ◌∷◌, ◌++◌, if◌then◌else◌, length}
use cc_base.Cstring.{Bytes}
use cc_base.Escape.{space, shell_escape_str}
use cc_base.Host.{Host}

-- The first loop: the length of all arguments together.
unfoldable pub args_length : List Bytes → ℕ
args_length [] = 0
args_length (arg ∷ args) = length arg + args_length args

-- `cmdSize`, the size of the buffer.
unfoldable pub command_size : List Bytes → ℕ
unfolding args_length
command_size args = args_length args * 2 + length args * 3 + 1

-- The second loop.
unfoldable pub command_tail : List Bytes → Bytes
command_tail [] = []
command_tail (arg ∷ args) = space ∷ (shell_escape_str arg ++ command_tail args)

-- The text written to the buffer, without its final zero.
unfoldable pub command_text : List Bytes → Bytes
unfolding command_tail
command_text [] = []
command_text (arg ∷ args) = shell_escape_str arg ++ command_tail args

-- The text is written whether it fits the buffer or not (see `Overflow`). The arguments of an
-- action begin with the tool's name, so there is a first one to read.
unfoldable pub create_json_command_string : Host → List Bytes → Option Bytes
unfolding command_size command_text
create_json_command_string host args =
    if host.grants (command_size args) then some (command_text args) else none
