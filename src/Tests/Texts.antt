-- ===== src/Tests/Texts.antt =====
-- The theorems about the escaped text at concrete inputs.
use cc_base.Base.{false, none, some, ◌≡◌, if◌then◌else◌}
use cc_base.Cstring.{codes}
use cc_base.Escape.{shell_escape_str}
use cc_base.Escape.Json.{json_read, has_control, quoted, json_read-shell_escape_str}

json_read-shell_escape_str_example :
    json_read (shell_escape_str (codes "-DX=\"a b\"")) false
    ≡ (if has_control (codes "-DX=\"a b\"") then none else some (quoted (codes "-DX=\"a b\"")))
json_read-shell_escape_str_example = json_read-shell_escape_str (codes "-DX=\"a b\"")
