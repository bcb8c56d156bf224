-- ===== src/Tests/Utils.antt =====
-- The helpers of util at concrete inputs.
use cc_base.Base.{some, arith, some, none, [], ◌∷◌, ◌++◌, ◌≡◌, refl}
use cc_base.Cstring.{codes, streq, strchr}
use cc_base.Cstring.Laws.{Lacks, strchr-Lacks}
use cc_base.Util.{Installation, binary_path_to_install_dir, escape_html}
use cc_base.Util.Html.{html_read, html_read-escape_html}
use cc_base.Util.Text.{newline, text_range, range_from, range_step, substr, get_line, cut_line}
use cc_base.Util.Range.{text_range-between}
use cc_base.Util.Install.{on_path, binary_path_to_install_dir_ignores_last}

two_lines :
    (text_range
      (codes "a;" ++ newline ∷ codes "bcd")
      (record { start_line = 2; start_col = 2; end_line = 2; end_col = 3 }))
    ≡ some (codes "c")
unfolding text_range range_from range_step substr get_line cut_line
two_lines = refl

text_range-between_example :
    (text_range
        (codes "a;" ++ newline ∷ codes "bcd")
        (record { start_line = 2; start_col = 2; end_line = 2; end_col = 3 })
      ≡ some (codes "c"))
    × (text_range
          (codes "a;" ++ newline ∷ (codes "bc" ++ newline ∷ (codes "e" ++ newline ∷ codes "fd")))
          (record { start_line = 2; start_col = 2; end_line = 4; end_col = 2 })
        ≡ some (codes "c" ++ newline ∷ (codes "e" ++ newline ∷ codes "f")))
unfolding strchr
text_range-between_example =
    text_range-between (codes "a;" ∷ []) (codes "e" ∷ []) (codes "b") (codes "c") (codes "f")
      (codes "d") (strchr-Lacks (codes "a;") newline refl, tt)
      (strchr-Lacks (codes "e") newline refl, tt) (strchr-Lacks (codes "bc") newline refl)
      (strchr-Lacks (codes "f") newline refl) (omega arith) (omega arith) (omega arith)

abbrev installed : Installation
installed = record {
  exists = λ p. streq p (codes "/opt/bin/cc");
  system_complete = λ p. codes "/w/" ++ p;
  canonical = λ p. p;
  parent_path = λ p. p;
  join = λ dir p. dir ++ b'/' ∷ p;
  getenv_path = none;
}

html_read-escape_html_example :
    (html_read none (escape_html (codes "a<b")) ≡ codes "a<b")
    × Lacks b'<' (escape_html (codes "a<b"))
    × Lacks b'>' (escape_html (codes "a<b"))
html_read-escape_html_example = html_read-escape_html (codes "a<b")

binary_path_to_install_dir_ignores_last_example :
    binary_path_to_install_dir (on_path installed (codes "/bin:/opt/bin")) (codes "cc")
    ≡ binary_path_to_install_dir (on_path installed (codes "/bin:")) (codes "cc")
unfolding strchr
binary_path_to_install_dir_ignores_last_example =
    binary_path_to_install_dir_ignores_last installed (codes "cc") (codes "/bin") (codes "/opt/bin")
      [] (strchr-Lacks (codes "/opt/bin") b':' refl) tt
