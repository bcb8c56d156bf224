-- ===== src/Tests/Metrics.antt =====
-- The counting of lines at concrete inputs.
use cc_base.Base.{
  ℕ, suc, false, ◌||◌, not, none, some, ◌>>=◌, List, [], ◌∷◌, ◌++◌, ◌≡◌, ◌≤◌, ◌⊎◌, refl, arith,
  if◌then◌else◌, ap,
}
use cc_base.Cstring.{Bytes, codes, streq, strchr, starts_with, isspace}
use cc_base.Cstring.Laws.{strchr-Lacks}
use cc_base.Util.Text.{newline}
use cc_base.Sources.Model.{File, Database, ps_none}
use cc_base.Sources.Keys.{mem_id}
use cc_base.Sources.Store.{load}
use cc_base.Sources.Status.{modified}
use cc_base.Metrics.{
  Loc, CommentTypes, newlines, blank_from, unique_from, unique_newlines, erase_blank_lines,
  find_split, from_newline, erase_single, multi_count, erase_multi, erase_comments, comment_types,
  get_loc,
}
use cc_base.Metrics.Single.{strip, erase_single-strip}
use cc_base.Metrics.Blank.{is_blank, filled, lead, erase_blank_lines-unlines}
use cc_base.Metrics.Cut.{Cuts}
use cc_base.Metrics.Multi.{IsStuck, erase_multi-IsStuck, erase_multi_decides}
use cc_base.Metrics.Bounds.{get_loc-ordered}
use cc_base.Metrics.Parser.{
  MetricsRow, MetricsParser, make_parser, code_loc, loc_rows, get_loc_from_file, count_file,
  cleanup_database,
}
use cc_base.Metrics.Incremental.{rows_of, touched, count_file-cleanup_database}

abbrev c_marks : CommentTypes
c_marks = record { single = codes "//"; multi_start = codes "/*"; multi_end = codes "*/" }

erase_single-strip_example :
    erase_single (codes "//") 12 (codes "a//b//" ++ newline ∷ codes "/c//d")
    ≡ some (codes "a" ++ newline ∷ codes "/c")
unfolding strchr strip starts_with
erase_single-strip_example =
    erase_single-strip (codes "//") 12 (codes "a//b//" ++ newline ∷ codes "/c//d") (λ e. cc)
      (strchr-Lacks (codes "//") newline refl) (omega arith)

erase_blank_lines-unlines_example :
    erase_blank_lines (codes " " ++ newline ∷ (codes "a" ++ newline ∷ (newline ∷ codes " ")))
    ≡ newline ∷ (codes "a" ++ newline ∷ codes " ")
unfolding strchr lead filled is_blank isspace
erase_blank_lines-unlines_example =
    erase_blank_lines-unlines (codes " " ∷ (codes "a" ∷ ([] ∷ []))) (codes " ")
      (strchr-Lacks (codes " ") newline refl, (strchr-Lacks (codes "a") newline refl, (tt, tt)))
      (strchr-Lacks (codes " ") newline refl)

line_then_comment-IsStuck : IsStuck c_marks (newline ∷ []) (codes "/* http:")
unfolding find_split starts_with
line_then_comment-IsStuck = ((refl, refl, (refl, tt)), refl, refl)

erase_multi-IsStuck_example : erase_multi c_marks 1000 (newline ∷ codes "/* http:") ≡ none
erase_multi-IsStuck_example =
    erase_multi-IsStuck c_marks (newline ∷ []) (codes "/* http:") 1000 (omega arith)
      line_then_comment-IsStuck

-- A C++ file whose comment holds `//` and begins behind one empty line is never counted.
never_counted :
    (n : ℕ) → get_loc (suc (suc n)) (codes "CPP") (newline ∷ codes "/* http://a */") ≡ none
unfolding get_loc erase_blank_lines blank_from unique_newlines unique_from isspace newlines
    comment_types erase_comments erase_single find_split from_newline starts_with streq
never_counted n =
    ap
      (λ o. o >>= λ code.
        some (record { original_lines = 2; nonblank_lines = 2; code_lines = suc (newlines code) }))
      (erase_multi-IsStuck c_marks (newline ∷ []) (codes "/* http:") (suc (suc n)) (omega arith)
        line_then_comment-IsStuck)

erase_multi_decides_example :
    ((r : Bytes) × (erase_multi c_marks 9 (codes "a/*b*/c/*") ≡ some r)
      × Cuts c_marks (codes "a/*b*/c/*") r
      × (find_split (codes "/*") r ≡ none))
    ⊎ ((a : Bytes) × (b : Bytes) × Cuts c_marks (codes "a/*b*/c/*") (a ++ b)
        × IsStuck c_marks a b
        × ((m : ℕ) → erase_multi c_marks m (codes "a/*b*/c/*") ≡ none))
erase_multi_decides_example =
    erase_multi_decides c_marks 9 (codes "a/*b*/c/*") (omega arith) (omega arith) (omega arith)
      (omega arith)

abbrev counted : Loc
counted = record { original_lines = 4; nonblank_lines = 3; code_lines = 2 }

abbrev program : Bytes
program = codes "a /*" ++ newline ∷ (newline ∷ (codes "*/ b" ++ newline ∷ codes "c"))

program_counted : get_loc 20 (codes "Java") program ≡ some counted
unfolding get_loc erase_blank_lines blank_from unique_newlines unique_from isspace newlines
    comment_types erase_comments erase_single erase_multi multi_count find_split from_newline
    starts_with streq
program_counted = refl

get_loc-ordered_example : (2 ≤ 3) × (3 ≤ 4)
get_loc-ordered_example = get_loc-ordered 20 (codes "Java") program counted program_counted

abbrev source_file : File
source_file = record {
  id = 7;
  file_type = codes "Java";
  path = codes "/w/a.java";
  filename = codes "a.java";
  timestamp = 0;
  content = some (record { object_id = codes "h"; loaded = some program });
  parent = none;
  parse_status = ps_none;
  in_search_index = false;
}

abbrev no_rows : Database
no_rows = record { files = []; contents = [] }

abbrev old_rows : List MetricsRow
old_rows =
    record { file = 7; metric = 9; kind = code_loc }
    ∷ (record { file = 8; metric = 1; kind = code_loc } ∷ [])

source_file_counted : get_loc_from_file 20 no_rows source_file ≡ some counted
unfolding get_loc_from_file load
source_file_counted = program_counted

count_file-cleanup_database_example :
    (q : MetricsParser) × (count_file 20 no_rows (some source_file) (
        cleanup_database
          ((codes "/w/a.java", modified) ∷ [])
          (source_file ∷ [])
          (make_parser old_rows))
      ≡ some q)
    × (rows_of 7 q.rows ≡ (
        if touched ((codes "/w/a.java", modified) ∷ []) (source_file ∷ []) 7
          || not (mem_id 7 (make_parser old_rows).file_id_cache)
        then loc_rows counted 7
        else rows_of 7 old_rows))
count_file-cleanup_database_example =
    count_file-cleanup_database ((codes "/w/a.java", modified) ∷ []) (source_file ∷ []) old_rows 20
      no_rows source_file counted source_file_counted
