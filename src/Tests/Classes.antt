-- ===== src/Tests/Classes.antt =====
-- The theorems about the parser of javac command lines at concrete inputs.
use cc_base.Base.{some, List, [], ◌∷◌, ◌≡◌, refl}
use cc_base.Cstring.{Bytes, codes, streq, strchr, starts_with, strrchr, strtok, isspace, tolower}
use cc_base.Paths.{
  make_path_abs, get_file_name, get_file_dir, get_file_ext, str_n_dup, str_dup, make_path_abs_rec,
  make_path_abs_from,
}
use cc_base.Vector.Spec.{append_unique}
use cc_base.Tool.{Action, colon}
use cc_base.Javac.{
  Buffer, read_arguments_from_file, cut_colon, add_common, class_path_text, make_room, append_path,
  append_words, append_parts, handle_class_path, file_arg, normal_arg, arg_step, process_arg,
  process_args, expand_argument, process_argv, add_source_path, source_action, source_actions,
  collect_actions,
}
use cc_base.Javac.ClassPath.{outcome, resolved, handle_class_path_lem}
use cc_base.Tests.Machine.{machine, value_of}

abbrev argv : List Bytes
argv = codes "-cp" ∷ codes "/lib/x.jar" ∷ codes "@/w/files" ∷ codes "/w/A.java" ∷ []

collected : List Action
collected = value_of [] (collect_actions machine (codes "javac") argv [])

abbrev relative : List Bytes
relative = codes "-g" ∷ codes "A.java" ∷ []

not_recognised : List Action
not_recognised = value_of [] (collect_actions machine (codes "javac") relative [])

relative_lem : collect_actions machine (codes "javac") relative [] ≡ some not_recognised
unfolding not_recognised starts_with make_path_abs get_file_name get_file_dir str_n_dup strrchr
    str_dup streq strchr isspace tolower make_path_abs_rec make_path_abs_from get_file_ext
    append_unique read_arguments_from_file cut_colon add_common class_path_text file_arg normal_arg
    arg_step process_arg process_args expand_argument process_argv add_source_path source_action
    source_actions collect_actions
relative_lem = refl

handle_class_path_lem_example :
    handle_class_path machine 4096 (codes "/a:/b.jar")
    ≡ outcome (codes "/a:/b.jar") (resolved machine (strtok colon (codes "/a:/b.jar")))
handle_class_path_lem_example = handle_class_path_lem machine (λ n. refl) 4096 (codes "/a:/b.jar")

no_buffer : Buffer
no_buffer = record { text = []; size = 0; curr_size = 0 }

-- The buffer after two parts.
filled : Buffer
filled = value_of no_buffer (
    append_parts machine (codes "/a" ∷ codes "/b.jar" ∷ [])
      (record { text = []; size = 4; curr_size = 1 }))

filled_lem :
    append_parts machine
      (codes "/a" ∷ codes "/b.jar" ∷ [])
      (record { text = []; size = 4; curr_size = 1 })
    ≡ some filled
unfolding filled append_parts append_words append_path make_room make_path_abs make_path_abs_from
    make_path_abs_rec starts_with
filled_lem = refl
