-- ===== src/Tests/Commands.antt =====
-- The theorems on the command line at concrete inputs.
use mathlib.Core.List.{flatten}
use sec_compile_option.Base.{
  All, List, Option, [], arith, false, if◌then◌else◌, map, none, refl, some, true, ◌++◌, ◌∙◌, ◌∷◌,
  ◌≡◌,
}
use sec_compile_option.Command.{run}
use sec_compile_option.Command.Ends.{IsExit, run-IsExit}
use sec_compile_option.Command.Flags.{
  common_flags, default_settings, dir_flags, flag_lookup, is_flag_arg, parse_flags, parsed,
  reorder_args, set_bool, set_string,
}
use sec_compile_option.Command.Flags.Items.{
  IsFlagName, IsItem, Item, assigned, command_line, option, parse_flags-reorder_args, settings_of,
  switch, target, targets_of,
}
use sec_compile_option.Command.Flags.Terminator.{reorder_args-drops_terminator}
use sec_compile_option.Command.Gate.{IsClean, run_file, run_file-IsClean}
use sec_compile_option.Command.Targets.{
  FileSystem, Nodes, collect_dir, cons, elf_magic, folder, is_elf, leaf, nil, read_list, walk,
  walk_all,
}
use sec_compile_option.Command.Targets.Lists.{
  IsLine, Line, blank_line, comment_line, path_line, read_list-join, written_line,
}
use sec_compile_option.Command.Targets.Walks.{
  all_readable, collect_dir-leaves, direct_leaves, elf_paths, leaves_all,
}
use sec_compile_option.Go.Spaces.{reversed}
use sec_compile_option.Go.Strings.{Bytes, Lacks-any, codes, eq_bytes, has_prefix, join}
use sec_compile_option.Tests.Runs.{always_written, json_format, json_plain, sample_exit}
use sec_compile_option.Tests.Samples.{empty_disk, sample_host}

abbrev items : List Item
items =
    target (codes "a.out")
    ∷ option (codes "format") (codes "compliance")
    ∷ switch (codes "recursive")
    ∷ assigned (codes "libc") (codes "l.so")
    ∷ target (codes "-")
    ∷ []

items-All : All (IsItem dir_flags) items
unfolding is_flag_arg flag_lookup eq_bytes has_prefix
items-All =
    let format : IsFlagName (codes "format") =
      (ground arith, Lacks-any b'=' (codes "format") refl) in
    let recursive : IsFlagName (codes "recursive") =
      (ground arith, Lacks-any b'=' (codes "recursive") refl) in
    let libc : IsFlagName (codes "libc") = (ground arith, Lacks-any b'=' (codes "libc") refl) in
    (refl, ((format, refl), ((recursive, refl), ((libc, refl), (refl, tt)))))

parse_flags-reorder_args_example :
    parse_flags dir_flags (reorder_args dir_flags (command_line items))
    ≡ parsed (settings_of default_settings items) (targets_of items)
parse_flags-reorder_args_example = parse_flags-reorder_args dir_flags items items-All

-- `-recursive -- -format json a.out`
abbrev front : List Item
front = switch (codes "recursive") ∷ []

abbrev behind : List Item
behind = option (codes "format") (codes "json") ∷ []

front-All : All (IsItem dir_flags) front
unfolding flag_lookup eq_bytes
front-All = (((ground arith, Lacks-any b'=' (codes "recursive") refl), refl), tt)

behind-All : All (IsItem dir_flags) behind
unfolding flag_lookup eq_bytes
behind-All = (((ground arith, Lacks-any b'=' (codes "format") refl), refl), tt)

last-All : All (IsItem dir_flags) (target (codes "a.out") ∷ [])
unfolding is_flag_arg eq_bytes has_prefix
last-All = (refl, tt)

abbrev terminated : List Bytes
terminated = codes "-recursive" ∷ codes "--" ∷ codes "-format" ∷ codes "json" ∷ codes "a.out" ∷ []

reorder_args-drops_terminator_example :
    (parse_flags dir_flags (reorder_args dir_flags terminated)
      ≡ parsed
          (record default_settings { recursive = true; format = codes "json" })
          (codes "a.out" ∷ []))
    × (parse_flags dir_flags terminated
        ≡ parsed
            (record default_settings { recursive = true })
            (codes "-format" ∷ codes "json" ∷ codes "a.out" ∷ []))
unfolding set_bool set_string eq_bytes
reorder_args-drops_terminator_example =
    reorder_args-drops_terminator dir_flags front behind (target (codes "a.out") ∷ []) front-All
      behind-All last-All refl refl

abbrev request : List Item
request = option (codes "format") (codes "json") ∷ target (codes "a.out") ∷ []

request-All : All (IsItem common_flags) request
unfolding is_flag_arg flag_lookup eq_bytes has_prefix
request-All =
    let format : IsFlagName (codes "format") =
      (ground arith, Lacks-any b'=' (codes "format") refl) in
    ((format, refl), (refl, tt))

run_file-IsClean_example : All (IsClean sample_host) (codes "a.out" ∷ [])
unfolding set_string eq_bytes
run_file-IsClean_example =
    run_file-IsClean sample_host empty_disk always_written request request-All refl json_format
      json_plain
      (run_file sample_host empty_disk always_written request request-All refl json_format
        ∙ sample_exit)

-- The first line ends in a no-break space and a carriage return.
abbrev first_line : Line
first_line = path_line (codes " " ∷ []) (codes "bin/a b") ((0xc2 ∷ 0xa0 ∷ []) ∷ (13 ∷ []) ∷ [])

abbrev other_lines : List Line
other_lines = comment_line [] (codes " tools") ∷ blank_line [] ∷ path_line [] (codes "x") [] ∷ []

abbrev listing_disk : FileSystem
listing_disk = record {
  walk_root = λ p. none;
  read_file = λ p. some (join (b'\n' ∷ []) (map written_line (first_line ∷ other_lines)));
}

listing-IsLine : All IsLine (first_line ∷ other_lines)
unfolding eq_bytes has_prefix reversed flatten
listing-IsLine = (
  (
    Lacks-any b'\n' (codes " bin/a b" ++ 0xc2 ∷ 0xa0 ∷ 13 ∷ []) refl,
    (refl, tt),
    (ground arith, refl, refl),
    (refl, (refl, tt)),
  ),
  (
    (Lacks-any b'\n' (codes "# tools") refl, tt),
    ((tt, tt), ((Lacks-any b'\n' (codes "x") refl, tt, (ground arith, refl, refl), tt), tt)),
  ),
)

read_list-join_example :
    read_list listing_disk (codes "list") ≡ some (codes "bin/a b" ∷ codes "x" ∷ [])
read_list-join_example =
    read_list-join listing_disk (codes "list") first_line other_lines listing-IsLine refl

run-IsExit_example :
    IsExit (run sample_host empty_disk always_written (codes "file" ∷ command_line request))
run-IsExit_example =
    run-IsExit sample_host empty_disk always_written (codes "file" ∷ command_line request)

-- A directory with a binary, a text, and a folder with a binary.
abbrev binary : Option Bytes
binary = some (elf_magic ++ codes "...")

abbrev entries : Nodes
entries = cons (leaf (codes "d/a") binary) (
    cons (leaf (codes "d/b") (some (codes "text")))
      (cons (folder (codes "d/c") (cons (leaf (codes "d/c/e") binary) nil)) nil))

abbrev disk : FileSystem
disk = record { walk_root = λ p. some (folder (codes "d") entries); read_file = λ p. none }

found_paths : collect_dir disk (codes "d") true ≡ some (codes "d/a" ∷ codes "d/c/e" ∷ [])
unfolding collect_dir walk walk_all is_elf
found_paths = refl

collect_dir-leaves_example :
    (collect_dir disk (codes "d") true
      ≡ (if all_readable entries then some (elf_paths (leaves_all entries)) else none))
    × (collect_dir disk (codes "d") false ≡ some (elf_paths (direct_leaves entries)))
collect_dir-leaves_example =
    collect_dir-leaves disk (codes "d") entries refl ((λ e. cc), ((λ e. cc), ((λ e. cc), tt)))
