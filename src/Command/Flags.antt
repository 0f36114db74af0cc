-- ===== src/Command/Flags.antt =====
-- cmd/scc/main.go: the flags, and `reorderArgs`. `parse_flags` is the part of package flag that the
-- program calls, `FlagSet.Parse` with the flags declared in `newFlags`.
pub mod Items
pub mod Terminator
use sec_compile_option.Base.{
  Bool, List, Option, [], any, drop, false, if◌then◌else◌, none, not, some, suc, take, true, ◌&&◌,
  ◌++◌, ◌==◌, ◌||◌, ◌∷◌,
}
use sec_compile_option.Go.Strings.{Bytes, codes, eq_bytes, has_prefix, index_byte}

pub data FlagKind : Type 0 where
  string_flag bool_flag : FlagKind

abbrev pub FlagSet : Type 0
FlagSet = List (Bytes × FlagKind)

abbrev pub common_flags : FlagSet
common_flags =
    (codes "format", string_flag)
    ∷ (codes "libc", string_flag)
    ∷ (codes "verbose", bool_flag)
    ∷ (codes "no-color", bool_flag)
    ∷ []

abbrev pub dir_flags : FlagSet
dir_flags = common_flags ++ (codes "recursive", bool_flag) ∷ []

unfoldable pub flag_lookup : FlagSet → Bytes → Option FlagKind
flag_lookup [] name = none
flag_lookup ((n, k) ∷ fs) name = if eq_bytes n name then some k else flag_lookup fs name

-- strings.TrimLeft(a, "-")
unfoldable pub trim_dashes : Bytes → Bytes
trim_dashes [] = []
trim_dashes (c ∷ s) = if c == b'-' then trim_dashes s else c ∷ s

-- `strings.HasPrefix(a, "-") && a != "-"`
unfoldable pub is_flag_arg : Bytes → Bool
is_flag_arg a = has_prefix a (codes "-") && not (eq_bytes a (codes "-"))

-- How the loop of `reorderArgs` treats an argument that starts with a dash: whether it takes the
-- next one with it.
unfoldable pub takes_next : FlagSet → Bytes → Bool
takes_next fs a =
    let name = trim_dashes a in
    elim (index_byte name b'=') [
      | some eq ↦ false
      | none ↦ elim (flag_lookup fs name) [
        | none ↦ false
        | some bool_flag ↦ false
        | some string_flag ↦ true
      ]
    ]

-- The loop, over the arguments left. The state after the test of `takes_next` is its flag: with it
-- set, the next argument is taken whatever it is.
unfoldable pub reorder_loop : FlagSet → Bool → List Bytes → List Bytes → List Bytes → List Bytes
reorder_loop fs value [] flags positional = flags ++ positional
reorder_loop fs true (a ∷ args) flags positional =
    reorder_loop fs false args (flags ++ a ∷ []) positional
reorder_loop fs false (a ∷ args) flags positional =
    let as_flag = reorder_loop fs (takes_next fs a) args (flags ++ a ∷ []) positional in
    let as_positional = reorder_loop fs false args flags (positional ++ a ∷ []) in
    if eq_bytes a (codes "--")
    then flags ++ (positional ++ args)
    else if is_flag_arg a
    then as_flag
    else as_positional

unfoldable pub reorder_args : FlagSet → List Bytes → List Bytes
reorder_args fs args = reorder_loop fs false args [] []

-- The options, with the value of -recursive. -libc and -verbose are stored, and read by nothing.
pub record Settings : Type 0 where
  pub format : Bytes
  pub libc : Bytes
  pub verbose : Bool
  pub no_color : Bool
  pub recursive : Bool

abbrev pub default_settings : Settings
default_settings = record {
  format = codes "table";
  libc = [];
  verbose = false;
  no_color = false;
  recursive = false;
}

unfoldable pub set_string : Bytes → Bytes → Settings → Settings
set_string name v s =
    if eq_bytes name (codes "format") then record s { format = v } else record s { libc = v }

unfoldable pub set_bool : Bytes → Bool → Settings → Settings
set_bool name v s =
    if eq_bytes name (codes "verbose")
    then record s { verbose = v }
    else if eq_bytes name (codes "no-color")
    then record s { no_color = v }
    else record s { recursive = v }

-- strconv.ParseBool
unfoldable pub parse_bool : Bytes → Option Bool
parse_bool v =
    if any (λ t. eq_bytes v t)
      (codes "1" ∷ codes "t" ∷ codes "T" ∷ codes "true" ∷ codes "TRUE" ∷ codes "True" ∷ [])
    then some true
    else if any (λ t. eq_bytes v t)
        (codes "0" ∷ codes "f" ∷ codes "F" ∷ codes "false" ∷ codes "FALSE" ∷ codes "False" ∷ [])
    then some false
    else none

-- The outcome of FlagSet.Parse: the options and fs.Args().
pub data Parsed : Type 0 where
  flag_error : Parsed
  parsed : Settings → List Bytes → Parsed

-- One argument as `parseOne` reads it: the end of the flags, a malformed flag, or a name with the
-- value behind = if there is one.
pub data Arg : Type 0 where
  not_flag terminator malformed : Arg
  flag_arg : Bytes → Option Bytes → Arg

-- The first = that is not the first byte.
unfoldable pub split_value : Bytes → Arg
split_value [] = malformed
split_value (c ∷ s) = if c == b'-' || c == b'=' then malformed else elim (index_byte s b'=') [
  | none ↦ flag_arg (c ∷ s) none
  | some i ↦ flag_arg (c ∷ take i s) (some (drop (suc i) s))
]

unfoldable pub read_arg : Bytes → Arg
unfolding split_value
read_arg [] = not_flag
read_arg (c ∷ []) = not_flag
read_arg (c ∷ d ∷ s) =
    if not (c == b'-')
    then not_flag
    else if not (d == b'-')
    then split_value (d ∷ s)
    else if eq_bytes s []
    then terminator
    else split_value s

-- The loop of FlagSet.Parse. `pending` is a string flag that still waits for its value.
unfoldable pub parse_loop : FlagSet → Option Bytes → Settings → List Bytes → Parsed
parse_loop fs none s [] = parsed s []
parse_loop fs (some name) s [] = flag_error
parse_loop fs (some name) s (v ∷ args) = parse_loop fs none (set_string name v s) args
parse_loop fs none s (a ∷ args) = elim (read_arg a) [
  | not_flag ↦ parsed s (a ∷ args)
  | terminator ↦ parsed s args
  | malformed ↦ flag_error
  | flag_arg name value ↦ elim (flag_lookup fs name) [
    | none ↦ flag_error
    | some bool_flag ↦ elim value [
      | none ↦ parse_loop fs none (set_bool name true s) args
      | some v ↦ elim (parse_bool v) [
        | none ↦ flag_error
        | some b ↦ parse_loop fs none (set_bool name b s) args
      ]
    ]
    | some string_flag ↦ elim value [
      | none ↦ parse_loop fs (some name) s args
      | some v ↦ parse_loop fs none (set_string name v s) args
    ]
  ]
]

unfoldable pub parse_flags : FlagSet → List Bytes → Parsed
parse_flags fs args = parse_loop fs none default_settings args
