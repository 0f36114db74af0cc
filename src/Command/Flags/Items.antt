-- ===== src/Command/Flags/Items.antt =====
-- `reorderArgs` and the flags on a command line that is well formed: a sequence of targets and
-- flags, in any order.
use sec_compile_option.Base.{
  All, Bool, Bool-cases, List, [], ap, append-nil, append_assoc, arith, drop, false, inl, inr,
  length, none, refl, some, suc, sym, take-append, true, ℕ, ◌++◌, ◌∙◌, ◌∷◌, ◌≡◌, ◌≢◌,
}
use sec_compile_option.Command.Flags.{
  FlagSet, Settings, bool_flag, default_settings, flag_arg, flag_lookup, is_flag_arg, not_flag,
  parse_flags, parse_loop, parsed, read_arg, reorder_args, reorder_loop, set_bool, set_string,
  string_flag, takes_next, trim_dashes,
}
use sec_compile_option.Go.Strings.{
  Bytes, Lacks, codes, eq_bytes, eq_bytes_iff, has_prefix, index_byte-Lacks, index_byte-none,
}

-- One thing that the user writes: a target, -name for a boolean flag, or -name value and
-- -name=value for a flag with a value.
pub data Item : Type 0 where
  target : Bytes → Item
  switch : Bytes → Item
  option : Bytes → Bytes → Item
  assigned : Bytes → Bytes → Item

-- The arguments that an item is.
abbrev pub written : Item → List Bytes
written (target p) = p ∷ []
written (switch n) = (b'-' ∷ n) ∷ []
written (option n v) = (b'-' ∷ n) ∷ v ∷ []
written (assigned n v) = (b'-' ∷ (n ++ b'=' ∷ v)) ∷ []

abbrev pub command_line : List Item → List Bytes
command_line [] = []
command_line (i ∷ is) = written i ++ command_line is

-- A name that can be read back: not empty, with no = and no dash in front.
abbrev pub IsFlagName : Bytes → Type 0
IsFlagName [] = ⊥
IsFlagName (c ∷ s) = (c ≢ b'-') × Lacks b'=' (c ∷ s)

-- A target does not look like a flag; a flag is declared, with the kind that it is written as.
abbrev pub IsItem : FlagSet → Item → Type 0
IsItem fs (target p) = is_flag_arg p ≡ false
IsItem fs (switch n) = IsFlagName n × (flag_lookup fs n ≡ some bool_flag)
IsItem fs (option n v) = IsFlagName n × (flag_lookup fs n ≡ some string_flag)
IsItem fs (assigned n v) = IsFlagName n × (flag_lookup fs n ≡ some string_flag)

-- What the items mean: the targets in order, and the settings after the flags in order.
abbrev pub targets_of : List Item → List Bytes
targets_of [] = []
targets_of (target p ∷ is) = p ∷ targets_of is
targets_of (_ ∷ is) = targets_of is

abbrev pub apply_item : Settings → Item → Settings
apply_item s (target p) = s
apply_item s (switch n) = set_bool n true s
apply_item s (option n v) = set_string n v s
apply_item s (assigned n v) = set_string n v s

abbrev pub settings_of : Settings → List Item → Settings
settings_of s [] = s
settings_of s (i ∷ is) = settings_of (apply_item s i) is

drop_past : (s : Bytes) (c : ℕ) (v : Bytes) → drop (suc (length s)) (s ++ c ∷ v) ≡ v
drop_past [] c v = refl
drop_past (x ∷ s) c v = drop_past s c v

-- The arguments of the flags alone.
abbrev pub flags_of : List Item → List Bytes
flags_of [] = []
flags_of (target p ∷ is) = flags_of is
flags_of (i ∷ is) = written i ++ flags_of is

trim_dashes_name : (n rest : Bytes) → IsFlagName n → trim_dashes (b'-' ∷ (n ++ rest)) ≡ n ++ rest
unfolding trim_dashes
trim_dashes_name [] rest h = absurd h
trim_dashes_name (c ∷ s) rest (h, l) = ground arith

name-Lacks : (n : Bytes) → IsFlagName n → Lacks b'=' n
name-Lacks [] h = absurd h
name-Lacks (c ∷ s) (h, l) = l

takes_next_name :
    (fs : FlagSet) (n : Bytes)
    → IsFlagName n
    → takes_next fs (b'-' ∷ n) ≡ (elim (flag_lookup fs n) as (λ x. Bool) [
      | none ↦ false
      | some bool_flag ↦ false
      | some string_flag ↦ true
    ])
unfolding takes_next
takes_next_name fs n h =
    let e : trim_dashes (b'-' ∷ n) ≡ n = rw append-nil at (trim_dashes_name n [] h) in
    ground (arith, e, index_byte-none n b'=' (name-Lacks n h))

takes_next_assigned :
    (fs : FlagSet) (n v : Bytes) → IsFlagName n → takes_next fs (b'-' ∷ (n ++ b'=' ∷ v)) ≡ false
unfolding takes_next
takes_next_assigned fs n v h =
    ground (arith, trim_dashes_name n (b'=' ∷ v) h, index_byte-Lacks n v b'=' (name-Lacks n h))

-- An argument that starts with one dash and a name is a flag, and is not the terminator.
dash_name_IsFlag :
    (n rest : Bytes)
    → IsFlagName n
    → (eq_bytes (b'-' ∷ (n ++ rest)) (codes "--") ≡ false)
      × (is_flag_arg (b'-' ∷ (n ++ rest)) ≡ true)
unfolding is_flag_arg eq_bytes has_prefix
dash_name_IsFlag [] rest h = absurd h
dash_name_IsFlag (c ∷ s) rest (h, l) = (ground arith, ground arith)

dash_bare_IsFlag :
    (n : Bytes)
    → IsFlagName n
    → (eq_bytes (b'-' ∷ n) (codes "--") ≡ false) × (is_flag_arg (b'-' ∷ n) ≡ true)
dash_bare_IsFlag n h = rw append-nil at (dash_name_IsFlag n [] h)

dashes_IsFlag : is_flag_arg (codes "--") ≡ true
unfolding is_flag_arg eq_bytes has_prefix
dashes_IsFlag = refl

not_terminator : (p : Bytes) → is_flag_arg p ≡ false → eq_bytes p (codes "--") ≡ false
not_terminator p h = elim (Bool-cases (eq_bytes p (codes "--"))) [
  | inr e ↦ e
  | inl e ↦ absurd (cc ((eq_bytes_iff p (codes "--")).0 e, dashes_IsFlag, h))
]

module _ (fs : FlagSet) where
  reorder_target :
      (p : Bytes) (args flags positional : List Bytes)
      → is_flag_arg p ≡ false
      → reorder_loop fs false (p ∷ args) flags positional
        ≡ reorder_loop fs false args flags (positional ++ p ∷ [])
  unfolding reorder_loop
  reorder_target p args flags positional h =
      let differs = not_terminator p h in ground (arith, differs)

  reorder_flag :
      (a : Bytes) (args flags positional : List Bytes)
      → eq_bytes a (codes "--") ≡ false
      → is_flag_arg a ≡ true
      → reorder_loop fs false (a ∷ args) flags positional
        ≡ reorder_loop fs (takes_next fs a) args (flags ++ a ∷ []) positional
  unfolding reorder_loop
  reorder_flag a args flags positional h g = ground arith

  -- A flag that carries its value, or has none, and a flag with its value behind it.
  reorder_one :
      (n rest : Bytes) (args flags positional : List Bytes)
      → IsFlagName n
      → takes_next fs (b'-' ∷ (n ++ rest)) ≡ false
      → reorder_loop fs false ((b'-' ∷ (n ++ rest)) ∷ args) flags positional
        ≡ reorder_loop fs false args (flags ++ (b'-' ∷ (n ++ rest)) ∷ []) positional
  reorder_one n rest args flags positional h t =
      let (differs, flag) = dash_name_IsFlag n rest h in
      reorder_flag (b'-' ∷ (n ++ rest)) args flags positional differs flag ∙ rw t

  reorder_two :
      (n v : Bytes) (args flags positional : List Bytes)
      → IsFlagName n
      → takes_next fs (b'-' ∷ n) ≡ true
      → reorder_loop fs false ((b'-' ∷ n) ∷ v ∷ args) flags positional
        ≡ reorder_loop fs false args (flags ++ (b'-' ∷ n) ∷ v ∷ []) positional
  unfolding reorder_loop
  reorder_two n v args flags positional h t =
      let (differs, flag) = dash_bare_IsFlag n h in
      reorder_flag (b'-' ∷ n) (v ∷ args) flags positional differs flag
      ∙ rw (t, append_assoc flags ((b'-' ∷ n) ∷ []) (v ∷ []))

  pub reorder_items :
      (is : List Item) (tail flags positional : List Bytes)
      → All (IsItem fs) is
      → reorder_loop fs false (command_line is ++ tail) flags positional
        ≡ reorder_loop fs false tail (flags ++ flags_of is) (positional ++ targets_of is)
  reorder_items [] tail flags positional h = simp append-nil
  reorder_items (target p ∷ is) tail flags positional (h, hs) =
      reorder_target p (command_line is ++ tail) flags positional h
      ∙ reorder_items is tail flags (positional ++ p ∷ []) hs
      ∙ simp append_assoc
  reorder_items (switch n ∷ is) tail flags positional ((h, k), hs) =
      let (differs, flag) = dash_bare_IsFlag n h in
      reorder_flag (b'-' ∷ n) (command_line is ++ tail) flags positional differs flag
      ∙ rw (takes_next_name fs n h, k)
          (reorder_items is tail (flags ++ (b'-' ∷ n) ∷ []) positional hs ∙ simp append_assoc)
  reorder_items (option n v ∷ is) tail flags positional ((h, k), hs) =
      reorder_two n v (command_line is ++ tail) flags positional h (takes_next_name fs n h ∙ rw k)
      ∙ reorder_items is tail (flags ++ (b'-' ∷ n) ∷ v ∷ []) positional hs
      ∙ simp append_assoc
  reorder_items (assigned n v ∷ is) tail flags positional ((h, k), hs) =
      reorder_one n (b'=' ∷ v) (command_line is ++ tail) flags positional h
        (takes_next_assigned fs n v h)
      ∙ reorder_items is tail (flags ++ (b'-' ∷ (n ++ b'=' ∷ v)) ∷ []) positional hs
      ∙ simp append_assoc

  -- What `FlagSet.Parse` does with the flags in front and the targets behind.
  read_arg_name : (n : Bytes) → IsFlagName n → read_arg (b'-' ∷ n) ≡ flag_arg n none
  unfolding read_arg
  read_arg_name [] h = absurd h
  read_arg_name (c ∷ s) (h, (l, ls)) = ground (arith, index_byte-none s b'=' ls)

  read_arg_assigned :
      (n v : Bytes) → IsFlagName n → read_arg (b'-' ∷ (n ++ b'=' ∷ v)) ≡ flag_arg n (some v)
  unfolding read_arg
  read_arg_assigned [] v h = absurd h
  read_arg_assigned (c ∷ s) v (h, (l, ls)) =
      ground (arith, index_byte-Lacks s v b'=' ls, take-append s (b'=' ∷ v), drop_past s b'=' v)

  read_arg_target : (p : Bytes) → is_flag_arg p ≡ false → read_arg p ≡ not_flag
  unfolding read_arg is_flag_arg has_prefix eq_bytes
  read_arg_target [] h = refl
  read_arg_target (c ∷ []) h = refl
  read_arg_target (c ∷ d ∷ s) h = ground arith

  pub parse_targets :
      (is : List Item) (s : Settings)
      → All (IsItem fs) is
      → parse_loop fs none s (targets_of is) ≡ parsed s (targets_of is)
  parse_targets [] s h = unfold parse_loop in refl
  parse_targets (target p ∷ is) s (h, hs) = unfold parse_loop in ground (arith, read_arg_target p h)
  parse_targets (switch n ∷ is) s (h, hs) = parse_targets is s hs
  parse_targets (option n v ∷ is) s (h, hs) = parse_targets is s hs
  parse_targets (assigned n v ∷ is) s (h, hs) = parse_targets is s hs

  pub parse_flags_of :
      (is : List Item) (s : Settings) (args : List Bytes)
      → All (IsItem fs) is
      → parse_loop fs none s (flags_of is ++ args) ≡ parse_loop fs none (settings_of s is) args
  unfolding parse_loop
  parse_flags_of [] s args h = refl
  parse_flags_of (target p ∷ is) s args (h, hs) = parse_flags_of is s args hs
  parse_flags_of (switch n ∷ is) s args ((h, k), hs) =
      ground (arith, read_arg_name n h, parse_flags_of is (set_bool n true s) args hs)
  parse_flags_of (option n v ∷ is) s args ((h, k), hs) =
      ground (arith, read_arg_name n h, parse_flags_of is (set_string n v s) args hs)
  parse_flags_of (assigned n v ∷ is) s args ((h, k), hs) =
      ground (arith, read_arg_assigned n v h, parse_flags_of is (set_string n v s) args hs)

reorder_end :
    (fs : FlagSet) (flags positional : List Bytes)
    → reorder_loop fs false [] flags positional ≡ flags ++ positional
unfolding reorder_loop
reorder_end fs flags positional = refl

-- However targets and flags are mixed on the command line, the program gets the targets in their
-- order and the settings of the flags in their order: flags may stand in front of, between and
-- behind the targets.
pub parse_flags-reorder_args :
    (fs : FlagSet) (is : List Item)
    → All (IsItem fs) is
    → parse_flags fs (reorder_args fs (command_line is))
      ≡ parsed (settings_of default_settings is) (targets_of is)
parse_flags-reorder_args fs is h =
    unfold parse_flags reorder_args in
    (ap (parse_loop fs none default_settings) (
        ap (λ l. reorder_loop fs false l [] []) (sym (append-nil (command_line is)))
        ∙ reorder_items fs is [] [] [] h
        ∙ reorder_end fs (flags_of is) (targets_of is))
      ∙ parse_flags_of fs is default_settings (targets_of is) h
      ∙ parse_targets fs is (settings_of default_settings is) h)
