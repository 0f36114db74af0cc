-- ===== src/Elfgen.antt =====
-- internal/elfgen/elfgen.go: the layout of a test binary, its strings and its dynamic entries. The
-- assembly of the image is in the module Image below.
pub mod Image
pub mod Writes
pub mod Loops
pub mod Sections
pub mod Counts
pub mod Plans
pub mod Assembly
pub mod Reader
pub mod Segments
pub mod Headers
pub mod Dynamic
pub mod Entries
pub mod Parsed
pub mod Listed
pub mod Slices
pub mod Contents
pub mod Tags
pub mod Queries
pub mod Readings
pub mod Verdicts
use Prim.Native.Nat.{bit_or}
use sec_compile_option.Base.{
  Bool, List, [], false, if◌then◌else◌, length, not, true, ℕ, ◌%◌, ◌++◌, ◌+◌, ◌-◌, ◌==◌, ◌^◌, ◌||◌,
  ◌∷◌,
}
use sec_compile_option.Checks.Stack.{pacibsp_encoding}
use sec_compile_option.Dyn.{DynEntry}
use sec_compile_option.Elf.{
  df_1_pie, df_bind_now, df_textrel, dt_bind_now, dt_flags, dt_flags_1, dt_needed, dt_null,
  dt_rpath, dt_runpath, dt_strsz, dt_strtab, dt_syment, dt_symtab, dt_textrel,
}
use sec_compile_option.Go.Strings.{Bytes, codes}
use sec_compile_option.Go.Words.{two64}

pub record Layout : Type 0 where
  pub name : Bytes
  pub machine : ℕ
  pub pie : Bool
  pub et_dyn : Bool
  pub interp : Bool
  pub gnu_stack_x : Bool
  pub no_stack : Bool
  pub relro : Bool
  pub bind_now : Bool
  pub flags1_pie : Bool
  pub flags_bind : Bool
  pub text_rel : Bool
  pub flags_text_rel : Bool
  pub retguard : Bool
  pub pac_ibsp : Bool
  pub rpath : List Bytes
  pub runpath : List Bytes
  pub dyn_syms : List Bytes
  pub object_syms : List Bytes

abbrev pub base_vaddr : ℕ
base_vaddr = 0x400000

-- len(xs) > 0
abbrev pub non_empty {ℓ} : {A : Type ℓ} → List A → Bool
non_empty [] = false
non_empty (x ∷ xs) = true

-- `if c { xs = append(xs, …) }`
abbrev pub when {ℓ} : {A : Type ℓ} → Bool → List A → List A
when c xs = if c then xs else []

-- A symbol of the dynamic symbol table: the offset of its name, and st_info.
pub record GenSym : Type 0 where
  pub name_off : ℕ
  pub sym_info : ℕ

-- `strOff`: the offset of the string, and the buffer with the string and its NUL.
unfoldable pub str_off : Bytes → Bytes → ℕ × Bytes
str_off buf s = (length buf % 2 ^ 32, buf ++ (s ++ 0 ∷ []))

-- A loop over names, each appended to the buffer.
unfoldable pub add_gen_syms : ℕ → List Bytes → Bytes → List GenSym × Bytes
unfolding str_off
add_gen_syms i [] buf = ([], buf)
add_gen_syms i (s ∷ ss) buf =
    let (off, buf1) = str_off buf s in
    let (syms, buf2) = add_gen_syms i ss buf1 in
    (record { name_off = off; sym_info = i } ∷ syms, buf2)

-- `if str != "" { str += ":" }; str += r` along the paths.
unfoldable pub join_paths : Bytes → List Bytes → Bytes
join_paths acc [] = acc
join_paths acc (r ∷ rs) = join_paths ((if non_empty acc then acc ++ codes ":" else acc) ++ r) rs

-- int(strOff(s)) if the string is wanted, else -1, as the uint64 that is written out.
unfoldable pub str_off_if : Bool → Bytes → Bytes → ℕ × Bytes
unfolding str_off
str_off_if true s buf = str_off buf s
str_off_if false s buf = (two64 - 1, buf)

-- The string table, with what points into it.
pub record Strings : Type 0 where
  pub syms : List GenSym
  pub needed_off : ℕ
  pub rpath_str : Bytes
  pub rpath_off : ℕ
  pub runpath_str : Bytes
  pub runpath_off : ℕ
  pub str_buf : Bytes

unfoldable pub strings_of : Layout → Strings
unfolding add_gen_syms str_off_if join_paths
strings_of l =
    let (funcs, buf1) = add_gen_syms 0x12 l.dyn_syms (0 ∷ []) in
    let (objects, buf2) = add_gen_syms 0x11 l.object_syms buf1 in
    let gen_syms = funcs ++ objects in
    let (needed, buf3) = str_off_if (non_empty gen_syms) (codes "libc.so.6") buf2 in
    let rpath_joined = join_paths [] l.rpath in
    let runpath_joined = join_paths [] l.runpath in
    let (rpath_at, buf4) = str_off_if (non_empty rpath_joined) rpath_joined buf3 in
    let (runpath_at, buf5) = str_off_if (non_empty runpath_joined) runpath_joined buf4 in
    record {
      syms = gen_syms;
      needed_off = needed;
      rpath_str = rpath_joined;
      rpath_off = rpath_at;
      runpath_str = runpath_joined;
      runpath_off = runpath_at;
      str_buf = buf5 ++ when l.pac_ibsp pacibsp_encoding;
    }

unfoldable pub has_interp : Layout → Bool
has_interp l = l.interp || l.pie

unfoldable pub has_dyn : Layout → Strings → Bool
has_dyn l s =
    non_empty s.syms
    || (l.bind_now
        || (l.flags1_pie
            || (l.flags_bind
                || (l.text_rel
                    || (l.flags_text_rel || (non_empty s.rpath_str || non_empty s.runpath_str))))))

abbrev pub one_if : Bool → ℕ
one_if true = 1
one_if false = 0

unfoldable pub phdr_count : Layout → Strings → ℕ
unfolding has_interp has_dyn
phdr_count l s =
    1
    + one_if (has_interp l)
    + one_if (has_dyn l s)
    + one_if l.relro
    + one_if l.retguard
    + one_if (not l.no_stack)

unfoldable pub flags_val : Layout → ℕ
flags_val l =
    bit_or (if l.flags_bind then df_bind_now else 0) (if l.flags_text_rel then df_textrel else 0)

abbrev pub entry : ℕ → ℕ → DynEntry
entry t v = record { tag = t; val = v }

-- `tmpDyn` without the terminator.
unfoldable pub wanted_entries : Layout → Strings → List DynEntry
unfolding flags_val
wanted_entries l s =
    when (non_empty s.syms) (
      entry dt_needed 0
      ∷ entry dt_symtab 0
      ∷ entry dt_strtab 0
      ∷ entry dt_strsz 0
      ∷ entry dt_syment 24
      ∷ [])
    ++ (when (non_empty s.rpath_str) (entry dt_rpath 0 ∷ [])
        ++ (when (non_empty s.runpath_str) (entry dt_runpath 0 ∷ [])
            ++ (when l.bind_now (entry dt_bind_now 0 ∷ [])
                ++ (when l.text_rel (entry dt_textrel 0 ∷ [])
                    ++ (when (not (flags_val l == 0)) (entry dt_flags (flags_val l) ∷ [])
                        ++ when l.flags1_pie (entry dt_flags_1 df_1_pie ∷ []))))))

-- `tmpDyn`: with DT_NULL at the end if there is any entry.
unfoldable pub tmp_dyn : Layout → Strings → List DynEntry
unfolding wanted_entries
tmp_dyn l s =
    let wanted = wanted_entries l s in wanted ++ when (non_empty wanted) (entry dt_null 0 ∷ [])

-- `switch tag` of the loop that patches the entries.
unfoldable pub patched : Strings → ℕ → ℕ → DynEntry → DynEntry
patched s sym_vaddr str_vaddr e =
    if e.tag == dt_needed
    then entry e.tag s.needed_off
    else if e.tag == dt_symtab
    then entry e.tag sym_vaddr
    else if e.tag == dt_strtab
    then entry e.tag str_vaddr
    else if e.tag == dt_strsz
    then entry e.tag (length s.str_buf)
    else if e.tag == dt_rpath
    then entry e.tag s.rpath_off
    else if e.tag == dt_runpath
    then entry e.tag s.runpath_off
    else if e.tag == dt_bind_now
    then entry e.tag 0
    else e
