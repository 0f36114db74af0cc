-- ===== src/Dyn.antt =====
-- internal/checksec/dyn.go: the dynamic section, read straight from the program headers.
-- `parsePTDynamic`, `parseDynEntries`, `dynTag`, `vaddrToFileOffset`, `dynamicStrings`,
-- `dynStringPH` and `cstrAt` stand here, the symbol tables in Dyn/Symbols.
pub mod Symbols
pub mod Entries
pub mod Segment
pub mod Offsets
pub mod Text
pub mod Rounds
use sec_compile_option.Base.{
  Bool, List, Option, [], drop, false, if◌then◌else◌, leb, length, ltb, none, not, some, suc, take,
  true, zero, ℕ, ◌&&◌, ◌*◌, ◌++◌, ◌+◌, ◌/◌, ◌==◌, ◌^◌, ◌||◌, ◌∷◌,
}
use sec_compile_option.Elf.{
  ByteOrder, Class, File, Host, Prog, big, class64, dt_null, dt_strsz, dt_strtab, little,
  pt_dynamic, pt_load,
}
use sec_compile_option.Go.Io.{Outcome, failed, fill, read_at}
use sec_compile_option.Go.Run.{Run, done, panic, ◌>>=◌}
use sec_compile_option.Go.Strings.{Bytes, index_byte}
use sec_compile_option.Go.Words.{add64, sub64}

pub record DynEntry : Type 0 where
  pub tag : ℕ
  pub val : ℕ

-- bo.Uint32 and bo.Uint64 on a slice of 4 or 8 bytes.
abbrev pub uint_le : Bytes → ℕ
uint_le [] = 0
uint_le (b ∷ bs) = b + 256 * uint_le bs

abbrev pub uint_be : ℕ → Bytes → ℕ
uint_be acc [] = acc
uint_be acc (b ∷ bs) = uint_be (acc * 256 + b) bs

abbrev pub uint : ByteOrder → Bytes → ℕ
uint little bs = uint_le bs
uint big bs = uint_be 0 bs

-- One loop of `parseDynEntries` for entries of two words of w bytes. The loop runs while a whole
-- entry is left, which is once for each of the `rounds` whole entries, and ends early at DT_NULL.
unfoldable pub scan_entries : ℕ → ByteOrder → ℕ → Bytes → List DynEntry
scan_entries w bo zero bytes = []
scan_entries w bo (suc rounds) bytes =
    let tag = uint bo (take w bytes) in
    let val = uint bo (take w (drop w bytes)) in
    let rest = scan_entries w bo rounds (drop w (drop w bytes)) in
    if tag == dt_null then [] else record { tag = tag; val = val } ∷ rest

unfoldable pub parse_dyn_entries : Bytes → Class → ByteOrder → List DynEntry
unfolding scan_entries
parse_dyn_entries bytes class64 bo = scan_entries 8 bo (length bytes / 16) bytes
parse_dyn_entries bytes _ bo = scan_entries 4 bo (length bytes / 8) bytes

-- `make([]byte, n)` with a read into it: a panic above the runtime's limit.
unfoldable pub read_prog : Host → Prog → Run Bytes
read_prog host p = if ltb host.max_alloc p.filesz then panic else done (fill p.filesz p.payload)

-- `err != nil && err != io.EOF`
unfoldable pub is_failure : Outcome → Bool
is_failure failed = true
is_failure _ = false

unfoldable pub pt_dynamic_entries : Host → File → List Prog → Run (List DynEntry)
unfolding read_prog is_failure parse_dyn_entries
pt_dynamic_entries host f [] = done []
pt_dynamic_entries host f (p ∷ ps) =
    let rest = pt_dynamic_entries host f ps in
    if not (p.ptype == pt_dynamic) then rest else do
      bytes ← read_prog host p
      if is_failure p.outcome
          then rest
          else do es ← rest; done (parse_dyn_entries bytes f.class f.byte_order ++ es)

unfoldable pub parse_pt_dynamic : Host → File → Run (List DynEntry)
unfolding pt_dynamic_entries
parse_pt_dynamic host f = pt_dynamic_entries host f f.progs

-- The first entry with the tag.
unfoldable pub dyn_tag : List DynEntry → ℕ → Option ℕ
dyn_tag [] t = none
dyn_tag (d ∷ ds) t = if d.tag == t then some d.val else dyn_tag ds t

-- A PT_LOAD segment covers the address; the end is computed in uint64.
unfoldable pub covers : Prog → ℕ → Bool
covers p vaddr = p.ptype == pt_load && (leb p.vaddr vaddr && ltb vaddr (add64 p.vaddr p.filesz))

unfoldable pub file_offset : List Prog → ℕ → Option ℕ
unfolding covers
file_offset [] vaddr = none
file_offset (p ∷ ps) vaddr =
    if covers p vaddr then some (add64 (sub64 vaddr p.vaddr) p.off) else file_offset ps vaddr

abbrev pub vaddr_to_file_offset : File → ℕ → Option ℕ
vaddr_to_file_offset f vaddr = file_offset f.progs vaddr

-- The bytes of the string table, once its address and size are known.
unfoldable pub string_table : File → Option Bytes → ℕ → ℕ → Option Bytes
unfolding file_offset read_at is_failure
string_table f raw strtab strsz =
    if strsz == 0 || ltb (2 ^ 24) strsz then none else elim (vaddr_to_file_offset f strtab) [
      | none ↦ none
      | some off ↦
          let r = read_at raw strsz off in if is_failure r.outcome then none else some r.buf
    ]

unfoldable pub dynamic_strings : File → Option Bytes → List DynEntry → Option Bytes
unfolding dyn_tag string_table
dynamic_strings f raw dyns = elim (dyn_tag dyns dt_strtab) [
  | none ↦ none
  | some strtab ↦ elim (dyn_tag dyns dt_strsz) [
    | none ↦ none
    | some strsz ↦ string_table f raw strtab strsz
  ]
]

-- The NUL-terminated string at an offset; an unterminated one takes the rest.
unfoldable pub cstr_at : Bytes → ℕ → Option Bytes
unfolding index_byte
cstr_at str off =
    let tail = drop off str in
    if leb (length str) off
    then none
    else some (elim (index_byte tail 0) [ none ↦ tail | some end ↦ take end tail ])

unfoldable pub tag_strings : Bytes → ℕ → List DynEntry → List Bytes
unfolding cstr_at
tag_strings str t [] = []
tag_strings str t (d ∷ ds) =
    let rest = tag_strings str t ds in
    if not (d.tag == t) then rest else elim (cstr_at str d.val) [ none ↦ rest | some s ↦ s ∷ rest ]

unfoldable pub dyn_string_ph : File → Option Bytes → List DynEntry → ℕ → List Bytes
unfolding dynamic_strings tag_strings
dyn_string_ph f raw dyns t = elim (dynamic_strings f raw dyns) [
  | none ↦ []
  | some str ↦ tag_strings str t dyns
]
