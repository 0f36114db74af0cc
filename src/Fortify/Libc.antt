-- ===== src/Fortify/Libc.antt =====
-- internal/checksec/libc.go: whether FORTIFY analysis applies to a binary.
use sec_compile_option.Base.{
  Bool, List, Option, [], false, if◌then◌else◌, none, not, some, true, ◌++◌, ◌||◌, ◌∷◌,
}
use sec_compile_option.Checks.{has_segment}
use sec_compile_option.Dyn.{dyn_string_ph, parse_pt_dynamic}
use sec_compile_option.Elf.{File, Host, dt_needed, pt_dynamic}
use sec_compile_option.Go.Run.{Run, done, ◌>>=◌}
use sec_compile_option.Go.Strings.{Bytes, codes, contains, eq_bytes, has_prefix}

unfoldable pub needs_libc : List Bytes → Bool
unfolding has_prefix contains
needs_libc [] = false
needs_libc (n ∷ ns) =
    if has_prefix n (codes "libc.so") || contains n (codes "libc-") then true else needs_libc ns

abbrev nonempty : Option (List Bytes) → Option (List Bytes)
nonempty (some (v ∷ vs)) = some (v ∷ vs)
nonempty _ = none

-- DT_NEEDED, through f.DynString or else the program headers if there is a raw file.
unfoldable pub needed_libraries : Host → File → Option Bytes → Run (List Bytes)
unfolding dyn_string_ph
needed_libraries host f raw = elim (nonempty (f.dyn_string dt_needed)) [
  | some v ↦ done v
  | none ↦ elim raw [
    | none ↦ done []
    | some content ↦ do
      dyns ← parse_pt_dynamic host f
      done (dyn_string_ph f (some content) dyns dt_needed)
  ]
]

unfoldable pub first_match : Host → List Bytes → Option Bytes
first_match host [] = none
first_match host (pattern_path ∷ ps) = elim (host.glob pattern_path) [
  | [] ↦ first_match host ps
  | m ∷ ms ↦ some m
]

-- The two patterns in each directory, in the order of the loops.
abbrev host_patterns : List Bytes → List Bytes
host_patterns [] = []
host_patterns (dir ∷ dirs) =
    (dir ++ codes "/libc.so.6") ∷ (dir ++ codes "/libc-*.so") ∷ host_patterns dirs

unfoldable pub find_host_libc : Host → Bytes
unfolding first_match
find_host_libc host =
    let dirs = codes "/lib" ∷ codes "/lib64" ∷ codes "/usr/lib" ∷ codes "/usr/lib64" ∷ [] in
    elim (first_match host (host_patterns dirs)) [
      | some m ↦ m
      | none ↦ host.getenv (codes "SCC_LIBC")
    ]

unfoldable pub resolve_libc_flag : Host → File → Option Bytes → Run Bytes
unfolding has_segment needed_libraries needs_libc find_host_libc
resolve_libc_flag host f raw =
    if not (has_segment pt_dynamic f.progs) then done (codes "none") else do
      needed ← needed_libraries host f raw
      done (
          if not (needs_libc needed)
          then codes "none"
          else if not (eq_bytes host.goos (codes "linux"))
          then []
          else find_host_libc host)
