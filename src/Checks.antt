-- ===== src/Checks.antt =====
-- internal/checksec/result.go: the result of a check. The checks are in the modules below.
pub mod Agree
pub mod Stripped
pub mod Binding
pub mod Stack
pub mod Position
pub mod Rpath
pub mod Ends
use sec_compile_option.Base.{Bool, List, [], false, if◌then◌else◌, true, ℕ, ◌++◌, ◌==◌, ◌∷◌}
use sec_compile_option.Elf.{Prog}
use sec_compile_option.Go.Strings.{Bytes, codes}

-- The constants of type Status; `unset` is the empty string, the status of a zero Result.
pub data Status : Type 0 where
  good warn bad info na unset : Status

-- The string that the constant is.
unfoldable pub status_text : Status → Bytes
status_text good = codes "good"
status_text warn = codes "warn"
status_text bad = codes "bad"
status_text info = codes "info"
status_text na = codes "n/a"
status_text unset = []

pub record Result : Type 0 where
  pub value : Bytes
  pub status : Status

abbrev pub ok_result : Bytes → Result
ok_result v = record { value = v; status = good }

abbrev pub bad_result : Bytes → Result
bad_result v = record { value = v; status = bad }

abbrev pub warn_result : Bytes → Result
warn_result v = record { value = v; status = warn }

abbrev pub info_result : Bytes → Result
info_result v = record { value = v; status = info }

abbrev pub na_result : Bytes → Result
na_result v = record { value = v; status = na }

-- `Err`: a check that could not run.
abbrev pub err_result : Bytes → Result
err_result check = record { value = codes "error checking " ++ check; status = bad }

-- Tests of a status, as the program writes them with == and switch.
abbrev pub is_good : Status → Bool
is_good good = true
is_good _ = false

abbrev pub is_bad : Status → Bool
is_bad bad = true
is_bad _ = false

-- Some program header has the type.
unfoldable pub has_segment : ℕ → List Prog → Bool
has_segment t [] = false
has_segment t (p ∷ ps) = if p.ptype == t then true else has_segment t ps
