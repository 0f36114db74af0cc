-- ===== src/Go/Io.antt =====
-- Reads from files: os.File.ReadAt on a regular file, whose content is a list of bytes.
use sec_compile_option.Base.{
  Option, drop, if◌then◌else◌, length, none, replicate, some, take, ℕ, ◌++◌, ◌-◌, ◌==◌,
}
use sec_compile_option.Go.Strings.{Bytes}
use sec_compile_option.Go.Words.{is_negative}

pub data Outcome : Type 0 where
  ok eof failed : Outcome

-- The buffer after the call (bytes not read stay zero) and the error.
pub record Read : Type 0 where
  pub buf : Bytes
  pub outcome : Outcome

-- A fresh zeroed buffer of n bytes after the bytes were copied into it.
abbrev pub fill : ℕ → Bytes → Bytes
fill n bytes = let got = take n bytes in got ++ replicate (n - length got) 0

-- raw.ReadAt(make([]byte, n), off): a nil file and a negative offset are errors, and fewer bytes
-- than asked for is io.EOF.
unfoldable pub read_at : Option Bytes → ℕ → ℕ → Read
read_at none n off = record { buf = replicate n 0; outcome = failed }
read_at (some content) n off =
    let got = take n (drop off content) in
    if is_negative off
    then record { buf = replicate n 0; outcome = failed }
    else record { buf = fill n got; outcome = if length got == n then ok else eof }
