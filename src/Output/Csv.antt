-- ===== src/Output/Csv.antt =====
-- internal/output/printer.go: `CSV`, with what encoding/csv writes.
pub mod Reader
pub mod Steps
pub mod Rounds
use mathlib.Core.List.{flatten}
use sec_compile_option.Base.{
  Bool, List, [], any, false, if◌then◌else◌, map, true, ℕ, ◌++◌, ◌==◌, ◌||◌, ◌∷◌,
}
use sec_compile_option.Go.Spaces.{space_encodings}
use sec_compile_option.Go.Strings.{Bytes, codes, eq_bytes, has_prefix}
use sec_compile_option.Report.{FileReport, check_order, get_check}

-- What a byte is to a CSV file.
pub data Kind : Type 0 where
  quote comma line_feed carriage_return ordinary : Kind

unfoldable pub kind : ℕ → Kind
kind c =
    if c == 34
    then quote
    else if c == b','
    then comma
    else if c == b'\n'
    then line_feed
    else if c == 13
    then carriage_return
    else ordinary

abbrev pub is_special : Kind → Bool
is_special ordinary = false
is_special _ = true

-- encoding/csv's fieldNeedsQuotes, with the comma as separator.
unfoldable pub field_needs_quotes : Bytes → Bool
unfolding eq_bytes has_prefix kind
field_needs_quotes [] = false
field_needs_quotes (c ∷ s) =
    eq_bytes (c ∷ s) (92 ∷ codes ".")
    || (any (λ b. is_special (kind b)) (c ∷ s) || any (λ e. has_prefix (c ∷ s) e) space_encodings)

-- The quotes of a field are doubled.
unfoldable pub doubled : Bytes → Bytes
doubled [] = []
doubled (c ∷ s) = if c == 34 then 34 ∷ 34 ∷ doubled s else c ∷ doubled s

unfoldable pub csv_field : Bytes → Bytes
unfolding field_needs_quotes doubled
csv_field s = if field_needs_quotes s then 34 ∷ (doubled s ++ 34 ∷ []) else s

-- The fields behind the first one, and the end of the line.
unfoldable pub csv_fields : List Bytes → Bytes
unfolding csv_field
csv_fields [] = b'\n' ∷ []
csv_fields (s ∷ ss) = b',' ∷ (csv_field s ++ csv_fields ss)

-- A record.
unfoldable pub csv_record : List Bytes → Bytes
unfolding csv_fields
csv_record [] = b'\n' ∷ []
csv_record (s ∷ ss) = csv_field s ++ csv_fields ss

abbrev pub csv_header : List Bytes
csv_header = codes "name" ∷ check_order

abbrev pub csv_row : FileReport → List Bytes
csv_row r = r.name ∷ map (λ k. (get_check r.checks k).value) check_order

unfoldable pub csv : List FileReport → Bytes
unfolding csv_record
csv reports = flatten (map csv_record (csv_header ∷ map csv_row reports))
