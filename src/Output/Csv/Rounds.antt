-- ===== src/Output/Csv/Rounds.antt =====
-- The CSV of the reports, read back.
use mathlib.Core.List.{flatten}
use sec_compile_option.Base.{
  Bool-cases, List, [], any, ap, append_assoc, both_false, false, if◌then◌else◌, inl, inr, map,
  refl, true, ℕ, ◌++◌, ◌∙◌, ◌∷◌, ◌≡◌,
}
use sec_compile_option.Go.Strings.{Bytes, codes, eq_bytes}
use sec_compile_option.Output.Csv.{
  csv, csv_field, csv_fields, csv_header, csv_record, csv_row, doubled, field_needs_quotes,
  is_special, kind,
}
use sec_compile_option.Output.Csv.Reader.{
  Mode, bare, closing, in_front, quoted, read_csv, read_from,
}
use sec_compile_option.Output.Csv.Steps.{is_end, read_bare, read_quoted, step_bare}
use sec_compile_option.Output.Table.Aligned.{texts}
use sec_compile_option.Report.{FileReport, check_order, get_check}

-- The mode behind a field.
abbrev mode_behind : Bytes → Mode
mode_behind [] = in_front
mode_behind (c ∷ s) = if field_needs_quotes (c ∷ s) then closing else bare

mode_behind-is_end : (text : Bytes) → is_end (mode_behind text) ≡ true
mode_behind-is_end [] = refl
mode_behind-is_end (c ∷ s) = elim (Bool-cases (field_needs_quotes (c ∷ s))) [
  | inl e ↦ rw e refl
  | inr e ↦ rw e refl
]

open_quote :
    (fields : List Bytes) (s : Bytes)
    → read_from in_front [] fields (34 ∷ s) ≡ read_from quoted [] fields s
unfolding read_from kind
open_quote fields s = refl

close_quote :
    (field : Bytes) (fields : List Bytes) (s : Bytes)
    → read_from quoted field fields (34 ∷ s) ≡ read_from closing field fields s
unfolding read_from kind
close_quote field fields s = refl

-- A field that needs no quotes has no special bytes.
bare_text :
    (c : ℕ) (s : Bytes)
    → field_needs_quotes (c ∷ s) ≡ false
    → any (λ b. is_special (kind b)) (c ∷ s) ≡ false
unfolding field_needs_quotes
bare_text c s h = (both_false _ _ (both_false (eq_bytes (c ∷ s) (92 ∷ codes ".")) _ h).1).0

-- A field is read as the text that was written.
read_field :
    (text : Bytes) (fields : List Bytes) (rest : Bytes)
    → read_from in_front [] fields (csv_field text ++ rest)
      ≡ read_from (mode_behind text) text fields rest
unfolding csv_field
read_field [] fields rest = unfold field_needs_quotes in refl
read_field (c ∷ s) fields rest = elim (Bool-cases (field_needs_quotes (c ∷ s))) [
  | inl e ↦ rw e (
      open_quote fields ((doubled (c ∷ s) ++ 34 ∷ []) ++ rest)
      ∙ (ap (read_from quoted [] fields) (append_assoc (doubled (c ∷ s)) (34 ∷ []) rest)
          ∙ (read_quoted (c ∷ s) [] fields (34 ∷ rest) ∙ close_quote (c ∷ s) fields rest)))
  | inr e ↦
      let (hc, hs) = both_false (is_special (kind c)) _ (bare_text c s e) in
      rw e
        (step_bare in_front c [] fields (s ++ rest) refl hc ∙ read_bare s (c ∷ []) fields rest hs)
]

at_line_feed :
    (m : Mode) (field : Bytes) (fields : List Bytes) (s : Bytes)
    → is_end m ≡ true
    → read_from m field fields (b'\n' ∷ s) ≡ (fields ++ field ∷ []) ∷ read_from in_front [] [] s
unfolding read_from kind
at_line_feed in_front field fields s e = refl
at_line_feed bare field fields s e = refl
at_line_feed closing field fields s e = refl
at_line_feed quoted field fields s e = absurd (cc)

at_comma :
    (m : Mode) (field : Bytes) (fields : List Bytes) (s : Bytes)
    → is_end m ≡ true
    → read_from m field fields (b',' ∷ s) ≡ read_from in_front [] (fields ++ field ∷ []) s
unfolding read_from kind
at_comma in_front field fields s e = refl
at_comma bare field fields s e = refl
at_comma closing field fields s e = refl
at_comma quoted field fields s e = absurd (cc)

-- The rest of a record is read as its fields.
read_fields :
    (m : Mode) (field : Bytes) (fields texts : List Bytes) (rest : Bytes)
    → is_end m ≡ true
    → read_from m field fields (csv_fields texts ++ rest)
      ≡ (fields ++ field ∷ texts) ∷ read_from in_front [] [] rest
unfolding csv_fields
read_fields m field fields [] rest e = at_line_feed m field fields rest e
read_fields m field fields (t ∷ texts) rest e =
    at_comma m field fields ((csv_field t ++ csv_fields texts) ++ rest) e
    ∙ (ap (read_from in_front [] (fields ++ field ∷ []))
          (append_assoc (csv_field t) (csv_fields texts) rest)
        ∙ (read_field t (fields ++ field ∷ []) (csv_fields texts ++ rest)
            ∙ (read_fields (mode_behind t) t (fields ++ field ∷ []) texts rest
                  (mode_behind-is_end t)
                ∙ ap (λ fs. fs ∷ read_from in_front [] [] rest)
                    (append_assoc fields (field ∷ []) (t ∷ texts)))))

-- A record is read, and then the rest.
read_record :
    (t : Bytes) (ts : List Bytes) (rest : Bytes)
    → read_csv (csv_record (t ∷ ts) ++ rest) ≡ (t ∷ ts) ∷ read_csv rest
unfolding csv_record
read_record t ts rest =
    ap read_csv (append_assoc (csv_field t) (csv_fields ts) rest)
    ∙ (read_field t [] (csv_fields ts ++ rest)
        ∙ read_fields (mode_behind t) t [] ts rest (mode_behind-is_end t))

read_rows :
    (reports : List FileReport)
    → read_csv (flatten (map csv_record (map csv_row reports))) ≡ map csv_row reports
unfolding flatten
read_rows [] = unfold read_from in refl
read_rows (r ∷ reports) =
    read_record r.name (map (λ k. (get_check r.checks k).value) check_order)
      (flatten (map csv_record (map csv_row reports)))
    ∙ ap (◌∷◌ (csv_row r)) (read_rows reports)

-- A reader of CSV text gets back from the output of `CSV` the line of the column names and then, in
-- the order of the reports, the name of each report and its values in the order of the columns,
-- whatever bytes these hold (commas, quotes and line feeds included).
pub read_csv-csv :
    (reports : List FileReport) → read_csv (csv reports) ≡ csv_header ∷ map csv_row reports
unfolding csv flatten
read_csv-csv reports =
    read_record (codes "name") check_order (flatten (map csv_record (map csv_row reports)))
    ∙ ap (◌∷◌ csv_header) (read_rows reports)
