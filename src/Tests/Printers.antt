-- ===== src/Tests/Printers.antt =====
-- The theorems on the printers at concrete inputs, and small outputs.
use mathlib.Core.List.{flatten}
use sec_compile_option.Base.{
  All, List, [], any, false, if◌then◌else◌, length, map, refl, true, ℕ, ◌++◌, ◌∷◌, ◌≡◌,
}
use sec_compile_option.Command.{gate}
use sec_compile_option.Go.Strings.{Bytes, codes, eq_bytes}
use sec_compile_option.Output.{print_reports}
use sec_compile_option.Output.Compliance.{
  compliance_lines, compliance_row, compliance_rule_ids, compliance_widths, counts_text,
}
use sec_compile_option.Output.Compliance.Aligned.{compliance_line_width, compliance_lines-aligned}
use sec_compile_option.Output.Compliance.Exits.{gate-shows_fail, shows_fail}
use sec_compile_option.Output.Compliance.Rows.{compliance_row-judged_cells, judged_cells}
use sec_compile_option.Output.Csv.{
  csv, csv_field, csv_header, csv_row, doubled, field_needs_quotes, kind,
}
use sec_compile_option.Output.Csv.Reader.{read_csv}
use sec_compile_option.Output.Csv.Rounds.{read_csv-csv}
use sec_compile_option.Output.Table.{plain_cells, write_row}
use sec_compile_option.Output.Xml.{
  escape_ascii, escape_from, escape_text, replacement, rune_tail, xml, xml_header, xml_pieces,
  xml_text,
}
use sec_compile_option.Output.Xml.Pieces.{read_pieces-xml}
use sec_compile_option.Output.Xml.Reader.{read_pieces, read_values}
use sec_compile_option.Output.Xml.Values.{read_values-xml, value_of}
use sec_compile_option.Report.{FileReport, check_order}
use sec_compile_option.Tests.Samples.{sample_checks, sample_report}

-- A report whose name has a comma and a quote.
abbrev odd_report : FileReport
odd_report = record { name = codes "a,b" ++ 34 ∷ codes "c"; error = []; checks = sample_checks }

csv_field_example :
    csv_field odd_report.name ≡ 34 ∷ (codes "a,b" ++ (34 ∷ 34 ∷ codes "c" ++ 34 ∷ []))
unfolding csv_field field_needs_quotes doubled kind
csv_field_example = refl

bare_field_example : csv_field (codes "Full RELRO") ≡ codes "Full RELRO"
unfolding csv_field field_needs_quotes doubled kind
bare_field_example = refl

counts_example :
    counts_text (record { name = []; pass = 5; fail = 1; not_applicable = 1; items = [] })
    ≡ codes "5 pass / 1 fail / 1 n/a"
unfolding counts_text
counts_example = refl

read_csv-csv_example :
    read_csv (csv (odd_report ∷ sample_report ∷ []))
    ≡ csv_header ∷ map csv_row (odd_report ∷ sample_report ∷ [])
read_csv-csv_example = read_csv-csv (odd_report ∷ sample_report ∷ [])

-- A report of an error.
abbrev unopened_report : FileReport
unopened_report = record { name = codes "b"; error = codes "cannot open"; checks = [] }

abbrev columns : List ℕ
columns = 12 ∷ 30 ∷ 4 ∷ 15 ∷ 5 ∷ 8 ∷ 4 ∷ 8 ∷ 8 ∷ []

printed_error :
    compliance_row false (compliance_rule_ids sample_report) columns unopened_report
    ≡ codes "| b: cannot open\n"
unfolding compliance_row eq_bytes
printed_error = refl

compliance_row-judged_cells_example :
    compliance_row false (compliance_rule_ids sample_report) columns odd_report
    ≡ write_row false columns (plain_cells (judged_cells odd_report))
unfolding eq_bytes
compliance_row-judged_cells_example = compliance_row-judged_cells sample_report odd_report columns

compliance_lines-aligned_example :
    All
      (λ l. length l ≡ compliance_line_width odd_report (sample_report ∷ []))
      (compliance_lines false (odd_report ∷ sample_report ∷ []))
compliance_lines-aligned_example =
    compliance_lines-aligned odd_report (sample_report ∷ []) (refl, (refl, tt))

-- Markup, a byte that is no UTF-8, and a control character.
escape_example :
    escape_text (codes "<&>" ++ (0xff ∷ 0xc3 ∷ 0xa9 ∷ 1 ∷ []))
    ≡ codes "&lt;&amp;&gt;" ++ (replacement ++ (0xc3 ∷ 0xa9 ∷ replacement))
unfolding escape_text escape_from escape_ascii rune_tail
escape_example = refl

empty_xml_example :
    xml [] ≡ (60 ∷ xml_header) ++ (62 ∷ 10 ∷ codes "<secCompileCheck></secCompileCheck>" ++ 10 ∷ [])
unfolding xml xml_pieces xml_text flatten
empty_xml_example = refl

read_pieces-xml_example : read_pieces (xml (odd_report ∷ [])) ≡ xml_pieces (odd_report ∷ [])
read_pieces-xml_example = read_pieces-xml (odd_report ∷ [])

read_values-xml_example :
    read_values (read_pieces (xml (odd_report ∷ [])))
    ≡ flatten (map (λ r. map (value_of r) check_order) (odd_report ∷ []))
read_values-xml_example = read_values-xml (odd_report ∷ [])

gate-shows_fail_example :
    (let ids = compliance_rule_ids odd_report in
      let ws = compliance_widths ids (odd_report ∷ sample_report ∷ []) in
      gate (codes "compliance") (odd_report ∷ sample_report ∷ []) ≡ (
        if any (shows_fail ws) (map (compliance_row false ids ws) (odd_report ∷ sample_report ∷ []))
        then 2
        else 0))
gate-shows_fail_example = gate-shows_fail odd_report (sample_report ∷ []) (refl, (refl, tt))

-- An encoder that writes as many signs as there are values.
abbrev tallied {ℓ} : {A : Type ℓ} → List A → Bytes
tallied xs = map (λ x. b'*') xs

printed_summaries :
    print_reports tallied tallied false (codes "compliance-json") (odd_report ∷ sample_report ∷ [])
    ≡ codes "**"
unfolding print_reports eq_bytes
printed_summaries = refl

printed_csv :
    print_reports tallied tallied true (codes "csv") (odd_report ∷ []) ≡ csv (odd_report ∷ [])
unfolding print_reports eq_bytes
printed_csv = refl
