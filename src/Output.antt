-- ===== src/Output.antt =====
-- internal/output/printer.go: the printer; cmd/scc/main.go: `printReports`, which picks a format.
pub mod Table
pub mod Compliance
pub mod Csv
pub mod Xml
use sec_compile_option.Base.{Bool, List, if◌then◌else◌, map}
use sec_compile_option.Compliance.{ComplianceSummary, compliance}
use sec_compile_option.Go.Strings.{Bytes, codes, eq_bytes}
use sec_compile_option.Output.Compliance.{compliance_table}
use sec_compile_option.Output.Csv.{csv}
use sec_compile_option.Output.Table.{table}
use sec_compile_option.Output.Xml.{xml}
use sec_compile_option.Report.{FileReport}

-- What is written in a format; `json` and `summaries_json` are what encoding/json writes.
unfoldable pub print_reports :
    (List FileReport → Bytes)
    → (List ComplianceSummary → Bytes)
    → Bool
    → Bytes
    → List FileReport
    → Bytes
unfolding eq_bytes csv xml compliance_table table
print_reports json summaries_json colors format reports =
    if eq_bytes format (codes "json")
    then json reports
    else if eq_bytes format (codes "csv")
    then csv reports
    else if eq_bytes format (codes "xml")
    then xml reports
    else if eq_bytes format (codes "compliance")
    then compliance_table colors reports
    else if eq_bytes format (codes "compliance-json")
    then summaries_json (map compliance reports)
    else table colors reports
