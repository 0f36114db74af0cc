-- ===== src/Lib.antt =====
-- Model of scc (secCompileCheck), a command that reads ELF binaries and reports with which
-- compile-time protections they were built.
--
-- The program. cmd/scc/main.go parses the arguments, collects the paths, has each file checked and
-- turns the reports into an exit code. internal/checksec/report.go opens one file, runs the checks
-- of the other files of internal/checksec on it and stores their results under fixed keys in a map.
-- internal/checksec/compliance.go judges the map by seven rules. internal/output/printer.go prints
-- the reports.
--
-- The model, by directory and file:
--   Base, Go: shared names and lemmas; what the program uses of Go: strings as lists of bytes, 64-bit
--     words with their wrap-around, maps as association lists, runs that may panic, ReadAt, sorting, strings.TrimSpace
--     (Go/Spaces).
--   Elf: an *elf.File as the answers that debug/elf gives (fields, and results of its methods), and
--     the host: os.Stat, os.Open with the content, elf.NewFile, filepath.Glob, os.Getenv,
--     runtime.GOOS, and the length from which on `make` panics.
--   Dyn, Dyn/Symbols: internal/checksec/dyn.go, with the names in snake_case (parsePTDynamic is
--     `parse_pt_dynamic`). Proofs: Dyn/Entries, Dyn/Segment, Dyn/Offsets, Dyn/Text,
--     Dyn/Rounds.
--   Checks: internal/checksec/result.go. Checks/Binding: relro.go, bindnow.go. Checks/Stack:
--     canary.go, ohos_retguard.go, pac_cfi.go, nx.go. Checks/Position: pie.go, pic.go, symbols.go.
--     Checks/Rpath: rpath.go. Proofs: Checks/Rpath/Grade, Checks/Rpath/Verbatim, Checks/Agree,
--     Checks/Stripped, Checks/Ends.
--   Fortify, Fortify/Table: fortify.go. Fortify/Libc: libc.go. Proofs: Fortify/Names, Fortify/Ends.
--   Report: report.go, and StackProtectionPassed of canary.go. Proofs: Report/Link, Report/Results,
--     Report/Verdicts, Report/Keys.
--   Compliance: compliance.go. Proofs: Compliance/Count, Compliance/Gates.
--   Command, Command/Flags, Command/Targets: cmd/scc/main.go; Command/Flags holds reorderArgs and
--     what package flag does with declared flags, Command/Targets holds collectDir, isELF and
--     readList over a tree of files. Proofs: Command/Gate, Command/Ends, Command/Flags/Items,
--     Command/Flags/Terminator, Command/Targets/Lists, Command/Targets/Walks.
--   Output: printReports of main.go; what encoding/json writes is a parameter. The methods of
--     internal/output/printer.go: Output/Table (proofs in Widths and Aligned below it); Output/Csv,
--     with what encoding/csv writes; Output/Xml, with what encoding/xml writes. Output/Csv/Reader
--     and Output/Xml/Reader read the texts back; proofs in Steps, Rounds, Escapes, Pieces and Values beside them.
--     Output/Compliance: the method Compliance; proofs in Cells, Rows, Aligned and
--     Exits below it.
--   Elfgen, Elfgen/Image: internal/elfgen/elfgen.go, which builds binaries for tests (Build is
--     `build`). Elfgen/Reader: what debug/elf reads of such an image, which has no section headers.
--     Proofs: Elfgen/Assembly on the image, Elfgen/Headers, Elfgen/Parsed and Elfgen/Contents on
--     what is read back, Elfgen/Verdicts on the checks, and lemmas in Writes, Loops, Sections, Plans, Counts,
--     Segments, Dynamic, Entries, Listed, Slices, Tags, Queries and Readings.
--   Tests: a sample binary on a sample host, runs, and the theorems at concrete inputs.
--
-- Bounds. Values of dynamic entries and addresses are natural numbers with the wrap-around of
-- uint64 and the sign of int64 written out where the code converts. Two loops run on fuel:
-- the scan of phdrSymbolNames gets `limit + 1` rounds, where `limit` is at most 2^24, which is
-- enough since every round moves the offset by at least one (Dyn/Rounds); strconv.Itoa gets the
-- number itself plus one. A run is a value, a panic, or out of fuel.
--
-- An image of Elfgen is read back where it is below 4 GiB and the host can allocate it.
--
-- Not modelled: the JSON printers, which encoding/json writes, the usage text, and the test on the
-- terminal. Whether writing the output fails is a parameter of a run. A list of names that was seen stands for Go's set of them; the order of Go's range
-- over a map is not visible where the model counts.
pub mod Base
pub mod Go
pub mod Elf
pub mod Dyn
pub mod Checks
pub mod Fortify
pub mod Report
pub mod Compliance
pub mod Command
pub mod Output
pub mod Elfgen
pub mod Tests
