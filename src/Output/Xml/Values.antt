-- ===== src/Output/Xml/Values.antt =====
-- The values of the reports, read back from the XML.
use mathlib.Core.List.{flatten}
use sec_compile_option.Base.{
  List, [], ap, append-nil, append_assoc, map, refl, sym, ◌++◌, ◌∙◌, ◌∷◌, ◌≡◌,
}
use sec_compile_option.Go.Strings.{Bytes, codes, eq_bytes}
use sec_compile_option.Output.Xml.{Piece, check_pieces, file_pieces, last_line, xml, xml_pieces}
use sec_compile_option.Output.Xml.Pieces.{read_pieces-xml}
use sec_compile_option.Output.Xml.Reader.{read_pieces, read_values, representable}
use sec_compile_option.Output.Xml.Rounds.{unescape-escape_text}
use sec_compile_option.Report.{FileReport, check_order, get_check}

abbrev pub value_of : FileReport → Bytes → Bytes
value_of r k = representable (get_check r.checks k).value

check_values :
    (r : FileReport) (ks : List Bytes) (ps : List Piece)
    → read_values (flatten (map (check_pieces r) ks) ++ ps) ≡ map (value_of r) ks ++ read_values ps
unfolding flatten check_pieces read_values eq_bytes
check_values r [] ps = refl
check_values r (k ∷ ks) ps =
    let v = (get_check r.checks k).value in
    ap (λ w. w ∷ read_values (flatten (map (check_pieces r) ks) ++ ps)) (unescape-escape_text v)
    ∙ ap (◌∷◌ (representable v)) (check_values r ks ps)

file_values :
    (reports : List FileReport) (ps : List Piece)
    → read_values (flatten (map file_pieces reports) ++ ps)
      ≡ flatten (map (λ r. map (value_of r) check_order) reports) ++ read_values ps
unfolding flatten file_pieces read_values eq_bytes
file_values [] ps = refl
file_values (r ∷ reports) ps =
    let checks = flatten (map (check_pieces r) check_order) in
    let end_tag : List Piece = (10 ∷ codes "  ", codes "/file") ∷ [] in
    let others = flatten (map file_pieces reports) in
    let values = map (value_of r) check_order in
    let values_behind = flatten (map (λ r. map (value_of r) check_order) reports) in
    ap read_values
      (append_assoc (checks ++ end_tag) others ps ∙ append_assoc checks end_tag (others ++ ps))
    ∙ (check_values r check_order (end_tag ++ (others ++ ps))
        ∙ (ap (λ vs. values ++ vs) (file_values reports ps)
            ∙ sym (append_assoc values values_behind (read_values ps))))

-- From the output of `XML`, the values come back in the order of the reports and of the columns,
-- each with U+FFFD in the place of what is no UTF-8 or not allowed in XML.
pub read_values-xml :
    (reports : List FileReport)
    → read_values (read_pieces (xml reports))
      ≡ flatten (map (λ r. map (value_of r) check_order) reports)
unfolding xml_pieces read_values eq_bytes
read_values-xml reports =
    let end_tag : List Piece = (last_line reports, codes "/secCompileCheck") ∷ [] in
    ap read_values (read_pieces-xml reports)
    ∙ (file_values reports end_tag
        ∙ append-nil (flatten (map (λ r. map (value_of r) check_order) reports)))
