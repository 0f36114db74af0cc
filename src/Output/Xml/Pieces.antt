-- ===== src/Output/Xml/Pieces.antt =====
-- The tags of the XML that is written, read back.
use mathlib.Core.List.{flatten}
use sec_compile_option.Base.{
  All, All-append, All-map, List, [], any, ap, append-nil, append_assoc, false, map, ne→==_false,
  refl, true, ℕ, ◌++◌, ◌==◌, ◌∙◌, ◌∷◌, ◌≡◌, ◌≢◌,
}
use sec_compile_option.Checks.{status_text}
use sec_compile_option.Go.Strings.{Bytes, Lacks, Lacks-any, codes}
use sec_compile_option.Output.Xml.{
  Piece, attribute, check_pieces, escape_text, file_pieces, last_line, xml, xml_header, xml_pieces,
  xml_text,
}
use sec_compile_option.Output.Xml.Escapes.{escape_text-IsInert}
use sec_compile_option.Output.Xml.Reader.{read_pieces, read_tags}
use sec_compile_option.Report.{FileReport, check_order, get_check}

abbrev IsPiece : Piece → Type 0
IsPiece p = Lacks 60 p.0 × Lacks 62 p.1

snoc : (s : Bytes) (c : ℕ) (t : Bytes) → (s ++ c ∷ []) ++ t ≡ s ++ c ∷ t
snoc s c t = append_assoc s (c ∷ []) t

read_text :
    (text before rest : Bytes)
    → Lacks 60 text
    → read_tags false before [] (text ++ 60 ∷ rest) ≡ read_tags true (before ++ text) [] rest
unfolding read_tags
read_text [] before rest h = rw (append-nil before) refl
read_text (c ∷ text) before rest (h, hs) =
    rw (read_tags, ne→==_false c 60 h)
      (read_text text (before ++ c ∷ []) rest hs
        ∙ ap (λ t. read_tags true t [] rest) (snoc before c text))

read_tag :
    (tag before text rest : Bytes)
    → Lacks 62 tag
    → read_tags true text before (tag ++ 62 ∷ rest) ≡ (text, before ++ tag) ∷ read_pieces rest
unfolding read_tags
read_tag [] before text rest h = rw (append-nil before) refl
read_tag (c ∷ tag) before text rest (h, hs) =
    rw (read_tags, ne→==_false c 62 h)
      (read_tag tag (before ++ c ∷ []) text rest hs
        ∙ ap (λ t. (text, t) ∷ read_pieces rest) (snoc before c tag))

read_pieces-xml_text : (ps : List Piece) → All IsPiece ps → read_pieces (xml_text ps) ≡ ps
unfolding xml_text
read_pieces-xml_text [] h = unfold read_tags in refl
read_pieces-xml_text (p ∷ ps) ((h, g), hs) =
    read_text p.0 [] (p.1 ++ (62 ∷ xml_text ps)) h
    ∙ (read_tag p.1 [] p.0 (xml_text ps) g ∙ ap (◌∷◌ p) (read_pieces-xml_text ps hs))

escaped_text : (s : Bytes) → Lacks 60 (escape_text s)
escaped_text s = All-map (λ c h. h.1.0) (escape_text s) (escape_text-IsInert s)

escaped_tag : (s : Bytes) → Lacks 62 (escape_text s)
escaped_tag s = All-map (λ c h. h.1.1) (escape_text s) (escape_text-IsInert s)

attribute-Lacks :
    (name value : Bytes) → any (λ c. c == 62) name ≡ false → Lacks 62 (attribute name value)
attribute-Lacks name value h =
    All-append (λ c. c ≢ 62) name _ (Lacks-any 62 name h)
      (All-append (λ c. c ≢ 62) (codes "=" ++ 34 ∷ []) _ (Lacks-any 62 (codes "=" ++ 34 ∷ []) refl)
        (All-append (λ c. c ≢ 62) (escape_text value) (34 ∷ []) (escaped_tag value)
          (Lacks-any 62 (34 ∷ []) refl)))

check_pieces-All : (r : FileReport) (k : Bytes) → All IsPiece (check_pieces r k)
unfolding check_pieces
check_pieces-All r k =
    let result = get_check r.checks k in
    let status = attribute (codes "status") (status_text result.status) in
    let behind_key = codes " " ++ status in
    let behind_name = attribute (codes "key") k ++ behind_key in
    (
      (
        Lacks-any 60 (10 ∷ codes "    ") refl,
        All-append (λ c. c ≢ 62) (codes "check ") behind_name (Lacks-any 62 (codes "check ") refl)
            (All-append (λ c. c ≢ 62) (attribute (codes "key") k) behind_key
              (attribute-Lacks (codes "key") k refl)
              (All-append (λ c. c ≢ 62) (codes " ") status (Lacks-any 62 (codes " ") refl)
                (attribute-Lacks (codes "status") (status_text result.status) refl))),
      ),
      ((escaped_text result.value, Lacks-any 62 (codes "/check") refl), tt),
    )

All-flatten :
    {A : Type 0} (f : A → List Piece)
    → ((a : A) → All IsPiece (f a))
    → (xs : List A) → All IsPiece (flatten (map f xs))
unfolding flatten
All-flatten f h [] = tt
All-flatten f h (x ∷ xs) = All-append IsPiece (f x) _ (h x) (All-flatten f h xs)

file_pieces-All : (r : FileReport) → All IsPiece (file_pieces r)
unfolding file_pieces
file_pieces-All r = (
  (
    Lacks-any 60 (10 ∷ codes "  ") refl,
    All-append (λ c. c ≢ 62) (codes "file ") (attribute (codes "name") r.name)
        (Lacks-any 62 (codes "file ") refl) (attribute-Lacks (codes "name") r.name refl),
  ),
  All-append IsPiece (flatten (map (check_pieces r) check_order)) _
      (All-flatten (check_pieces r) (check_pieces-All r) check_order)
      ((Lacks-any 60 (10 ∷ codes "  ") refl, Lacks-any 62 (codes "/file") refl), tt),
)

last_line-Lacks : (reports : List FileReport) → Lacks 60 (last_line reports)
last_line-Lacks [] = tt
last_line-Lacks (r ∷ rs) = Lacks-any 60 (10 ∷ []) refl

-- Whatever bytes the names and values of the reports hold, the tags that are read from the output of
-- `XML`, each with the text in front of it, are those of the document: no name and no value adds a
-- tag or ends one.
pub read_pieces-xml : (reports : List FileReport) → read_pieces (xml reports) ≡ xml_pieces reports
unfolding xml xml_pieces
read_pieces-xml reports = read_pieces-xml_text (xml_pieces reports) (
  (tt, Lacks-any 62 xml_header refl),
  (
    (Lacks-any 60 (10 ∷ []) refl, Lacks-any 62 (codes "secCompileCheck") refl),
    All-append IsPiece (flatten (map file_pieces reports)) _
        (All-flatten file_pieces file_pieces-All reports)
        ((last_line-Lacks reports, Lacks-any 62 (codes "/secCompileCheck") refl), tt),
  ),
)
