-- ===== src/Output/Xml.antt =====
-- internal/output/printer.go: `XML`, with what encoding/xml writes: xml.EscapeText, and the layout of
-- xml.MarshalIndent with an indent of two spaces.
pub mod Escapes
pub mod Reader
pub mod Rounds
pub mod Pieces
pub mod Values
use mathlib.Core.List.{flatten}
use sec_compile_option.Base.{
  Bool, List, Option, [], false, if◌then◌else◌, leb, ltb, map, none, some, suc, zero, ℕ, ◌&&◌, ◌++◌,
  ◌==◌, ◌||◌, ◌∷◌,
}
use sec_compile_option.Checks.{status_text}
use sec_compile_option.Go.Strings.{Bytes, codes}
use sec_compile_option.Report.{FileReport, check_order, get_check}

abbrev between : ℕ → ℕ → ℕ → Bool
between a b c = leb a c && leb c b

abbrev continues : ℕ → Bool
continues = between 0x80 0xbf

abbrev pub two_bytes : ℕ → Bytes → Bool
two_bytes c (a ∷ s) = between 0xc2 0xdf c && continues a
two_bytes c [] = false

abbrev pub three_bytes : ℕ → Bytes → Bool
three_bytes c (a ∷ b ∷ s) =
    ((c == 0xe0 && between 0xa0 0xbf a)
      || ((c == 0xed && between 0x80 0x9f a)
          || ((between 0xe1 0xec c || between 0xee 0xef c) && continues a)))
    && continues b
three_bytes c _ = false

abbrev pub four_bytes : ℕ → Bytes → Bool
four_bytes c (a ∷ b ∷ d ∷ s) =
    ((c == 0xf0 && between 0x90 0xbf a)
      || ((c == 0xf4 && between 0x80 0x8f a) || (between 0xf1 0xf3 c && continues a)))
    && (continues b && continues d)
four_bytes c _ = false

-- How many bytes behind the first one utf8.DecodeRune takes with it; none where it finds no rune.
unfoldable pub rune_tail : ℕ → Bytes → Option ℕ
rune_tail c s =
    if ltb c 0x80
    then some 0
    else if two_bytes c s
    then some 1
    else if three_bytes c s
    then some 2
    else if four_bytes c s
    then some 3
    else none

-- U+FFFD in UTF-8.
abbrev pub replacement : Bytes
replacement = 0xef ∷ 0xbf ∷ 0xbd ∷ []

-- The runes U+FFFE and U+FFFF, which XML lacks.
abbrev pub noncharacter : ℕ → Bytes → Bool
noncharacter c (a ∷ b ∷ s) = c == 0xef && (a == 0xbf && leb 0xbe b)
noncharacter c _ = false

-- A byte of ASCII that stands for itself in XML text, or not at all.
abbrev pub plain_ascii : ℕ → Bytes
plain_ascii c = if leb 32 c || (c == 9 || (c == 10 || c == 13)) then c ∷ [] else replacement

unfoldable pub escape_ascii : ℕ → Bytes
escape_ascii c =
    if c == 34
    then codes "&#34;"
    else if c == 39
    then codes "&#39;"
    else if c == 38
    then codes "&amp;"
    else if c == 60
    then codes "&lt;"
    else if c == 62
    then codes "&gt;"
    else if c == 9
    then codes "&#x9;"
    else if c == 10
    then codes "&#xA;"
    else if c == 13
    then codes "&#xD;"
    else plain_ascii c

-- What is still to be done with a rune that has begun.
pub data Pending : Type 0 where
  copy_tail skip_tail : ℕ → Pending

-- xml.EscapeText, from a rune that has begun; `ascii` is what is written for a byte of ASCII.
unfoldable pub escape_from : (ℕ → Bytes) → Pending → Bytes → Bytes
unfolding rune_tail
escape_from ascii p [] = []
escape_from ascii (copy_tail (suc n)) (c ∷ s) = c ∷ escape_from ascii (copy_tail n) s
escape_from ascii (skip_tail (suc n)) (c ∷ s) = escape_from ascii (skip_tail n) s
escape_from ascii _ (c ∷ s) = elim (rune_tail c s) [
  | none ↦ replacement ++ escape_from ascii (copy_tail 0) s
  | some zero ↦ ascii c ++ escape_from ascii (copy_tail 0) s
  | some (suc n) ↦
      if noncharacter c s
      then replacement ++ escape_from ascii (skip_tail (suc n)) s
      else c ∷ escape_from ascii (copy_tail (suc n)) s
]

unfoldable pub escape_text : Bytes → Bytes
unfolding escape_from escape_ascii
escape_text s = escape_from escape_ascii (copy_tail 0) s

-- `name="value"`, with the value escaped.
abbrev pub attribute : Bytes → Bytes → Bytes
attribute name value = name ++ (codes "=" ++ (34 ∷ (escape_text value ++ 34 ∷ [])))

-- A tag and the text in front of it.
abbrev pub Piece : Type 0
Piece = Bytes × Bytes

-- The element of one check, on a line of its own.
unfoldable pub check_pieces : FileReport → Bytes → List Piece
unfolding escape_text
check_pieces r k =
    let result = get_check r.checks k in
    (
      10 ∷ codes "    ",
      codes "check "
          ++ (attribute (codes "key") k
              ++ (codes " " ++ attribute (codes "status") (status_text result.status))),
    )
    ∷ (escape_text result.value, codes "/check")
    ∷ []

unfoldable pub file_pieces : FileReport → List Piece
unfolding check_pieces escape_text
file_pieces r =
    (10 ∷ codes "  ", codes "file " ++ attribute (codes "name") r.name)
    ∷ (flatten (map (check_pieces r) check_order) ++ (10 ∷ codes "  ", codes "/file") ∷ [])

-- The line in front of the end tag, which stands directly behind the start tag of an empty document.
abbrev pub last_line : List FileReport → Bytes
last_line [] = []
last_line (r ∷ rs) = 10 ∷ []

-- What stands between the brackets of xml.Header.
abbrev pub xml_header : Bytes
xml_header =
    codes "?xml version="
    ++ (34
        ∷ (codes "1.0"
            ++ (34 ∷ (codes " encoding=" ++ (34 ∷ (codes "UTF-8" ++ (34 ∷ codes "?")))))))

unfoldable pub xml_pieces : List FileReport → List Piece
unfolding file_pieces
xml_pieces reports =
    ([], xml_header)
    ∷ (10 ∷ [], codes "secCompileCheck")
    ∷ (flatten (map file_pieces reports) ++ (last_line reports, codes "/secCompileCheck") ∷ [])

-- Tags stand between angle brackets.
unfoldable pub xml_text : List Piece → Bytes
xml_text [] = 10 ∷ []
xml_text ((text, tag) ∷ ps) = text ++ (60 ∷ (tag ++ (62 ∷ xml_text ps)))

unfoldable pub xml : List FileReport → Bytes
unfolding xml_pieces
xml reports = xml_text (xml_pieces reports)
