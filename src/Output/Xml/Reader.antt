-- ===== src/Output/Xml/Reader.antt =====
-- A reader of the XML that is written: tags with the text in front of them, and escaped text.
use sec_compile_option.Base.{
  Bool, List, Option, [], false, if◌then◌else◌, none, some, suc, true, zero, ℕ, ◌++◌, ◌==◌, ◌∷◌,
}
use sec_compile_option.Go.Strings.{Bytes, codes, eq_bytes, has_prefix}
use sec_compile_option.Output.Xml.{Piece, copy_tail, escape_from, plain_ascii}

-- The byte that a character reference stands for, with the length of the reference less one.
abbrev pub reference : Bytes → Option (ℕ × ℕ)
reference s =
    if has_prefix s (codes "&#34;")
    then some (34, 4)
    else if has_prefix s (codes "&#39;")
    then some (39, 4)
    else if has_prefix s (codes "&amp;")
    then some (38, 4)
    else if has_prefix s (codes "&lt;")
    then some (60, 3)
    else if has_prefix s (codes "&gt;")
    then some (62, 3)
    else if has_prefix s (codes "&#x9;")
    then some (9, 4)
    else if has_prefix s (codes "&#xA;")
    then some (10, 4)
    else if has_prefix s (codes "&#xD;")
    then some (13, 4)
    else none

-- The text with its references resolved; so many bytes belong to a reference that was resolved.
unfoldable pub unescape_from : ℕ → Bytes → Bytes
unfolding has_prefix
unescape_from n [] = []
unescape_from (suc n) (c ∷ s) = unescape_from n s
unescape_from zero (c ∷ s) = elim (reference (c ∷ s)) [
  | none ↦ c ∷ unescape_from 0 s
  | some (b, n) ↦ b ∷ unescape_from n s
]

abbrev pub unescape : Bytes → Bytes
unescape s = unescape_from 0 s

-- The text, with U+FFFD for what is no UTF-8 and for what XML cannot hold.
unfoldable pub representable : Bytes → Bytes
unfolding escape_from
representable s = escape_from plain_ascii (copy_tail 0) s

-- The tags, where `in_tag` is whether a tag has begun, and `text` and `tag` what was read of it.
unfoldable pub read_tags : Bool → Bytes → Bytes → Bytes → List Piece
read_tags in_tag text tag [] = []
read_tags false text tag (c ∷ s) = elim (c == 60) [
  | true ↦ read_tags true text [] s
  | false ↦ read_tags false (text ++ c ∷ []) [] s
]
read_tags true text tag (c ∷ s) = elim (c == 62) [
  | true ↦ (text, tag) ∷ read_tags false [] [] s
  | false ↦ read_tags true text (tag ++ c ∷ []) s
]

abbrev pub read_pieces : Bytes → List Piece
read_pieces s = read_tags false [] [] s

-- The texts of the elements that end in </check>.
unfoldable pub read_values : List Piece → List Bytes
unfolding eq_bytes unescape_from
read_values [] = []
read_values ((text, tag) ∷ ps) =
    let rest = read_values ps in
    if eq_bytes tag (codes "/check") then unescape text ∷ rest else rest
