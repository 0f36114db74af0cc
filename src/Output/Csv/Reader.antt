-- ===== src/Output/Csv/Reader.antt =====
-- A reader of CSV text by RFC 4180: fields between commas, records between line feeds, and quoted
-- fields, in which a doubled quote stands for a quote.
use sec_compile_option.Base.{List, [], ◌++◌, ◌∷◌}
use sec_compile_option.Go.Strings.{Bytes}
use sec_compile_option.Output.Csv.{comma, kind, line_feed, quote}

-- Where the reader stands: in front of a field, in a bare field, between quotes, or behind a quote
-- that ends the field unless another one follows.
pub data Mode : Type 0 where
  in_front bare quoted closing : Mode

-- The records of the text, where `field` and `fields` are what has been read of the present one.
unfoldable pub read_from : Mode → Bytes → List Bytes → Bytes → List (List Bytes)
unfolding kind
read_from in_front field [] [] = []
read_from in_front field (f ∷ fields) [] = ((f ∷ fields) ++ field ∷ []) ∷ []
read_from bare field fields [] = (fields ++ field ∷ []) ∷ []
read_from quoted field fields [] = (fields ++ field ∷ []) ∷ []
read_from closing field fields [] = (fields ++ field ∷ []) ∷ []
read_from in_front field fields (c ∷ s) = elim (kind c) [
  | quote ↦ read_from quoted field fields s
  | comma ↦ read_from in_front [] (fields ++ field ∷ []) s
  | line_feed ↦ (fields ++ field ∷ []) ∷ read_from in_front [] [] s
  | _ ↦ read_from bare (field ++ c ∷ []) fields s
]
read_from bare field fields (c ∷ s) = elim (kind c) [
  | comma ↦ read_from in_front [] (fields ++ field ∷ []) s
  | line_feed ↦ (fields ++ field ∷ []) ∷ read_from in_front [] [] s
  | _ ↦ read_from bare (field ++ c ∷ []) fields s
]
read_from quoted field fields (c ∷ s) = elim (kind c) [
  | quote ↦ read_from closing field fields s
  | _ ↦ read_from quoted (field ++ c ∷ []) fields s
]
read_from closing field fields (c ∷ s) = elim (kind c) [
  | quote ↦ read_from quoted (field ++ c ∷ []) fields s
  | comma ↦ read_from in_front [] (fields ++ field ∷ []) s
  | line_feed ↦ (fields ++ field ∷ []) ∷ read_from in_front [] [] s
  | _ ↦ read_from bare (field ++ c ∷ []) fields s
]

abbrev pub read_csv : Bytes → List (List Bytes)
read_csv = read_from in_front [] []
