-- ===== src/Output/Csv/Steps.antt =====
-- The reader of CSV text on one field.
use sec_compile_option.Base.{
  ==_iff, Bool, Bool-cases, List, [], any, ap, append-nil, append_assoc, both_false, false,
  if◌then◌else◌, inl, inr, refl, true, ℕ, ◌++◌, ◌==◌, ◌∙◌, ◌∷◌, ◌≡◌,
}
use sec_compile_option.Go.Strings.{Bytes}
use sec_compile_option.Output.Csv.{
  Kind, carriage_return, comma, doubled, is_special, kind, line_feed, ordinary, quote,
}
use sec_compile_option.Output.Csv.Reader.{Mode, bare, closing, in_front, quoted, read_from}

-- The modes behind a whole field.
abbrev pub is_end : Mode → Bool
is_end quoted = false
is_end _ = true

abbrev is_quote : Kind → Bool
is_quote quote = true
is_quote _ = false

not_special : (k : Kind) → is_special k ≡ false → k ≡ ordinary
not_special ordinary h = refl
not_special quote h = absurd (cc)
not_special comma h = absurd (cc)
not_special line_feed h = absurd (cc)
not_special carriage_return h = absurd (cc)

not_quote {ℓ} :
    {A : Type ℓ} (k : Kind) (a b : A) → is_quote k ≡ false → (elim k [ quote ↦ a | _ ↦ b ]) ≡ b
not_quote ordinary a b h = refl
not_quote quote a b h = absurd (cc)
not_quote comma a b h = refl
not_quote line_feed a b h = refl
not_quote carriage_return a b h = refl

kind_not_quote : (c : ℕ) → (c == 34) ≡ false → is_quote (kind c) ≡ false
unfolding kind
kind_not_quote c h = rw h (rest (c == b',') (c == b'\n') (c == 13))
  where
    rest :
        (x y z : Bool)
        → is_quote
            (if x then comma else if y then line_feed else if z then carriage_return else ordinary)
          ≡ false
    rest true y z = refl
    rest false true z = refl
    rest false false true = refl
    rest false false false = refl

snoc : (field : Bytes) (c : ℕ) (text : Bytes) → (field ++ c ∷ []) ++ text ≡ field ++ c ∷ text
snoc field c text = append_assoc field (c ∷ []) text

-- Between quotes, a byte that is no quote.
step_quoted :
    (c : ℕ) (field : Bytes) (fields : List Bytes) (s : Bytes)
    → (c == 34) ≡ false
    → read_from quoted field fields (c ∷ s) ≡ read_from quoted (field ++ c ∷ []) fields s
unfolding read_from
step_quoted c field fields s h =
    not_quote (kind c) (read_from closing field fields s)
      (read_from quoted (field ++ c ∷ []) fields s) (kind_not_quote c h)

doubled_quote :
    (field : Bytes) (fields : List Bytes) (s : Bytes)
    → read_from quoted field fields (34 ∷ 34 ∷ s) ≡ read_from quoted (field ++ 34 ∷ []) fields s
unfolding read_from kind
doubled_quote field fields s = refl

-- Between quotes a doubled text is read as the text.
pub read_quoted :
    (text : Bytes) (field : Bytes) (fields : List Bytes) (rest : Bytes)
    → read_from quoted field fields (doubled text ++ rest)
      ≡ read_from quoted (field ++ text) fields rest
unfolding doubled
read_quoted [] field fields rest = rw (append-nil field) refl
read_quoted (c ∷ text) field fields rest = elim (Bool-cases (c == 34)) [
  | inl e ↦
      rw (e, (==_iff c 34).0 e)
        (doubled_quote field fields (doubled text ++ rest)
          ∙ (read_quoted text (field ++ 34 ∷ []) fields rest
              ∙ ap (λ f. read_from quoted f fields rest) (snoc field 34 text)))
  | inr e ↦ rw e (
      step_quoted c field fields (doubled text ++ rest) e
      ∙ (read_quoted text (field ++ c ∷ []) fields rest
          ∙ ap (λ f. read_from quoted f fields rest) (snoc field c text)))
]

-- A byte that is not special.
pub step_bare :
    (m : Mode) (c : ℕ) (field : Bytes) (fields : List Bytes) (s : Bytes)
    → is_end m ≡ true
    → is_special (kind c) ≡ false
    → read_from m field fields (c ∷ s) ≡ read_from bare (field ++ c ∷ []) fields s
unfolding read_from
step_bare in_front c field fields s e h = rw (read_from, not_special (kind c) h) refl
step_bare bare c field fields s e h = rw (read_from, not_special (kind c) h) refl
step_bare closing c field fields s e h = rw (read_from, not_special (kind c) h) refl
step_bare quoted c field fields s e h = absurd (cc)

-- A text without special bytes is read as it is.
pub read_bare :
    (text : Bytes) (field : Bytes) (fields : List Bytes) (rest : Bytes)
    → any (λ b. is_special (kind b)) text ≡ false
    → read_from bare field fields (text ++ rest) ≡ read_from bare (field ++ text) fields rest
read_bare [] field fields rest h = rw (append-nil field) refl
read_bare (c ∷ text) field fields rest h =
    let (hc, ht) = both_false _ _ h in
    step_bare bare c field fields (text ++ rest) refl hc
    ∙ (read_bare text (field ++ c ∷ []) fields rest ht
        ∙ ap (λ f. read_from bare f fields rest) (snoc field c text))
