-- ===== src/Fortify/Names.antt =====
-- `fortifiedChkNames`: the list of names against a description of it.
use mathlib.Core.Path.{subst}
use sec_compile_option.Base.{
  Bool, Bool-cases, List, Option, [], and_false, and_true, any, ap, arith, false, if◌then◌else◌,
  inl, inr, not, or_false, or_true, refl, true, ◌&&◌, ◌++◌, ◌||◌, ◌∙◌, ◌∷◌, ◌≡◌,
}
use sec_compile_option.Dyn.Symbols.{fallback_names}
use sec_compile_option.Elf.{File, Host}
use sec_compile_option.Fortify.{
  add_chk, add_chks, base_symbol_name, callable_table, fortified_chk_names, is_fortify_chk_name,
}
use sec_compile_option.Go.Members.{
  IsDistinct, IsDistinct-append, IsSorted, member, member-append, member-sort_strings,
  sort_strings-IsDistinct, sort_strings-IsSorted,
}
use sec_compile_option.Go.Run.{done}
use sec_compile_option.Go.Sort.{sort_strings}
use sec_compile_option.Go.Strings.{Bytes, eq_bytes, eq_bytes_iff}

-- A symbol with this name, without its version, is among the callable symbols of the two tables or
-- among the recovered names.
abbrev pub is_referenced : File → List Bytes → Bytes → Bool
is_referenced f recovered x =
    any (λ n. eq_bytes (base_symbol_name n) x)
      (callable_table f.dynamic_symbols ++ (callable_table f.symbols ++ recovered))

-- The names are sorted and distinct, and a string is one of them exactly if it has the form of a
-- fortified variant and is referenced.
pub record IsNameList (f : File) (recovered names : List Bytes) : Type 0 where
  pub sorted : IsSorted names
  pub distinct : IsDistinct names
  pub exact : (x : Bytes) → member x names ≡ (is_fortify_chk_name x && is_referenced f recovered x)

not_chk-nil : is_fortify_chk_name [] ≡ false
unfolding is_fortify_chk_name
not_chk-nil = refl

abbrev pub refers : Bytes → List Bytes → Bool
refers x ns = any (λ n. eq_bytes (base_symbol_name n) x) ns

refers-append :
    (x : Bytes) (ms ns : List Bytes) → refers x (ms ++ ns) ≡ (refers x ms || refers x ns)
refers-append x [] ns = refl
refers-append x (m ∷ ms) ns = ground (arith, refers-append x ms ns)

-- The three conditions of `add`, on the name without version.
abbrev skips : List Bytes → Bytes → Bool
skips out b = eq_bytes b [] || member b out || not (is_fortify_chk_name b)

skips_chk :
    (out : List Bytes) (x : Bytes) → is_fortify_chk_name x ≡ true → skips out x ≡ member x out
skips_chk out x h = elim (Bool-cases (eq_bytes x [])) [
  | inl q ↦
      let clash = ap is_fortify_chk_name ((eq_bytes_iff x []).0 q) ∙ not_chk-nil in
      absurd (cc (h, clash))
  | inr q ↦ rw (q, h) (or_false (member x out))
]

-- `add` of a name that is x itself, and of another one.
member_same :
    (out : List Bytes) (x : Bytes)
    → member x (if skips out x then out else out ++ x ∷ [])
      ≡ (member x out || is_fortify_chk_name x)
member_same out x = elim (Bool-cases (is_fortify_chk_name x)) [
  | inl h ↦ elim (Bool-cases (member x out)) [
    | inl m ↦ rw (skips_chk out x h, m, m) refl
    | inr m ↦
        rw (skips_chk out x h, m, member-append x out (x ∷ []), m, (eq_bytes_iff x x).1 refl, h)
          refl
  ]
  | inr h ↦ rw (h, or_true (eq_bytes x [] || member x out), or_false (member x out)) refl
]

member_other :
    (out : List Bytes) (x b : Bytes)
    → eq_bytes b x ≡ false
    → member x (if skips out b then out else out ++ b ∷ []) ≡ member x out
member_other out x b q = elim (Bool-cases (skips out b)) [
  | inl s ↦ rw s refl
  | inr s ↦ rw (s, member-append x out (b ∷ []), q, or_false (member x out)) refl
]

member_new :
    (out : List Bytes) (x b : Bytes)
    → member x (if skips out b then out else out ++ b ∷ [])
      ≡ (member x out || (is_fortify_chk_name x && eq_bytes b x))
member_new out x b = elim (Bool-cases (eq_bytes b x)) [
  | inl q ↦
      rw ((eq_bytes_iff b x).0 q, (eq_bytes_iff x x).1 refl, and_true (is_fortify_chk_name x))
        (member_same out x)
  | inr q ↦
      rw (q, and_false (is_fortify_chk_name x), or_false (member x out)) (member_other out x b q)
]

member-add_chk :
    (x : Bytes) (out : List Bytes) (n : Bytes)
    → member x (add_chk out n)
      ≡ (member x out || (is_fortify_chk_name x && eq_bytes (base_symbol_name n) x))
unfolding add_chk
member-add_chk x out n = member_new out x (base_symbol_name n)

distribute : (m f a b : Bool) → ((m || (f && a)) || (f && b)) ≡ (m || (f && (a || b)))
distribute m true a b = ground arith
distribute m false a b = ground arith

member-add_chks :
    (x : Bytes) (out ns : List Bytes)
    → member x (add_chks out ns) ≡ (member x out || (is_fortify_chk_name x && refers x ns))
unfolding add_chks
member-add_chks x out [] = ground arith
member-add_chks x out (n ∷ ns) =
    member-add_chks x (add_chk out n) ns
    ∙ (ap (λ b. b || (is_fortify_chk_name x && refers x ns)) (member-add_chk x out n)
        ∙ distribute (member x out) (is_fortify_chk_name x) (eq_bytes (base_symbol_name n) x)
            (refers x ns))

gather :
    (f a b c : Bool) → ((((false || (f && a)) || (f && b)) || (f && c)) ≡ (f && (a || (b || c))))
gather true a b c = ground arith
gather false a b c = refl

-- The three passes of `fortifiedChkNames`.
member_passes :
    (x : Bytes) (ds ss rs : List Bytes)
    → member x (add_chks (add_chks (add_chks [] ds) ss) rs)
      ≡ (is_fortify_chk_name x && refers x (ds ++ (ss ++ rs)))
member_passes x ds ss rs =
    rw
      (
        member-add_chks x (add_chks (add_chks [] ds) ss) rs,
        member-add_chks x (add_chks [] ds) ss,
        member-add_chks x [] ds,
        refers-append x ds (ss ++ rs),
        refers-append x ss rs,
      )
      (gather (is_fortify_chk_name x) (refers x ds) (refers x ss) (refers x rs))

add_chk-IsDistinct : (out : List Bytes) (n : Bytes) → IsDistinct out → IsDistinct (add_chk out n)
unfolding add_chk
add_chk-IsDistinct out n d =
    let b = base_symbol_name n in
    elim (Bool-cases (skips out b)) [
      | inl q ↦ rw q d
      | inr q ↦ rw q (IsDistinct-append out b d (ground (arith, q)))
    ]

add_chks-IsDistinct : (out ns : List Bytes) → IsDistinct out → IsDistinct (add_chks out ns)
unfolding add_chks
add_chks-IsDistinct out [] d = d
add_chks-IsDistinct out (n ∷ ns) d =
    add_chks-IsDistinct (add_chk out n) ns (add_chk-IsDistinct out n d)

-- The list of fortified names that `fortifiedChkNames` returns, where it returns, is sorted and has no repetition, and
-- holds exactly the names of the form of a fortified variant which a callable symbol of one of the
-- two tables, or a name that is recovered through the program headers, has without its version.
pub fortified_chk_names-IsNameList :
    (host : Host) (f : File) (raw : Option Bytes) {recovered names : List Bytes}
    → fallback_names host f raw ≡ done recovered
    → fortified_chk_names host f raw ≡ done names
    → IsNameList f recovered names
unfolding fortified_chk_names
fortified_chk_names-IsNameList host f raw {recovered} {names} e h =
    let dynamic = add_chks [] (callable_table f.dynamic_symbols) in
    let static = add_chks dynamic (callable_table f.symbols) in
    let all = add_chks static recovered in
    let out : sort_strings all ≡ names = ground (arith, e, h) in
    subst (IsNameList f recovered) out (record {
      sorted = sort_strings-IsSorted all;
      distinct = sort_strings-IsDistinct all (
          add_chks-IsDistinct static recovered (
            add_chks-IsDistinct dynamic (callable_table f.symbols)
              (add_chks-IsDistinct [] (callable_table f.dynamic_symbols) tt)));
      exact = λ x.
          member-sort_strings x all
          ∙ member_passes x (callable_table f.dynamic_symbols) (callable_table f.symbols) recovered;
    })
