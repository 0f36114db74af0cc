-- ===== src/Checks/Rpath/Verbatim.antt =====
-- What the value of an RPATH or RUNPATH result shows: the strings as they stand in the file.
use mathlib.Core.Path.{ap₂, subst}
use sec_compile_option.Base.{
  Bool-cases, List, [], ap, append-nil, append_assoc, arith, inl, inr, refl, ℕ, ◌++◌, ◌==◌, ◌∙◌,
  ◌∷◌, ◌≡◌,
}
use sec_compile_option.Checks.{Result, bad}
use sec_compile_option.Checks.Rpath.{
  RunpathRisk, Survey, rp_insecure, rp_safe, rp_warn, rpath_verdict, runpath_verdict, start,
  summarize_rpath_strict, summarize_runpath, survey_paths,
}
use sec_compile_option.Checks.Rpath.Grade.{entries_of, survey_paths-IsSurvey}
use sec_compile_option.Elf.{Host}
use sec_compile_option.Go.Strings.{Bytes, codes, join, push_first, split}

join-push_first :
    (b c : ℕ) (p : Bytes) (ps : List Bytes)
    → join (b ∷ []) (push_first c (p ∷ ps)) ≡ c ∷ join (b ∷ []) (p ∷ ps)
unfolding join push_first
join-push_first b c p [] = refl
join-push_first b c p (q ∷ ps) = refl

split-ne-nil : (b : ℕ) (s : Bytes) → (p : Bytes) × (ps : List Bytes) × (split b s ≡ p ∷ ps)
unfolding split push_first
split-ne-nil b [] = ([], [], refl)
split-ne-nil b (c ∷ s) =
    let (p, ps, e) = split-ne-nil b s in
    elim (Bool-cases (c == b)) [
      | inl q ↦ ([], split b s, ground (arith, q))
      | inr q ↦ (c ∷ p, ps, ground (arith, q, e))
    ]

join-split : (b : ℕ) (s : Bytes) → join (b ∷ []) (split b s) ≡ s
unfolding split join
join-split b [] = refl
join-split b (c ∷ s) =
    let (p, ps, e) = split-ne-nil b s in
    let ih = join-split b s in ground (arith, e, ih, join-push_first b c p ps)

join-append :
    (sep x : Bytes) (xs : List Bytes) (y : Bytes) (ys : List Bytes)
    → join sep ((x ∷ xs) ++ (y ∷ ys)) ≡ join sep (x ∷ xs) ++ (sep ++ join sep (y ∷ ys))
unfolding join
join-append sep x [] y ys = refl
join-append sep x (z ∷ xs) y ys = rw (join-append sep z xs y ys) (simp append_assoc)

join-append_of :
    (sep : Bytes) {us vs xs ys : List Bytes} {x y : Bytes}
    → us ≡ x ∷ xs
    → vs ≡ y ∷ ys
    → join sep (us ++ vs) ≡ join sep us ++ (sep ++ join sep vs)
join-append_of sep {xs = xs} {ys = ys} {x = x} {y = y} e e' = rw (e, e') (join-append sep x xs y ys)

-- Cutting every string at its colons and joining all the parts by colons gives the strings joined.
join-entries_of :
    (p : Bytes) (ps : List Bytes)
    → join (codes ":") (entries_of (p ∷ ps)) ≡ join (codes ":") (p ∷ ps)
unfolding join
join-entries_of p [] = ap (join (codes ":")) (append-nil (split b':' p)) ∙ join-split b':' p
join-entries_of p (q ∷ ps) =
    let (x, xs, e) = split-ne-nil b':' p in
    let (y, ys, e') = split-ne-nil b':' q in
    let e'' : entries_of (q ∷ ps) ≡ y ∷ (ys ++ entries_of ps) = ap (λ t. t ++ entries_of ps) e' in
    join-append_of (codes ":") e e''
    ∙ ap₂ (λ a b. a ++ (codes ":" ++ b)) (join-split b':' p) (join-entries_of q ps)

-- The result for DT_RPATH or DT_RUNPATH strings shows them verbatim, joined by colons: the survey
-- joins the entries that it cut them into.
survey_paths-joined :
    (host : Host) (p : Bytes) (ps : List Bytes)
    → join (codes ":") (survey_paths host start (p ∷ ps)).entries ≡ join (codes ":") (p ∷ ps)
survey_paths-joined host p ps =
    ap (join (codes ":")) (survey_paths-IsSurvey host (p ∷ ps)).listed ∙ join-entries_of p ps

-- The value of a result is the label, the joined strings in brackets, and
-- more text.
pub record Shows (label joined : Bytes) (r : Result) : Type 0 where
  pub more : Bytes
  pub shown : r.value ≡ label ++ (codes " [" ++ (joined ++ (codes "]" ++ more)))

rpath_verdict-Shows :
    (w : RunpathRisk) (reason : Bytes) (es : List Bytes)
    → let s : Survey = record { worst = w; reason = reason; entries = es } in
      ((rpath_verdict s).status ≡ bad)
      × Shows (codes "RPATH") (join (codes ":") es) (rpath_verdict s)
unfolding rpath_verdict
rpath_verdict-Shows w [] es =
    (refl, record { more = codes " (prohibited by secure-compile specs)"; shown = refl })
rpath_verdict-Shows w (c ∷ reason) es =
    (refl, record { more = codes " (prohibited; " ++ ((c ∷ reason) ++ codes ")"); shown = refl })

runpath_verdict-Shows :
    (label : Bytes) (w : RunpathRisk) (reason : Bytes) (es : List Bytes)
    → Shows label
        (join (codes ":") es)
        (runpath_verdict label (record { worst = w; reason = reason; entries = es }))
unfolding runpath_verdict
runpath_verdict-Shows label rp_insecure reason es = record {
  more = codes " (" ++ (reason ++ codes ")");
  shown = refl;
}
runpath_verdict-Shows label rp_warn reason es = record {
  more = codes " (" ++ (reason ++ codes ")");
  shown = refl;
}
runpath_verdict-Shows label rp_safe reason es = record { more = []; shown = refl }

-- Any DT_RPATH string is a violation, whatever the host says of its entries, and the result shows
-- the strings verbatim.
pub summarize_rpath_strict-Shows :
    (host : Host) (p : Bytes) (ps : List Bytes)
    → ((summarize_rpath_strict host (p ∷ ps)).status ≡ bad)
      × Shows (codes "RPATH") (join (codes ":") (p ∷ ps)) (summarize_rpath_strict host (p ∷ ps))
unfolding summarize_rpath_strict
summarize_rpath_strict-Shows host p ps =
    let s = survey_paths host start (p ∷ ps) in
    let (prohibited, shown) = rpath_verdict-Shows s.worst s.reason s.entries in
    (
      prohibited,
      subst (λ j. Shows (codes "RPATH") j (rpath_verdict s)) (survey_paths-joined host p ps) shown,
    )

-- The result on one or more DT_RUNPATH strings shows them verbatim, joined by colons.
pub summarize_runpath-Shows :
    (host : Host) (label p : Bytes) (ps : List Bytes)
    → Shows label (join (codes ":") (p ∷ ps)) (summarize_runpath host label (p ∷ ps))
unfolding summarize_runpath
summarize_runpath-Shows host label p ps =
    let s = survey_paths host start (p ∷ ps) in
    subst (λ j. Shows label j (runpath_verdict label s)) (survey_paths-joined host p ps)
      (runpath_verdict-Shows label s.worst s.reason s.entries)
