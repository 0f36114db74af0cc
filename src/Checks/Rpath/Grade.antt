-- ===== src/Checks/Rpath/Grade.antt =====
-- The grade of a search path: the loops of `summarizeRunpath` against the worst of its entries.
use Prim.Native.Nat.{max}
use mathlib.Core.Path.{subst}
use native.Mathlib.Decide.{dec_lt}
use sec_compile_option.Base.{
  All, All-append, All-map, List, [], ap, append-nil, append_assoc, arith, if◌then◌else◌, inl, inr,
  le→ltb_false, lt→ltb, refl, ℕ, ◌++◌, ◌<◌, ◌==◌, ◌∙◌, ◌∷◌, ◌≡◌, ◌≤◌, ◌⊎◌,
}
use sec_compile_option.Checks.{Status, bad, info, warn}
use sec_compile_option.Checks.Rpath.{
  RunpathRisk, Survey, classify_runpath_entry, rank, rp_safe, runpath_verdict, start,
  summarize_runpath, survey_entries, survey_entry, survey_paths,
}
use sec_compile_option.Elf.{Host}
use sec_compile_option.Go.Strings.{Bytes, split}

-- The entries of all strings, in order.
abbrev pub entries_of : List Bytes → List Bytes
entries_of [] = []
entries_of (p ∷ ps) = split b':' p ++ entries_of ps

abbrev pub risk_of : Host → Bytes → RunpathRisk
risk_of host e = (classify_runpath_entry host e).0

-- `e` is the first of the entries with this risk, and those in front of it have a lower one.
pub record IsFirstWorst (host : Host) (es : List Bytes) (risk : RunpathRisk) (reason : Bytes)
    : Type 0 where
  pub front : List Bytes
  pub entry : Bytes
  pub behind : List Bytes
  pub splits : es ≡ front ++ entry ∷ behind
  pub classified : classify_runpath_entry host entry ≡ (risk, reason)
  pub lower : All (λ e. rank (risk_of host e) < rank risk) front

-- What the survey of a list of entries holds: the entries; no entry is riskier than `worst`; and
-- `worst` with its reason is that of the first entry so risky, unless all entries are safe.
pub record IsSurvey (host : Host) (es : List Bytes) (s : Survey) : Type 0 where
  pub listed : s.entries ≡ es
  pub bounded : All (λ e. rank (risk_of host e) ≤ rank s.worst) es
  pub attained : ((s.worst ≡ rp_safe) × (s.reason ≡ [])) ⊎ IsFirstWorst host es s.worst s.reason

module _ (host : Host) where
  All-le_trans :
      (es : List Bytes) (a b : ℕ)
      → a ≤ b
      → All (λ e. rank (risk_of host e) ≤ a) es
      → All (λ e. rank (risk_of host e) ≤ b) es
  All-le_trans es a b h = All-map (λ e p. omega arith) es

  -- The two outcomes of a round.
  survey_entry_riskier :
      (s : Survey) (e : Bytes)
      → rank s.worst < rank (risk_of host e)
      → survey_entry host s e ≡ record {
        worst = risk_of host e;
        reason = (classify_runpath_entry host e).1;
        entries = s.entries ++ e ∷ [];
      }
  unfolding survey_entry
  survey_entry_riskier s e h = rw (lt→ltb (rank s.worst) (rank (risk_of host e)) h)

  survey_entry_kept :
      (s : Survey) (e : Bytes)
      → rank (risk_of host e) ≤ rank s.worst
      → survey_entry host s e ≡ record s { entries = s.entries ++ e ∷ [] }
  unfolding survey_entry
  survey_entry_kept s e h = rw (le→ltb_false (rank s.worst) (rank (risk_of host e)) h)

  riskier-IsSurvey :
      (es : List Bytes) (s : Survey) (e : Bytes)
      → IsSurvey host es s
      → rank s.worst < rank (risk_of host e)
      → IsSurvey host (es ++ e ∷ []) (survey_entry host s e)
  riskier-IsSurvey es s e v h = rw (survey_entry_riskier s e h) (record {
    listed = ap (λ xs. xs ++ e ∷ []) v.listed;
    bounded =
        All-append (λ x. rank (risk_of host x) ≤ rank (risk_of host e)) es (e ∷ [])
          (All-le_trans es (rank s.worst) (rank (risk_of host e)) (omega arith) v.bounded)
          (omega arith);
    attained = inr (record {
      front = es;
      entry = e;
      behind = [];
      splits = refl;
      classified = refl;
      lower = All-map (λ x p. omega arith) es v.bounded;
    });
  })

  IsFirstWorst-append :
      (es : List Bytes) (e : Bytes) (risk : RunpathRisk) (reason : Bytes)
      → ((risk ≡ rp_safe) × (reason ≡ [])) ⊎ IsFirstWorst host es risk reason
      → ((risk ≡ rp_safe) × (reason ≡ [])) ⊎ IsFirstWorst host (es ++ e ∷ []) risk reason
  IsFirstWorst-append es e risk reason (inl safe) = inl safe
  IsFirstWorst-append es e risk reason (inr w) = inr (record {
    front = w.front;
    entry = w.entry;
    behind = w.behind ++ e ∷ [];
    splits = ap (λ xs. xs ++ e ∷ []) w.splits ∙ append_assoc w.front (w.entry ∷ w.behind) (e ∷ []);
    classified = w.classified;
    lower = w.lower;
  })

  kept-IsSurvey :
      (es : List Bytes) (s : Survey) (e : Bytes)
      → IsSurvey host es s
      → rank (risk_of host e) ≤ rank s.worst
      → IsSurvey host (es ++ e ∷ []) (survey_entry host s e)
  kept-IsSurvey es s e v h = rw (survey_entry_kept s e h) (record {
    listed = ap (λ xs. xs ++ e ∷ []) v.listed;
    bounded =
        All-append (λ x. rank (risk_of host x) ≤ rank s.worst) es (e ∷ []) v.bounded (omega arith);
    attained = IsFirstWorst-append es e s.worst s.reason v.attained;
  })

  survey_entries-IsSurvey :
      (es new : List Bytes) (s : Survey)
      → IsSurvey host es s
      → IsSurvey host (es ++ new) (survey_entries host s new)
  unfolding survey_entries
  survey_entries-IsSurvey es [] s v = rw (append-nil es) v
  survey_entries-IsSurvey es (e ∷ new) s v =
      subst (λ xs. IsSurvey host xs (survey_entries host (survey_entry host s e) new))
        (append_assoc es (e ∷ []) new)
        (survey_entries-IsSurvey (es ++ e ∷ []) new (survey_entry host s e)
          (elim (dec_lt (rank s.worst) (rank (risk_of host e))) [
            | yes h ↦ riskier-IsSurvey es s e v h
            | no h ↦ kept-IsSurvey es s e v (omega arith)
          ]))

  survey_paths-append :
      (es ps : List Bytes) (s : Survey)
      → IsSurvey host es s
      → IsSurvey host (es ++ entries_of ps) (survey_paths host s ps)
  unfolding survey_paths
  survey_paths-append es [] s v = rw (append-nil es) v
  survey_paths-append es (p ∷ ps) s v =
      subst (λ xs. IsSurvey host xs (survey_paths host (survey_entries host s (split b':' p)) ps))
        (append_assoc es (split b':' p) (entries_of ps))
        (survey_paths-append (es ++ split b':' p) ps _
          (survey_entries-IsSurvey es (split b':' p) s v))

-- The survey of the strings of DT_RPATH or DT_RUNPATH grades all their entries, on any host.
pub survey_paths-IsSurvey :
    (host : Host) (ps : List Bytes) → IsSurvey host (entries_of ps) (survey_paths host start ps)
survey_paths-IsSurvey host ps =
    survey_paths-append host [] ps start
      (record { listed = refl; bounded = tt; attained = inl (refl, refl) })

-- The rank of the riskiest entry; 0 if all are safe.
abbrev pub worst_rank : Host → List Bytes → ℕ
worst_rank host [] = 0
worst_rank host (e ∷ es) = max (rank (risk_of host e)) (worst_rank host es)

abbrev pub status_at : ℕ → Status
status_at n = if n == 0 then info else if n == 1 then warn else bad

worst_rank-le :
    (host : Host) (es : List Bytes) (n : ℕ)
    → All (λ e. rank (risk_of host e) ≤ n) es
    → worst_rank host es ≤ n
worst_rank-le host [] n h = omega arith
worst_rank-le host (e ∷ es) n (h, hs) = omega (arith, worst_rank-le host es n hs)

le-worst_rank :
    (host : Host) (front : List Bytes) (e : Bytes) (behind : List Bytes)
    → rank (risk_of host e) ≤ worst_rank host (front ++ e ∷ behind)
le-worst_rank host [] e behind = omega arith
le-worst_rank host (x ∷ front) e behind = omega (arith, le-worst_rank host front e behind)

IsSurvey-worst_rank :
    (host : Host) (es : List Bytes) (s : Survey)
    → IsSurvey host es s
    → rank s.worst ≡ worst_rank host es
IsSurvey-worst_rank host es s v = elim v.attained [
  | inl (safe, none_given) ↦
      let zero_rank : rank s.worst ≡ 0 = ap rank safe in
      omega (arith, zero_rank, worst_rank-le host es (rank s.worst) v.bounded)
  | inr w ↦
      let below = worst_rank-le host es (rank s.worst) v.bounded in
      let at_entry : rank (risk_of host w.entry) ≡ rank s.worst = ap (λ c. rank c.0) w.classified in
      let above : rank (risk_of host w.entry) ≤ worst_rank host es =
        rw w.splits (le-worst_rank host w.front w.entry w.behind) in
      omega (arith, below, at_entry, above)
]

runpath_verdict-status :
    (label : Bytes) (s : Survey) → (runpath_verdict label s).status ≡ status_at (rank s.worst)
unfolding runpath_verdict
runpath_verdict-status label s = ground arith

-- The status for a RUNPATH is that of its riskiest entry on this host: bad if an entry of any of
-- the strings is insecure, else a warning if one depends on the deployment, else informational.
pub summarize_runpath-status :
    (host : Host) (label p : Bytes) (ps : List Bytes)
    → (summarize_runpath host label (p ∷ ps)).status
      ≡ status_at (worst_rank host (entries_of (p ∷ ps)))
summarize_runpath-status host label p ps =
    let s = survey_paths host start (p ∷ ps) in
    unfold summarize_runpath in
    (runpath_verdict-status label s
      ∙ ap status_at
          (IsSurvey-worst_rank host (entries_of (p ∷ ps)) s (survey_paths-IsSurvey host (p ∷ ps))))
