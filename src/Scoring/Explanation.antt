-- ===== src/Scoring/Explanation.antt =====
-- The explanation of a score is a dict with no key twice, at every depth.
use sentinel_drive.Prelude.{
  String, refl, Bool, true, false, Option, none, some, List, [], ◌∷◌, ◌++◌, map, ℤ, All, All-append,
  Option-cases, Bool-cases, inl, inr, ◌==◌, string_Eq, arith,
}
use sentinel_drive.Value.{
  Python, Value, none_value, float, str, dict, Fields, field, from_list, lookup,
}
use sentinel_drive.Value.Equality.{IsProper, AllProper, IsDict}
use sentinel_drive.Value.Row.{Row}
use sentinel_drive.Scoring.Signals.{known_exploited, normalize_key}
use sentinel_drive.Scoring.Rules.{
  factors, exploit_factor, signal_factor, flag_factor, cvss_or_severity_factor, confidence_factor,
  signals, signal_name, score_threat_intelligence,
}
use sentinel_drive.Scoring.Factors.{ScoreFactor, evidence_field, to_payload, numeric_or_none}

abbrev HasProperEvidence : ScoreFactor → Type 0
HasProperEvidence f = IsProper f.evidence

-- The last field does not repeat one of the three before it.
payload_tail-IsProper :
    (key label : String) (w : ℤ) (v : Value)
    → IsProper v
    → IsDict (
        field "key"
          (str key)
          (field "label" (str label) (field "contribution" (float w) (evidence_field v))))
unfolding lookup
payload_tail-IsProper key label w none_value h = ground arith
payload_tail-IsProper key label w (dict fs) h = (tt, refl, (tt, refl, (tt, refl, (h, refl, tt))))
payload_tail-IsProper key label w v h = (tt, refl, (tt, refl, (tt, refl, (h, refl, tt))))

payload-IsProper : (f : ScoreFactor) → HasProperEvidence f → IsProper (to_payload f)
unfolding to_payload
payload-IsProper f h = payload_tail-IsProper f.key f.label f.contribution f.evidence h

-- Shut, so that the lists are read off it.
Evidenced : List ScoreFactor → Type 0
Evidenced fs = All HasProperEvidence fs

Evidenced-append : (xs ys : List ScoreFactor) → Evidenced xs → Evidenced ys → Evidenced (xs ++ ys)
unfolding Evidenced
Evidenced-append xs ys = All-append HasProperEvidence xs ys

payloads-AllProper :
    (fs : List ScoreFactor) → Evidenced fs → AllProper (from_list (map to_payload fs))
unfolding Evidenced
payloads-AllProper [] h = tt
payloads-AllProper (f ∷ fs) (p, h) = (payload-IsProper f p, payloads-AllProper fs h)

module _ (P : Python) (row : Row) where
  cvss_evidence : HasProperEvidence (cvss_or_severity_factor P row)
  unfolding cvss_or_severity_factor
  cvss_evidence = elim (Option-cases (numeric_or_none P (row "cvss_score"))) [
    | inl e ↦ rw (e, cvss_or_severity_factor) tt
    | inr (n, e) ↦ rw (e, cvss_or_severity_factor) tt
  ]

  flag_evidence : (key label : String) (w : ℤ) (b : Bool) → Evidenced (flag_factor P key label w b)
  unfolding Evidenced flag_factor
  flag_evidence key label w true = (tt, tt)
  flag_evidence key label w false = tt

  signal_evidence :
      (key label : String) (s : Option (String × ℤ)) → Evidenced (signal_factor P key label s)
  unfolding Evidenced signal_factor
  signal_evidence key label none = tt
  signal_evidence key label (some (n, w)) = (tt, tt)

  exploit_evidence : (tags : List String) (m : Fields) → Evidenced (exploit_factor P row tags m)
  unfolding exploit_factor Evidenced
  exploit_evidence tags m = elim (Bool-cases (known_exploited P row tags m)) [
    | inl e ↦ rw (e, exploit_factor) (tt, tt)
    | inr e ↦ elim (Bool-cases (normalize_key P (row "exploit_status") == "proof_of_concept")) [
      | inl k ↦ rw (e, k, exploit_factor) (tt, tt)
      | inr k ↦ rw (e, k, exploit_factor) tt
    ]
  ]

  confidence_evidence : Evidenced (confidence_factor P row ∷ [])
  unfolding Evidenced confidence_factor
  confidence_evidence = (tt, tt)

  tail_evidence :
      (fs : List ScoreFactor) → Evidenced fs → Evidenced (cvss_or_severity_factor P row ∷ fs)
  unfolding Evidenced
  tail_evidence fs h = (cvss_evidence, h)

  factors_evidence : Evidenced (factors P row)
  unfolding factors
  factors_evidence = tail_evidence _ (
      Evidenced-append _ _ (exploit_evidence _ _) (
        Evidenced-append _ _ (flag_evidence _ _ _ _) (
          Evidenced-append _ _ (signal_evidence _ _ _) (
            Evidenced-append _ _ (signal_evidence _ _ _) (
              Evidenced-append _ _ (signal_evidence _ _ _)
                (Evidenced-append _ _ (flag_evidence _ _ _ _) confidence_evidence))))))

  signal_name-IsProper :
      (s : Option (String × ℤ)) (v : Value) → IsProper v → IsProper (signal_name P s v)
  signal_name-IsProper none v h = h
  signal_name-IsProper (some (n, w)) v h = tt

  signals-IsDict : (fs : List ScoreFactor) → IsDict (signals P row fs)
  unfolding signals lookup
  signals-IsDict fs = (
    tt,
    refl,
    (
      tt,
      refl,
      (
        tt,
        refl,
        (
          signal_name-IsProper _ (str "unknown") tt,
          refl,
          (signal_name-IsProper _ none_value tt, refl, (tt, refl, (tt, refl, tt))),
        ),
      ),
    ),
  )

  pub explanation-IsDict : IsDict (score_threat_intelligence P row).explanation
  unfolding score_threat_intelligence lookup
  explanation-IsDict = (
    tt,
    refl,
    (
      tt,
      refl,
      (
        tt,
        refl,
        (
          tt,
          refl,
          (
            payloads-AllProper (factors P row) factors_evidence,
            refl,
            (signals-IsDict (factors P row), refl, tt),
          ),
        ),
      ),
    ),
  )
