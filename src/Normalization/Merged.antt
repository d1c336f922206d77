-- ===== src/Normalization/Merged.antt =====
-- What a merge leaves in each column of the stored row.
use Prim.Native.Nat.{max, min}
use mathlib.Core.Path.{subst, fun_ext}
use sentinel_drive.Prelude.{
  ℕ, String, ◌≡◌, refl, ◌∙◌, ap, Bool, true, false, ◌&&◌, not, List, [], ◌∷◌, ◌++◌, contains, ◌==◌,
  string_Eq, eq_iff, if◌then◌else◌, arith, All, Bool-cases, inl, inr, ltb,
}
use sentinel_drive.Value.{Value, str, time}
use sentinel_drive.Value.Row.{Row, with_columns, with_columns-append, with_columns-Lacks}
use sentinel_drive.Normalization.Record.{NormalizedRecord, normalized_common_values}
use sentinel_drive.Normalization.Merge.{
  is_empty, merge_normalized, merged_values, conservative_values, conservative_fields,
  stronger_values, when, empty_row, severity_rank, exploit_rank, confidence_rank, stronger_severity,
  stronger_exploit_status, stronger_confidence, min_datetime, max_datetime, title_is_free,
}
use sentinel_drive.Normalization.Columns.{
  with_when, with_columns-when, last_when, column-conservative,
}

abbrev pub merged : Row → NormalizedRecord → ℕ → Row
merged existing incoming now = with_columns existing (merge_normalized existing incoming now)

abbrev pub incoming_row : NormalizedRecord → Row
incoming_row incoming = with_columns empty_row (normalized_common_values incoming)

module _ (existing : Row) (incoming : NormalizedRecord) (now : ℕ) where
  abbrev taken : String → Bool
  taken k =
      contains conservative_fields k
      && (is_empty (existing k) && not (is_empty (incoming_row incoming k)))

  abbrev always_written : Row
  always_written = with_columns existing (merged_values existing incoming now)

  merged-column :
      (k : String)
      → merged existing incoming now k
        ≡ with_columns
            (with_columns always_written
              (conservative_values existing (incoming_row incoming) conservative_fields))
            (stronger_values existing incoming)
            k
  unfolding merge_normalized
  merged-column k =
      let filled = conservative_values existing (incoming_row incoming) conservative_fields in
      ap (λ r. r k)
        (with_columns-append existing (merged_values existing incoming now)
            (filled ++ stronger_values existing incoming)
          ∙ with_columns-append always_written filled (stronger_values existing incoming))

  -- The stored value of a column before the stronger columns are written.
  filled-column :
      (k : String)
      → with_columns always_written
          (conservative_values existing (incoming_row incoming) conservative_fields)
          k
        ≡ (if taken k then incoming_row incoming k else always_written k)
  filled-column k =
      column-conservative always_written existing (incoming_row incoming) conservative_fields k

  -- The column after the stronger values, from what it was before.
  abbrev strengthened : Row → Row
  strengthened r =
      let severity = stronger_severity incoming.severity (existing "severity") in
      let exploit = stronger_exploit_status incoming.exploit_status (existing "exploit_status") in
      let confidence = stronger_confidence incoming.confidence (existing "confidence") in
      let title = title_is_free existing && not (incoming.title == "") in
      with_when
        (with_when
          (with_when (with_when r severity "severity" (str incoming.severity)) exploit
            "exploit_status" (str incoming.exploit_status))
          confidence "confidence" (str incoming.confidence))
        title "title" (str incoming.title)

  stronger-column :
      (r : Row) (k : String)
      → with_columns r (stronger_values existing incoming) k ≡ strengthened r k
  unfolding stronger_values
  stronger-column r k =
      let severity = stronger_severity incoming.severity (existing "severity") in
      let exploit = stronger_exploit_status incoming.exploit_status (existing "exploit_status") in
      let confidence = stronger_confidence incoming.confidence (existing "confidence") in
      let title = title_is_free existing && not (incoming.title == "") in
      let r₁ = with_when r severity "severity" (str incoming.severity) in
      let r₂ = with_when r₁ exploit "exploit_status" (str incoming.exploit_status) in
      let r₃ = with_when r₂ confidence "confidence" (str incoming.confidence) in
      let more₃ = when title "title" (str incoming.title) in
      let more₂ = when confidence "confidence" (str incoming.confidence) ++ more₃ in
      let more₁ = when exploit "exploit_status" (str incoming.exploit_status) ++ more₂ in
      ap (λ q. q k)
        (with_columns-when r severity "severity" (str incoming.severity) more₁
          ∙ (with_columns-when r₁ exploit "exploit_status" (str incoming.exploit_status) more₂
              ∙ (with_columns-when r₂ confidence "confidence" (str incoming.confidence) more₃
                  ∙ last_when r₃ title "title" (str incoming.title))))

  merged-strengthened :
      (k : String)
      → merged existing incoming now k
        ≡ strengthened (λ k. if taken k then incoming_row incoming k else always_written k) k
  merged-strengthened k =
      merged-column k ∙ (stronger-column _ k ∙ ap (λ r. strengthened r k) (fun_ext filled-column))

abbrev pub written_fields : List String
written_fields =
    "source_names" ∷ "source_urls" ∷ "external_ids" ∷ "tags" ∷ "first_seen_at" ∷ "last_seen_at"
    ∷ "metadata" ∷ "updated_at" ∷ "severity" ∷ "exploit_status" ∷ "confidence" ∷ "title" ∷ []

of_contains :
    (Q : String → Type 0) (ks : List String) (k : String) → All Q ks → contains ks k ≡ true → Q k
of_contains Q [] k h e = cc
of_contains Q (j ∷ ks) k (q, h) e = elim (Bool-cases (j == k)) [
  | inl p ↦ subst Q ((eq_iff j k).0 p) q
  | inr p ↦ of_contains Q ks k h (rw p at e)
]

All-other : (ks : List String) (k : String) → contains ks k ≡ false → All (λ j. (j == k) ≡ false) ks
All-other [] k e = tt
All-other (j ∷ ks) k e = elim (Bool-cases (j == k)) [
  | inl p ↦ cc
  | inr p ↦ (p, All-other ks k (rw p at e))
]

conservative_apart : All (λ k. contains written_fields k ≡ false) conservative_fields
conservative_apart = (
  refl,
  (
    refl,
    (refl, (refl, (refl, (refl, (refl, (refl, (refl, (refl, (refl, (refl, (refl, tt))))))))))),
  ),
)

always_written-apart :
    (existing : Row) (incoming : NormalizedRecord) (now : ℕ) (k : String)
    → All (λ j. (j == k) ≡ false) written_fields
    → always_written existing incoming now k ≡ existing k
unfolding merged_values
always_written-apart existing incoming now k (a, (b, (c, (d, (e, (f, (g, (h, rest)))))))) =
    with_columns-Lacks k existing (merged_values existing incoming now)
      (a, (b, (c, (d, (e, (f, (g, (h, tt))))))))

strengthened-apart :
    (existing : Row) (incoming : NormalizedRecord) (now : ℕ) (r : Row) (k : String)
    → All (λ j. (j == k) ≡ false) written_fields
    → strengthened existing incoming now r k ≡ r k
strengthened-apart existing incoming now r k
      (a, (b, (c, (d, (e, (f, (g, (h, (i, (j, (l, (m, _)))))))))))) =
    rw (m, l, j, i) refl

-- A merge fills a conservative field exactly where the stored row has nothing and the record has
-- something, and keeps it otherwise.
pub merged-conservative :
    (existing : Row) (incoming : NormalizedRecord) (now : ℕ) (k : String)
    → contains conservative_fields k ≡ true
    → merged existing incoming now k ≡ (
        if is_empty (existing k) && not (is_empty (incoming_row incoming k))
        then incoming_row incoming k
        else existing k)
merged-conservative existing incoming now k h =
    let apart = All-other written_fields k (
      of_contains (λ k. contains written_fields k ≡ false) conservative_fields k conservative_apart
        h) in
    merged-strengthened existing incoming now k
    ∙ (strengthened-apart existing incoming now
          (λ k.
            if contains conservative_fields k
              && (is_empty (existing k) && not (is_empty (incoming_row incoming k)))
            then incoming_row incoming k
            else always_written existing incoming now k)
          k apart
        ∙ rw (h, always_written-apart existing incoming now k apart) refl)

rank_of_stronger :
    (f : Value → ℕ) (v w : Value) → f (if ltb (f v) (f w) then w else v) ≡ max (f v) (f w)
rank_of_stronger f v w = elim (Bool-cases (ltb (f v) (f w))) [
  | inl p ↦ rw p (ground arith)
  | inr p ↦ rw p (ground arith)
]

-- Severity, exploit status and confidence end at the stronger of the stored and the incoming level.
pub merged-strongest :
    (existing : Row) (incoming : NormalizedRecord) (now : ℕ)
    → let row = merged existing incoming now in
      (severity_rank (row "severity")
        ≡ max (severity_rank (existing "severity")) (severity_rank (str incoming.severity)))
      × (exploit_rank (row "exploit_status")
          ≡ max
              (exploit_rank (existing "exploit_status"))
              (exploit_rank (str incoming.exploit_status)))
      × (confidence_rank (row "confidence")
          ≡ max
              (confidence_rank (existing "confidence"))
              (confidence_rank (str incoming.confidence)))
unfolding merged_values stronger_severity stronger_exploit_status stronger_confidence
merged-strongest existing incoming now = (
  ap severity_rank (merged-strengthened existing incoming now "severity")
      ∙ rank_of_stronger severity_rank (existing "severity") (str incoming.severity),
  ap exploit_rank (merged-strengthened existing incoming now "exploit_status")
      ∙ rank_of_stronger exploit_rank (existing "exploit_status") (str incoming.exploit_status),
  ap confidence_rank (merged-strengthened existing incoming now "confidence")
      ∙ rank_of_stronger confidence_rank (existing "confidence") (str incoming.confidence),
)

-- The first sighting is the earlier one, and the last sighting the later one.
pub merged-seen :
    (existing : Row) (incoming : NormalizedRecord) (now first last : ℕ)
    → existing "first_seen_at" ≡ time first
    → existing "last_seen_at" ≡ time last
    → let row = merged existing incoming now in
      (row "first_seen_at" ≡ time (min first incoming.first_seen_at))
      × (row "last_seen_at" ≡ time (max last incoming.last_seen_at))
unfolding merged_values min_datetime max_datetime
merged-seen existing incoming now first last hf hl = (
  merged-strengthened existing incoming now "first_seen_at" ∙ rw hf (ap time (ground arith)),
  merged-strengthened existing incoming now "last_seen_at" ∙ rw hl (ap time (ground arith)),
)
