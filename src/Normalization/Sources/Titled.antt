-- ===== src/Normalization/Sources/Titled.antt =====
-- What every built-in normaliser of worker/sentineldrive_worker/normalization/normalizers.py gives.
use Prim.Native.String.{[], ◌∷◌}
use mathlib.Core.List.{[], ◌∷◌}
use sentinel_drive.Prelude.{
  ℕ, zero, suc, String, Bool, true, false, some, ◌⊎◌, inl, inr, ◌==◌, ◌≡◌, ◌≤◌, refl, string_Eq,
  if◌then◌else◌, Bool-cases, arith,
}
use sentinel_drive.Text.{take_text, split, strip, join}
use sentinel_drive.Value.{
  Python, Value, none_value, bool, int, float, str, time, other, list, dict, text, or_else,
}
use sentinel_drive.Value.Row.{Row}
use sentinel_drive.Sanitize.{Error, size}
use sentinel_drive.Normalization.Keys.{UrlParse}
use sentinel_drive.Normalization.Numbers.{CharClasses}
use sentinel_drive.Normalization.Record.{NormalizedRecord}
use sentinel_drive.Normalization.Service.{Normalizer}
use sentinel_drive.Normalization.Sources.{Details, record_of, base_record}
use sentinel_drive.Normalization.Cleaning.{◌>>=◌}
use sentinel_drive.Normalization.Cleaning.{
  text_or_none_empty, clean_optional, title_or_error, clean_title, require_datetime,
}
use sentinel_drive.Normalization.Sources.Feeds.{
  nvd_normalizer, kev_normalizer, rss_normalizer, vendor_normalizer, fallback_normalizer,
}
use sentinel_drive.Normalization.Sources.Entries.{
  manual_normalizer, external_ingest_normalizer, recall_normalizer, already_normalized,
  with_ingest_fields,
}

-- A result is an error, or what it gives is as stated.
abbrev pub Given {ℓ κ} : {A : Type ℓ} → (A → Type κ) → A ⊎ Error → Type κ
Given Holds (inl a) = Holds a
Given Holds (inr e) = Unit

Given-bind :
    {A B : Type 0} (Holds : A → Type 0) (Then : B → Type 0) (m : A ⊎ Error) (f : A → B ⊎ Error)
    → Given Holds m
    → ((a : A) → Holds a → Given Then (f a))
    → Given Then (m >>= f)
Given-bind Holds Then (inl a) f h k = k a h
Given-bind Holds Then (inr e) f h k = tt

Given-unless :
    {A : Type 0} (Holds : A → Type 0) (b : Bool) (e : Error) (m : A ⊎ Error)
    → Given Holds m
    → Given Holds (if b then inr e else m)
Given-unless Holds true e m h = tt
Given-unless Holds false e m h = h

Given-then :
    {A B : Type 0} (Then : B → Type 0) (m : A ⊎ Error) (f : A → B ⊎ Error)
    → ((a : A) → Given Then (f a))
    → Given Then (m >>= f)
Given-then Then (inl a) f k = k a
Given-then Then (inr e) f k = tt

-- A title of between one and 500 characters.
abbrev pub IsTitle : String → Type 0
IsTitle s = (1 ≤ size s) × (size s ≤ 500)

-- The record has such a title, is ready for scoring, and stands for the row: it has the row's
-- identifier, and its one source is the one that it attributes the row to.
abbrev pub IsRecordOf : Row → NormalizedRecord → Type 0
IsRecordOf raw r =
    IsTitle r.title
    × (r.processing_status ≡ "normalized")
    × (r.raw_intelligence_id ≡ raw "id")
    × ((a : _) × (r.attribution ≡ some a)
        × (a.raw_intelligence_id ≡ raw "id")
        × (r.source_names ≡ a.source_name ∷ [])
        × (r.source_urls ≡ a.source_url ∷ [])
        × (a.last_seen_at ≡ r.last_seen_at))

size-take_text : (n : ℕ) (s : String) → size (take_text n s) ≤ n
unfolding size take_text
size-take_text zero s = omega arith
size-take_text (suc n) [] = omega arith
size-take_text (suc n) (c ∷ s) = omega (arith, size-take_text n s)

take_text-nonempty : (n : ℕ) (s : String) → (s == "") ≡ false → 1 ≤ size (take_text (suc n) s)
unfolding take_text size
take_text-nonempty n [] h = cc
take_text-nonempty n (c ∷ s) h = omega arith

module _ (P : Python) where
  title_or_error-IsTitle : (s : String) → Given IsTitle (title_or_error P (text_or_none_empty s))
  title_or_error-IsTitle s = elim (Bool-cases (s == "")) [
    | inl e ↦ rw e tt
    | inr e ↦ rw e (take_text-nonempty 499 s e, size-take_text 500 s)
  ]

  clean_optional-IsTitle : (v : Value) → Given IsTitle (title_or_error P (clean_optional P v))
  unfolding clean_optional
  clean_optional-IsTitle none_value = tt
  clean_optional-IsTitle (bool b) =
      title_or_error-IsTitle (join " " (split (strip (text P (bool b)))))
  clean_optional-IsTitle (int n) =
      title_or_error-IsTitle (join " " (split (strip (text P (int n)))))
  clean_optional-IsTitle (float n) =
      title_or_error-IsTitle (join " " (split (strip (text P (float n)))))
  clean_optional-IsTitle (str t) =
      title_or_error-IsTitle (join " " (split (strip (text P (str t)))))
  clean_optional-IsTitle (time t) =
      title_or_error-IsTitle (join " " (split (strip (text P (time t)))))
  clean_optional-IsTitle (other t) =
      title_or_error-IsTitle (join " " (split (strip (text P (other t)))))
  clean_optional-IsTitle (list vs) =
      title_or_error-IsTitle (join " " (split (strip (text P (list vs)))))
  clean_optional-IsTitle (dict fs) =
      title_or_error-IsTitle (join " " (split (strip (text P (dict fs)))))

  clean_title-IsTitle : (v : Value) (raw : Row) → Given IsTitle (clean_title P v raw)
  unfolding clean_title
  clean_title-IsTitle v raw =
      clean_optional-IsTitle (or_else v (or_else (raw "source_url") (raw "external_id")))

  module _ (U : UrlParse) where
    base_record-IsRecordOf :
        (name : String) (raw : Row) (d : Details)
        → Given (IsRecordOf raw) (base_record P U name raw d)
    unfolding base_record record_of
    base_record-IsRecordOf name raw d =
        Given-bind IsTitle (IsRecordOf raw) (clean_title P (str d.title) raw) _
          (clean_title-IsTitle (str d.title) raw)
          (λ title t.
            Given-then (IsRecordOf raw)
              (require_datetime (or_else (raw "first_seen_at") (raw "fetched_at")) "first_seen_at")
              _
              (λ first.
                Given-then (IsRecordOf raw)
                  (require_datetime (or_else (raw "fetched_at") (time first)) "fetched_at") _
                  (λ last. (t, refl, refl, (_, refl, refl, refl, refl, refl)))))

    -- Fields that are set afterwards, which are none of those that say whose record it is.
    set-IsRecordOf :
        (raw : Row) (m : NormalizedRecord ⊎ Error) (f : NormalizedRecord → NormalizedRecord)
        → Given (IsRecordOf raw) m
        → ((r : NormalizedRecord) → IsRecordOf raw r → IsRecordOf raw (f r))
        → Given (IsRecordOf raw) (m >>= λ r. inl (f r))
    set-IsRecordOf raw m f h k = Given-bind (IsRecordOf raw) (IsRecordOf raw) m _ h k

    module _ (K : CharClasses) where
      -- A normaliser that gives errors and such records.
      abbrev pub IsSound : Normalizer → Type 0
      IsSound f = (raw : Row) → Given (IsRecordOf raw) (f raw)

      pub nvd-IsSound : IsSound (nvd_normalizer P U K)
      unfolding nvd_normalizer
      nvd-IsSound raw = search (Given-then, base_record-IsRecordOf)

      pub kev-IsSound : IsSound (kev_normalizer P U K)
      unfolding kev_normalizer
      kev-IsSound raw = search (Given-then, base_record-IsRecordOf)

      pub rss-IsSound : IsSound (rss_normalizer P U K)
      unfolding rss_normalizer
      rss-IsSound raw = search (Given-then, base_record-IsRecordOf)

      pub vendor-IsSound : IsSound (vendor_normalizer P U K)
      unfolding vendor_normalizer
      vendor-IsSound raw = search (Given-then, base_record-IsRecordOf)

      pub fallback-IsSound : IsSound (fallback_normalizer P U K)
      unfolding fallback_normalizer
      fallback-IsSound raw = search (Given-then, base_record-IsRecordOf)

      pub manual-IsSound : IsSound (manual_normalizer P U K)
      unfolding manual_normalizer
      manual-IsSound raw =
          Given-unless (IsRecordOf raw) (already_normalized "manual" raw) _ _
            (search (Given-then, set-IsRecordOf, base_record-IsRecordOf))

      pub external-IsSound : IsSound (external_ingest_normalizer P U K)
      unfolding external_ingest_normalizer with_ingest_fields
      external-IsSound raw =
          Given-unless (IsRecordOf raw) (already_normalized "external_ingest" raw) _ _
            (search (Given-then, set-IsRecordOf, base_record-IsRecordOf))

      pub recall-IsSound : IsSound (recall_normalizer P U K)
      unfolding recall_normalizer
      recall-IsSound raw = search (Given-then, set-IsRecordOf, base_record-IsRecordOf)
