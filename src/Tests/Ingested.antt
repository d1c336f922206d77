-- ===== src/Tests/Ingested.antt =====
-- The ingest, and the normalisers.
use Prim.Native.Nat.{max}
use sentinel_drive.Prelude.{
  ◌≡◌, refl, ℕ, Bool, true, false, none, some, [], ◌∷◌, ◌⊎◌, inl, inr, string_Eq, leb, ◌&&◌,
}
use sentinel_drive.Value.{str, time, other}
use sentinel_drive.Value.Row.{Row}
use sentinel_drive.Ingest.Payload.{Payload, Severity}
use sentinel_drive.Ingest.Service.{
  Store, Failure, Outcome, Fresh, ingest_external_intelligence, ingest_runs,
}
use sentinel_drive.Api.Safety.{aware}
use sentinel_drive.Sanitize.{size, after_word, fold_code, after_sign, after_value}
use sentinel_drive.Ingest.Derived.{canonical_url, severity_rank, tags_of, dedup_key_of}
use sentinel_drive.Ingest.Request.{normalize_cve_id, is_cve, is_year_and_number, digits_to_end}
use sentinel_drive.Ingest.Store.{Entry, Incoming, datetime_or_min, merge_existing}
use sentinel_drive.Ingest.Invariant.{Kept, ingest-Kept}
use sentinel_drive.Ingest.Redacted.{StoreRedacted, ingest-Redacted}
use sentinel_drive.Ingest.Merged.{IsUnion, merge_existing-joins}
use sentinel_drive.Ingest.Agreement.{dedup_key_of-external}
use sentinel_drive.Ingest.Urls.{sensitive_url-stored}
use sentinel_drive.Normalization.Keys.{UrlParse, external_ingest_dedup_key}
use sentinel_drive.Normalization.Numbers.{CharClasses}
use sentinel_drive.Normalization.Registry.{empty_registry, resolve}
use sentinel_drive.Normalization.Sources.Builtin.{register_builtin_normalizers}
use sentinel_drive.Normalization.Sources.Titled.{Given, IsRecordOf}
use sentinel_drive.Normalization.Sources.Chosen.{builtin-IsRecordOf}
use sentinel_drive.Ingest.Again.{IngestedTwice, ingest_again}
use sentinel_drive.Tests.Samples.{plain, row_of, web_of, payload_at}

abbrev empty_store : Store
empty_store = record { entries = []; raw = [] }

abbrev store_of : Failure ⊎ (Outcome × Store) → Store
store_of (inl f) = empty_store
store_of (inr (o, store)) = store

abbrev fresh_at : ℕ → Fresh
fresh_at n = record { now = n; raw_id = "r1"; entry_id = "e1" }

abbrev report : Payload
report = payload_at "https://example.com/a"

abbrev first_store : Store
first_store = store_of (
    ingest_external_intelligence plain (web_of "https") empty_store report (some "u1") (fresh_at 8))

abbrev is_ok : Failure ⊎ (Outcome × Store) → Bool
is_ok (inl f) = false
is_ok (inr r) = true

abbrev succeeds :
    (r : Failure ⊎ (Outcome × Store)) → is_ok r ≡ true → (o : Outcome) × (r ≡ inr (o, store_of r))
succeeds (inl f) h = cc
succeeds (inr (o, store)) h = (o, refl)

first_ingest_is_ok :
    is_ok (
      ingest_external_intelligence plain
        (web_of "https")
        empty_store
        report
        (some "u1")
        (fresh_at 8))
    ≡ true
unfolding ingest_runs
first_ingest_is_ok = refl

ingest_again_example :
    IngestedTwice false first_store
      (ingest_external_intelligence plain (web_of "https") first_store report none (fresh_at 9))
ingest_again_example =
    ingest_again plain (web_of "https") report empty_store first_store
      (succeeds _ first_ingest_is_ok).0 (some "u1") none (fresh_at 8) (fresh_at 9)
      (succeeds _ first_ingest_is_ok).1

ingest-Kept_example :
    Kept plain
      (web_of "https")
      report
      (ingest_external_intelligence plain (web_of "https") empty_store report none (fresh_at 8))
ingest-Kept_example =
    ingest-Kept plain (web_of "https") report empty_store none (fresh_at 8) refl (tt, tt)

ingest-Redacted_example : StoreRedacted first_store
ingest-Redacted_example =
    ingest-Redacted plain (web_of "https") report empty_store first_store
      (succeeds _ first_ingest_is_ok).0 (some "u1") (fresh_at 8) (tt, tt)
      (succeeds _ first_ingest_is_ok).1

-- The entry that was made, and the same report from elsewhere.
abbrev first_entry : Entry
first_entry = (succeeds _ first_ingest_is_ok).0.entry

abbrev elsewhere : Incoming
elsewhere = record {
  source_name = "Other";
  source_url = "https://example.org/b";
  collected_at = aware 12;
  content_hash = "c";
  normalized_text_hash = "t";
}

merge_existing-joins_example :
    (m : Entry) × (merge_existing plain (web_of "https") first_entry report elsewhere ≡ some m)
    × (severity_rank m.severity
        ≡ max (severity_rank first_entry.severity) (severity_rank Severity.high))
    × (m.last_seen_at ≡ some (max (datetime_or_min first_entry.last_seen_at) 12))
    × IsUnion first_entry.source_names ("Other" ∷ []) m.source_names
    × IsUnion first_entry.source_urls ("https://example.org/b" ∷ []) m.source_urls
    × IsUnion first_entry.tags (tags_of report) m.tags
merge_existing-joins_example =
    merge_existing-joins plain (web_of "https") first_entry report elsewhere 12 refl

number_is_valid :
    normalize_cve_id (web_of "https") (some "cve-2026-1234") ≡ some (some "CVE-2026-1234")
unfolding ingest_runs normalize_cve_id is_cve is_year_and_number digits_to_end size after_word
    fold_code
number_is_valid = refl

dedup_key_of-external_example :
    dedup_key_of plain (web_of "https") report "Feed" "https://example.com/a" "c" "t"
    ≡ external_ingest_dedup_key plain
        (some "CVE-2026-1234")
        none
        (some "X1")
        "Feed"
        (some "https://example.com/a")
        none
        (some "t")
dedup_key_of-external_example =
    dedup_key_of-external plain (web_of "https") report (some "cve-2026-1234") "Feed"
      "https://example.com/a" "c" "t" number_is_valid refl

-- A report from an FTP server, with a token in its URL.
abbrev leaking : Payload
leaking = payload_at "ftp://example.com/a?token=abc"

abbrev leaked : Failure ⊎ (Outcome × Store)
leaked = ingest_external_intelligence plain (web_of "ftp") empty_store leaking none (fresh_at 8)

leaking_is_ok : is_ok leaked ≡ true
unfolding ingest_runs
leaking_is_ok = refl

sensitive_url-stored_example :
    (canonical_url plain (web_of "ftp") (some "ftp://example.com/a?token=abc") ≡ some none)
    × ((succeeds leaked leaking_is_ok).0.entry.source_urls ≡ "ftp://example.com/a?token=abc" ∷ [])
unfolding ingest_runs after_word fold_code after_sign after_value
sensitive_url-stored_example =
    sensitive_url-stored plain (web_of "ftp") leaking none (fresh_at 8)
      "ftp://example.com/a?token=abc" _ empty_store (store_of leaked)
      (succeeds leaked leaking_is_ok).0 refl refl refl refl refl (succeeds leaked leaking_is_ok).1
      refl

-- A recall.
abbrev recall : Row
recall = row_of (
    ("id", other "n1")
    ∷ ("source_name", str "nhtsa-recalls")
    ∷ ("source_type", str "api")
    ∷ ("source_url", str "https://example.com/a")
    ∷ ("external_id", str "26V001")
    ∷ ("title", str "Rear camera software")
    ∷ ("fetched_at", time 9)
    ∷ [])

abbrev plain_urls : UrlParse
plain_urls = record {
  defrag = λ s. s;
  urlsplit = λ s. record { scheme = "https"; netloc = "example.com"; path = "/a"; query = "" };
  urlunsplit = λ u. "https://example.com/a";
}

abbrev ascii : CharClasses
ascii = record { is_word = λ n. leb 48 n; is_digit = λ n. leb 48 n && leb n 57 }

builtin-IsRecordOf_example :
    Given
      (λ f. Given (IsRecordOf recall) (f recall))
      (resolve plain (register_builtin_normalizers plain plain_urls ascii empty_registry) recall)
builtin-IsRecordOf_example = builtin-IsRecordOf plain plain_urls ascii recall
