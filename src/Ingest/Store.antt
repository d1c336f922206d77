-- ===== src/Ingest/Store.antt =====
-- The rows that the ingest reads and writes, and its steps on them: the search for an existing
-- entry, the merge, and the link to the source; backend/app/services/intelligence_ingest.py. The
-- links of an entry stand in the entry.
use Prim.Native.Nat.{max}
use sentinel_drive.Prelude.{
  ℕ, String, Bool, true, false, ◌&&◌, ◌||◌, not, Option, none, some, List, [], ◌∷◌, ◌++◌, ◌==◌,
  string_Eq, option_Eq, if◌then◌else◌, ℤ, ltb, any, find_first,
}
use sentinel_drive.Value.{Python, str, Fields, put}
use sentinel_drive.Alerts.Entry.{RiskLevel}
use sentinel_drive.Api.Safety.{Web, Datetime, aware, naive}
use sentinel_drive.Ingest.Payload.{Payload, Severity}
use sentinel_drive.Ingest.Derived.{
  or_option, is_set, text_in, severity_rank, risk_level, unique, merge_dict, tags_of, metadata_of,
  external_ids_of,
}

-- `ThreatIntelligenceSource`
pub record Link : Type 0 where
  pub source_name : String
  pub source_url : String
  pub external_id : Option String
  pub raw_intelligence_id : Option String
  pub first_seen_at : ℕ
  pub last_seen_at : ℕ

-- `ThreatIntelligence`, the columns that the ingest writes from a payload or merges.
pub record Entry : Type 0 where
  pub id : String
  pub raw_intelligence_id : Option String
  pub title : String
  pub summary : Option String
  pub intelligence_type : String
  pub source_names : List String
  pub source_urls : List String
  pub canonical_source_url : Option String
  pub external_ids : Fields
  pub cve_id : Option String
  pub cvss_score : Option ℤ
  pub severity : Severity
  pub affected_vendor : Option String
  pub affected_product : Option String
  pub exploit_status : String
  pub confidence : String
  pub risk_score : Option ℤ
  pub risk_level : RiskLevel
  pub tags : List String
  pub first_seen_at : ℕ
  pub last_seen_at : Option ℕ
  pub dedup_key : String
  pub normalized_text_hash : Option String
  pub processing_status : String
  pub status : String
  pub metadata : Fields
  pub source_links : List Link

-- What the payload gives for one ingest.
pub record Incoming : Type 0 where
  pub source_name : String
  pub source_url : String
  pub collected_at : Datetime
  pub content_hash : String
  pub normalized_text_hash : String

abbrev pub link_is : String → String → Link → Bool
link_is external_id source_url link =
    link.external_id == some external_id && link.source_url == source_url

-- The conditions that are joined by OR.
unfoldable pub matches : Payload → String → String → Entry → Bool
matches p key source_url e =
    e.dedup_key == key
    || (is_set p.dedup_key && e.dedup_key == text_in p.dedup_key)
    || (is_set p.external_id && any (link_is (text_in p.external_id) source_url) e.source_links)

abbrev pub or_found : Option Entry → Option Entry → Option Entry
or_found none o = o
or_found (some e) o = some e

unfoldable pub find_existing : Payload → String → String → List Entry → Option Entry
unfolding matches
find_existing p key source_url entries =
    or_found (if is_set p.cve_id then find_first (λ e. e.cve_id == p.cve_id) entries else none)
      (find_first (matches p key source_url) entries)

-- `max(_datetime_or_min(value), collected_at)`; no datetime is before `datetime.min`, which is 0.
abbrev pub datetime_or_min : Option ℕ → ℕ
datetime_or_min none = 0
datetime_or_min (some t) = t

-- `if not column and value: column = value`
abbrev pub filled : Option String → Option String → Option String
filled column value = if not (is_set column) && is_set value then value else column

abbrev pub score_filled : Option ℤ → Option ℤ → Option ℤ
score_filled none o = o
score_filled (some n) o = some n

abbrev pub merged_severity : Severity → Severity → Severity
merged_severity incoming stored =
    if ltb (severity_rank stored) (severity_rank incoming) then incoming else stored

abbrev pub is_unknown : Severity → Bool
is_unknown Severity.unknown = true
is_unknown _ = false

abbrev pub merged_level : Severity → RiskLevel → RiskLevel
merged_level incoming RiskLevel.info =
    if is_unknown incoming then RiskLevel.info else risk_level incoming
merged_level incoming level = level

-- The first product, where there is one.
abbrev pub product_filled : Option String → List String → Option String
product_filled column [] = column
product_filled column (x ∷ xs) = if is_set column then column else some x

module _ (P : Python) (W : Web) where
  -- The entry after the merge with a payload of a time.
  unfoldable pub merged_entry : Entry → Payload → Incoming → ℕ → Entry
  merged_entry e p i collected_at = record e {
    source_names = unique (e.source_names ++ (i.source_name ∷ []));
    source_urls = unique (e.source_urls ++ (i.source_url ∷ []));
    external_ids = merge_dict e.external_ids (external_ids_of P W p);
    tags = unique (e.tags ++ tags_of p);
    last_seen_at = some (max (datetime_or_min e.last_seen_at) collected_at);
    metadata =
        put (merge_dict e.metadata (metadata_of P W p none)) "last_ingest_content_hash"
          (str i.content_hash);
    summary = filled e.summary (some p.summary);
    canonical_source_url =
        if is_set e.canonical_source_url then e.canonical_source_url else some i.source_url;
    affected_vendor = filled e.affected_vendor p.affected_vendor;
    affected_product = product_filled e.affected_product p.affected_products;
    normalized_text_hash =
        if is_set e.normalized_text_hash
        then e.normalized_text_hash
        else some i.normalized_text_hash;
    severity = merged_severity p.severity e.severity;
    risk_score = score_filled e.risk_score p.external_score;
    risk_level = merged_level p.severity e.risk_level;
  }

  -- `max` of the stored time, which has an offset, and one without raises a TypeError.
  abbrev pub on_aware : (ℕ → Entry) → Datetime → Option Entry
  on_aware f (aware t) = some (f t)
  on_aware f (naive t) = none

  -- `_merge_existing`; `none` is the TypeError.
  unfoldable pub merge_existing : Entry → Payload → Incoming → Option Entry
  unfolding merged_entry
  merge_existing e p i = on_aware (merged_entry e p i) i.collected_at

abbrev pub raw_or_kept : Option String → Option String → Option String
raw_or_kept none kept = kept
raw_or_kept (some r) kept = some r

-- A link that is seen again.
unfoldable pub seen_again : Option String → String → Option String → ℕ → Link → Link
seen_again raw_id source_name external_id now link = record link {
  source_name = source_name;
  external_id = or_option external_id link.external_id;
  raw_intelligence_id = raw_or_kept raw_id link.raw_intelligence_id;
  last_seen_at = now;
}

abbrev pub new_link : Option String → String → String → Option String → ℕ → Link
new_link raw_id source_name source_url external_id now = record {
  source_name = source_name;
  source_url = source_url;
  external_id = external_id;
  raw_intelligence_id = raw_id;
  first_seen_at = now;
  last_seen_at = now;
}

-- The first link with the URL is seen again, and there is a new one if there is none.
unfoldable pub upsert_link :
    Option String → String → String → Option String → ℕ → List Link → List Link
unfolding seen_again
upsert_link raw_id source_name source_url external_id now [] =
    new_link raw_id source_name source_url external_id now ∷ []
upsert_link raw_id source_name source_url external_id now (link ∷ links) =
    let rest = upsert_link raw_id source_name source_url external_id now links in
    if link.source_url == source_url
    then seen_again raw_id source_name external_id now link ∷ links
    else link ∷ rest

unfoldable pub upsert_source_link :
    Entry → Option String → String → String → Option String → ℕ → Entry
unfolding upsert_link
upsert_source_link e raw_id source_name source_url external_id now = record e {
  source_links = upsert_link raw_id source_name source_url external_id now e.source_links;
}
