-- ===== src/Collection/Contracts.antt =====
-- worker/sentineldrive_worker/connectors/contracts.py: what a source is and what a connector
-- gives. A duration is a number of microseconds; the validation of the two configuration classes
-- takes integers and raises.
use sentinel_drive.Prelude.{
  ℕ, suc, zero, String, ◌<>◌, Bool, true, false, not, Option, none, some, List, [], ◌∷◌, ◌⊎◌, inl,
  inr, if◌then◌else◌, ltb, ◌==◌, string_Eq, ℤ, pos, negsuc,
}
use sentinel_drive.Text.{strip}
use sentinel_drive.Value.{Value, str, time, dict, Fields, from_items, text_or_none}
use sentinel_drive.Sanitize.{Error}

pub data SourceType : Type 0 where
  api : SourceType
  rss : SourceType
  html : SourceType
  pdf : SourceType
  manual : SourceType
  vendor : SourceType

-- `enum_value`
abbrev pub type_value : SourceType → String
type_value api = "api"
type_value rss = "rss"
type_value html = "html"
type_value pdf = "pdf"
type_value manual = "manual"
type_value vendor = "vendor"

abbrev pub value_error : String → Error
value_error m = record { message = m; class_name = "ValueError" }

pub record RetryPolicy : Type 0 where
  pub attempts : ℕ
  pub backoff : ℕ
  pub max_backoff : ℕ

-- `RetryPolicy.__post_init__`
unfoldable pub make_retry_policy : ℤ → ℤ → ℤ → RetryPolicy ⊎ Error
make_retry_policy (negsuc _) b m = inr (value_error "retry attempts must be zero or greater")
make_retry_policy (pos a) (negsuc _) m = inr (value_error "retry backoff must be zero or greater")
make_retry_policy (pos a) (pos b) (negsuc _) =
    inr (value_error "max retry backoff must be greater than or equal to backoff")
make_retry_policy (pos a) (pos b) (pos m) =
    if ltb m b
    then inr (value_error "max retry backoff must be greater than or equal to backoff")
    else inl (record { attempts = a; backoff = b; max_backoff = m })

pub record SourceConfig : Type 0 where
  pub name : String
  pub source_type : SourceType
  pub enabled : Bool
  pub base_url : Option String
  pub sync_interval : ℤ
  pub timeout : ℤ
  pub rate_limit_per_minute : ℤ
  pub retry_policy : RetryPolicy
  pub cursor : Option String
  pub metadata : Fields

abbrev is_positive : ℤ → Bool
is_positive (pos zero) = false
is_positive (pos (suc n)) = true
is_positive (negsuc n) = false

-- `SourceConfig.__post_init__`: the error that it raises, if any.
unfoldable pub source_error : SourceConfig → Option Error
source_error s =
    if strip s.name == ""
    then some (value_error "source name is required")
    else if not (is_positive s.sync_interval)
    then some (value_error "sync interval must be greater than zero")
    else if not (is_positive s.timeout)
    then some (value_error "timeout must be greater than zero")
    else if not (is_positive s.rate_limit_per_minute)
    then some (value_error "rate limit must be greater than zero")
    else none

abbrev pub magnitude : ℤ → ℕ
magnitude (pos n) = n
magnitude (negsuc n) = suc n

pub record RawPayload : Type 0 where
  pub source_name : String
  pub source_type : SourceType
  pub source_url : String
  pub fetched_at : ℕ
  pub first_seen_at : ℕ
  pub raw_hash : String
  pub external_id : Option String
  pub title : Option String
  pub summary : Option String
  pub snippet : Option String
  pub raw_content : Value
  pub content_hash : Option String
  pub parsing_status : String
  pub processing_status : String
  pub error_message : Option String
  pub metadata : Fields
  pub retained_payload_mode : String

-- The arguments of `RawIntelligencePayload.from_source`.
pub record Collected : Type 0 where
  pub source_url : Option String
  pub external_id : Option String
  pub title : Option String
  pub summary : Option String
  pub snippet : Option String
  pub raw_content : Value
  pub fetched_at : Option ℕ
  pub first_seen_at : Option ℕ
  pub metadata : Fields
  pub retained_payload_mode : Option String
  pub parsing_status : String

unfoldable pub default_retention_mode : SourceType → String
default_retention_mode api = "raw_payload"
default_retention_mode rss = "raw_payload"
default_retention_mode _ = "metadata_only"

abbrev pub text_present : Option String → String → String
text_present none s = s
text_present (some t) s = if t == "" then s else t

abbrev pub or_time : Option ℕ → ℕ → ℕ
or_time none t = t
or_time (some t) _ = t

-- The hash of a dict (`stable_hash`: JSON and SHA-256) and the clock's time are arguments.
module _ (stable_hash : Fields → String) where
  unfoldable pub resolved_url : SourceConfig → Option String → String
  resolved_url source url =
      text_present url (text_present source.base_url ("sentineldrive://source/" <> source.name))

  unfoldable pub content_hash_of : SourceConfig → Collected → String
  content_hash_of source c = stable_hash (
      from_items (
        ("source_url", str (resolved_url source c.source_url))
        ∷ ("external_id", text_or_none c.external_id)
        ∷ ("title", text_or_none c.title)
        ∷ ("summary", text_or_none c.summary)
        ∷ ("snippet", text_or_none c.snippet)
        ∷ ("raw_content", c.raw_content)
        ∷ []))

  unfoldable pub raw_hash_of : SourceConfig → Collected → String
  raw_hash_of source c = stable_hash (
      from_items (
        ("source_name", str source.name)
        ∷ ("source_type", str (type_value source.source_type))
        ∷ ("source_url", str (resolved_url source c.source_url))
        ∷ ("external_id", text_or_none c.external_id)
        ∷ ("content_hash", str (content_hash_of source c))
        ∷ []))

  unfoldable pub from_source : ℕ → SourceConfig → Collected → RawPayload
  from_source now source c = record {
    source_name = source.name;
    source_type = source.source_type;
    source_url = resolved_url source c.source_url;
    fetched_at = or_time c.fetched_at now;
    first_seen_at = or_time c.first_seen_at (or_time c.fetched_at now);
    raw_hash = raw_hash_of source c;
    external_id = c.external_id;
    title = c.title;
    summary = c.summary;
    snippet = c.snippet;
    raw_content = c.raw_content;
    content_hash = some (content_hash_of source c);
    parsing_status = c.parsing_status;
    processing_status = "collected";
    error_message = none;
    metadata = c.metadata;
    retained_payload_mode =
        text_present c.retained_payload_mode (default_retention_mode source.source_type);
  }

-- `to_raw_record`
unfoldable pub to_raw_record : RawPayload → Fields
to_raw_record p = from_items (
    ("source_name", str p.source_name)
    ∷ ("source_type", str (type_value p.source_type))
    ∷ ("source_url", str p.source_url)
    ∷ ("external_id", text_or_none p.external_id)
    ∷ ("fetched_at", time p.fetched_at)
    ∷ ("first_seen_at", time p.first_seen_at)
    ∷ ("title", text_or_none p.title)
    ∷ ("summary", text_or_none p.summary)
    ∷ ("snippet", text_or_none p.snippet)
    ∷ ("raw_content", p.raw_content)
    ∷ ("raw_hash", str p.raw_hash)
    ∷ ("content_hash", text_or_none p.content_hash)
    ∷ ("parsing_status", str p.parsing_status)
    ∷ ("processing_status", str p.processing_status)
    ∷ ("error_message", text_or_none p.error_message)
    ∷ ("metadata", dict p.metadata)
    ∷ ("retained_payload_mode", str p.retained_payload_mode)
    ∷ [])

pub record ConnectorResult : Type 0 where
  pub items : List RawPayload
  pub next_cursor : Option String
  pub metadata : Fields
