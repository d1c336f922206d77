-- ===== src/Ingest/Service.antt =====
-- `ingest_external_intelligence`, backend/app/services/intelligence_ingest.py, with the constraints
-- that backend/app/models/intelligence.py puts on the tables: a raw row's hash and an entry's
-- deduplication key are unique. A flush that breaks one raises, and the session rolls back.
use sentinel_drive.Prelude.{
  ℕ, String, Bool, true, false, Option, none, some, List, [], ◌∷◌, ◌++◌, ◌==◌, string_Eq, option_Eq,
  if◌then◌else◌, any, map, ◌⊎◌, inl, inr,
}
use sentinel_drive.Text.{or_text, take_text}
use sentinel_drive.Value.{Python, Value, str, dict, from_items, Fields}
use sentinel_drive.Normalization.Dedup.{stable_hash}
use sentinel_drive.Prelude.{option_beq, insert_by, sort_by, find_first}
use sentinel_drive.Text.{text_runs}
use sentinel_drive.Value.{value_runs}
use sentinel_drive.Api.Safety.{
  is_sensitive_name, after_credential, assigns_credential, with_port, bracketed, search_from,
  looks_sensitive_value, safe_text, safe_query, safe_fragment, safe_netloc, rebuilt_url, safe_split,
  safe_url, safe_string, safe_metadata, safe_dict,
}
use sentinel_drive.Ingest.Derived.{
  severity_rank, unique_from, unique, merge_dict, set_items, present_items, canonical_split,
  canonical_defrag,
}
use sentinel_drive.Ingest.Store.{matches, seen_again, upsert_link}
use sentinel_drive.Api.Safety.{Web, Datetime, aware, naive}
use sentinel_drive.Ingest.Payload.{Payload}
use sentinel_drive.Ingest.Derived.{
  or_option, text_in, first, risk_level, cvss_score, intelligence_type_of, tags_of, metadata_of,
  external_ids_of, raw_or_none, source_name_of, canonical_url, normalized_payload, text_signature,
  dedup_key_of,
}
use sentinel_drive.Ingest.Store.{
  Entry, Incoming, find_existing, merged_entry, merge_existing, upsert_source_link,
}

-- `RawIntelligence`
pub record RawItem : Type 0 where
  pub id : String
  pub source_name : String
  pub source_type : String
  pub source_url : String
  pub external_id : Option String
  pub fetched_at : ℕ
  pub first_seen_at : ℕ
  pub title : String
  pub summary : String
  pub snippet : String
  pub raw_content : Value
  pub raw_hash : String
  pub content_hash : String
  pub parsing_status : String
  pub processing_status : String
  pub metadata : Fields
  pub retained_payload_mode : String

pub record Store : Type 0 where
  pub entries : List Entry
  pub raw : List RawItem

pub data Failure : Type 0 where
  bad_url raw_conflict entry_conflict type_error : Failure

-- `IngestOutcome`; its `result` is `created` or `updated` with `duplicate`.
pub record Outcome : Type 0 where
  pub entry : Entry
  pub raw_item : Option RawItem
  pub duplicate : Bool
  pub result : String

-- The time, and the identifiers that the database makes.
pub record Fresh : Type 0 where
  pub now : ℕ
  pub raw_id : String
  pub entry_id : String

abbrev pub time_or : Option Datetime → Datetime → Datetime
time_or none t = t
time_or (some s) t = s

-- The instant that is stored of a datetime.
abbrev pub stored_time : Web → Datetime → ℕ
stored_time W (aware t) = t
stored_time W (naive t) = W.instant_of_naive t

-- The entry is written back under its identifier.
unfoldable pub write_entry : Entry → List Entry → List Entry
write_entry e = map (λ old. if old.id == e.id then e else old)

-- The identifier that a link holds.
abbrev pub link_id : Payload → Option String
link_id p = or_option p.external_id p.dedup_key

module _ (P : Python) (W : Web) where
  unfoldable pub incoming_of : Payload → String → ℕ → Incoming
  incoming_of p source_url now =
      let source_name = source_name_of p in
      record {
        source_name = source_name;
        source_url = source_url;
        collected_at = time_or p.collected_at (aware now);
        content_hash =
            or_text (text_in p.content_hash)
              (stable_hash P (normalized_payload P W p source_name source_url));
        normalized_text_hash = stable_hash P (text_signature P W p source_name source_url);
      }

  unfoldable pub key_of : Payload → Incoming → String
  key_of p i = dedup_key_of P W p i.source_name i.source_url i.content_hash i.normalized_text_hash

  unfoldable pub raw_hash_of : Incoming → String
  raw_hash_of i = stable_hash P (
      dict (
        from_items (
          ("source_name", str i.source_name)
          ∷ ("source_url", str i.source_url)
          ∷ ("content_hash", str i.content_hash)
          ∷ [])))

  unfoldable pub raw_item_of : Payload → Incoming → Option String → String → RawItem
  raw_item_of p i actor raw_id = record {
    id = raw_id;
    source_name = i.source_name;
    source_type = "api";
    source_url = i.source_url;
    external_id = or_option p.external_id (or_option p.dedup_key p.cve_id);
    fetched_at = stored_time W i.collected_at;
    first_seen_at = stored_time W (time_or p.published_at i.collected_at);
    title = p.title;
    summary = p.summary;
    snippet = take_text 500 (or_text (text_in p.description) p.summary);
    raw_content = raw_or_none P W p.raw_payload;
    raw_hash = raw_hash_of i;
    content_hash = i.content_hash;
    parsing_status = "normalized";
    processing_status = "normalized";
    metadata = metadata_of P W p actor;
    retained_payload_mode = "metadata_only";
  }

  unfoldable pub entry_of : Payload → Incoming → Option String → String → String → Entry
  entry_of p i actor raw_id entry_id = record {
    id = entry_id;
    raw_intelligence_id = some raw_id;
    title = p.title;
    summary = some p.summary;
    intelligence_type = intelligence_type_of p;
    source_names = i.source_name ∷ [];
    source_urls = i.source_url ∷ [];
    canonical_source_url = some i.source_url;
    external_ids = external_ids_of P W p;
    cve_id = p.cve_id;
    cvss_score = cvss_score p;
    severity = p.severity;
    affected_vendor = p.affected_vendor;
    affected_product = first p.affected_products;
    exploit_status = "unknown";
    confidence = "medium";
    risk_score = p.external_score;
    risk_level = risk_level p.severity;
    tags = tags_of p;
    first_seen_at = stored_time W (time_or p.published_at i.collected_at);
    last_seen_at = some (stored_time W i.collected_at);
    dedup_key = key_of p i;
    normalized_text_hash = some i.normalized_text_hash;
    processing_status = "normalized";
    status = "active";
    metadata = metadata_of P W p actor;
    source_links = [];
  }

  -- The merged entry is linked and written.
  unfoldable pub updated : Store → Payload → Incoming → ℕ → Entry → Outcome × Store
  unfolding upsert_source_link
  updated store p i now merged =
      let entry = upsert_source_link merged none i.source_name i.source_url (link_id p) now in
      (
        record { entry = entry; raw_item = none; duplicate = true; result = "updated" },
        record store { entries = write_entry entry store.entries },
      )

  abbrev pub updated_or_error :
      Store → Payload → Incoming → ℕ → Option Entry → Failure ⊎ (Outcome × Store)
  updated_or_error store p i now none = inl type_error
  updated_or_error store p i now (some merged) = inr (updated store p i now merged)

  -- A merge that raises leaves the tables as they were: the session is not committed.
  unfoldable pub update_entry : Store → Entry → Payload → Incoming → ℕ → Failure ⊎ (Outcome × Store)
  unfolding updated merge_existing
  update_entry store existing p i now =
      updated_or_error store p i now (merge_existing P W existing p i)

  unfoldable pub created : Store → Payload → Incoming → Option String → Fresh → Outcome × Store
  created store p i actor fresh =
      let raw_item = raw_item_of p i actor fresh.raw_id in
      let entry =
        upsert_source_link (entry_of p i actor fresh.raw_id fresh.entry_id) (some fresh.raw_id)
          i.source_name i.source_url (link_id p) fresh.now in
      (
        record { entry = entry; raw_item = some raw_item; duplicate = false; result = "created" },
        record { entries = store.entries ++ (entry ∷ []); raw = store.raw ++ (raw_item ∷ []) },
      )

  -- The two flushes.
  unfoldable pub create_entry :
      Store → Payload → Incoming → Option String → Fresh → Failure ⊎ (Outcome × Store)
  unfolding created
  create_entry store p i actor fresh =
      if any (λ r. r.raw_hash == raw_hash_of i) store.raw
      then inl raw_conflict
      else if any (λ e. e.dedup_key == key_of p i) store.entries
      then inl entry_conflict
      else inr (created store p i actor fresh)

  unfoldable pub ingest_incoming :
      Store
      → Payload
      → Incoming
      → Option String
      → Fresh
      → Option Entry
      → Failure ⊎ (Outcome × Store)
  unfolding update_entry create_entry
  ingest_incoming store p i actor fresh (some existing) = update_entry store existing p i fresh.now
  ingest_incoming store p i actor fresh none = create_entry store p i actor fresh

  unfoldable pub ingest_with_url :
      Store → Payload → Option String → Fresh → Option (Option String) → Failure ⊎ (Outcome × Store)
  unfolding ingest_incoming incoming_of key_of
  ingest_with_url store p actor fresh none = inl bad_url
  ingest_with_url store p actor fresh (some url) =
      let source_url = text_in (or_option url (some p.source_url)) in
      let i = incoming_of p source_url fresh.now in
      ingest_incoming store p i actor fresh (find_existing p (key_of p i) source_url store.entries)

  unfoldable pub ingest_external_intelligence :
      Store → Payload → Option String → Fresh → Failure ⊎ (Outcome × Store)
  ingest_external_intelligence store p actor fresh =
      ingest_with_url store p actor fresh (canonical_url P W (some p.source_url))

-- Named on the `unfolding` line of a test that runs the ingest.
unfoldable pub ingest_runs : Unit {0}
unfolding text_runs value_runs option_beq option_Eq insert_by sort_by severity_rank risk_level
    unique_from unique merge_dict source_name_of intelligence_type_of cvss_score tags_of set_items
    present_items metadata_of external_ids_of canonical_split canonical_defrag canonical_url
    normalized_payload text_signature dedup_key_of matches find_existing merged_entry merge_existing
    seen_again upsert_link upsert_source_link write_entry incoming_of key_of raw_hash_of raw_item_of
    entry_of updated update_entry created create_entry ingest_incoming ingest_with_url
    ingest_external_intelligence find_first is_sensitive_name after_credential assigns_credential
    with_port bracketed search_from looks_sensitive_value safe_text safe_query safe_fragment
    safe_netloc rebuilt_url safe_split safe_url safe_string safe_metadata safe_dict stable_hash
ingest_runs = tt
