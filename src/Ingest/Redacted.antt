-- ===== src/Ingest/Redacted.antt =====
-- What the ingest stores of a payload is redacted.
use sentinel_drive.Prelude.{
  ℕ, String, false, Option, none, some, List, [], ◌∷◌, ◌==◌, ◌≡◌, refl, string_Eq, option_Eq, any,
  ◌⊎◌, inl, inr, Bool-cases, All, All-append, All-found,
}
use mathlib.Core.Path.{subst}
use sentinel_drive.Text.{text_runs}
use sentinel_drive.Value.{Python, Value, dict, Fields, end, field, put, str, lookup}
use sentinel_drive.Api.Safety.{
  Web, Datetime, aware, naive, is_sensitive_name, safe_dict, fields_or_empty, safe_metadata,
}
use sentinel_drive.Api.Safety.Keys.{
  IsRedacted, FieldsRedacted, put-FieldsRedacted, safe_metadata-IsRedacted,
}
use sentinel_drive.Ingest.Payload.{Payload}
use sentinel_drive.Ingest.Derived.{
  or_option, is_set, is_free, text_in, merge_dict, metadata_of, external_ids_of, raw_or_none,
  canonical_url,
}
use sentinel_drive.Ingest.Store.{
  Entry, Incoming, matches, find_existing, merged_entry, merge_existing, on_aware,
  upsert_source_link,
}
use sentinel_drive.Ingest.Service.{
  Store, RawItem, Outcome, Fresh, Failure, write_entry, incoming_of, key_of, updated,
  updated_or_error, update_entry, created, create_entry, entry_of, raw_item_of, raw_hash_of,
  ingest_incoming, ingest_with_url, ingest_external_intelligence,
}
use sentinel_drive.Ingest.Findable.{or_found-inv}

fields_or_empty-Redacted : (v : Value) → IsRedacted v → FieldsRedacted (fields_or_empty v)
fields_or_empty-Redacted (dict fs) h = h
fields_or_empty-Redacted _ h = tt

safe_dict-Redacted : (W : Web) (P : Python) (fs : Fields) → FieldsRedacted (safe_dict W P fs)
unfolding safe_dict
safe_dict-Redacted W P fs =
    fields_or_empty-Redacted (safe_metadata W P (dict fs)) (safe_metadata-IsRedacted W P (dict fs))

merge_dict-Redacted :
    (merged incoming : Fields)
    → FieldsRedacted merged
    → FieldsRedacted incoming
    → FieldsRedacted (merge_dict merged incoming)
unfolding merge_dict
merge_dict-Redacted merged end h k = h
merge_dict-Redacted merged (field key v incoming) h (e, (r, k)) =
    elim (Bool-cases (is_free (lookup key merged))) [
      | inl f ↦ rw f (
          merge_dict-Redacted (put merged key v) incoming (put-FieldsRedacted merged key v e r h) k)
      | inr f ↦ rw f (merge_dict-Redacted merged incoming h k)
    ]

-- The dicts of an entry, and those of a raw row with its content.
abbrev pub EntryRedacted : Entry → Type 0
EntryRedacted e = FieldsRedacted e.metadata × FieldsRedacted e.external_ids

abbrev pub RawRedacted : RawItem → Type 0
RawRedacted r = FieldsRedacted r.metadata × IsRedacted r.raw_content

abbrev pub StoreRedacted : Store → Type 0
StoreRedacted store = All EntryRedacted store.entries × All RawRedacted store.raw

hash_key_is_plain : is_sensitive_name "last_ingest_content_hash" ≡ false
unfolding is_sensitive_name text_runs
hash_key_is_plain = refl

All-write_entry :
    (m : Entry) (es : List Entry)
    → EntryRedacted m
    → All EntryRedacted es
    → All EntryRedacted (write_entry m es)
unfolding write_entry
All-write_entry m [] h k = tt
All-write_entry m (x ∷ es) h (p, k) = elim (Bool-cases (x.id == m.id)) [
  | inl e ↦ rw e (h, All-write_entry m es h k)
  | inr e ↦ rw e (p, All-write_entry m es h k)
]

module _ (P : Python) (W : Web) (p : Payload) where
  metadata_of-Redacted : (actor : Option String) → FieldsRedacted (metadata_of P W p actor)
  unfolding metadata_of
  metadata_of-Redacted actor = safe_dict-Redacted W P _

  external_ids_of-Redacted : FieldsRedacted (external_ids_of P W p)
  unfolding external_ids_of
  external_ids_of-Redacted = safe_dict-Redacted W P _

  raw_or_none-Redacted : (o : Option Fields) → IsRedacted (raw_or_none P W o)
  raw_or_none-Redacted none = tt
  raw_or_none-Redacted (some end) = tt
  raw_or_none-Redacted (some (field k v fs)) = safe_metadata-IsRedacted W P (dict (field k v fs))

  merge-Redacted :
      (e : Entry) (i : Incoming) (t : ℕ)
      → EntryRedacted e
      → EntryRedacted (merged_entry P W e p i t)
  unfolding merged_entry
  merge-Redacted e i t (m, x) = (
    put-FieldsRedacted (merge_dict e.metadata (metadata_of P W p none)) "last_ingest_content_hash"
        (str i.content_hash) hash_key_is_plain tt
        (merge_dict-Redacted e.metadata (metadata_of P W p none) m (metadata_of-Redacted none)),
    merge_dict-Redacted e.external_ids (external_ids_of P W p) x external_ids_of-Redacted,
  )

  update-Redacted :
      (store : Store) (i : Incoming) (now t : ℕ) (e : Entry)
      → find_existing p (key_of P W p i) i.source_url store.entries ≡ some e
      → StoreRedacted store
      → StoreRedacted (updated P W store p i now (merged_entry P W e p i t)).1
  unfolding find_existing updated upsert_source_link
  update-Redacted store i now t e f (es, rs) =
      let fits = matches p (key_of P W p i) i.source_url in
      let r : EntryRedacted e =
        elim (or_found-inv (is_set p.cve_id) (λ x. x.cve_id == p.cve_id) fits store.entries e f) [
          | inl (_, q) ↦ All-found EntryRedacted (λ x. x.cve_id == p.cve_id) store.entries e es q
          | inr q ↦ All-found EntryRedacted fits store.entries e es q
        ] in
      (All-write_entry _ store.entries (merge-Redacted e i t r) es, rs)

  created-Redacted :
      (store : Store) (i : Incoming) (actor : Option String) (fresh : Fresh)
      → StoreRedacted store
      → StoreRedacted (created P W store p i actor fresh).1
  unfolding created entry_of raw_item_of upsert_source_link
  created-Redacted store i actor fresh (es, rs) = (
    All-append EntryRedacted store.entries _ es
        ((metadata_of-Redacted actor, external_ids_of-Redacted), tt),
    All-append RawRedacted store.raw _ rs
        ((metadata_of-Redacted actor, raw_or_none-Redacted p.raw_payload), tt),
  )

  abbrev ResultRedacted : Failure ⊎ (Outcome × Store) → Type 0
  ResultRedacted (inl f) = Unit
  ResultRedacted (inr (o, store)) = StoreRedacted store

  create_entry-Redacted :
      (store : Store) (i : Incoming) (actor : Option String) (fresh : Fresh)
      → StoreRedacted store
      → ResultRedacted (create_entry P W store p i actor fresh)
  unfolding create_entry
  create_entry-Redacted store i actor fresh h =
      elim (Bool-cases (any (λ r. r.raw_hash == raw_hash_of P W i) store.raw)) [
        | inl a ↦ rw a tt
        | inr a ↦ elim (Bool-cases (any (λ e. e.dedup_key == key_of P W p i) store.entries)) [
          | inl b ↦ rw (a, b) tt
          | inr b ↦ rw (a, b) (created-Redacted store i actor fresh h)
        ]
      ]

  updated_or_error-Redacted :
      (store : Store) (i : Incoming) (now : ℕ) (e : Entry) (d : Datetime)
      → find_existing p (key_of P W p i) i.source_url store.entries ≡ some e
      → StoreRedacted store
      → ResultRedacted
          (updated_or_error P W store p i now (on_aware P W (merged_entry P W e p i) d))
  updated_or_error-Redacted store i now e (aware t) f h = update-Redacted store i now t e f h
  updated_or_error-Redacted store i now e (naive t) f h = tt

  incoming-Redacted :
      (store : Store) (i : Incoming) (actor : Option String) (fresh : Fresh) (found : Option Entry)
      → find_existing p (key_of P W p i) i.source_url store.entries ≡ found
      → StoreRedacted store
      → ResultRedacted (ingest_incoming P W store p i actor fresh found)
  unfolding ingest_incoming update_entry merge_existing
  incoming-Redacted store i actor fresh none f h = create_entry-Redacted store i actor fresh h
  incoming-Redacted store i actor fresh (some e) f h =
      updated_or_error-Redacted store i fresh.now e i.collected_at f h

  with_url-Redacted :
      (store : Store) (actor : Option String) (fresh : Fresh) (url : Option (Option String))
      → StoreRedacted store
      → ResultRedacted (ingest_with_url P W store p actor fresh url)
  unfolding ingest_with_url incoming_of key_of
  with_url-Redacted store actor fresh none h = tt
  with_url-Redacted store actor fresh (some url) h =
      let su = text_in (or_option url (some p.source_url)) in
      let i = incoming_of P W p su fresh.now in
      incoming-Redacted store i actor fresh (find_existing p (key_of P W p i) su store.entries) refl
        h

-- Where no metadata, no external identifiers and no raw content in the tables has a key with a
-- sensitive name at any depth, nor a list of more than fifty items, then none has after an ingest
-- that succeeds, whatever the payload holds.
pub ingest-Redacted :
    (P : Python) (W : Web) (p : Payload) (store store' : Store) (o : Outcome)
    (actor : Option String) (fresh : Fresh)
    → StoreRedacted store
    → ingest_external_intelligence P W store p actor fresh ≡ inr (o, store')
    → StoreRedacted store'
unfolding ingest_external_intelligence
ingest-Redacted P W p store store' o actor fresh h e =
    subst (ResultRedacted P W p) e
      (with_url-Redacted P W p store actor fresh (canonical_url P W (some p.source_url)) h)
