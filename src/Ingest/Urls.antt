-- ===== src/Ingest/Urls.antt =====
-- Which URL the ingest stores.
use sentinel_drive.Prelude.{
  String, ◌≡◌, ◌∙◌, sym, ap, true, false, Option, none, some, ◌==◌, string_Eq, ◌||◌, [], ◌∷◌, ◌⊎◌,
  inl, inr, Bool-cases, any,
}
use sentinel_drive.Text.{strip}
use sentinel_drive.Value.{Python}
use sentinel_drive.Api.Safety.{Web, SplitResult, looks_sensitive_value, safe_text}
use sentinel_drive.Ingest.Payload.{Payload}
use sentinel_drive.Ingest.Derived.{canonical_url, canonical_defrag, canonical_split}
use sentinel_drive.Ingest.Store.{
  Incoming, Entry, find_existing, merged_entry, merge_existing, upsert_source_link,
}
use sentinel_drive.Ingest.Findable.{update-inv}
use sentinel_drive.Ingest.Service.{
  Store, Outcome, Fresh, Failure, created, create_entry, entry_of, updated, update_entry,
  ingest_incoming, incoming_of, ingest_with_url, ingest_external_intelligence, key_of, raw_hash_of,
}

inr-outcome :
    (r : Outcome × Store) (o : Outcome) (store : Store)
    → ◌≡◌ {A = Failure ⊎ (Outcome × Store)} (inr r) (inr (o, store))
    → r.0 ≡ o
inr-outcome (q, s) o store h = cc

module _ (P : Python) (W : Web) (p : Payload) (actor : Option String) (fresh : Fresh) where
  -- A new entry has the URL of the ingest alone.
  create-url :
      (store store' : Store) (i : Incoming) (o : Outcome)
      → create_entry P W store p i actor fresh ≡ inr (o, store')
      → o.entry.source_urls ≡ i.source_url ∷ []
  unfolding create_entry created entry_of upsert_source_link
  create-url store store' i o h =
      elim (Bool-cases (any (λ r. r.raw_hash == raw_hash_of P W i) store.raw)) [
        | inl a ↦ cc (rw a at h)
        | inr a ↦ elim (Bool-cases (any (λ e. e.dedup_key == key_of P W p i) store.entries)) [
          | inl b ↦ cc (rw (a, b) at h)
          | inr b ↦ sym (
              ap (λ (q : Outcome). q.entry.source_urls)
                (inr-outcome (created P W store p i actor fresh) o store' (rw (a, b) at h)))
        ]
      ]

  update-duplicate :
      (store store' : Store) (i : Incoming) (o : Outcome) (m : Entry)
      → updated P W store p i fresh.now m ≡ (o, store')
      → o.duplicate ≡ true
  unfolding updated
  update-duplicate store store' i o m h = sym (ap (λ (r : Outcome × Store). r.0.duplicate) h)

  incoming-url :
      (store store' : Store) (i : Incoming) (o : Outcome) (found : Option Entry)
      → ingest_incoming P W store p i actor fresh found ≡ inr (o, store')
      → o.duplicate ≡ false
      → o.entry.source_urls ≡ i.source_url ∷ []
  unfolding ingest_incoming update_entry merge_existing
  incoming-url store store' i o none h d = create-url store store' i o h
  incoming-url store store' i o (some e) h d =
      let (t, q) =
        update-inv P W store p i fresh.now (merged_entry P W e p i) i.collected_at (o, store') h in
      cc (update-duplicate store store' i o (merged_entry P W e p i t) q, d)

  with_url-url :
      (store store' : Store) (o : Outcome)
      → ingest_with_url P W store p actor fresh (some none) ≡ inr (o, store')
      → o.duplicate ≡ false
      → o.entry.source_urls ≡ p.source_url ∷ []
  unfolding ingest_with_url incoming_of key_of
  with_url-url store store' o h d =
      incoming-url store store' (incoming_of P W p p.source_url fresh.now) o
        (find_existing p (key_of P W p (incoming_of P W p p.source_url fresh.now)) p.source_url
          store.entries)
        h d

  sensitive_url-dropped :
      (url : String) (parsed : SplitResult)
      → (strip p.source_url == "") ≡ false
      → W.defrag (strip p.source_url) ≡ some url
      → W.urlsplit url ≡ some parsed
      → (parsed.scheme == "http" || parsed.scheme == "https") ≡ false
      → looks_sensitive_value W (strip p.source_url) ≡ true
      → canonical_url P W (some p.source_url) ≡ some none
  unfolding canonical_url canonical_defrag canonical_split safe_text
  sensitive_url-dropped url parsed a b c d e =
      rw (a, b) (rw (canonical_defrag, c) (rw (canonical_split, d) (rw (safe_text, e))))

  -- Where the URL of a payload is neither http nor https and assigns a credential, the redaction of
  -- it gives nothing, and a new entry gets the URL as it came.
  pub sensitive_url-stored :
      (url : String) (parsed : SplitResult) (store store' : Store) (o : Outcome)
      → (strip p.source_url == "") ≡ false
      → W.defrag (strip p.source_url) ≡ some url
      → W.urlsplit url ≡ some parsed
      → (parsed.scheme == "http" || parsed.scheme == "https") ≡ false
      → looks_sensitive_value W (strip p.source_url) ≡ true
      → ingest_external_intelligence P W store p actor fresh ≡ inr (o, store')
      → o.duplicate ≡ false
      → (canonical_url P W (some p.source_url) ≡ some none)
        × (o.entry.source_urls ≡ p.source_url ∷ [])
  unfolding ingest_external_intelligence
  sensitive_url-stored url parsed store store' o a b c d e h k =
      let dropped = sensitive_url-dropped url parsed a b c d e in
      (
        dropped,
        with_url-url store store' o (ap (ingest_with_url P W store p actor fresh) (sym dropped) ∙ h)
            k,
      )
