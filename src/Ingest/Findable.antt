-- ===== src/Ingest/Findable.antt =====
-- What an ingest leaves is found again, backend/app/services/intelligence_ingest.py.
use sentinel_drive.Prelude.{
  ℕ, String, Bool, true, false, ◌&&◌, ◌||◌, Option, none, some, List, [], ◌∷◌, ◌++◌, ◌==◌, ◌≡◌,
  refl, ◌∙◌, sym, ap, string_Eq, option_Eq, option_beq, if◌then◌else◌, any, ◌⊎◌, inl, inr,
  Bool-cases, Option-cases, beq_refl, arith, or-true_right, any-append, find_first,
  find_first_of_any, find_first-fits, any-map_over,
}
use mathlib.Core.Path.{subst}
use sentinel_drive.Value.{Python}
use sentinel_drive.Api.Safety.{Web, Datetime, aware, naive}
use sentinel_drive.Ingest.Payload.{Payload}
use sentinel_drive.Ingest.Derived.{or_option, is_set, text_in}
use sentinel_drive.Ingest.Store.{
  Link, Entry, Incoming, link_is, matches, or_found, find_existing, merged_entry, merge_existing,
  on_aware, seen_again, upsert_link, upsert_source_link,
}
use sentinel_drive.Ingest.Service.{
  Store, Outcome, Fresh, Failure, write_entry, key_of, updated, updated_or_error, update_entry,
  created, create_entry, entry_of, raw_hash_of, ingest_incoming, link_id,
}

upsert_link-found :
    (raw : Option String) (name url x : String) (now : ℕ) (links : List Link)
    → (x == "") ≡ false
    → any (link_is x url) (upsert_link raw name url (some x) now links) ≡ true
unfolding upsert_link seen_again option_beq option_Eq
upsert_link-found raw name url x now [] h = rw (beq_refl url) (rw (beq_refl x))
upsert_link-found raw name url x now (l ∷ links) h = elim (Bool-cases (l.source_url == url)) [
  | inl e ↦ rw (e, h) (rw (beq_refl x, e))
  | inr e ↦
      rw e (rw (upsert_link-found raw name url x now links h) (or-true_right (link_is x url l)))
]

or_option_of_set :
    (o d : Option String)
    → is_set o ≡ true
    → (or_option o d ≡ some (text_in o)) × ((text_in o == "") ≡ false)
or_option_of_set none d h = cc
or_option_of_set (some s) d h = ground arith

-- An entry of this kind is there.
abbrev pub Findable : Payload → String → String → List Entry → Type 0
Findable p key url entries =
    ((is_set p.cve_id && any (λ e. e.cve_id == p.cve_id) entries)
      || any (matches p key url) entries)
    ≡ true

or_found-some : (o : Option Entry) (e : Entry) → (x : Entry) × (or_found o (some e) ≡ some x)
or_found-some none e = (e, refl)
or_found-some (some x) e = (x, refl)

pub or_found_of_any :
    (b : Bool) (f g : Entry → Bool) (es : List Entry)
    → ((b && any f es) || any g es) ≡ true
    → (e : Entry) × (or_found (if b then find_first f es else none) (find_first g es) ≡ some e)
or_found_of_any false f g es h = find_first_of_any g es h
or_found_of_any true f g es h = elim (Bool-cases (any f es)) [
  | inl a ↦ let (e, q) = find_first_of_any f es a in (e, rw q)
  | inr a ↦
      let (e, q) = find_first_of_any g es (rw a at h) in rw q (or_found-some (find_first f es) e)
]

-- An entry was found by its CVE number or by the other conditions.
pub or_found-inv :
    (b : Bool) (f g : Entry → Bool) (es : List Entry) (e : Entry)
    → or_found (if b then find_first f es else none) (find_first g es) ≡ some e
    → ((b ≡ true) × (find_first f es ≡ some e)) ⊎ (find_first g es ≡ some e)
or_found-inv false f g es e h = inr h
or_found-inv true f g es e h = elim (Option-cases (find_first f es)) [
  | inl q ↦ inr (rw q at h)
  | inr (x, q) ↦ inl (refl, q ∙ rw q at h)
]

module _ (P : Python) (W : Web) (p : Payload) (i : Incoming) (key : String) (now t : ℕ) where
  -- The entry found, merged with a time and linked.
  abbrev pub refreshed : Entry → Entry
  refreshed e =
      upsert_source_link (merged_entry P W e p i t) none i.source_name i.source_url (link_id p) now

  refreshed-linked :
      (e : Entry)
      → is_set p.external_id ≡ true
      → any (link_is (text_in p.external_id) i.source_url) (refreshed e).source_links ≡ true
  unfolding upsert_source_link merged_entry
  refreshed-linked e c =
      let (q, set) = or_option_of_set p.external_id p.dedup_key c in
      subst
        (λ o.
          any (link_is (text_in p.external_id) i.source_url)
            (upsert_link none i.source_name i.source_url o now e.source_links)
          ≡ true)
        (sym q)
        (upsert_link-found none i.source_name i.source_url (text_in p.external_id) now
          e.source_links set)

  refreshed-matches :
      (e : Entry)
      → matches p key i.source_url e ≡ true
      → matches p key i.source_url (refreshed e) ≡ true
  unfolding matches merged_entry upsert_source_link
  refreshed-matches e h = elim (Bool-cases (is_set p.external_id)) [
    | inl c ↦ rw (c, refreshed-linked e c) (or-true_right _)
    | inr c ↦ rw c (rw c at h)
  ]

  refreshed-id : (e : Entry) → (e.id == (refreshed e).id) ≡ true
  unfolding merged_entry upsert_source_link
  refreshed-id e = beq_refl e.id

  refreshed-cve :
      (e : Entry) → (e.cve_id == p.cve_id) ≡ true → ((refreshed e).cve_id == p.cve_id) ≡ true
  unfolding merged_entry upsert_source_link
  refreshed-cve e h = h

  pub Findable-after :
      (es : List Entry) (e : Entry)
      → find_existing p key i.source_url es ≡ some e
      → Findable p key i.source_url (write_entry (refreshed e) es)
  unfolding find_existing write_entry
  Findable-after es e h =
      let same = λ (x : Entry). x.id == (refreshed e).id in
      elim (or_found-inv (is_set p.cve_id) (λ x. x.cve_id == p.cve_id) (matches p key i.source_url)
        es e h) [
          | inl (c, q) ↦ rw (
            c,
            any-map_over (λ x. x.cve_id == p.cve_id) same es e (refreshed e) q (refreshed-id e)
                (refreshed-cve e (find_first-fits (λ x. x.cve_id == p.cve_id) es e q)),
          )
          | inr q ↦
              rw
                (any-map_over (matches p key i.source_url) same es e (refreshed e) q
                  (refreshed-id e)
                  (refreshed-matches e (find_first-fits (matches p key i.source_url) es e q)))
                (or-true_right (
                  is_set p.cve_id
                  && any (λ x. x.cve_id == p.cve_id) (write_entry (refreshed e) es)))
        ]

-- The store of a result.
pub inr-store :
    (r : Outcome × Store) (o : Outcome) (store : Store)
    → ◌≡◌ {A = Failure ⊎ (Outcome × Store)} (inr r) (inr (o, store))
    → r.1 ≡ store
inr-store (q, s) o store h = cc

-- An update that gives a result has merged with a time that has an offset.
pub update-inv :
    (P : Python) (W : Web) (store : Store) (p : Payload) (i : Incoming) (now : ℕ) (f : ℕ → Entry)
    (d : Datetime) (r : Outcome × Store)
    → updated_or_error P W store p i now (on_aware P W f d) ≡ inr r
    → (t : ℕ) × (updated P W store p i now (f t) ≡ r)
update-inv P W store p i now f (aware t) (o, s) h = (t, cc)
update-inv P W store p i now f (naive t) r h = cc

module _ (P : Python) (W : Web) (p : Payload) (i : Incoming) (actor : Option String)
    (fresh : Fresh) where
  abbrev pub IsThere : Store → Type 0
  IsThere store = Findable p (key_of P W p i) i.source_url store.entries

  abbrev pub new_entry : Entry
  new_entry =
      upsert_source_link (entry_of P W p i actor fresh.raw_id fresh.entry_id) (some fresh.raw_id)
        i.source_name i.source_url (link_id p) fresh.now

  new_entry-matches : matches p (key_of P W p i) i.source_url new_entry ≡ true
  unfolding entry_of matches upsert_source_link
  new_entry-matches = rw (beq_refl (key_of P W p i))

  any_last :
      (fits : Entry → Bool) (es : List Entry) (e : Entry)
      → fits e ≡ true
      → any fits (es ++ e ∷ []) ≡ true
  any_last fits es e h = rw (any-append fits es (e ∷ []), h) (or-true_right (any fits es))

  created-Findable : (store : Store) → IsThere (created P W store p i actor fresh).1
  unfolding created
  created-Findable store =
      rw
        (any_last (matches p (key_of P W p i) i.source_url) store.entries new_entry
          new_entry-matches)
        (or-true_right _)

  create_entry-Findable :
      (store store' : Store) (o : Outcome)
      → create_entry P W store p i actor fresh ≡ inr (o, store')
      → IsThere store'
  unfolding create_entry
  create_entry-Findable store store' o h =
      elim (Bool-cases (any (λ r. r.raw_hash == raw_hash_of P W i) store.raw)) [
        | inl a ↦ cc (rw a at h)
        | inr a ↦ elim (Bool-cases (any (λ e. e.dedup_key == key_of P W p i) store.entries)) [
          | inl b ↦ cc (rw (a, b) at h)
          | inr b ↦
              subst IsThere
                (inr-store (created P W store p i actor fresh) o store' (rw (a, b) at h))
                (created-Findable store)
        ]
      ]

  updated-Findable :
      (store store' : Store) (o : Outcome) (e : Entry) (t : ℕ)
      → find_existing p (key_of P W p i) i.source_url store.entries ≡ some e
      → updated P W store p i fresh.now (merged_entry P W e p i t) ≡ (o, store')
      → IsThere store'
  unfolding updated
  updated-Findable store store' o e t f h =
      subst IsThere (ap (λ r. r.1) h)
        (Findable-after P W p i (key_of P W p i) fresh.now t store.entries e f)

  pub ingested-Findable :
      (store store' : Store) (o : Outcome) (found : Option Entry)
      → find_existing p (key_of P W p i) i.source_url store.entries ≡ found
      → ingest_incoming P W store p i actor fresh found ≡ inr (o, store')
      → IsThere store'
  unfolding ingest_incoming update_entry merge_existing
  ingested-Findable store store' o none f h = create_entry-Findable store store' o h
  ingested-Findable store store' o (some e) f h =
      let (t, q) =
        update-inv P W store p i fresh.now (merged_entry P W e p i) i.collected_at (o, store') h in
      updated-Findable store store' o e t f q
