-- ===== src/Ingest/Again.antt =====
-- What is ingested a second time is found.
use sentinel_drive.Prelude.{
  ℕ, String, Bool, true, false, Option, none, some, List, [], ◌∷◌, ◌==◌, ◌≡◌, refl, sym, ap,
  string_Eq, option_Eq, map, ◌⊎◌, inl, inr, Bool-cases,
}
use mathlib.Core.Path.{subst}
use sentinel_drive.Value.{Python}
use sentinel_drive.Api.Safety.{Web, Datetime, aware, naive}
use sentinel_drive.Ingest.Payload.{Payload}
use sentinel_drive.Ingest.Derived.{or_option, is_set, text_in, canonical_url}
use sentinel_drive.Ingest.Store.{
  Entry, Incoming, matches, find_existing, merged_entry, on_aware, merge_existing,
}
use sentinel_drive.Ingest.Service.{
  Store, Outcome, Fresh, Failure, type_error, time_or, write_entry, incoming_of, key_of, updated,
  updated_or_error, update_entry, ingest_incoming, ingest_with_url, ingest_external_intelligence,
}
use sentinel_drive.Ingest.Findable.{Findable, ingested-Findable, or_found_of_any}

-- The entries in their order, by their identifiers.
abbrev pub ids : List Entry → List String
ids = map (λ e. e.id)

pub ids-write_entry : (e : Entry) (es : List Entry) → ids (write_entry e es) ≡ ids es
unfolding write_entry
ids-write_entry e [] = refl
ids-write_entry e (x ∷ es) = elim (Bool-cases (x.id == e.id)) [
  | inl same ↦ rw same (cc ((string_Eq.equal_iff x.id e.id).0 same, ids-write_entry e es))
  | inr differs ↦ rw differs (ap (λ xs. x.id ∷ xs) (ids-write_entry e es))
]

-- What an ingest reports that only updates: an entry that was there, whose row is the only one
-- written.
abbrev pub OnlyUpdates : Store → Failure ⊎ (Outcome × Store) → Type 0
OnlyUpdates store r =
    (o : Outcome) × (entries : List Entry) × (r ≡ inr (o, record store { entries = entries }))
    × (o.duplicate ≡ true)
    × (o.raw_item ≡ none)
    × (ids entries ≡ ids store.entries)

-- Whether the datetime has no offset.
abbrev pub is_naive : Datetime → Bool
is_naive (aware t) = false
is_naive (naive t) = true

-- Whether the payload has a time of collection without an offset.
abbrev pub has_naive : Option Datetime → Bool
has_naive none = false
has_naive (some d) = is_naive d

-- What a second ingest gives: where the time of collection has no offset a TypeError, and else an
-- update alone.
abbrev pub IngestedTwice : Bool → Store → Failure ⊎ (Outcome × Store) → Type 0
IngestedTwice true store r = r ≡ inl type_error
IngestedTwice false store r = OnlyUpdates store r

has_naive-time_or : (d : Option Datetime) (now : ℕ) → is_naive (time_or d (aware now)) ≡ has_naive d
has_naive-time_or none now = refl
has_naive-time_or (some d) now = refl

module _ (P : Python) (W : Web) (p : Payload) where
  updated-OnlyUpdates :
      (store : Store) (i : Incoming) (now : ℕ) (m : Entry)
      → OnlyUpdates store (inr (updated P W store p i now m))
  unfolding updated
  updated-OnlyUpdates store i now m =
      let o = (updated P W store p i now m) in
      (o.0, o.1.entries, refl, refl, refl, ids-write_entry o.0.entry store.entries)

  updated_or_error-IngestedTwice :
      (store : Store) (i : Incoming) (now : ℕ) (f : ℕ → Entry) (d : Datetime)
      → IngestedTwice (is_naive d) store (updated_or_error P W store p i now (on_aware P W f d))
  updated_or_error-IngestedTwice store i now f (aware t) = updated-OnlyUpdates store i now (f t)
  updated_or_error-IngestedTwice store i now f (naive t) = refl

  update-IngestedTwice :
      (store : Store) (i : Incoming) (actor : Option String) (fresh : Fresh) (e : Entry)
      → IngestedTwice
          (is_naive i.collected_at)
          store
          (ingest_incoming P W store p i actor fresh (some e))
  unfolding ingest_incoming update_entry merge_existing
  update-IngestedTwice store i actor fresh e =
      updated_or_error-IngestedTwice store i fresh.now (merged_entry P W e p i) i.collected_at

  found_again :
      (store : Store) (key url : String)
      → Findable p key url store.entries
      → (e : Entry) × (find_existing p key url store.entries ≡ some e)
  unfolding find_existing
  found_again store key url h =
      or_found_of_any (is_set p.cve_id) (λ e. e.cve_id == p.cve_id) (matches p key url)
        store.entries h

  -- Where an entry is there, the ingest only updates it, or raises.
  found-IngestedTwice :
      (store : Store) (i : Incoming) (actor : Option String) (fresh : Fresh)
      → Findable p (key_of P W p i) i.source_url store.entries
      → IngestedTwice (is_naive i.collected_at) store (
          ingest_incoming P W store p i actor fresh
            (find_existing p (key_of P W p i) i.source_url store.entries))
  found-IngestedTwice store i actor fresh h =
      let (e, q) = found_again store (key_of P W p i) i.source_url h in
      subst
        (λ o.
          IngestedTwice (is_naive i.collected_at) store
            (ingest_incoming P W store p i actor fresh o))
        (sym q) (update-IngestedTwice store i actor fresh e)

  again_at :
      (url : Option (Option String)) (store store' : Store) (o : Outcome)
      (actor actor' : Option String) (fresh fresh' : Fresh)
      → ingest_with_url P W store p actor fresh url ≡ inr (o, store')
      → IngestedTwice
          (has_naive p.collected_at)
          store'
          (ingest_with_url P W store' p actor' fresh' url)
  unfolding ingest_with_url incoming_of key_of
  again_at none store store' o actor actor' fresh fresh' h = cc
  again_at (some url) store store' o actor actor' fresh fresh' h =
      let su = text_in (or_option url (some p.source_url)) in
      let i = incoming_of P W p su fresh.now in
      subst (λ b. IngestedTwice b store' (ingest_with_url P W store' p actor' fresh' (some url)))
        (has_naive-time_or p.collected_at fresh'.now)
        (found-IngestedTwice store' (incoming_of P W p su fresh'.now) actor' fresh' (
          ingested-Findable P W p i actor fresh store store' o
            (find_existing p (key_of P W p i) su store.entries) refl h))

  -- What was ingested, created or merged, is found when the same payload is ingested again, by
  -- whomever and whenever. Where the payload has no time of collection, or one with an offset, the
  -- second ingest succeeds and reports a duplicate, adds neither an entry nor a raw row, and keeps
  -- the entries' identifiers in their order. Where its time of collection has no offset, the second
  -- ingest raises a TypeError.
  pub ingest_again :
      (store store' : Store) (o : Outcome) (actor actor' : Option String) (fresh fresh' : Fresh)
      → ingest_external_intelligence P W store p actor fresh ≡ inr (o, store')
      → IngestedTwice
          (has_naive p.collected_at)
          store'
          (ingest_external_intelligence P W store' p actor' fresh')
  unfolding ingest_external_intelligence
  ingest_again = again_at (canonical_url P W (some p.source_url))
