-- ===== src/Ingest/Invariant.antt =====
-- The constraints that hold of the ingest's tables, and that no ingest breaks.
use sentinel_drive.Prelude.{
  ℕ, String, Bool, true, false, ◌||◌, Option, none, some, List, [], ◌∷◌, ◌==◌, ◌≡◌, ◌≢◌, refl, ◌∙◌,
  sym, ap, string_Eq, option_Eq, any, map, ◌⊎◌, inl, inr, Bool-cases, beq_refl, or-true_right,
  or-false, find_first, any_of_find_first, NoRepeats, NoRepeats-snoc, contains, All,
}
use mathlib.Core.Path.{subst}
use mathlib.Core.Option.{some-injective}
use mathlib.Core.List.{map-append}
use sentinel_drive.Value.{Python}
use sentinel_drive.Api.Safety.{Web, Datetime, aware, naive}
use sentinel_drive.Ingest.Payload.{Payload}
use sentinel_drive.Ingest.Derived.{or_option, is_set, text_in, canonical_url}
use sentinel_drive.Ingest.Store.{
  Entry, Incoming, matches, or_found, find_existing, merged_entry, merge_existing, on_aware,
  upsert_source_link,
}
use sentinel_drive.Ingest.Service.{
  Store, Outcome, Fresh, Failure, raw_conflict, entry_conflict, write_entry, incoming_of, key_of,
  updated, updated_or_error, update_entry, created, create_entry, entry_of, raw_hash_of,
  ingest_incoming, ingest_with_url, ingest_external_intelligence,
}
use sentinel_drive.Ingest.Again.{ids, ids-write_entry}
use sentinel_drive.Ingest.Findable.{or_found-inv, refreshed}

abbrev pub keys : List Entry → List String
keys = map (λ e. e.dedup_key)

contains-keys :
    (key : String) (es : List Entry) → contains (keys es) key ≡ any (λ e. e.dedup_key == key) es
contains-keys key [] = refl
contains-keys key (e ∷ es) = ap (λ b. e.dedup_key == key || b) (contains-keys key es)

any-narrow :
    (p q : Entry → Bool) (es : List Entry)
    → ((e : Entry) → q e ≡ false → p e ≡ false)
    → any q es ≡ false
    → any p es ≡ false
any-narrow p q [] h f = refl
any-narrow p q (e ∷ es) h f =
    let (here, there) = or-false (q e) (any q es) f in rw (h e here) (any-narrow p q es h there)

or_found-none : (o r : Option Entry) → or_found o r ≡ none → r ≡ none
or_found-none none r h = h
or_found-none (some e) r h = cc

-- An entry that is not found has no rows with its key.
unfound :
    (p : Payload) (key url : String) (es : List Entry)
    → find_existing p key url es ≡ none
    → any (λ e. e.dedup_key == key) es ≡ false
unfolding find_existing matches
unfound p key url es h =
    any-narrow (λ e. e.dedup_key == key) (matches p key url) es
      (λ e f. (or-false (e.dedup_key == key) _ (or-false _ _ f).0).0)
      (any_of_find_first (matches p key url) es (or_found-none _ _ h))

-- The entries under an identifier that stands once are the one found.
abbrev SameKey : Entry → List Entry → Type 0
SameKey e = All (λ x. (x.id == e.id) ≡ true → x.dedup_key ≡ e.dedup_key)

absent-SameKey : (e : Entry) (es : List Entry) → contains (ids es) e.id ≡ false → SameKey e es
absent-SameKey e [] h = tt
absent-SameKey e (x ∷ es) h =
    let (here, there) = or-false (x.id == e.id) (contains (ids es) e.id) h in
    (λ k. cc, absent-SameKey e es there)

found-there :
    (p : Entry → Bool) (es : List Entry) (e : Entry)
    → find_first p es ≡ some e
    → contains (ids es) e.id ≡ true
unfolding find_first
found-there p [] e h = cc
found-there p (x ∷ es) e h = elim (Bool-cases (p x)) [
  | inl f ↦
      subst (λ y. contains (ids (x ∷ es)) y.id ≡ true) (some-injective x e (rw f at h))
        (rw (beq_refl x.id))
  | inr f ↦ rw (found-there p es e (rw f at h)) (or-true_right (x.id == e.id))
]

found-SameKey :
    (p : Entry → Bool) (es : List Entry) (e : Entry)
    → NoRepeats (ids es)
    → find_first p es ≡ some e
    → SameKey e es
unfolding find_first
found-SameKey p [] e h f = tt
found-SameKey p (x ∷ es) e (h, hs) f = elim (Bool-cases (p x)) [
  | inl g ↦
      subst (λ y. SameKey y (x ∷ es)) (some-injective x e (rw g at f))
        (λ k. refl, absent-SameKey x es h)
  | inr g ↦ (
    λ k. cc (h, found-there p es e (rw g at f), (string_Eq.equal_iff x.id e.id).0 k),
    found-SameKey p es e hs (rw g at f),
  )
]

keys-write_entry :
    (m e : Entry) (es : List Entry)
    → m.id ≡ e.id
    → m.dedup_key ≡ e.dedup_key
    → SameKey e es
    → keys (write_entry m es) ≡ keys es
unfolding write_entry
keys-write_entry m e [] i k h = refl
keys-write_entry m e (x ∷ es) i k (h, hs) = elim (Bool-cases (x.id == m.id)) [
  | inl same ↦
      rw same (cc (k, h (subst (λ y. (x.id == y) ≡ true) i same), keys-write_entry m e es i k hs))
  | inr differs ↦ rw differs (ap (λ ks. x.dedup_key ∷ ks) (keys-write_entry m e es i k hs))
]

-- No two entries have one deduplication key, and none one identifier.
abbrev pub IsConsistent : Store → Type 0
IsConsistent store = NoRepeats (keys store.entries) × NoRepeats (ids store.entries)

module _ (P : Python) (W : Web) (p : Payload) where
  update-IsConsistent :
      (store : Store) (i : Incoming) (now t : ℕ) (e : Entry)
      → find_existing p (key_of P W p i) i.source_url store.entries ≡ some e
      → IsConsistent store
      → IsConsistent (updated P W store p i now (merged_entry P W e p i t)).1
  unfolding find_existing updated merged_entry upsert_source_link
  update-IsConsistent store i now t e f (ks, is) =
      let m = refreshed P W p i (key_of P W p i) now t e in
      let fits = matches p (key_of P W p i) i.source_url in
      let same : SameKey e store.entries =
        elim (or_found-inv (is_set p.cve_id) (λ x. x.cve_id == p.cve_id) fits store.entries e f) [
          | inl (_, q) ↦ found-SameKey (λ x. x.cve_id == p.cve_id) store.entries e is q
          | inr q ↦ found-SameKey fits store.entries e is q
        ] in
      (
        subst NoRepeats (sym (keys-write_entry m e store.entries refl refl same)) ks,
        subst NoRepeats (sym (ids-write_entry m store.entries)) is,
      )

  created-IsConsistent :
      (store : Store) (i : Incoming) (actor : Option String) (fresh : Fresh)
      → find_existing p (key_of P W p i) i.source_url store.entries ≡ none
      → contains (ids store.entries) fresh.entry_id ≡ false
      → IsConsistent store
      → IsConsistent (created P W store p i actor fresh).1
  unfolding created entry_of upsert_source_link
  created-IsConsistent store i actor fresh f new (ks, is) = (
    rw (map-append (λ (e : Entry). e.dedup_key) store.entries _) (
        NoRepeats-snoc (keys store.entries) (key_of P W p i) ks (
          contains-keys (key_of P W p i) store.entries
          ∙ unfound p (key_of P W p i) i.source_url store.entries f)),
    rw (map-append (λ (e : Entry). e.id) store.entries _)
        (NoRepeats-snoc (ids store.entries) fresh.entry_id is new),
  )

  -- Without an entry, the two flushes fail only on the hash of the raw row.
  create_entry-cases :
      (store : Store) (i : Incoming) (actor : Option String) (fresh : Fresh)
      → find_existing p (key_of P W p i) i.source_url store.entries ≡ none
      → (create_entry P W store p i actor fresh ≡ inl raw_conflict)
        ⊎ (create_entry P W store p i actor fresh ≡ inr (created P W store p i actor fresh))
  unfolding create_entry
  create_entry-cases store i actor fresh f =
      let free = unfound p (key_of P W p i) i.source_url store.entries f in
      elim (Bool-cases (any (λ r. r.raw_hash == raw_hash_of P W i) store.raw)) [
        | inl a ↦ inl (rw a)
        | inr a ↦ inr (rw (a, free))
      ]

  -- What an ingest may end in, from a consistent store.
  abbrev pub Kept : Failure ⊎ (Outcome × Store) → Type 0
  Kept (inl f) = f ≢ entry_conflict
  Kept (inr (o, store)) = IsConsistent store

  update-Kept :
      (store : Store) (i : Incoming) (now : ℕ) (e : Entry) (d : Datetime)
      → find_existing p (key_of P W p i) i.source_url store.entries ≡ some e
      → IsConsistent store
      → Kept (updated_or_error P W store p i now (on_aware P W (merged_entry P W e p i) d))
  update-Kept store i now e (aware t) f h = update-IsConsistent store i now t e f h
  update-Kept store i now e (naive t) f h = λ k. cc

  incoming-Kept :
      (store : Store) (i : Incoming) (actor : Option String) (fresh : Fresh) (found : Option Entry)
      → find_existing p (key_of P W p i) i.source_url store.entries ≡ found
      → contains (ids store.entries) fresh.entry_id ≡ false
      → IsConsistent store
      → Kept (ingest_incoming P W store p i actor fresh found)
  unfolding ingest_incoming update_entry merge_existing
  incoming-Kept store i actor fresh none f new h = elim (create_entry-cases store i actor fresh f) [
    | inl e ↦ subst Kept (sym e) (λ k. cc)
    | inr e ↦ subst Kept (sym e) (created-IsConsistent store i actor fresh f new h)
  ]
  incoming-Kept store i actor fresh (some e) f new h =
      update-Kept store i fresh.now e i.collected_at f h

  with_url-Kept :
      (store : Store) (actor : Option String) (fresh : Fresh) (url : Option (Option String))
      → contains (ids store.entries) fresh.entry_id ≡ false
      → IsConsistent store
      → Kept (ingest_with_url P W store p actor fresh url)
  unfolding ingest_with_url incoming_of key_of
  with_url-Kept store actor fresh none new h = λ k. cc
  with_url-Kept store actor fresh (some url) new h =
      let su = text_in (or_option url (some p.source_url)) in
      let i = incoming_of P W p su fresh.now in
      incoming-Kept store i actor fresh (find_existing p (key_of P W p i) su store.entries) refl new
        h

  -- From a store in which no two entries have one deduplication key or one identifier, an ingest
  -- with a new identifier ends in such a store, or fails for another reason than the constraint on
  -- the deduplication key.
  pub ingest-Kept :
      (store : Store) (actor : Option String) (fresh : Fresh)
      → contains (ids store.entries) fresh.entry_id ≡ false
      → IsConsistent store
      → Kept (ingest_external_intelligence P W store p actor fresh)
  unfolding ingest_external_intelligence
  ingest-Kept store actor fresh =
      with_url-Kept store actor fresh (canonical_url P W (some p.source_url))
