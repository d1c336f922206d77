-- ===== src/Normalization/Registry.antt =====
-- `NormalizerRegistry` of worker/sentineldrive_worker/normalization/registry.py. A factory and the
-- normaliser that it makes are of a type `N` of the caller.
use mathlib.Core.Path.{subst}
use sentinel_drive.Prelude.{
  eq_iff, String, ◌<>◌, ◌≡◌, refl, sym, ap, ◌∙◌, Bool, true, false, Option, none, some, List, [],
  ◌∷◌, ◌⊎◌, inl, inr, ◌==◌, string_Eq, beq_refl, Bool-cases, if◌then◌else◌,
}
use sentinel_drive.Text.{lower, strip}
use sentinel_drive.Value.{Python, Value, str, dict, get, or_else, text, text_or_empty}
use sentinel_drive.Value.Row.{Row}
use sentinel_drive.Sanitize.{Error}

unfoldable pub normalize_key : Python → Value → String
unfolding lower strip text_or_empty
normalize_key P v = lower (strip (text_or_empty P v))

other_key : (j key k : String) → (j == k) ≡ true → (j == key) ≡ false → (key == k) ≡ false
other_key j key k e n = elim (Bool-cases (key == k)) [
  | inl p ↦
      let same = (eq_iff j k).0 e ∙ sym ((eq_iff key k).0 p) in
      cc (beq_refl j, n, ap (λ x. j == x) same)
  | inr p ↦ p
]

module _ {ℓ} {N : Type ℓ} where
  -- A dict of factories, by key: `d.get(key)` and `d[key] = factory`.
  unfoldable pub find_factory : String → List (String × N) → Option N
  find_factory key [] = none
  find_factory key ((j, f) ∷ table) = if j == key then some f else find_factory key table

  unfoldable pub set_factory : String → N → List (String × N) → List (String × N)
  set_factory key f [] = (key, f) ∷ []
  set_factory key f ((j, g) ∷ table) =
      if j == key then (j, f) ∷ table else (j, g) ∷ set_factory key f table

  pub find-set :
      (key k : String) (f : N) (table : List (String × N))
      → find_factory k (set_factory key f table)
        ≡ (if key == k then some f else find_factory k table)
  unfolding find_factory set_factory
  find-set key k f [] = refl
  find-set key k f ((j, g) ∷ table) = elim (Bool-cases (j == key)) [
    | inl p ↦
        subst
          (λ key.
            find_factory k (if j == key then (j, f) ∷ table else (j, g) ∷ set_factory key f table)
            ≡ (if key == k then some f else if j == k then some g else find_factory k table))
          ((eq_iff j key).0 p)
          (rw (beq_refl j) (elim (Bool-cases (j == k)) [ inl q ↦ rw q refl | inr q ↦ rw q refl ]))
    | inr p ↦ rw p (elim (Bool-cases (j == k)) [
      | inl q ↦ rw (q, other_key j key k q p) refl
      | inr q ↦ rw q (find-set key k f table)
    ])
  ]

pub record Registry {ℓ} (N : Type ℓ) : Type ℓ where
  pub by_source_name : List (String × N)
  pub by_source_type : List (String × N)
  pub by_entry_origin : List (String × N)

abbrev pub empty_registry {ℓ} : {N : Type ℓ} → Registry N
empty_registry = record { by_source_name = []; by_source_type = []; by_entry_origin = [] }

module _ (P : Python) where
  -- The key of `metadata["entry_origin"]`, and "" where the metadata is no mapping.
  abbrev pub origin_key : Value → String
  origin_key (dict fs) = normalize_key P (get fs "entry_origin")
  origin_key _ = ""

  abbrev pub no_normalizer : Row → Error
  no_normalizer raw = record {
    message =
        "no normalizer registered for source "
        <> text P (or_else (raw "source_name") (raw "source_type"));
    class_name = "NormalizationError";
  }

module _ {ℓ} {N : Type ℓ} where
  -- The factory by name, else by origin, else by type, else the error.
  abbrev pub first_found : Option N → Option N → Option N → Error → N ⊎ Error
  first_found (some f) o p e = inl f
  first_found none (some f) p e = inl f
  first_found none none (some f) e = inl f
  first_found none none none e = inr e

  first_found-if :
      (b : Bool) (f : N) (o p q : Option N) (e : Error)
      → first_found (if b then some f else o) p q e ≡ (if b then inl f else first_found o p q e)
  first_found-if true f o p q e = refl
  first_found-if false f o p q e = refl

  last_found-if :
      (b : Bool) (f : N) (o p q : Option N) (e : Error)
      → o ≡ none
      → p ≡ none
      → first_found o p (if b then some f else q) e ≡ (if b then inl f else first_found o p q e)
  last_found-if b f (some g) p q e h₁ h₂ = cc
  last_found-if b f none (some g) q e h₁ h₂ = cc
  last_found-if true f none none q e h₁ h₂ = refl
  last_found-if false f none none q e h₁ h₂ = refl

module _ {ℓ} {N : Type ℓ} (P : Python) where
  unfoldable pub register_source_name : String → N → Registry N → Registry N
  register_source_name name f r = record {
    by_source_name = set_factory (normalize_key P (str name)) f r.by_source_name;
    by_source_type = r.by_source_type;
    by_entry_origin = r.by_entry_origin;
  }

  unfoldable pub register_source_type : String → N → Registry N → Registry N
  register_source_type source_type f r = record {
    by_source_name = r.by_source_name;
    by_source_type = set_factory (normalize_key P (str source_type)) f r.by_source_type;
    by_entry_origin = r.by_entry_origin;
  }

  unfoldable pub register_entry_origin : String → N → Registry N → Registry N
  register_entry_origin origin f r = record {
    by_source_name = r.by_source_name;
    by_source_type = r.by_source_type;
    by_entry_origin = set_factory (normalize_key P (str origin)) f r.by_entry_origin;
  }

  unfoldable pub resolve : Registry N → Row → N ⊎ Error
  resolve r raw =
      first_found (find_factory (normalize_key P (raw "source_name")) r.by_source_name)
        (find_factory (origin_key P (raw "metadata")) r.by_entry_origin)
        (find_factory (normalize_key P (raw "source_type")) r.by_source_type) (no_normalizer P raw)

-- A normaliser that is registered for a source's name, however it is written, is the one that the
-- source's rows get; a row of another name gets what it got before.
pub resolve-register_source_name {ℓ} :
    {N : Type ℓ} (P : Python) (name : String) (f : N) (r : Registry N) (raw : Row)
    → resolve P (register_source_name P name f r) raw ≡ (
        if normalize_key P (str name) == normalize_key P (raw "source_name")
        then inl f
        else resolve P r raw)
unfolding resolve register_source_name
resolve-register_source_name P name f r raw =
    ap
      (λ o.
        first_found o (find_factory (origin_key P (raw "metadata")) r.by_entry_origin)
          (find_factory (normalize_key P (raw "source_type")) r.by_source_type)
          (no_normalizer P raw))
      (find-set (normalize_key P (str name)) (normalize_key P (raw "source_name")) f
        r.by_source_name)
    ∙ first_found-if (normalize_key P (str name) == normalize_key P (raw "source_name")) f _ _ _ _

-- A normaliser for a type of source serves exactly the rows that have none by their name or their
-- origin.
pub resolve-register_source_type {ℓ} :
    {N : Type ℓ} (P : Python) (source_type : String) (f : N) (r : Registry N) (raw : Row)
    → find_factory (normalize_key P (raw "source_name")) r.by_source_name ≡ none
    → find_factory (origin_key P (raw "metadata")) r.by_entry_origin ≡ none
    → resolve P (register_source_type P source_type f r) raw ≡ (
        if normalize_key P (str source_type) == normalize_key P (raw "source_type")
        then inl f
        else resolve P r raw)
unfolding resolve register_source_type
resolve-register_source_type P source_type f r raw h₁ h₂ =
    ap
      (λ o.
        first_found (find_factory (normalize_key P (raw "source_name")) r.by_source_name)
          (find_factory (origin_key P (raw "metadata")) r.by_entry_origin) o (no_normalizer P raw))
      (find-set (normalize_key P (str source_type)) (normalize_key P (raw "source_type")) f
        r.by_source_type)
    ∙ last_found-if (normalize_key P (str source_type) == normalize_key P (raw "source_type")) f _ _
        _ _ h₁ h₂

-- Named on the `unfolding` line of a test that runs the registry.
unfoldable pub registry_runs : Unit {0}
unfolding find_factory set_factory register_source_name register_source_type register_entry_origin
    resolve normalize_key
registry_runs = tt
