-- ===== src/Normalization/Sources/Chosen.antt =====
-- Which normaliser the registry chooses for a row, of those that
-- worker/sentineldrive_worker/normalization/normalizers.py registers.
use Prim.Native.String.{[], ◌∷◌}
use mathlib.Core.List.{[], ◌∷◌}
use sentinel_drive.Prelude.{
  String, Option, none, some, List, inl, inr, ◌==◌, string_Eq, Bool-cases, All,
}
use sentinel_drive.Value.{Python}
use sentinel_drive.Value.Row.{Row}
use sentinel_drive.Sanitize.{Error}
use sentinel_drive.Normalization.Keys.{UrlParse}
use sentinel_drive.Normalization.Numbers.{CharClasses}
use sentinel_drive.Normalization.Registry.{
  Registry, set_factory, find_factory, first_found, empty_registry, normalize_key, origin_key,
  no_normalizer, resolve, register_source_name, register_source_type, register_entry_origin,
}
use sentinel_drive.Normalization.Service.{Normalizer}
use sentinel_drive.Normalization.Sources.Builtin.{register_builtin_normalizers}
use sentinel_drive.Normalization.Sources.Titled.{
  Given, IsRecordOf, IsSound, nvd-IsSound, kev-IsSound, rss-IsSound, vendor-IsSound,
  fallback-IsSound, manual-IsSound, external-IsSound, recall-IsSound,
}

module _ (P : Python) (U : UrlParse) (K : CharClasses) where
  -- Every normaliser of a table, and of a registry.
  AllSound : List (String × Normalizer) → Type 0
  AllSound table = All (λ entry. IsSound P U K (entry.1)) table

  RegistrySound : Registry Normalizer → Type 0
  unfolding AllSound
  RegistrySound r =
      AllSound r.by_source_name × AllSound r.by_source_type × AllSound r.by_entry_origin

  set_factory-AllSound :
      (key : String) (f : Normalizer) (table : List (String × Normalizer))
      → IsSound P U K f
      → AllSound table
      → AllSound (set_factory key f table)
  unfolding set_factory AllSound
  set_factory-AllSound key f [] h a = (h, tt)
  set_factory-AllSound key f ((j, g) ∷ table) h (here, there) = elim (Bool-cases (j == key)) [
    | inl e ↦ rw e (h, there)
    | inr e ↦ rw e (here, set_factory-AllSound key f table h there)
  ]

  -- What a table or a registry finds.
  Found : Option Normalizer → Type 0
  Found none = Unit
  Found (some f) = IsSound P U K f

  find_factory-Found :
      (key : String) (table : List (String × Normalizer))
      → AllSound table
      → Found (find_factory key table)
  unfolding find_factory AllSound Found
  find_factory-Found key [] a = tt
  find_factory-Found key ((j, g) ∷ table) (here, there) = elim (Bool-cases (j == key)) [
    | inl e ↦ rw e here
    | inr e ↦ rw e (find_factory-Found key table there)
  ]

  first_found-Given :
      (raw : Row) (o p q : Option Normalizer) (e : Error)
      → Found o
      → Found p
      → Found q
      → Given (λ f. Given (IsRecordOf raw) (f raw)) (first_found o p q e)
  unfolding Found
  first_found-Given raw (some f) p q e ho hp hq = ho raw
  first_found-Given raw none (some f) q e ho hp hq = hp raw
  first_found-Given raw none none (some f) e ho hp hq = hq raw
  first_found-Given raw none none none e ho hp hq = tt

  register_builtin_normalizers-RegistrySound :
      (r : Registry Normalizer)
      → RegistrySound r
      → RegistrySound (register_builtin_normalizers P U K r)
  unfolding register_builtin_normalizers register_source_name register_source_type
      register_entry_origin RegistrySound AllSound
  register_builtin_normalizers-RegistrySound r (names, types, origins) = (
    search
        (
          set_factory-AllSound, nvd-IsSound, kev-IsSound, rss-IsSound, vendor-IsSound,
          recall-IsSound,
        )
        depth 8,
    search (set_factory-AllSound, rss-IsSound, vendor-IsSound, fallback-IsSound, manual-IsSound)
        depth 8,
    search (set_factory-AllSound, external-IsSound),
  )

  -- Whichever built-in normaliser the registry chooses for a row, what it gives is an error or a
  -- record of that row: with the row's identifier, with a title of one to 500 characters, ready for
  -- scoring, and with one source, the one that it attributes the row to.
  pub builtin-IsRecordOf :
      (raw : Row)
      → Given
          (λ f. Given (IsRecordOf raw) (f raw))
          (resolve P (register_builtin_normalizers P U K empty_registry) raw)
  unfolding resolve RegistrySound
  builtin-IsRecordOf raw =
      let (names, types, origins) =
        register_builtin_normalizers-RegistrySound empty_registry (tt, tt, tt) in
      first_found-Given raw _ _ _ (no_normalizer P raw)
        (find_factory-Found (normalize_key P (raw "source_name")) _ names)
        (find_factory-Found (origin_key P (raw "metadata")) _ origins)
        (find_factory-Found (normalize_key P (raw "source_type")) _ types)
