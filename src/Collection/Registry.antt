-- ===== src/Collection/Registry.antt =====
-- `ConnectorRegistry` of worker/sentineldrive_worker/connectors/registry.py.
use mathlib.Core.Path.{subst}
use sentinel_drive.Prelude.{
  String, ◌<>◌, ◌≡◌, refl, Bool, true, false, Option, none, some, List, [], ◌⊎◌, inl, inr,
  if◌then◌else◌, ◌==◌, string_Eq, Bool-cases, map, beq_refl, ap, ◌∙◌,
}
use sentinel_drive.Text.{lower, strip}
use sentinel_drive.Sanitize.{Error}
use sentinel_drive.Normalization.Registry.{find_factory, set_factory, find-set}
use sentinel_drive.Scoring.Factors.{sorted}

abbrev pub connector_name : String → String
connector_name key = lower (strip key)

abbrev fst_of {ℓ} : {F : Type ℓ} → String × F → String
fst_of (k, f) = k

abbrev pub unregistered : String → Error
unregistered key = record {
  message = "connector is not registered: " <> key;
  class_name = "KeyError";
}

abbrev pub factory_or {ℓ} : {F : Type ℓ} → Option F → Error → F ⊎ Error
factory_or none e = inr e
factory_or (some f) e = inl f

abbrev pub is_some {ℓ} : {F : Type ℓ} → Option F → Bool
is_some none = false
is_some (some f) = true

abbrev table_or_empty {ℓ} : {F : Type ℓ} → List (String × F) ⊎ Error → List (String × F)
table_or_empty (inl t) = t
table_or_empty (inr e) = []

module _ {ℓ} {F : Type ℓ} where
  unfoldable pub register : String → F → List (String × F) → List (String × F) ⊎ Error
  register key f factories =
      if connector_name key == ""
      then inr (record { message = "connector key is required"; class_name = "ValueError" })
      else inl (set_factory (connector_name key) f factories)

  -- The factory that `create` calls.
  unfoldable pub factory_of : String → List (String × F) → F ⊎ Error
  factory_of key factories =
      factory_or (find_factory (connector_name key) factories) (unregistered key)

  unfoldable pub has : String → List (String × F) → Bool
  has key factories = is_some (find_factory (connector_name key) factories)

  unfoldable pub available : List (String × F) → List String
  available factories = sorted (map fst_of factories)

  -- What has been registered is found, under any spelling of its key.
  pub factory_of-register :
      (key key' : String) (f : F) (factories after : List (String × F))
      → register key f factories ≡ inl after
      → connector_name key ≡ connector_name key'
      → (factory_of key' after ≡ inl f) × (has key' after ≡ true)
  unfolding register factory_of has
  factory_of-register key key' f factories after h e =
      elim (Bool-cases (connector_name key == "")) [
        | inl p ↦ cc (rw p at h)
        | inr p ↦
            let same : set_factory (connector_name key) f factories ≡ after =
              ap table_or_empty (rw p at h) in
            let found : find_factory (connector_name key') after ≡ some f =
              subst (λ t. find_factory (connector_name key') t ≡ some f) same
                (find-set (connector_name key) (connector_name key') f factories
                  ∙ rw (e, beq_refl (connector_name key')) refl) in
            (ap (λ o. factory_or o (unregistered key')) found, ap is_some found)
      ]
