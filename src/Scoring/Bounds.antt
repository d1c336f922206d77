-- ===== src/Scoring/Bounds.antt =====
-- The range of each factor of Scoring/Rules.antt, of the score and of the level.
use sentinel_drive.Prelude.{
  ℕ, String, ◌≡◌, refl, Bool, true, false, Option, none, some, List, [], ◌∷◌, ◌++◌, string_Eq,
  if◌then◌else◌, ℤ, pos, negsuc, ◌+ℤ◌, ◌≤ℤ◌, int_laws, arith, Option-cases, inl, inr,
}
use sentinel_drive.Text.{or_text}
use sentinel_drive.Value.{Python, Fields}
use sentinel_drive.Value.Row.{Row}
use sentinel_drive.Scoring.Signals.{
  weight, is_weighted, severity_fallback, critical_component_weights, remote_exploitability_signal,
  authentication_signal, vehicle_component_signal, normalize_key,
}
use sentinel_drive.Scoring.Rules.{
  factors, exploit_factor, signal_factor, flag_factor, public_poc, cvss_or_severity_factor,
  confidence_factor, row_tags, row_metadata, row_text, severity_weight, confidence_weight,
}
use sentinel_drive.Scoring.Factors.{ScoreFactor, total, numeric_or_none}

-- The sum of the contributions lies between the two.
abbrev pub Within : ℤ → ℤ → List ScoreFactor → Type 0
Within lo hi fs = (lo ≤ℤ total fs) × (total fs ≤ℤ hi)

pub total-append : (xs ys : List ScoreFactor) → total (xs ++ ys) ≡ total xs +ℤ total ys
unfolding total
total-append [] ys = omega int_laws
total-append (x ∷ xs) ys = rw (total-append xs ys) (omega int_laws)

Within-cons :
    (lo hi lo' hi' : ℤ) (f : ScoreFactor) (fs : List ScoreFactor)
    → (lo ≤ℤ f.contribution) × (f.contribution ≤ℤ hi)
    → Within lo' hi' fs
    → Within (lo +ℤ lo') (hi +ℤ hi') (f ∷ fs)
unfolding total
Within-cons lo hi lo' hi' f fs c h = omega int_laws

Within-append :
    (lo hi lo' hi' : ℤ) (xs ys : List ScoreFactor)
    → Within lo hi xs
    → Within lo' hi' ys
    → Within (lo +ℤ lo') (hi +ℤ hi') (xs ++ ys)
Within-append lo hi lo' hi' xs ys h k = rw total-append (omega int_laws)

abbrev Weighs : ℤ → ℤ → List (String × ℤ) → Type 0
Weighs lo hi [] = Unit
Weighs lo hi ((k, w) ∷ rest) = (lo ≤ℤ w) × (w ≤ℤ hi) × Weighs lo hi rest

weight_bounds :
    (lo hi : ℤ) (k : String) (table : List (String × ℤ)) (w : ℤ)
    → Weighs lo hi table
    → weight k table ≡ some w
    → (lo ≤ℤ w) × (w ≤ℤ hi)
unfolding weight
weight_bounds lo hi k [] w h e = cc
weight_bounds lo hi k ((j, v) ∷ rest) w h e = ground (arith, weight_bounds lo hi k rest w h.2)

module _ (P : Python) (row : Row) where
  severity_weight_bounds :
      (severity : String)
      → (pos 0 ≤ℤ severity_weight P severity) × (severity_weight P severity ≤ℤ pos 7000)
  unfolding severity_weight
  severity_weight_bounds severity = elim (Option-cases (weight severity severity_fallback)) [
    | inl e ↦ rw (e, severity_weight) (omega arith)
    | inr (w, e) ↦
        rw (e, severity_weight)
          (weight_bounds (pos 0) (pos 7000) severity severity_fallback w (omega arith) e)
  ]

  confidence_weight_bounds :
      (c : String) → (negsuc 799 ≤ℤ confidence_weight P c) × (confidence_weight P c ≤ℤ pos 500)
  unfolding confidence_weight weight
  confidence_weight_bounds c = ground arith

  pub cvss_bounds :
      (pos 0 ≤ℤ (cvss_or_severity_factor P row).contribution)
      × ((cvss_or_severity_factor P row).contribution ≤ℤ pos 7000)
  unfolding cvss_or_severity_factor
  cvss_bounds = elim (Option-cases (numeric_or_none P (row "cvss_score"))) [
    | inl e ↦
        rw (e, cvss_or_severity_factor)
          (severity_weight_bounds (or_text (normalize_key P (row "severity")) "unknown"))
    | inr (pos n, e) ↦ rw (e, cvss_or_severity_factor) (ground arith)
    | inr (negsuc n, e) ↦ rw (e, cvss_or_severity_factor) (omega arith)
  ]

  pub exploit_bounds :
      (tags : List String) (m : Fields) → Within (pos 0) (pos 2500) (exploit_factor P row tags m)
  unfolding total exploit_factor ◌+ℤ◌
  exploit_bounds tags m = ground arith

  signal_bounds :
      (lo hi : ℤ) (key label : String) (s : Option (String × ℤ))
      → lo ≤ℤ pos 0
      → pos 0 ≤ℤ hi
      → ((name : String) (w : ℤ) → s ≡ some (name, w) → (lo ≤ℤ w) × (w ≤ℤ hi))
      → Within lo hi (signal_factor P key label s)
  unfolding total signal_factor
  signal_bounds lo hi key label none l h b = omega arith
  signal_bounds lo hi key label (some (name, w)) l h b = omega (int_laws, b name w refl)

  flag_bounds :
      (key label : String) (n : ℕ) (b : Bool)
      → Within (pos 0) (pos n) (flag_factor P key label (pos n) b)
  unfolding total flag_factor
  flag_bounds key label n true = omega int_laws
  flag_bounds key label n false = omega arith

  remote_bounds :
      (s name : String) (w : ℤ)
      → remote_exploitability_signal P row s ≡ some (name, w)
      → (pos 0 ≤ℤ w) × (w ≤ℤ pos 1000)
  unfolding remote_exploitability_signal
  remote_bounds s name w e = ground arith

  authentication_bounds :
      (s name : String) (w : ℤ)
      → authentication_signal P row s ≡ some (name, w)
      → (negsuc 399 ≤ℤ w) × (w ≤ℤ pos 800)
  unfolding authentication_signal
  authentication_bounds s name w e = ground arith

  -- What is taken out of a signal's table lies within the table.
  from_weight_bounds :
      (key : String) (o : Option ℤ) (name : String) (w : ℤ)
      → ((v : ℤ) → o ≡ some v → (pos 0 ≤ℤ v) × (v ≤ℤ pos 1400))
      → elim o as (λ o. Option (String × ℤ)) [ none ↦ none | some v ↦ some (key, v) ]
        ≡ some (name, w)
      → (pos 0 ≤ℤ w) × (w ≤ℤ pos 1400)
  from_weight_bounds key none name w b e = cc
  from_weight_bounds key (some v) name w b e = ground (arith, b v refl)

  vehicle_bounds :
      (name : String) (w : ℤ)
      → vehicle_component_signal P row ≡ some (name, w)
      → (pos 0 ≤ℤ w) × (w ≤ℤ pos 1400)
  unfolding vehicle_component_signal
  vehicle_bounds name w e =
      let key =
        (if is_weighted P (normalize_key P (row "vehicle_component"))
          then normalize_key P (row "vehicle_component")
          else normalize_key P (row "attack_surface")) in
      from_weight_bounds key (weight key critical_component_weights) name w
        (λ v known.
          weight_bounds (pos 0) (pos 1400) key critical_component_weights v (omega arith) known)
        e

  confidence_bounds : Within (negsuc 799) (pos 500) (confidence_factor P row ∷ [])
  unfolding total confidence_factor
  confidence_bounds =
      omega
        (int_laws, confidence_weight_bounds (or_text (normalize_key P (row "confidence")) "medium"))

  -- The factors behind the first two add between -12 and 55 points.
  pub total-factors_bounds :
      (lo hi lo' hi' : ℤ)
      → (lo ≤ℤ (cvss_or_severity_factor P row).contribution)
        × ((cvss_or_severity_factor P row).contribution ≤ℤ hi)
      → Within lo' hi' (exploit_factor P row (row_tags P row) (row_metadata P row))
      → Within (lo +ℤ (lo' +ℤ negsuc 1199)) (hi +ℤ (hi' +ℤ pos 5500)) (factors P row)
  unfolding factors ◌+ℤ◌
  total-factors_bounds lo hi lo' hi' c e =
      let s = row_text P row in
      Within-cons lo hi _ _ _ _ c (
        Within-append lo' hi' (negsuc 1199) (pos 5500) _ _ e (
          Within-append (pos 0) (pos 1000) (negsuc 1199) (pos 4500) _ _
            (flag_bounds "public_poc" "公开 PoC 或利用代码信号" 1000 (public_poc P s (row_tags P row)))
            (Within-append (pos 0) (pos 1000) (negsuc 1199) (pos 3500) _ _
              (signal_bounds (pos 0) (pos 1000) "remote_exploitability" "可远程利用信号" _ (omega arith)
                (omega arith) (remote_bounds s))
              (Within-append (negsuc 399) (pos 800) (negsuc 799) (pos 2700) _ _
                (signal_bounds (negsuc 399) (pos 800) "authentication_requirement" "身份认证要求信号" _
                  (omega arith) (omega arith) (authentication_bounds s))
                (Within-append (pos 0) (pos 1400) (negsuc 799) (pos 1300) _ _
                  (signal_bounds (pos 0) (pos 1400) "vehicle_critical_component" "车控关键组件影响" _
                    (omega arith) (omega arith) vehicle_bounds)
                  (Within-append (pos 0) (pos 800) (negsuc 799) (pos 500) _ _
                    (flag_bounds "multi_vendor_common_component" "多厂商或通用组件影响" 800 _)
                    confidence_bounds))))))
