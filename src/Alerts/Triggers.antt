-- ===== src/Alerts/Triggers.antt =====
-- Which tags count as known exploitation, backend/app/services/alerts.py `_known_exploited`.
use Prim.Native.Char.{Char, code}
use Prim.Native.String.{[], ◌∷◌}
use sentinel_drive.Prelude.{
  String, ◌≡◌, refl, sym, ap, ◌∙◌, or-true_right, Bool, true, false, ◌||◌, some, any, map, contains,
  Bool-cases, inl, inr, ◌==◌, string_Eq, nat_Eq, eq_iff,
}
use mathlib.Core.List.{[], ◌∷◌}
use sentinel_drive.Text.{lower, strip, dash_char, map_text, dashes_to_underscores}
use sentinel_drive.Alerts.Entry.{Entry, is_level, normalize_column, scoring_metadata}
use sentinel_drive.Value.{dict_or_empty, get, truthy}
use sentinel_drive.Alerts.Rules.{known_exploited, known_exploited_tags}

dash_char_idem : (c : Char) → dash_char (dash_char c) ≡ dash_char c
unfolding dash_char
dash_char_idem c = elim (Bool-cases (code c == b'-')) [ inl p ↦ rw p refl | inr p ↦ rw (p, p) refl ]

dashes_idem :
    (s : String) → dashes_to_underscores (dashes_to_underscores s) ≡ dashes_to_underscores s
unfolding dashes_to_underscores map_text
dashes_idem [] = refl
dashes_idem (c ∷ s) = cc (dash_char_idem c, dashes_idem s)

-- A text with a dash is never what the replacement gives.
not_dashed :
    (s t : String) → (dashes_to_underscores t == t) ≡ false → (dashes_to_underscores s == t) ≡ false
not_dashed s t h = elim (Bool-cases (dashes_to_underscores s == t)) [
  | inl p ↦
      let same = (eq_iff (dashes_to_underscores s) t).0 p in
      cc (
        h,
        (eq_iff (dashes_to_underscores t) t).1
            (ap dashes_to_underscores (sym same) ∙ (dashes_idem s ∙ same)),
      )
  | inr p ↦ p
]

flip :
    (t s : String) → (dashes_to_underscores t == t) ≡ false → (t == dashes_to_underscores s) ≡ false
flip t s h = elim (Bool-cases (t == dashes_to_underscores s)) [
  | inl p ↦ cc (
    not_dashed s t h,
    (eq_iff (dashes_to_underscores s) t).1 (sym ((eq_iff t (dashes_to_underscores s)).0 p)),
  )
  | inr p ↦ p
]

kev_tag_changed : (dashes_to_underscores "cisa-kev" == "cisa-kev") ≡ false
unfolding dashes_to_underscores dash_char
kev_tag_changed = refl

exploited_tag_changed : (dashes_to_underscores "known-exploited" == "known-exploited") ≡ false
unfolding dashes_to_underscores dash_char
exploited_tag_changed = refl

no_dash_in :
    (s : String)
    → contains known_exploited_tags (dashes_to_underscores s)
      ≡ contains ("kev" ∷ "known_exploited" ∷ []) (dashes_to_underscores s)
no_dash_in s =
    rw (flip "cisa-kev" s kev_tag_changed, flip "known-exploited" s exploited_tag_changed) refl

or_to_front :
    (a b x y n n' d r v : Bool)
    → (a || b || (x || y) || n || n' || d || r || v)
      ≡ (x || (a || b || y || n || n' || d || r || v))
or_to_front true b x y n n' d r v = sym (or-true_right x)
or_to_front false true x y n n' d r v = sym (or-true_right x)
or_to_front false false true y n n' d r v = refl
or_to_front false false false y n n' d r v = refl

-- One more tag makes the rule of known exploitation hold exactly where, stripped, in lower case and
-- with underscores in place of dashes, it is "kev" or "known_exploited", and changes nothing
-- otherwise. So a tag "cisa-kev", which the rule lists, has no effect.
pub known_exploited-tag :
    (e : Entry) (t : String)
    → known_exploited (record e { tags = t ∷ e.tags })
      ≡ (contains ("kev" ∷ "known_exploited" ∷ []) (normalize_column (some t)) || known_exploited e)
unfolding known_exploited normalize_column scoring_metadata
known_exploited-tag e t =
    let names = map (λ s. normalize_column (some s)) e.source_names in
    rw (no_dash_in (lower (strip t))) (
      or_to_front (is_level "exploited" e.exploit_status)
        (truthy (get (dict_or_empty (get (scoring_metadata e) "signals")) "known_exploited"))
        (contains ("kev" ∷ "known_exploited" ∷ []) (dashes_to_underscores (lower (strip t))))
        (any (contains known_exploited_tags) (map (λ s. normalize_column (some s)) e.tags))
        (contains names "cisa-kev") (contains names "cisa_kev")
        (truthy (get e.metadata "date_added"))
        (truthy (get e.metadata "known_ransomware_campaign_use"))
        (truthy (get e.metadata "vulnerability_name")))
