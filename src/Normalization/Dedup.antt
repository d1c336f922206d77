-- ===== src/Normalization/Dedup.antt =====
-- Normalised texts and keys: the first half of
-- worker/sentineldrive_worker/normalization/dedup.py.
use sentinel_drive.Prelude.{
  String, ◌≡◌, refl, sym, arith, eq_iff, [], ◌∷◌, ◌∙◌, ap, List, map, string_Eq,
}
use sentinel_drive.Text.{lower, strip, split, join}
use sentinel_drive.Text.Words.{split-lower, split-strip, split-join, split-IsWord, lower_idem}
use sentinel_drive.Value.{Python, Value, str, text_or_empty}

-- `" ".join(s.strip().lower().split())`
unfoldable pub normalized : String → String
unfolding lower strip split join
normalized s = join " " (split (lower (strip s)))

module _ (P : Python) where
  unfoldable pub normalize_text : Value → String
  unfolding normalized text_or_empty
  normalize_text v = normalized (text_or_empty P v)

  unfoldable pub stable_hash : Value → String
  stable_hash v = P.sha256 (P.dumps v)

  unfoldable pub text_hash : Value → String
  unfolding normalize_text
  text_hash v = P.sha256 (normalize_text v)

map-lower_idem : (ws : List String) → map lower (map lower ws) ≡ map lower ws
map-lower_idem [] = refl
map-lower_idem (w ∷ ws) = cc (lower_idem w, map-lower_idem ws)

split-normalized : (s : String) → split (normalized s) ≡ map lower (split s)
unfolding normalized
split-normalized s =
    split-join (split (lower (strip s))) (split-IsWord (lower (strip s)))
    ∙ (split-lower (strip s) ∙ ap (map lower) (split-strip s))

normalized-words : (s : String) → normalized s ≡ join " " (map lower (split s))
unfolding normalized
normalized-words s = ap (join " ") (split-lower (strip s) ∙ ap (map lower) (split-strip s))

-- Normalising a second time changes nothing.
pub normalized_idem : (s : String) → normalized (normalized s) ≡ normalized s
normalized_idem s =
    normalized-words (normalized s)
    ∙ (ap (λ ws. join " " (map lower ws)) (split-normalized s)
        ∙ (ap (join " ") (map-lower_idem (split s)) ∙ sym (normalized-words s)))

text_or_empty-str : (P : Python) (s : String) → text_or_empty P (str s) ≡ s
unfolding text_or_empty
text_or_empty-str P s = ground (arith, eq_iff s "")

-- The normalised text of a value is a fixed point of the normalisation.
pub normalize_text_idem :
    (P : Python) (v : Value) → normalize_text P (str (normalize_text P v)) ≡ normalize_text P v
unfolding normalize_text
normalize_text_idem P v = rw text_or_empty-str (normalized_idem (text_or_empty P v))

-- Two texts with the same words, in whatever case and spacing, have one hash.
pub text_hash_of_words :
    (P : Python) (s t : String)
    → map lower (split s) ≡ map lower (split t)
    → text_hash P (str s) ≡ text_hash P (str t)
unfolding text_hash normalize_text
text_hash_of_words P s t h = ap P.sha256 (
    rw (text_or_empty-str P s, text_or_empty-str P t)
      (normalized-words s ∙ (ap (join " ") h ∙ sym (normalized-words t))))
