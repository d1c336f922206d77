-- ===== src/Normalization/Columns.antt =====
-- What is read of a column after an UPDATE of which each column is written under a condition, as a
-- merge of worker/sentineldrive_worker/normalization/service.py writes them.
use mathlib.Core.Path.{subst, fun_ext}
use sentinel_drive.Prelude.{
  beq_refl, String, ◌≡◌, refl, ◌∙◌, ap, Bool, true, false, ◌&&◌, ◌||◌, not, List, [], ◌∷◌, ◌++◌,
  contains, ◌==◌, string_Eq, eq_iff, if◌then◌else◌, Bool-cases, inl, inr,
}
use sentinel_drive.Value.{Value}
use sentinel_drive.Value.Row.{Row, with_column, with_columns}
use sentinel_drive.Normalization.Merge.{is_empty, conservative_values, when}

abbrev pub with_when : Row → Bool → String → Value → Row
with_when r b j v k = if j == k then (if b then v else r k) else r k

if_either : (b : Bool) (v : Value) → v ≡ (if b then v else v)
if_either true v = refl
if_either false v = refl

pub with_columns-when :
    (r : Row) (b : Bool) (j : String) (v : Value) (rest : List (String × Value))
    → with_columns r (when b j v ++ rest) ≡ with_columns (with_when r b j v) rest
with_columns-when r true j v rest = refl
with_columns-when r false j v rest =
    ap (λ q. with_columns q rest) (fun_ext (λ k. if_either (j == k) (r k)))

pub last_when :
    (r : Row) (b : Bool) (j : String) (v : Value) → with_columns r (when b j v) ≡ with_when r b j v
last_when r true j v = refl
last_when r false j v = fun_ext (λ k. if_either (j == k) (r k))

if_same : (b : Bool) (v : Value) → (if b && true then v else v) ≡ v
if_same true v = refl
if_same false v = refl

if_never : (b : Bool) (v w : Value) → (if b && false then v else w) ≡ w
if_never true v w = refl
if_never false v w = refl

taken_here :
    (r existing incoming : Row) (j k : String) (b : Bool)
    → (is_empty (existing j) && not (is_empty (incoming j))) ≡ true
    → (if b && (is_empty (existing k) && not (is_empty (incoming k)))
        then incoming k
        else with_column r j (incoming j) k)
      ≡ (if (j == k || b) && (is_empty (existing k) && not (is_empty (incoming k)))
          then incoming k
          else r k)
taken_here r existing incoming j k b e = elim (Bool-cases (j == k)) [
  | inl p ↦
      subst
        (λ k.
          (if b && (is_empty (existing k) && not (is_empty (incoming k)))
            then incoming k
            else with_column r j (incoming j) k)
          ≡ (if (j == k || b) && (is_empty (existing k) && not (is_empty (incoming k)))
              then incoming k
              else r k))
        ((eq_iff j k).0 p) (rw (e, beq_refl j) (if_same b (incoming j)))
  | inr p ↦ rw p
]

not_taken_here :
    (r existing incoming : Row) (j k : String) (b : Bool)
    → (is_empty (existing j) && not (is_empty (incoming j))) ≡ false
    → (if b && (is_empty (existing k) && not (is_empty (incoming k))) then incoming k else r k) ≡ (
        if (j == k || b) && (is_empty (existing k) && not (is_empty (incoming k)))
        then incoming k
        else r k)
not_taken_here r existing incoming j k b e = elim (Bool-cases (j == k)) [
  | inl p ↦
      subst
        (λ k.
          (if b && (is_empty (existing k) && not (is_empty (incoming k))) then incoming k else r k)
          ≡ (if (j == k || b) && (is_empty (existing k) && not (is_empty (incoming k)))
              then incoming k
              else r k))
        ((eq_iff j k).0 p) (rw (e, beq_refl j) (if_never b (incoming j) (r j)))
  | inr p ↦ rw p
]

-- A conservative field is taken over where the stored row has nothing and the record has something.
pub column-conservative :
    (r existing incoming : Row) (ks : List String) (k : String)
    → with_columns r (conservative_values existing incoming ks) k ≡ (
        if contains ks k && (is_empty (existing k) && not (is_empty (incoming k)))
        then incoming k
        else r k)
unfolding conservative_values
column-conservative r existing incoming [] k = refl
column-conservative r existing incoming (j ∷ ks) k =
    elim (Bool-cases (is_empty (existing j) && not (is_empty (incoming j)))) [
      | inl e ↦ rw e (
          column-conservative (with_column r j (incoming j)) existing incoming ks k
          ∙ taken_here r existing incoming j k (contains ks k) e)
      | inr e ↦ rw e (
          column-conservative r existing incoming ks k
          ∙ not_taken_here r existing incoming j k (contains ks k) e)
    ]
