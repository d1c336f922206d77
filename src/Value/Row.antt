-- ===== src/Value/Row.antt =====
-- A table row as the mapping that SQLAlchemy returns: a value for each column, `None` for NULL.
use sentinel_drive.Prelude.{
  String, List, [], ◌∷◌, ◌++◌, ◌==◌, string_Eq, if◌then◌else◌, ◌≡◌, refl, ◌∙◌, All, false,
}
use sentinel_drive.Value.{Value}

abbrev pub Row : Type 0
Row = String → Value

-- The row after an UPDATE of one column, and of several.
abbrev pub with_column : Row → String → Value → Row
with_column r k v j = if k == j then v else r j

abbrev pub with_columns : Row → List (String × Value) → Row
with_columns r [] = r
with_columns r ((k, v) ∷ kvs) = with_columns (with_column r k v) kvs

pub with_columns-append :
    (r : Row) (xs ys : List (String × Value))
    → with_columns r (xs ++ ys) ≡ with_columns (with_columns r xs) ys
with_columns-append r [] ys = refl
with_columns-append r ((k, v) ∷ xs) ys = with_columns-append (with_column r k v) xs ys

-- A column that is not written keeps its value.
abbrev pub Lacks : String → List (String × Value) → Type 0
Lacks k = All (λ (j, v). (j == k) ≡ false)

pub with_columns-Lacks :
    (k : String) (r : Row) (kvs : List (String × Value)) → Lacks k kvs → with_columns r kvs k ≡ r k
with_columns-Lacks k r [] h = refl
with_columns-Lacks k r ((j, v) ∷ kvs) (e, h) = with_columns-Lacks k (with_column r j v) kvs h ∙ rw e
