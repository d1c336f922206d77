-- ===== src/Database.antt =====
-- Tables as lists of rows, in the order in which the database returns them where a query does not
-- say: SELECT … WHERE, UPDATE … WHERE and INSERT as the SQLAlchemy calls of the program make them,
-- and the exceptions of a session.
use sentinel_drive.Prelude.{
  String, ◌≡◌, refl, Bool, Option, none, some, List, [], ◌∷◌, ◌++◌, if◌then◌else◌, length, ap, suc,
}
use sentinel_drive.Value.{Value}
use sentinel_drive.Sanitize.{Error}
use sentinel_drive.Value.Equality.{value_eq}
use sentinel_drive.Value.Row.{Row, with_columns}

-- What the database raises in a session: in one of its statements, or at its commit, behind all of
-- them.
pub data SessionFault : Type 0 where
  raised : Error → SessionFault
  at_commit : Error → SessionFault

abbrev pub Table : Type 0
Table = List Row

-- `WHERE column == value`
abbrev pub column_is : String → Value → Row → Bool
column_is k v row = value_eq (row k) v

-- The first row that fits (`first`, `scalar`, and `one_or_none` where at most one fits).
unfoldable pub select_first : (Row → Bool) → Table → Option Row
select_first p [] = none
select_first p (r ∷ rs) = if p r then some r else select_first p rs

-- `update(table).where(p).values(columns)`
unfoldable pub update_where : (Row → Bool) → List (String × Value) → Table → Table
update_where p columns [] = []
update_where p columns (r ∷ rs) =
    (if p r then with_columns r columns else r) ∷ update_where p columns rs

unfoldable pub insert_row : Row → Table → Table
insert_row r table = table ++ (r ∷ [])

-- An update that leaves the columns of another query alone does not change its answer, except that
-- the rows which it hit are written.
pub length-update_where :
    (p : Row → Bool) (columns : List (String × Value)) (t : Table)
    → length (update_where p columns t) ≡ length t
unfolding update_where
length-update_where p columns [] = refl
length-update_where p columns (r ∷ rs) = ap suc (length-update_where p columns rs)
