-- ===== src/Value/Dict.antt =====
-- Laws of dicts.
use sentinel_drive.Prelude.{
  String, ◌≡◌, refl, false, none, some, ◌==◌, string_Eq, if◌then◌else◌, eq_iff, arith, beq_refl,
  Bool-cases, inl, inr,
}
use sentinel_drive.Value.{
  Value, Fields, end, field, lookup, put, without, get, dict, or_else, truthy,
}

pub lookup-put :
    (j k : String) (v : Value) (fs : Fields)
    → lookup j (put fs k v) ≡ (if k == j then some v else lookup j fs)
unfolding lookup put
lookup-put j k v end = refl
lookup-put j k v (field i w fs) =
    ground (arith, eq_iff k j, eq_iff i k, eq_iff i j, lookup-put j k v fs)

pub lookup-without :
    (j k : String) (fs : Fields) → lookup j (without k fs) ≡ (if k == j then none else lookup j fs)
unfolding lookup without
lookup-without j k end = ground arith
lookup-without j k (field i w fs) =
    ground (arith, eq_iff k j, eq_iff i k, eq_iff i j, lookup-without j k fs)

-- Writing a key and taking it out again leaves what the dict had besides.
pub without-put : (k : String) (v : Value) (fs : Fields) → without k (put fs k v) ≡ without k fs
unfolding put without
without-put k v end = ground (arith, eq_iff k k)
without-put k v (field i w fs) = ground (arith, eq_iff k k, eq_iff i k, without-put k v fs)

pub get-put : (k : String) (v : Value) (fs : Fields) → get (put fs k v) k ≡ v
unfolding get
get-put k v fs = rw (lookup-put k k v fs, beq_refl k)

-- A dict that a key was written into is not empty.
pub or_else-put :
    (k : String) (v w : Value) (fs : Fields) → or_else (dict (put fs k v)) w ≡ dict (put fs k v)
unfolding put truthy
or_else-put k v w end = refl
or_else-put k v w (field j u fs) = elim (Bool-cases (j == k)) [ inl e ↦ rw e | inr e ↦ rw e ]

pub get-put_other :
    (j k : String) (v : Value) (fs : Fields) → (k == j) ≡ false → get (put fs k v) j ≡ get fs j
unfolding get
get-put_other j k v fs e = rw (lookup-put j k v fs, e) refl
