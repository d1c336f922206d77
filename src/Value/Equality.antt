-- ===== src/Value/Equality.antt =====
-- Python's `==` on values: numbers compare by value, and dicts without regard to the order of keys.
use sentinel_drive.Prelude.{
  ℕ, ◌*◌, ◌+◌, String, ◌≡◌, refl, Bool, true, false, ◌&&◌, Option, none, some, ◌==◌, string_Eq,
  nat_Eq, ℤ, pos, negsuc, eq_iff, arith, beq_refl,
}
use sentinel_drive.Value.{
  Value, none_value, bool, int, float, str, time, other, list, dict, Values, nil, cons, Fields, end,
  field, lookup,
}

abbrev pub int_eq : ℤ → ℤ → Bool
int_eq (pos m) (pos n) = m == n
int_eq (negsuc m) (negsuc n) = m == n
int_eq _ _ = false

-- The hundredths of a number; a Boolean counts as 0 or 1.
abbrev hundredths : Value → Option ℤ
hundredths (bool true) = some (pos 100)
hundredths (bool false) = some (pos 0)
hundredths (int (pos n)) = some (pos (100 * n))
hundredths (int (negsuc n)) = some (negsuc (100 * n + 99))
hundredths (float n) = some n
hundredths _ = none

abbrev number_eq : Option ℤ → Option ℤ → Bool
number_eq (some m) (some n) = int_eq m n
number_eq _ _ = false

unfoldable pub size : Fields → ℕ
size end = 0
size (field k v fs) = 1 + size fs

unfoldable mutual
  pub value_eq : Value → Value → Bool
  value_eq none_value none_value = true
  value_eq (str s) (str t) = s == t
  value_eq (time m) (time n) = m == n
  value_eq (other s) (other t) = s == t
  value_eq (list vs) (list ws) = values_eq vs ws
  value_eq (dict fs) (dict gs) = size fs == size gs && fields_in fs gs
  value_eq v w = number_eq (hundredths v) (hundredths w)

  pub values_eq : Values → Values → Bool
  values_eq nil nil = true
  values_eq (cons v vs) (cons w ws) = value_eq v w && values_eq vs ws
  values_eq _ _ = false

  -- Every key of the first dict is in the second, with an equal value.
  pub fields_in : Fields → Fields → Bool
  fields_in end gs = true
  fields_in (field k v fs) gs = elim (lookup k gs) [
    | none ↦ false
    | some w ↦ value_eq v w && fields_in fs gs
  ]

-- No dict inside has a key twice, which Python's dicts never have.
abbrev mutual
  pub IsProper : Value → Type 0
  IsProper (list vs) = AllProper vs
  IsProper (dict fs) = IsDict fs
  IsProper _ = Unit

  pub AllProper : Values → Type 0
  AllProper nil = Unit
  AllProper (cons v vs) = IsProper v × AllProper vs

  pub IsDict : Fields → Type 0
  IsDict end = Unit
  IsDict (field k v fs) = IsProper v × (lookup k fs ≡ none) × IsDict fs

-- Every entry of the first dict is an entry of the second.
abbrev IsSubdict : Fields → Fields → Type 0
IsSubdict fs gs = (k : String) (v : Value) → lookup k fs ≡ some v → lookup k gs ≡ some v

lookup-head : (k : String) (v : Value) (fs : Fields) → lookup k (field k v fs) ≡ some v
unfolding lookup
lookup-head k v fs = rw (beq_refl k)

lookup-tail :
    (j k : String) (v w : Value) (fs : Fields)
    → lookup k fs ≡ none
    → lookup j fs ≡ some w
    → lookup j (field k v fs) ≡ some w
unfolding lookup
lookup-tail j k v w fs fresh e = ground (arith, eq_iff k j)

pub int_eq_refl : (n : ℤ) → int_eq n n ≡ true
int_eq_refl (pos n) = beq_refl n
int_eq_refl (negsuc n) = beq_refl n

mutual
  unfolding value_eq

  value_eq_self : (v : Value) → IsProper v → value_eq v v ≡ true
  value_eq_self none_value h = refl
  value_eq_self (bool true) h = refl
  value_eq_self (bool false) h = refl
  value_eq_self (int (pos n)) h = int_eq_refl (pos (100 * n))
  value_eq_self (int (negsuc n)) h = int_eq_refl (negsuc (100 * n + 99))
  value_eq_self (float n) h = int_eq_refl n
  value_eq_self (str s) h = beq_refl s
  value_eq_self (time n) h = beq_refl n
  value_eq_self (other s) h = beq_refl s
  value_eq_self (list vs) h = values_eq_self vs h
  value_eq_self (dict fs) h = rw (beq_refl (size fs)) (fields_in_sub fs fs h (λ k v e. e))

  values_eq_self : (vs : Values) → AllProper vs → values_eq vs vs ≡ true
  values_eq_self nil h = refl
  values_eq_self (cons v vs) h = rw (value_eq_self v h.0) (values_eq_self vs h.1)

  fields_in_sub : (fs gs : Fields) → IsDict fs → IsSubdict fs gs → fields_in fs gs ≡ true
  fields_in_sub end gs h sub = refl
  fields_in_sub (field k v fs) gs (p, fresh, h) sub =
      rw (sub k v (lookup-head k v fs), fields_in)
        (rw (value_eq_self v p)
          (fields_in_sub fs gs h (λ j w e. sub j w (lookup-tail j k v w fs fresh e))))

-- A value equals itself.
pub value_eq_refl : (v : Value) → IsProper v → value_eq v v ≡ true
value_eq_refl v h = value_eq_self v h

-- Only None equals None.
pub value_eq-none : (v : Value) → value_eq v none_value ≡ true → v ≡ none_value
unfolding value_eq
value_eq-none none_value e = refl
value_eq-none (bool true) e = cc
value_eq-none (bool false) e = cc
value_eq-none (int (pos n)) e = cc
value_eq-none (int (negsuc n)) e = cc
value_eq-none (float (pos n)) e = cc
value_eq-none (float (negsuc n)) e = cc
value_eq-none (str s) e = cc
value_eq-none (time t) e = cc
value_eq-none (other s) e = cc
value_eq-none (list vs) e = cc
value_eq-none (dict fs) e = cc
