-- ===== src/Tests/Codec.antt =====
-- A base64 and a JSON that keep what is promised of them in Access/Tokens/RoundTrip.antt: four
-- characters stand for each one, and a token's claims are written one behind the other.
use Prim.Native.Char.{Char, code}
use Prim.Native.String.{[], ◌∷◌}
use text.Mathlib.TextEquality.{Char-path}
use sentinel_drive.Prelude.{
  ℕ, zero, suc, ◌+◌, ◌%◌, String, ◌<>◌, Bool, true, false, Option, none, some, ◌≡◌, refl, ap, sym,
  ◌==◌, nat_Eq, if◌then◌else◌, Bool-cases, inl, inr, arith, pos,
}
use text.Mathlib.TextLemmas.{append-nil}
use sentinel_drive.Sanitize.{size}
use sentinel_drive.Value.{Value, str, int, bool, dict, end, field, value_runs}
use sentinel_drive.Access.Tokens.{Crypto, padding, seconds, token_ttl}
use sentinel_drive.Access.Tokens.RoundTrip.{NoMarks, IsBase64, CryptoLaws}

-- A character's block, in front of a text.
abbrev block : Char → String → String
block c s =
    if code c == b'='
    then "B" ∷ "0" ∷ "0" ∷ "0" ∷ s
    else if code c == b'.'
    then "C" ∷ "0" ∷ "0" ∷ "0" ∷ s
    else "A" ∷ c ∷ "0" ∷ "0" ∷ s

abbrev pub blocks : String → String
blocks [] = []
blocks (c ∷ s) = block c (blocks s)

abbrev of_block : Char → Char → Char
of_block mark c = if code mark == b'B' then "=" else if code mark == b'C' then "." else c

abbrev pub from_blocks : String → String
from_blocks (m ∷ c ∷ x ∷ y ∷ s) = of_block m c ∷ from_blocks s
from_blocks _ = []

plain_zeros : (s : String) → NoMarks s → NoMarks ("0" ∷ "0" ∷ s)
plain_zeros s h = (refl, (refl, (refl, (refl, h))))

zeros : (s : String) → NoMarks s → NoMarks ("0" ∷ "0" ∷ "0" ∷ s)
zeros s h = (refl, (refl, plain_zeros s h))

blocks-NoMarks : (s : String) → NoMarks (blocks s)
blocks-NoMarks [] = tt
blocks-NoMarks (c ∷ s) = elim (Bool-cases (code c == b'=')) [
  | inl e ↦ rw e (refl, (refl, zeros (blocks s) (blocks-NoMarks s)))
  | inr e ↦ rw e (elim (Bool-cases (code c == b'.')) [
    | inl d ↦ rw d (refl, (refl, zeros (blocks s) (blocks-NoMarks s)))
    | inr d ↦ rw d (refl, (refl, (e, (d, plain_zeros (blocks s) (blocks-NoMarks s)))))
  ])
]

size-block : (c : Char) (s : String) → size (block c s) ≡ 4 + size s
unfolding size
size-block c s = ground arith

size-blocks : (s : String) → size (blocks s) % 4 ≡ 0
unfolding size
size-blocks [] = refl
size-blocks (c ∷ s) = omega (arith, size-block c (blocks s), size-blocks s)

from_blocks-blocks : (s : String) → from_blocks (blocks s) ≡ s
from_blocks-blocks [] = refl
from_blocks-blocks (c ∷ s) = elim (Bool-cases (code c == b'=')) [
  | inl e ↦
      rw (e, from_blocks-blocks s)
        (ap (λ x. x ∷ s) (Char-path "=" c (sym ((nat_Eq.equal_iff (code c) b'=').0 e))))
  | inr e ↦ rw e (elim (Bool-cases (code c == b'.')) [
    | inl d ↦
        rw (d, from_blocks-blocks s)
          (ap (λ x. x ∷ s) (Char-path "." c (sym ((nat_Eq.equal_iff (code c) b'.').0 d))))
    | inr d ↦ rw (d, from_blocks-blocks s) refl
  ])
]

-- A text and a number, in front of a text.
abbrev pub put_text : String → String → String
put_text [] r = "." ∷ "." ∷ r
put_text (c ∷ s) r = "," ∷ c ∷ put_text s r

abbrev with_char : Char → Option (String × String) → Option (String × String)
with_char c none = none
with_char c (some (s, r)) = some (c ∷ s, r)

abbrev pub get_text : String → Option (String × String)
get_text (m ∷ c ∷ s) =
    let rest = get_text s in if code m == b'.' then some ([], s) else with_char c rest
get_text _ = none

get_text-put_text : (s r : String) → get_text (put_text s r) ≡ some (s, r)
get_text-put_text [] r = refl
get_text-put_text (c ∷ s) r = rw (get_text-put_text s r) refl

abbrev pub put_number : ℕ → String → String
put_number zero r = "." ∷ r
put_number (suc n) r = "," ∷ put_number n r

abbrev next_number : Option (ℕ × String) → Option (ℕ × String)
next_number none = none
next_number (some (n, r)) = some (suc n, r)

abbrev pub get_number : String → Option (ℕ × String)
get_number [] = none
get_number (m ∷ s) =
    let rest = get_number s in if code m == b'.' then some (0, s) else next_number rest

get_number-put_number : (n : ℕ) (r : String) → get_number (put_number n r) ≡ some (n, r)
get_number-put_number zero r = refl
get_number-put_number (suc n) r = rw (get_number-put_number n r) refl

-- The claims, one behind the other, and what is read of them.
abbrev flag : Bool → String → String
flag true s = "." ∷ s
flag false s = "," ∷ s

abbrev is_flag : Char → Bool
is_flag c = code c == b'.'

abbrev dumped : Value → String
dumped
      (dict (
        field _ (str u) (
          field _
            (str e)
            (field _ (bool b) (field _ (int (pos i)) (field _ (int (pos x)) end)))))) =
    flag b (put_text u (put_text e (put_number i (put_number x ""))))
dumped _ = ""

abbrev dict_of : String → String → Bool → ℕ → ℕ → Value
dict_of u e b i x = dict (
    field "sub" (str u) (
      field "email" (str e)
        (field "is_admin" (bool b) (field "iat" (int (pos i)) (field "exp" (int (pos x)) end)))))

abbrev with_exp : String → String → Bool → ℕ → Option (ℕ × String) → Option Value
with_exp u e b i none = none
with_exp u e b i (some (x, r)) = some (dict_of u e b i x)

abbrev with_iat : String → String → Bool → Option (ℕ × String) → Option Value
with_iat u e b none = none
with_iat u e b (some (i, r)) = with_exp u e b i (get_number r)

abbrev with_email : String → Bool → Option (String × String) → Option Value
with_email u b none = none
with_email u b (some (e, r)) = with_iat u e b (get_number r)

abbrev with_sub : Bool → Option (String × String) → Option Value
with_sub b none = none
with_sub b (some (u, r)) = with_email u b (get_text r)

abbrev loaded_dict : String → Option Value
loaded_dict [] = none
loaded_dict (c ∷ s) = with_sub (is_flag c) (get_text s)

loaded_dict-flag :
    (b : Bool) (u e : String) (i x : ℕ)
    → loaded_dict (flag b (put_text u (put_text e (put_number i (put_number x "")))))
      ≡ some (dict_of u e b i x)
loaded_dict-flag true u e i x =
    rw (get_text-put_text, get_text-put_text, get_number-put_number, get_number-put_number) refl
loaded_dict-flag false u e i x =
    rw (get_text-put_text, get_text-put_text, get_number-put_number, get_number-put_number) refl

-- The keyed hash is the message behind the key.
abbrev pub plain_crypto : Crypto
plain_crypto = record {
  hmac_sha256 = λ key message. key <> message;
  b64encode = blocks;
  b64decode = λ s. some (from_blocks s);
  dumps = dumped;
  loads = loaded_dict;
  is_ascii = λ s. true;
}

blocks-IsBase64 : (s : String) → IsBase64 (blocks s)
unfolding padding
blocks-IsBase64 s = record {
  body = blocks s;
  signs = 0;
  is_padded = sym (append-nil (blocks s));
  plain = blocks-NoMarks s;
  few = omega arith;
  whole = omega (arith, size-blocks s);
}

pub plain_crypto-CryptoLaws : CryptoLaws plain_crypto
unfolding value_runs
plain_crypto-CryptoLaws = record {
  b64_shape = blocks-IsBase64;
  b64_back = λ s. ap some (from_blocks-blocks s);
  json_back =
      λ u e b now. (_, loaded_dict-flag b u e (seconds now) (seconds (now + token_ttl)), λ k. refl);
  ascii_body = λ s. refl;
}
