-- ===== src/Search/Order.antt =====
-- Sorting in two stable passes, by a second key and then by a first, is sorting by both.
use sentinel_drive.Prelude.{
  Bool, true, false, List, [], ◌∷◌, ◌≡◌, refl, ◌∙◌, sym, ap, if◌then◌else◌, Bool-cases, inl, inr,
  All, arith, insert_by, sort_by, insert_by-All, sort_by-All, sort_by-Sorted, Sorted,
}

-- By the first order, and where it does not tell two elements apart, by the second.
abbrev pub lex {ℓ} : {A : Type ℓ} → (A → A → Bool) → (A → A → Bool) → A → A → Bool
lex first second a b = if first a b then (if first b a then second a b else true) else false

-- A total preorder.
pub record IsOrder {ℓ} {A : Type ℓ} (le : A → A → Bool) : Type ℓ where
  pub total : (x y : A) → le x y ≡ false → le y x ≡ true
  pub trans : (x y z : A) → le x y ≡ true → le y z ≡ true → le x z ≡ true

-- Two elements of which one comes first may be inserted in either order.
insert_by_comm {ℓ} :
    {A : Type ℓ} (le : A → A → Bool) (o : IsOrder le) (x y : A) (zs : List A)
    → le x y ≡ false
    → insert_by le y (insert_by le x zs) ≡ insert_by le x (insert_by le y zs)
unfolding insert_by
insert_by_comm le o x y [] h = ground (arith, o.total x y)
insert_by_comm le o x y (z ∷ zs) h = elim (Bool-cases (le x z)) [
  | inl a ↦ ground (arith, o.total x y, o.trans y x z)
  | inr a ↦ elim (Bool-cases (le y z)) [
    | inl b ↦ ground (arith)
    | inr b ↦ ground (arith, insert_by_comm le o x y zs h)
  ]
]

module _ {ℓ} {A : Type ℓ} (first second : A → A → Bool) (f : IsOrder first)
    (s : IsOrder second) where
  abbrev both : A → A → Bool
  both = lex first second

  lex_total : (x y : A) → both x y ≡ false → both y x ≡ true
  lex_total x y h = ground (arith, f.total x y, f.total y x, s.total x y)

  lex_trans : (x y z : A) → both x y ≡ true → both y z ≡ true → both x z ≡ true
  lex_trans x y z h k =
      ground (arith, f.trans x y z, f.trans z x y, f.trans y z x, f.trans z y x, s.trans x y z)

  pub lex-IsOrder : IsOrder both
  lex-IsOrder = record { total = lex_total; trans = lex_trans }

  -- In front of elements that are not before it, the first order decides alone.
  insert_by-agrees :
      (x : A) (zs : List A)
      → All (λ z. second x z ≡ true) zs
      → insert_by first x zs ≡ insert_by both x zs
  unfolding insert_by
  insert_by-agrees x [] h = refl
  insert_by-agrees x (z ∷ zs) (e, h) = elim (Bool-cases (first x z)) [
    | inl a ↦ elim (Bool-cases (first z x)) [ inl b ↦ rw (a, b, e) refl | inr b ↦ rw (a, b) refl ]
    | inr a ↦ rw (a, insert_by-agrees x zs h) refl
  ]

  All-trans :
      (x y : A) (ys : List A)
      → second x y ≡ true
      → All (λ z. second y z ≡ true) ys
      → All (λ z. second x z ≡ true) ys
  All-trans x y [] e h = tt
  All-trans x y (z ∷ ys) e (p, h) = (s.trans x y z e p, All-trans x y ys e h)

  not_before : (x y : A) → second x y ≡ false → both x y ≡ true → both y x ≡ false
  not_before x y h k = ground arith

  either_comm :
      (x y : A) (zs : List A)
      → second x y ≡ false
      → insert_by both y (insert_by both x zs) ≡ insert_by both x (insert_by both y zs)
  either_comm x y zs h = elim (Bool-cases (both x y)) [
    | inl e ↦ sym (insert_by_comm both lex-IsOrder y x zs (not_before x y h e))
    | inr e ↦ insert_by_comm both lex-IsOrder x y zs e
  ]

  -- One more element, before the second pass or into its result.
  sort_by-insert :
      (x : A) (ys : List A)
      → Sorted second ys
      → sort_by first (insert_by second x ys) ≡ insert_by both x (sort_by first ys)
  unfolding insert_by sort_by
  sort_by-insert x [] h = refl
  sort_by-insert x (y ∷ ys) (p, h) = elim (Bool-cases (second x y)) [
    | inl a ↦ rw a (
        insert_by-agrees x (sort_by first (y ∷ ys))
          (sort_by-All (λ z. second x z ≡ true) first (y ∷ ys) (a, All-trans x y ys a p)))
    | inr a ↦ rw a (
        ap (insert_by first y) (sort_by-insert x ys h)
        ∙ (insert_by-agrees y (insert_by both x (sort_by first ys)) (
              insert_by-All (λ z. second y z ≡ true) both x (sort_by first ys) (s.total x y a)
                (sort_by-All (λ z. second y z ≡ true) first ys p))
            ∙ (either_comm x y (sort_by first ys) a
                ∙ ap (insert_by both x) (
                    sym (
                      insert_by-agrees y (sort_by first ys)
                        (sort_by-All (λ z. second y z ≡ true) first ys p))))))
  ]

  -- Sorting by the second order and then, in a stable way, by the first is sorting by the first and,
  -- where it does not decide, by the second.
  pub sort_by_twice : (xs : List A) → sort_by first (sort_by second xs) ≡ sort_by both xs
  unfolding sort_by
  sort_by_twice [] = refl
  sort_by_twice (x ∷ xs) =
      sort_by-insert x (sort_by second xs) (sort_by-Sorted second s.total s.trans xs)
      ∙ ap (insert_by both x) (sort_by_twice xs)
