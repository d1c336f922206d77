-- ===== src/Search/Pages.antt =====
-- What the pages of a listing add up to.
use sentinel_drive.Prelude.{
  ℕ, zero, suc, ◌+◌, ◌-◌, ◌*◌, ◌≤◌, false, List, [], ◌∷◌, ◌++◌, ◌≡◌, refl, ◌∙◌, sym, ap, arith,
  length, take, drop, ltb, length-take,
}
use sentinel_drive.Search.{page_of}

zero_times : (n : ℕ) → 0 ≡ 0 * n
zero_times n = omega arith

less_one : (n : ℕ) → suc n - 1 ≡ n
less_one n = omega arith

one_more : (n k : ℕ) → n * k + k ≡ suc n * k
one_more n k = grind arith

not_less : (a b : ℕ) → ltb a b ≡ false → b ≤ a
not_less a b h = ground arith

ends : (n k total : ℕ) → ltb ((suc n - 1) * k + k) total ≡ false → total ≤ suc n * k
ends n k total h = not_less (suc n * k) total (rw (less_one n, one_more n k) at h)

module _ {ℓ} {A : Type ℓ} where
  take_of : {m n : ℕ} → m ≡ n → (xs : List A) → take m xs ≡ take n xs
  take_of e xs = ap (λ k. take k xs) e

  take_nil : (n : ℕ) → take {A = A} n [] ≡ []
  take_nil zero = refl
  take_nil (suc n) = refl

  take_then_drop : (a b : ℕ) (xs : List A) → take a xs ++ take b (drop a xs) ≡ take (a + b) xs
  take_then_drop zero b xs = take_of (omega arith) xs
  take_then_drop (suc a) b [] = take_nil b ∙ sym (take_nil (suc a + b))
  take_then_drop (suc a) b (x ∷ xs) =
      ap (λ ys. x ∷ ys) (take_then_drop a b xs) ∙ take_of {m = suc (a + b)} (omega arith) (x ∷ xs)

  take_whole : (n : ℕ) (xs : List A) → length xs ≤ n → take n xs ≡ xs
  take_whole zero [] h = refl
  take_whole zero (x ∷ xs) h = absurd (omega arith)
  take_whole (suc n) [] h = refl
  take_whole (suc n) (x ∷ xs) h = ap (λ ys. x ∷ ys) (take_whole n xs (omega arith))

  -- The items of the first pages, one after another.
  abbrev pub pages_up_to : List A → ℕ → ℕ → List A
  pages_up_to results limit zero = []
  pages_up_to results limit (suc n) =
      pages_up_to results limit n ++ (page_of results (suc n) limit).items

  pages-take :
      (results : List A) (limit n : ℕ) → pages_up_to results limit n ≡ take (n * limit) results
  unfolding page_of
  pages-take results limit zero = take_of {m = 0} (zero_times limit) results
  pages-take results limit (suc n) =
      ap (λ k. pages_up_to results limit n ++ take limit (drop (k * limit) results)) (less_one n)
      ∙ (ap (λ ys. ys ++ take limit (drop (n * limit) results)) (pages-take results limit n)
          ∙ (take_then_drop (n * limit) limit results ∙ take_of (one_more n limit) results))

  items-le : (results : List A) (page limit : ℕ) → length (page_of results page limit).items ≤ limit
  unfolding page_of
  items-le results page limit = omega (arith, length-take limit (drop ((page - 1) * limit) results))

  -- Reading page after page until one has no next gives every result once, in order, and no page has
  -- more items than the limit.
  pub pages-whole :
      (results : List A) (limit n : ℕ)
      → (page_of results (suc n) limit).has_next ≡ false
      → (pages_up_to results limit (suc n) ≡ results)
        × (length (page_of results (suc n) limit).items ≤ limit)
  unfolding page_of
  pages-whole results limit n h = (
    pages-take results limit (suc n)
        ∙ take_whole (suc n * limit) results (ends n limit (length results) h),
    items-le results (suc n) limit,
  )
