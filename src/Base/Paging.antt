-- ===== src/Base/Paging.antt =====
-- LIMIT and OFFSET: a page of the rows of a query.
use bitprotector.Base.{
  ◌∙◌, ℕ, zero, suc, ◌+◌, ◌-◌, ◌*◌, ◌≤◌, ◌≡◌, refl, ap, List, [], ◌∷◌, ◌++◌, arith, take, drop,
  length,
}
use native.Mathlib.Numerals.{unary_clauses}

zero_plus : (m : ℕ) → m ≡ 0 + m
zero_plus m = omega arith

suc_plus : (n m : ℕ) → suc (n + m) ≡ suc n + m
suc_plus n m = omega arith

module _ {ℓ} {A : Type ℓ} where
  -- LIMIT per_page OFFSET (page - 1) * per_page
  abbrev pub page_of : ℕ → ℕ → List A → List A
  page_of page per_page l = take per_page (drop ((page - 1) * per_page) l)

  pub take-append-take : (n m : ℕ) (l : List A) → take n l ++ take m (drop n l) ≡ take (n + m) l
  take-append-take zero m l = ap (λ (k : ℕ). take k l) (zero_plus m)
  take-append-take (suc n) zero [] = simp unary_clauses refl
  take-append-take (suc n) (suc m) [] = simp unary_clauses refl
  take-append-take (suc n) m (x ∷ xs) =
      ap (λ (r : List A). x ∷ r) (take-append-take n m xs)
      ∙ ap (λ (k : ℕ). take k (x ∷ xs)) (suc_plus n m)

  pub drop-drop : (n m : ℕ) (l : List A) → drop m (drop n l) ≡ drop (n + m) l
  drop-drop zero m l = ap (λ (k : ℕ). drop k l) (zero_plus m)
  drop-drop (suc n) zero [] = simp unary_clauses refl
  drop-drop (suc n) (suc m) [] = simp unary_clauses refl
  drop-drop (suc n) m (x ∷ xs) = drop-drop n m xs ∙ ap (λ (k : ℕ). drop k (x ∷ xs)) (suc_plus n m)

  pub length-take_le : (n : ℕ) (l : List A) → length (take n l) ≤ n
  length-take_le zero l = omega arith
  length-take_le (suc n) [] = omega arith
  length-take_le (suc n) (x ∷ xs) = omega (arith, length-take_le n xs)

  pub take_all : (n : ℕ) (l : List A) → length l ≤ n → take n l ≡ l
  take_all zero [] h = refl
  take_all zero (x ∷ xs) h = absurd (omega arith)
  take_all (suc n) [] h = refl
  take_all (suc n) (x ∷ xs) h = ap (λ (r : List A). x ∷ r) (take_all n xs (omega arith))

  pub drop_all : (n : ℕ) (l : List A) → length l ≤ n → drop n l ≡ []
  drop_all zero [] h = refl
  drop_all zero (x ∷ xs) h = absurd (omega arith)
  drop_all (suc n) [] h = refl
  drop_all (suc n) (x ∷ xs) h = drop_all n xs (omega arith)
