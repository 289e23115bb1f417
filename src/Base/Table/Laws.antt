-- ===== src/Base/Table/Laws.antt =====
-- How the statements on a table act on one another.
use bitprotector.Base.Tests.{if◌then◌else◌, is_some, Bool-cases}
use bitprotector.Base.Lists.{All}
use mathlib.Core.Path.{◌≡◌, refl}
use mathlib.Core.Logic.{inl, inr}
use mathlib.Core.Bool.{Bool, true, false}
use mathlib.Core.Option.{Option, none, some}
use mathlib.Core.List.{List, [], ◌∷◌, ◌++◌}
use native.Mathlib.Omega.{arith}
use bitprotector.Base.Table.{find, update_where, count_where}

abbrev pub option_map {ℓ} : {A B : Type ℓ} → (A → B) → Option A → Option B
option_map f none = none
option_map f (some a) = some (f a)

module _ {ℓ} {A : Type ℓ} where
  -- An update that keeps a row matching is seen by the same query.
  pub find-update_where :
      (p : A → Bool) (f : A → A)
      → ((x : A) → p x ≡ true → p (f x) ≡ true)
      → (l : List A) → find p (update_where p f l) ≡ option_map f (find p l)
  find-update_where p f keep [] = refl
  find-update_where p f keep (x ∷ xs) = ground (arith, keep x, find-update_where p f keep xs)

  -- A query that the update's rows do not answer, before or after, is not affected.
  pub find-update_where_other :
      (p q : A → Bool) (f : A → A)
      → ((x : A) → p x ≡ true → (q x ≡ false) × (q (f x) ≡ false))
      → (l : List A) → find q (update_where p f l) ≡ find q l
  find-update_where_other p q f apart [] = refl
  find-update_where_other p q f apart (x ∷ xs) = elim (Bool-cases (p x)) [
    | inl hit ↦ rw (hit, (apart x hit).0, (apart x hit).1) (find-update_where_other p q f apart xs)
    | inr miss ↦ rw (miss, find-update_where_other p q f apart xs) refl
  ]

  -- An update leaves every query for a column that it does not set.
  pub find-update_where_same :
      (p q : A → Bool) (f : A → A)
      → ((x : A) → q (f x) ≡ q x)
      → (l : List A) → is_some (find q (update_where p f l)) ≡ is_some (find q l)
  find-update_where_same p q f same [] = refl
  find-update_where_same p q f same (x ∷ xs) =
      ground (arith, same x, find-update_where_same p q f same xs)

  pub find_sound : (p : A → Bool) (l : List A) (a : A) → find p l ≡ some a → p a ≡ true
  find_sound p [] a h = cc
  find_sound p (x ∷ xs) a h = ground (arith, find_sound p xs a)

  pub find-append :
      (p : A → Bool) (xs ys : List A)
      → find p (xs ++ ys) ≡ (if is_some (find p xs) then find p xs else find p ys)
  find-append p [] ys = refl
  find-append p (x ∷ xs) ys = ground (arith, find-append p xs ys)

  pub count_where_zero :
      (p : A → Bool) (l : List A) → count_where p l ≡ 0 → All (λ x. p x ≡ false) l
  count_where_zero p [] h = tt
  count_where_zero p (x ∷ xs) h = ground (arith, count_where_zero p xs)

  pub All-update_where {κ} :
      (P Q : A → Type κ) (p : A → Bool) (f : A → A)
      → ((x : A) → p x ≡ true → P x → Q (f x))
      → ((x : A) → p x ≡ false → P x → Q x)
      → (l : List A) → All P l
      → All Q (update_where p f l)
  All-update_where P Q p f hit miss [] h = tt
  All-update_where P Q p f hit miss (x ∷ xs) h = elim (Bool-cases (p x)) [
    | inl e ↦ rw e (hit x e h.0, All-update_where P Q p f hit miss xs h.1)
    | inr e ↦ rw e (miss x e h.0, All-update_where P Q p f hit miss xs h.1)
  ]

  pub All-append {κ} : (P : A → Type κ) (xs ys : List A) → All P xs → All P ys → All P (xs ++ ys)
  All-append P [] ys hx hy = hy
  All-append P (x ∷ xs) ys hx hy = (hx.0, All-append P xs ys hx.1 hy)

  pub All-weaken {κ} : (P Q : A → Type κ) → ((x : A) → P x → Q x) → (l : List A) → All P l → All Q l
  All-weaken P Q f [] h = tt
  All-weaken P Q f (x ∷ xs) h = (f x h.0, All-weaken P Q f xs h.1)
