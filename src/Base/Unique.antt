-- ===== src/Base/Unique.antt =====
-- A sort by an order in which only equal items compare as equal forgets the order of the input.
use virtvalidation.Base.{
  ◌≡◌, refl, ap, ◌∙◌, subst, inl, inr, Bool, true, List, [], ◌∷◌, map, arith, Bool-cases, nat_Eq,
  option_Eq, list_Eq,
}
use virtvalidation.Base.Sorting.{IsOrder, insert_sorted, sorted}
use mathlib.Core.List.{Perm, Permᴰ, is_set}
use mathlib.Core.Logic.{∥∥₁_elim}

module _ {ℓ} {A : Type ℓ} (le : A → A → Bool) (order : IsOrder le)
    (antisymm : (a b : A) → le a b ≡ true → le b a ≡ true → a ≡ b) where
  insert_sorted_same :
      (a b : A) (xs : List A)
      → a ≡ b
      → insert_sorted le a (insert_sorted le b xs) ≡ insert_sorted le b (insert_sorted le a xs)
  insert_sorted_same a b xs e =
      subst
        (λ z.
          insert_sorted le a (insert_sorted le z xs) ≡ insert_sorted le z (insert_sorted le a xs))
        e refl

  insert_sorted_comm :
      (a b : A) (xs : List A)
      → insert_sorted le a (insert_sorted le b xs) ≡ insert_sorted le b (insert_sorted le a xs)
  insert_sorted_comm a b [] = elim (Bool-cases (le a b)) [
    | inl ab ↦ elim (Bool-cases (le b a)) [
      | inl ba ↦ insert_sorted_same a b [] (antisymm a b ab ba)
      | inr nba ↦ rw (ab, nba) refl
    ]
    | inr nab ↦ rw (nab, order.total a b nab) refl
  ]
  insert_sorted_comm a b (y ∷ ys) = elim (Bool-cases (le a b)) [
    | inl ab ↦ elim (Bool-cases (le b a)) [
      | inl ba ↦ insert_sorted_same a b (y ∷ ys) (antisymm a b ab ba)
      | inr nba ↦ ground (arith, ab, nba, order.trans a b y, insert_sorted_comm a b ys)
    ]
    | inr nab ↦
        ground (arith, nab, order.total a b nab, order.trans b a y, insert_sorted_comm a b ys)
  ]

  sorted-permᴰ : {xs ys : List A} → Permᴰ xs ys → sorted le xs ≡ sorted le ys
  unfolding sorted
  sorted-permᴰ Permᴰ.nil = refl
  sorted-permᴰ (Permᴰ.cons e h) = rw (e, sorted-permᴰ h) refl
  sorted-permᴰ (Permᴰ.swap {a = a} {b = b} {l = l} e d) =
      rw (← e, ← d) (insert_sorted_comm _ _ (sorted le l))
  sorted-permᴰ (Permᴰ.trans h k) = sorted-permᴰ h ∙ sorted-permᴰ k

  pub sorted_unique : IsSet A → (xs ys : List A) → Perm xs ys → sorted le xs ≡ sorted le ys
  sorted_unique set xs ys p = ∥∥₁_elim p (is_set set _ _) sorted-permᴰ

-- Sorting by a key sorts the keys.
module _ {ℓ κ} {A : Type ℓ} {K : Type κ} (key : A → K) (le : K → K → Bool) where
  map-insert_sorted :
      (x : A) (xs : List A)
      → map key (insert_sorted (λ a b. le (key a) (key b)) x xs)
        ≡ insert_sorted le (key x) (map key xs)
  map-insert_sorted x [] = refl
  map-insert_sorted x (y ∷ ys) = elim (Bool-cases (le (key x) (key y))) [
    | inl first ↦ rw first refl
    | inr later ↦ rw later (rw (map-insert_sorted x ys) refl)
  ]

  pub map-sorted :
      (xs : List A) → map key (sorted (λ a b. le (key a) (key b)) xs) ≡ sorted le (map key xs)
  unfolding sorted
  map-sorted [] = refl
  map-sorted (x ∷ xs) =
      map-insert_sorted x (sorted (λ a b. le (key a) (key b)) xs)
      ∙ ap (insert_sorted le (key x)) (map-sorted xs)
