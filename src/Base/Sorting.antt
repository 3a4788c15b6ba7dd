-- ===== src/Base/Sorting.antt =====
-- Python's `sorted(l, key=k)` as a stable insertion sort by a Boolean order `le`, which compares
-- the keys.
use virtvalidation.Base.Tests.{if◌then◌else◌, Bool-cases, ltb, nat_eq}
use virtvalidation.Base.Lists.{All, All-imp}
use Prim.Native.Nat.{ℕ}
use mathlib.Core.Path.{◌≡◌, refl}
use mathlib.Core.Bool.{Bool, true, false}
use mathlib.Core.Logic.{inl, inr}
use mathlib.Core.List.{List, [], ◌∷◌, Perm}
use mathlib.Core.List.Perm
use native.Mathlib.Omega.{arith}

-- A total order up to equal keys.
pub record IsOrder {ℓ} {A : Type ℓ} (le : A → A → Bool) : Type ℓ where
  pub total : (a b : A) → le a b ≡ false → le b a ≡ true
  pub trans : (a b c : A) → le a b ≡ true → le b c ≡ true → le a c ≡ true

module _ {ℓ} {A : Type ℓ} (le : A → A → Bool) where
  -- In front of the first item that is not smaller, so that equal keys keep their order.
  abbrev pub insert_sorted : A → List A → List A
  insert_sorted x [] = x ∷ []
  insert_sorted x (y ∷ ys) =
      let rest = insert_sorted x ys in if le x y then x ∷ y ∷ ys else y ∷ rest

  unfoldable pub sorted : List A → List A
  sorted [] = []
  sorted (x ∷ xs) = insert_sorted x (sorted xs)

  abbrev pub IsSorted : List A → Type ℓ
  IsSorted [] = Unit
  IsSorted (x ∷ xs) = All (λ y. le x y ≡ true) xs × IsSorted xs

  pub insert_sorted-perm : (x : A) (ys : List A) → Perm (insert_sorted x ys) (x ∷ ys)
  insert_sorted-perm x [] = Perm.refl _
  insert_sorted-perm x (y ∷ ys) = elim (Bool-cases (le x y)) [
    | inl first ↦ rw first (Perm.refl _)
    | inr later ↦ rw later (Perm.trans (Perm.cons y (insert_sorted-perm x ys)) (Perm.swap x y ys))
  ]

  -- Sorting rearranges: nothing is lost, added or doubled.
  pub sorted-perm : (xs : List A) → Perm (sorted xs) xs
  unfolding sorted
  sorted-perm [] = Perm.refl _
  sorted-perm (x ∷ xs) =
      Perm.trans (insert_sorted-perm x (sorted xs)) (Perm.cons x (sorted-perm xs))

  insert_sorted-All_of {κ} :
      (P : A → Type κ) (x : A) (ys : List A) → P x → All P ys → All P (insert_sorted x ys)
  insert_sorted-All_of P x [] h hs = (h, tt)
  insert_sorted-All_of P x (y ∷ ys) h hs = elim (Bool-cases (le x y)) [
    | inl first ↦ rw first (h, hs)
    | inr later ↦ rw later (hs.0, insert_sorted-All_of P x ys h hs.1)
  ]

  -- What holds of every item holds of every item after the sort.
  pub sorted-All {κ} : (P : A → Type κ) (xs : List A) → All P xs → All P (sorted xs)
  unfolding sorted
  sorted-All P [] h = tt
  sorted-All P (x ∷ xs) h = insert_sorted-All_of P x (sorted xs) h.0 (sorted-All P xs h.1)

  module _ (order : IsOrder le) where
    insert_sorted-All :
        (a x : A) (ys : List A)
        → le a x ≡ true
        → All (λ y. le a y ≡ true) ys
        → All (λ y. le a y ≡ true) (insert_sorted x ys)
    insert_sorted-All a x [] h hs = (h, tt)
    insert_sorted-All a x (y ∷ ys) h hs = elim (Bool-cases (le x y)) [
      | inl first ↦ rw first (h, hs)
      | inr later ↦ rw later (hs.0, insert_sorted-All a x ys h hs.1)
    ]

    insert_sorted-IsSorted : (x : A) (ys : List A) → IsSorted ys → IsSorted (insert_sorted x ys)
    insert_sorted-IsSorted x [] h = (tt, tt)
    insert_sorted-IsSorted x (y ∷ ys) h = elim (Bool-cases (le x y)) [
      | inl first ↦ rw first ((first, All-imp ys (λ z hz. order.trans x y z first hz) h.0), h)
      | inr later ↦
          rw later
            (insert_sorted-All y x ys (order.total x y later) h.0, insert_sorted-IsSorted x ys h.1)
    ]

    pub sorted-IsSorted : (xs : List A) → IsSorted (sorted xs)
    unfolding sorted
    sorted-IsSorted [] = tt
    sorted-IsSorted (x ∷ xs) = insert_sorted-IsSorted x (sorted xs) (sorted-IsSorted xs)

  -- A list that is in order already stays as it is.
  insert_sorted-head :
      (x : A) (ys : List A) → All (λ y. le x y ≡ true) ys → insert_sorted x ys ≡ x ∷ ys
  insert_sorted-head x [] h = refl
  insert_sorted-head x (y ∷ ys) h = rw h.0

  pub sorted_of_IsSorted : (xs : List A) → IsSorted xs → sorted xs ≡ xs
  unfolding sorted
  sorted_of_IsSorted [] h = refl
  sorted_of_IsSorted (x ∷ xs) h = rw (sorted_of_IsSorted xs h.1) (insert_sorted-head x xs h.0)

-- Tuple keys: the first component is a number, `next` compares the others.
module _ {ℓ} {A : Type ℓ} (key : A → ℕ) (next : A → A → Bool) where
  abbrev pub by_nat : A → A → Bool
  by_nat a b =
      if ltb (key a) (key b) then true else if nat_eq (key a) (key b) then next a b else false

  pub by_nat-IsOrder : IsOrder next → IsOrder by_nat
  by_nat-IsOrder o = record {
    total = λ a b h. ground (arith, o.total a b);
    trans = λ a b c h k. ground (arith, o.trans a b c);
  }

  pub by_nat_antisymm :
      (a b : A) → by_nat a b ≡ true → by_nat b a ≡ true → (next a b ≡ true) × (next b a ≡ true)
  by_nat_antisymm a b h k = ground arith
