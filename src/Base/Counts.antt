-- ===== src/Base/Counts.antt =====
-- Filters and counts by a Boolean test, and what a rearrangement of the list leaves alone.
use Prim.Native.Nat.{ℕ, ◌+◌, ◌≤◌}
use mathlib.Core.Path.{◌≡◌, refl, ◌∙◌, subst}
use mathlib.Core.Bool.{Bool, true, false}
use mathlib.Core.Logic.{∥∥₁_elim}
use mathlib.Core.HLevel.{×_prop}
use mathlib.Core.List.{List, [], ◌∷◌, ◌++◌, Perm, Permᴰ}
use native.Mathlib.Nat.{ℕ_set}
use native.Mathlib.Omega.{arith}
use virtvalidation.Base.Tests.{if◌then◌else◌}
use virtvalidation.Base.Lists.{length, All}

module _ {ℓ} {A : Type ℓ} where
  -- `[x for x in l if p(x)]`
  abbrev pub filter_by : (A → Bool) → List A → List A
  filter_by p [] = []
  filter_by p (x ∷ xs) = let rest = filter_by p xs in if p x then x ∷ rest else rest

  -- `any(p(x) for x in l)`
  abbrev pub any_by : (A → Bool) → List A → Bool
  any_by p [] = false
  any_by p (x ∷ xs) = let rest = any_by p xs in if p x then true else rest

  -- `sum(1 for x in l if p(x))`
  abbrev pub count_by : (A → Bool) → List A → ℕ
  count_by p [] = 0
  count_by p (x ∷ xs) = (if p x then 1 else 0) + count_by p xs

  pub count_by-append :
      (p : A → Bool) (xs ys : List A) → count_by p (xs ++ ys) ≡ count_by p xs + count_by p ys
  count_by-append p [] ys = omega arith
  count_by-append p (x ∷ xs) ys = omega (arith, count_by-append p xs ys)

  pub count_by-le-length : (p : A → Bool) (xs : List A) → count_by p xs ≤ length xs
  count_by-le-length p [] = omega arith
  count_by-le-length p (x ∷ xs) = ground (arith, count_by-le-length p xs)

  pub length-filter_by : (p : A → Bool) (xs : List A) → length (filter_by p xs) ≡ count_by p xs
  length-filter_by p [] = refl
  length-filter_by p (x ∷ xs) = ground (arith, length-filter_by p xs)

  count_by-permᴰ : (p : A → Bool) {xs ys : List A} → Permᴰ xs ys → count_by p xs ≡ count_by p ys
  count_by-permᴰ p Permᴰ.nil = refl
  count_by-permᴰ p (Permᴰ.cons e h) = rw e (omega (arith, count_by-permᴰ p h))
  count_by-permᴰ p (Permᴰ.swap {l = l} e f) = rw (e, f) (omega arith)
  count_by-permᴰ p (Permᴰ.trans h k) = omega (arith, count_by-permᴰ p h, count_by-permᴰ p k)

  pub count_by-perm : (p : A → Bool) {xs ys : List A} → Perm xs ys → count_by p xs ≡ count_by p ys
  count_by-perm p h = ∥∥₁_elim h (ℕ_set _ _) (count_by-permᴰ p)

  pub any_by-permᴰ : (p : A → Bool) {xs ys : List A} → Permᴰ xs ys → any_by p xs ≡ any_by p ys
  any_by-permᴰ p Permᴰ.nil = refl
  any_by-permᴰ p (Permᴰ.cons e h) = rw (e, any_by-permᴰ p h)
  any_by-permᴰ p (Permᴰ.swap e f) = rw (e, f) (ground arith)
  any_by-permᴰ p (Permᴰ.trans h k) = any_by-permᴰ p h ∙ any_by-permᴰ p k

  pub any_by-perm : (p : A → Bool) {xs ys : List A} → Perm xs ys → any_by p xs ≡ any_by p ys
  any_by-perm p h = ∥∥₁_elim h (hlevel) (any_by-permᴰ p)

  pub length-permᴰ : {xs ys : List A} → Permᴰ xs ys → length xs ≡ length ys
  length-permᴰ Permᴰ.nil = refl
  length-permᴰ (Permᴰ.cons e h) = omega (arith, length-permᴰ h)
  length-permᴰ (Permᴰ.swap e f) = refl
  length-permᴰ (Permᴰ.trans h k) = length-permᴰ h ∙ length-permᴰ k

  pub length-perm : {xs ys : List A} → Perm xs ys → length xs ≡ length ys
  length-perm h = ∥∥₁_elim h (ℕ_set _ _) length-permᴰ

  module _ {κ} (P : A → Type κ) where
    All-permᴰ : {xs ys : List A} → Permᴰ xs ys → All P xs → All P ys
    All-permᴰ Permᴰ.nil h = tt
    All-permᴰ (Permᴰ.cons e p) h = (subst P e h.0, All-permᴰ p h.1)
    All-permᴰ (Permᴰ.swap e f) h = (subst P f h.1.0, (subst P e h.0, h.1.1))
    All-permᴰ (Permᴰ.trans p q) h = All-permᴰ q (All-permᴰ p h)

    pub All-prop : ((x : A) → IsProp (P x)) → (xs : List A) → IsProp (All P xs)
    All-prop pP [] = hlevel
    All-prop pP (x ∷ xs) = ×_prop (pP x) (All-prop pP xs)

    pub All-perm : ((x : A) → IsProp (P x)) → {xs ys : List A} → Perm xs ys → All P xs → All P ys
    All-perm pP {ys = ys} p h = ∥∥₁_elim p (All-prop pP ys) (λ d. All-permᴰ d h)
