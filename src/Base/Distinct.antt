-- ===== src/Base/Distinct.antt =====
-- Lists with no item twice, by the Boolean membership test `x in l`.
use virtvalidation.Base.{
  ◌≡◌, refl, sym, ◌∙◌, subst, Bool, true, false, not, ◌&&◌, ◌||◌, List, [], ◌∷◌, ◌++◌, arith, inl,
  inr, Eq, ◌==◌, ==→eq, ==-refl, any_by, any_by-perm, any_by-permᴰ, filter_by, Bool-cases,
}
use mathlib.Core.List.{Perm, Permᴰ}
use mathlib.Core.HLevel.{×_prop}
use mathlib.Core.Logic.{∥∥₁_elim}
use mathlib.Core.List.Perm

module _ {ℓ} {A : Type ℓ} ⦃e : Eq A⦄ where
  -- `a in l`
  abbrev pub contains : List A → A → Bool
  contains l a = any_by (λ i. i == a) l

  abbrev pub Distinct : List A → Type 0
  Distinct [] = Unit
  Distinct (x ∷ xs) = (contains xs x ≡ false) × Distinct xs

  pub contains-append :
      (xs ys : List A) (a : A) → contains (xs ++ ys) a ≡ (contains xs a || contains ys a)
  contains-append [] ys a = refl
  contains-append (x ∷ xs) ys a = ground (arith, contains-append xs ys a)

  pub contains-perm : (xs ys : List A) (a : A) → Perm xs ys → contains xs a ≡ contains ys a
  contains-perm xs ys a h = any_by-perm (λ i. i == a) h

  eq_flip : (a b : A) → (a == b) ≡ (b == a)
  eq_flip a b = ground (arith, e.beq_iff a b, e.beq_iff b a)

  Distinct-permᴰ : {xs ys : List A} → Permᴰ xs ys → Distinct xs → Distinct ys
  Distinct-permᴰ Permᴰ.nil h = tt
  Distinct-permᴰ (Permᴰ.cons {b = b} {l₁ = l₁} p q) h = (
    sym (any_by-permᴰ (λ i. i == b) q) ∙ subst (λ z. contains l₁ z ≡ false) p h.0,
    Distinct-permᴰ q h.1,
  )
  Distinct-permᴰ (Permᴰ.swap {a = a} {b = b} {b' = b'} {l = l} p q) h =
      let core : Distinct (b ∷ a ∷ l) = (ground (arith, eq_flip a b), (ground arith, h.1.1)) in
      subst (λ z. Distinct (z ∷ b' ∷ l)) q (subst (λ z. Distinct (b ∷ z ∷ l)) p core)
  Distinct-permᴰ (Permᴰ.trans p q) h = Distinct-permᴰ q (Distinct-permᴰ p h)

  Distinct-prop : (xs : List A) → IsProp (Distinct xs)
  Distinct-prop [] = hlevel
  Distinct-prop (x ∷ xs) = ×_prop (hlevel) (Distinct-prop xs)

  pub Distinct-perm : (xs ys : List A) → Perm xs ys → Distinct xs → Distinct ys
  Distinct-perm xs ys p h = ∥∥₁_elim p (Distinct-prop ys) (λ d. Distinct-permᴰ d h)

  pub Distinct-append_left : (xs ys : List A) → Distinct (xs ++ ys) → Distinct xs
  Distinct-append_left [] ys h = tt
  Distinct-append_left (x ∷ xs) ys h =
      (ground (arith, contains-append xs ys x, h.0), Distinct-append_left xs ys h.1)

  pub Distinct-append_right : (xs ys : List A) → Distinct (xs ++ ys) → Distinct ys
  Distinct-append_right [] ys h = h
  Distinct-append_right (x ∷ xs) ys h = Distinct-append_right xs ys h.1

  pub Distinct-append :
      (xs ys : List A)
      → Distinct xs
      → Distinct ys
      → ((a : A) → contains xs a ≡ true → contains ys a ≡ false)
      → Distinct (xs ++ ys)
  Distinct-append [] ys dx dy h = dy
  Distinct-append (x ∷ xs) ys dx dy h = (
    ground (arith, contains-append xs ys x, dx.0, h x, ==-refl x),
    Distinct-append xs ys dx.1 dy (λ a there. h a (ground arith)),
  )

  pub contains-filter_by :
      (p : A → Bool) (xs : List A) (a : A) → contains (filter_by p xs) a ≡ (contains xs a && p a)
  contains-filter_by p [] a = refl
  contains-filter_by p (x ∷ xs) a = elim (Bool-cases (x == a)) [
    | inl same ↦ rw (==→eq x a same) (ground (arith, contains-filter_by p xs a, ==-refl a))
    | inr other ↦ ground (arith, contains-filter_by p xs a)
  ]

  pub Distinct-filter_by : (p : A → Bool) (xs : List A) → Distinct xs → Distinct (filter_by p xs)
  Distinct-filter_by p [] h = tt
  Distinct-filter_by p (x ∷ xs) h = elim (Bool-cases (p x)) [
    | inl keep ↦ rw keep (ground (arith, contains-filter_by p xs x), Distinct-filter_by p xs h.1)
    | inr drop ↦ rw drop (Distinct-filter_by p xs h.1)
  ]

  -- A list without `x`.
  abbrev without : A → List A → List A
  without x = filter_by (λ y. not (y == x))

  pub without-absent : (x : A) (ys : List A) → contains ys x ≡ false → without x ys ≡ ys
  without-absent x [] h = refl
  without-absent x (y ∷ ys) h = ground (arith, without-absent x ys)

  without-perm :
      (x : A) (ys : List A) → Distinct ys → contains ys x ≡ true → Perm ys (x ∷ without x ys)
  without-perm x [] d h = cc
  without-perm x (y ∷ ys) d h = elim (Bool-cases (y == x)) [
    | inl same ↦
        let e' : y ≡ x = ==→eq y x same in
        rw (same, without-absent x ys (subst (λ z. contains ys z ≡ false) e' d.0))
          (rw e' (Perm.refl _))
    | inr other ↦
        rw other (Perm.trans (Perm.cons y (without-perm x ys d.1 (ground arith))) (Perm.swap x y _))
  ]

  contains-tail :
      (x : A) (xs ys : List A) (a : A)
      → contains xs x ≡ false
      → contains (x ∷ xs) a ≡ contains ys a
      → contains xs a ≡ contains (without x ys) a
  contains-tail x xs ys a d h = elim (Bool-cases (x == a)) [
    | inl same ↦
        let gone : contains xs a ≡ false = subst (λ z. contains xs z ≡ false) (==→eq x a same) d in
        ground (arith, gone, contains-filter_by (λ y. not (y == x)) ys a, eq_flip x a)
    | inr other ↦ ground (arith, contains-filter_by (λ y. not (y == x)) ys a, eq_flip x a)
  ]

  -- Two lists without repetition that hold the same items are rearrangements of one another.
  pub perm_of_contains :
      (xs ys : List A)
      → Distinct xs
      → Distinct ys
      → ((a : A) → contains xs a ≡ contains ys a)
      → Perm xs ys
  perm_of_contains [] [] dx dy h = Perm.refl _
  perm_of_contains [] (y ∷ ys) dx dy h = absurd (ground (arith, h y, ==-refl y))
  perm_of_contains (x ∷ xs) ys dx dy h =
      let here : contains ys x ≡ true = ground (arith, h x, ==-refl x) in
      Perm.symm (
        Perm.trans (without-perm x ys dy here) (
          Perm.cons x (
            Perm.symm (
              perm_of_contains xs (without x ys) dx.1 (Distinct-filter_by _ ys dy)
                (λ a. contains-tail x xs ys a dx.0 (h a))))))
