-- ===== src/Base/Buckets.antt =====
-- Items sorted into the lists of a dict, `buckets[f(x)].append(x)`.
use virtvalidation.Base.{
  ◌≡◌, refl, sym, subst, Bool, true, not, List, [], ◌∷◌, ◌++◌, arith, inl, inr, Eq, ◌==◌, ==→eq,
  Bool-cases, All, All-append, filter_by,
}
use virtvalidation.Base.Dicts.{Dict, get_default, put, push}
use virtvalidation.Base.Rearranged.{collect}
use mathlib.Core.List.{Perm, append-nil, append_assoc, perm_middle}
use mathlib.Core.List.Perm

module _ {ℓ κ} {K : Type ℓ} {A : Type κ} ⦃e : Eq K⦄ where
  -- The items of all buckets.
  abbrev pub in_buckets : Dict K (List A) → List A
  in_buckets buckets = collect (λ (b : K × List A). b.1) buckets

  put-perm :
      (k : K) (v : A) (vs : List A) (d : Dict K (List A))
      → vs ≡ get_default k [] d ++ v ∷ []
      → Perm (in_buckets (put k vs d)) (v ∷ in_buckets d)
  put-perm k v vs [] h = rw (h, append-nil) (Perm.refl _)
  put-perm k v vs ((j, ws) ∷ d) h = elim (Bool-cases (j == k)) [
    | inl same ↦
        let h' : vs ≡ ws ++ v ∷ [] = ground arith in
        rw (same, h', append_assoc) (perm_middle ws (in_buckets d))
    | inr other ↦
        let h' : vs ≡ get_default k [] d ++ v ∷ [] = ground arith in
        rw other
          (Perm.trans (Perm.append_left ws (put-perm k v vs d h')) (perm_middle ws (in_buckets d)))
  ]

  put-All {μ} :
      (P : K × List A → Type μ) (k : K) (vs : List A) (d : Dict K (List A))
      → ((j : K) → (j == k) ≡ true → P (j, vs))
      → P (k, vs)
      → All P d
      → All P (put k vs d)
  put-All P k vs [] h here all = (here, tt)
  put-All P k vs ((j, ws) ∷ d) h here all = elim (Bool-cases (j == k)) [
    | inl same ↦ rw same (h j same, all.1)
    | inr other ↦ rw other (all.0, put-All P k vs d h here all.1)
  ]

  pub get_default-All {μ} :
      (P : K × List A → Type μ) (k : K) (d : Dict K (List A))
      → P (k, [])
      → All P d
      → P (k, get_default k [] d)
  get_default-All P k [] empty all = empty
  get_default-All P k ((j, ws) ∷ d) empty all = elim (Bool-cases (j == k)) [
    | inl same ↦
        let here : get_default k [] ((j, ws) ∷ d) ≡ ws = ground (arith, same) in
        subst (λ vs. P (k, vs)) (sym here) (subst (λ z. P (z, ws)) (==→eq j k same) all.0)
    | inr other ↦
        let later : get_default k [] ((j, ws) ∷ d) ≡ get_default k [] d = ground (arith, other) in
        subst (λ vs. P (k, vs)) (sym later) (get_default-All P k d empty all.1)
  ]

  -- What holds of every item of the lists, and of the new item, holds after the push.
  pub push-All {μ} :
      (P : A → Type μ) (k : K) (v : A) (d : Dict K (List A))
      → P v
      → All (λ (b : K × List A). All P b.1) d
      → All (λ (b : K × List A). All P b.1) (push k v d)
  push-All P k v d here all =
      let item : All P (get_default k [] d ++ v ∷ []) =
        All-append _ _ _ (get_default-All (λ (b : K × List A). All P b.1) k d tt all) (here, tt) in
      put-All (λ (b : K × List A). All P b.1) k _ d (λ j same. item) item all

  module _ (f : A → K) where
    unfoldable pub bucket_by : Dict K (List A) → List A → Dict K (List A)
    bucket_by buckets [] = buckets
    bucket_by buckets (v ∷ vs) = bucket_by (push (f v) v buckets) vs

    -- The buckets hold the items, each as often as the list does.
    pub bucket_by-perm :
        (buckets : Dict K (List A)) (vs : List A)
        → Perm (in_buckets (bucket_by buckets vs)) (in_buckets buckets ++ vs)
    unfolding bucket_by
    bucket_by-perm buckets [] = rw (append-nil (in_buckets buckets)) (Perm.refl _)
    bucket_by-perm buckets (v ∷ vs) = Perm.trans (bucket_by-perm (push (f v) v buckets) vs) (
        Perm.trans (Perm.append_right vs (put-perm (f v) v _ buckets refl))
          (Perm.symm (perm_middle (in_buckets buckets) vs)))

    -- What holds of the items holds of the items of each bucket, and they have the bucket's key.
    pub bucket_by-All {μ} :
        (Q : A → Type μ) (buckets : Dict K (List A)) (vs : List A)
        → All (λ (b : K × List A). All (λ v. Q v × (f v ≡ b.0)) b.1) buckets
        → All Q vs
        → All (λ (b : K × List A). All (λ v. Q v × (f v ≡ b.0)) b.1) (bucket_by buckets vs)
    unfolding bucket_by
    bucket_by-All Q buckets [] h q = h
    bucket_by-All Q buckets (v ∷ vs) h q =
        let P = λ (b : K × List A). All (λ w. Q w × (f w ≡ b.0)) b.1 in
        let here : P (f v, get_default (f v) [] buckets ++ v ∷ []) =
          All-append _ _ _ (get_default-All P (f v) buckets tt h) ((q.0, refl), tt) in
        bucket_by-All Q (push (f v) v buckets) vs
          (put-All P (f v) _ buckets
            (λ j same.
              subst (λ z. P (z, get_default (f v) [] buckets ++ v ∷ [])) (sym (==→eq j (f v) same))
                here)
            here h)
          q.1

module _ {ℓ} {A : Type ℓ} where
  -- A filter and its opposite share out the list.
  pub filter_by-split :
      (p : A → Bool) (xs : List A) → Perm (filter_by p xs ++ filter_by (λ x. not (p x)) xs) xs
  filter_by-split p [] = Perm.refl _
  filter_by-split p (x ∷ xs) = elim (Bool-cases (p x)) [
    | inl kept ↦ rw kept (Perm.cons x (filter_by-split p xs))
    | inr dropped ↦ rw dropped (
        Perm.trans (perm_middle (filter_by p xs) (filter_by (λ y. not (p y)) xs))
          (Perm.cons x (filter_by-split p xs)))
  ]

  pub filter_by-All {κ} :
      (Q : A → Type κ) (p : A → Bool) (xs : List A) → All Q xs → All Q (filter_by p xs)
  filter_by-All Q p [] h = tt
  filter_by-All Q p (x ∷ xs) h = elim (Bool-cases (p x)) [
    | inl kept ↦ rw kept (h.0, filter_by-All Q p xs h.1)
    | inr dropped ↦ rw dropped (filter_by-All Q p xs h.1)
  ]
