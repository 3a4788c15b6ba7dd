-- ===== src/Base/Keys.antt =====
-- The keys of a dict, and dict comprehensions.
use virtvalidation.Base.{
  ◌≡◌, refl, sym, ◌∙◌, true, false, none, List, [], ◌∷◌, ◌++◌, map, arith, Eq,
}
use virtvalidation.Base.Dicts.{Dict, get, put, IsKeyed}
use virtvalidation.Base.Distinct.{contains, Distinct, contains-append}
use mathlib.Core.List.{append-nil, append_assoc, map-append}

pub Distinct-middle {ℓ} :
    {A : Type ℓ} ⦃e : Eq A⦄ (xs : List A) (y : A) (ys : List A)
    → Distinct (xs ++ y ∷ ys)
    → contains xs y ≡ false
Distinct-middle [] y ys h = refl
Distinct-middle ⦃e⦄ (x ∷ xs) y ys h = ground (
  arith,
  contains-append xs (y ∷ ys) x,
  h.0,
  Distinct-middle xs y ys h.1,
  e.beq_iff x y,
  e.beq_iff y x,
)

module _ {ℓ κ} {K : Type ℓ} {V : Type κ} ⦃e : Eq K⦄ where
  abbrev pub keys : Dict K V → List K
  keys d = map (λ (entry : K × V). entry.0) d

  pub get_of_absent : (d : Dict K V) (k : K) → contains (keys d) k ≡ false → get k d ≡ none
  get_of_absent [] k h = refl
  get_of_absent ((j, v) ∷ d) k h = ground (arith, get_of_absent d k)

  pub put_absent :
      (k : K) (v : V) (d : Dict K V) → contains (keys d) k ≡ false → put k v d ≡ d ++ (k, v) ∷ []
  put_absent k v [] h = refl
  put_absent k v ((j, w) ∷ d) h = ground (arith, put_absent k v d)

  pub keys-put_present :
      (k : K) (v : V) (d : Dict K V) → contains (keys d) k ≡ true → keys (put k v d) ≡ keys d
  keys-put_present k v [] h = cc
  keys-put_present k v ((j, w) ∷ d) h = ground (arith, keys-put_present k v d)

  pub IsKeyed-of_Distinct : (d : Dict K V) → Distinct (keys d) → IsKeyed d
  IsKeyed-of_Distinct [] h = tt
  IsKeyed-of_Distinct ((j, w) ∷ d) h = (get_of_absent d j h.0, IsKeyed-of_Distinct d h.1)

module _ {ℓ κ μ} {A : Type ℓ} {K : Type κ} {V : Type μ} ⦃e : Eq K⦄ (key : A → K)
    (value : A → V) where
  -- `{key(x): value(x) for x in xs}`, from the entries made so far
  unfoldable pub dict_from : Dict K V → List A → Dict K V
  dict_from out [] = out
  dict_from out (x ∷ xs) = dict_from (put (key x) (value x) out) xs

  abbrev entries : List A → Dict K V
  entries xs = map (λ x. (key x, value x)) xs

  dict_from-append :
      (out : Dict K V) (xs : List A)
      → Distinct (keys out ++ map key xs)
      → dict_from out xs ≡ out ++ entries xs
  unfolding dict_from
  dict_from-append out [] h = sym (append-nil out)
  dict_from-append out (x ∷ xs) h =
      let absent = Distinct-middle (keys out) (key x) (map key xs) h in
      let next : Distinct (keys (out ++ (key x, value x) ∷ []) ++ map key xs) =
        rw (map-append (λ (entry : K × V). entry.0) out ((key x, value x) ∷ []), append_assoc) h in
      rw (put_absent (key x) (value x) out absent) (
        dict_from-append (out ++ (key x, value x) ∷ []) xs next
        ∙ append_assoc out ((key x, value x) ∷ []) (entries xs))

  -- With different keys the comprehension has an entry for each item.
  pub dict_from-Distinct : (xs : List A) → Distinct (map key xs) → dict_from [] xs ≡ entries xs
  dict_from-Distinct xs h = dict_from-append [] xs h
