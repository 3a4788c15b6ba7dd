-- ===== src/Base/Pairs.antt =====
-- Two lists that are related position by position.
use virtvalidation.Base.{List, [], ◌∷◌, map}

abbrev pub Paired {ℓ κ} : {A : Type ℓ} {B : Type κ} → (A → B → Type 0) → List A → List B → Type 0
Paired R [] [] = Unit
Paired R (x ∷ xs) (y ∷ ys) = R x y × Paired R xs ys
Paired R _ _ = ⊥

pub Paired-map {ℓ κ} :
    {A : Type ℓ} {B : Type κ} (R : A → B → Type 0) (f : A → B)
    → ((x : A) → R x (f x))
    → (xs : List A) → Paired R xs (map f xs)
Paired-map R f h [] = tt
Paired-map R f h (x ∷ xs) = (h x, Paired-map R f h xs)
