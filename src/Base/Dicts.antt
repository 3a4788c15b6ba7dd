-- ===== src/Base/Dicts.antt =====
-- A Python dict as an association list in insertion order, with the operations that the planner
-- uses.
use virtvalidation.Base.Tests.{Eq, ◌==◌, if◌then◌else◌, Bool-cases}
use virtvalidation.Base.Lists.{All, All-imp}
use mathlib.Core.Logic.{inl, inr}
use Prim.Native.Nat.{ℕ, ◌+◌}
use mathlib.Core.Path.{◌≡◌, refl}
use mathlib.Core.Bool.{Bool, true, false}
use mathlib.Core.Option.{Option, none, some}
use mathlib.Core.List.{List, [], ◌∷◌, ◌++◌}
use native.Mathlib.Omega.{arith}

abbrev pub Dict {ℓ κ} : Type ℓ → Type κ → Type (ℓ ⊔ κ)
Dict K V = List (K × V)

module _ {ℓ κ} {K : Type ℓ} {V : Type κ} ⦃e : Eq K⦄ where
  -- `d.get(k)`
  abbrev pub get : K → Dict K V → Option V
  get k [] = none
  get k ((j, v) ∷ d) = let rest = get k d in if j == k then some v else rest

  -- `k in d`
  abbrev pub has_key : K → Dict K V → Bool
  has_key k d = elim (get k d) [ none ↦ false | some _ ↦ true ]

  -- `d.get(k, default)`
  abbrev pub get_default : K → V → Dict K V → V
  get_default k v d = elim (get k d) [ none ↦ v | some w ↦ w ]

  -- `d[k] = v`: a new key comes last
  abbrev pub put : K → V → Dict K V → Dict K V
  put k v [] = (k, v) ∷ []
  put k v ((j, w) ∷ d) = let rest = put k v d in if j == k then (j, v) ∷ d else (j, w) ∷ rest

  pub get-put :
      (k j : K) (v : V) (d : Dict K V) → get j (put k v d) ≡ (if k == j then some v else get j d)
  get-put k j v [] = refl
  get-put k j v ((i, w) ∷ d) =
      ground (arith, e.beq_iff k j, e.beq_iff i k, e.beq_iff i j, get-put k j v d)

-- `d.setdefault(k, []).append(v)`
abbrev pub push {ℓ κ} :
    {K : Type ℓ} {V : Type κ} ⦃e : Eq K⦄ → K → V → Dict K (List V) → Dict K (List V)
push k v d = put k (get_default k [] d ++ v ∷ []) d

-- `counter[k] += 1`
abbrev pub increment {ℓ} : {K : Type ℓ} ⦃e : Eq K⦄ → K → Dict K ℕ → Dict K ℕ
increment k d = put k (get_default k 0 d + 1) d

module _ {ℓ κ} {K : Type ℓ} {V : Type κ} ⦃e : Eq K⦄ where
  pub get_default-put :
      (k j : K) (v w : V) (d : Dict K V)
      → get_default j w (put k v d) ≡ (if k == j then v else get_default j w d)
  get_default-put k j v w d = ground (arith, get-put k j v d)

module _ {ℓ} {K : Type ℓ} ⦃e : Eq K⦄ where
  pub get_default-increment :
      (k j : K) (d : Dict K ℕ)
      → get_default j 0 (increment k d) ≡ (if k == j then 1 else 0) + get_default j 0 d
  get_default-increment k j d = ground (arith, e.beq_iff k j, get-put k j (get_default k 0 d + 1) d)

  pub get_default-push {κ} :
      {V : Type κ} (k j : K) (v : V) (d : Dict K (List V))
      → get_default j [] (push k v d)
        ≡ (if k == j then get_default j [] d ++ v ∷ [] else get_default j [] d)
  get_default-push k j v d =
      ground (arith, e.beq_iff k j, get-put k j (get_default k [] d ++ v ∷ []) d)

module _ {ℓ κ} {K : Type ℓ} {V : Type κ} ⦃e : Eq K⦄ where
  -- No key is stored twice.
  abbrev pub IsKeyed : Dict K V → Type κ
  IsKeyed [] = Unit
  IsKeyed ((k, v) ∷ d) = (get k d ≡ none) × IsKeyed d

  pub put-IsKeyed : (k : K) (v : V) (d : Dict K V) → IsKeyed d → IsKeyed (put k v d)
  put-IsKeyed k v [] h = (refl, tt)
  put-IsKeyed k v ((j, w) ∷ d) h = elim (Bool-cases (j == k)) [
    | inl same ↦ rw same h
    | inr other ↦
        rw other (
          ground (arith, get-put k j v d, e.beq_iff k j, e.beq_iff j k, h.0),
          put-IsKeyed k v d h.1,
        )
  ]

  -- Every entry is what its key finds.
  pub IsKeyed-entries :
      (d : Dict K V) → IsKeyed d → All (λ (entry : K × V). get entry.0 d ≡ some entry.1) d
  IsKeyed-entries [] h = tt
  IsKeyed-entries ((k, v) ∷ d) h = (
    rw ((e.beq_iff k k).1 refl),
    All-imp d (λ entry found. ground (arith, e.beq_iff k entry.0, h.0)) (IsKeyed-entries d h.1),
  )
