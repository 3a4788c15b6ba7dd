-- ===== src/Constraints/Edits.antt =====
-- What an edit introduces: violations that stood before are not reported again.
use virtvalidation.Base.{
  ℕ, ◌≡◌, refl, Bool, true, false, none, some, List, [], ◌∷◌, arith, ltb, nat_Eq, option_Eq,
  list_Eq, ==-refl, All, All-imp, filter_by,
}
use virtvalidation.Constraints.{Violation, same_key, count_or_zero, prior_count, diff_violations}

-- No two violations have the same key.
abbrev pub IsUnique : List Violation → Type 0
IsUnique [] = Unit
IsUnique (v ∷ vs) = All (λ (w : Violation). same_key w v ≡ false) vs × IsUnique vs

same_key_refl : (v : Violation) → same_key v v ≡ true
unfolding same_key
same_key_refl v =
    rw (==-refl v.code, ==-refl v.plan_id, ==-refl v.wave_number, ==-refl v.family) refl

prior_count_absent :
    (vs : List Violation) (v : Violation)
    → All (λ (w : Violation). same_key w v ≡ false) vs
    → prior_count vs v ≡ none
unfolding prior_count
prior_count_absent [] v h = refl
prior_count_absent (w ∷ ws) v h = rw (prior_count_absent ws v h.1, h.0) refl

prior_count_here :
    (w : Violation) (ws : List Violation)
    → All (λ (u : Violation). same_key u w ≡ false) ws
    → prior_count (w ∷ ws) w ≡ some (count_or_zero w)
unfolding prior_count
prior_count_here w ws h = rw (prior_count_absent ws w h, same_key_refl w) refl

prior_count_later :
    (w : Violation) (ws : List Violation) (v : Violation) (n : ℕ)
    → prior_count ws v ≡ some n
    → prior_count (w ∷ ws) v ≡ some n
unfolding prior_count
prior_count_later w ws v n found = rw found refl

prior_count_present :
    (vs : List Violation)
    → IsUnique vs
    → All (λ (v : Violation). prior_count vs v ≡ some (count_or_zero v)) vs
prior_count_present [] h = tt
prior_count_present (w ∷ ws) h = (
  prior_count_here w ws h.0,
  All-imp ws (λ v found. prior_count_later w ws v (count_or_zero v) found)
      (prior_count_present ws h.1),
)

-- Whether the edit introduced the violation or made it worse.
abbrev is_worse : List Violation → Violation → Bool
is_worse before v = elim (prior_count before v) [ none ↦ true | some n ↦ ltb n (count_or_zero v) ]

not_worse :
    (before : List Violation) (v : Violation)
    → prior_count before v ≡ some (count_or_zero v)
    → is_worse before v ≡ false
not_worse before v found = ground arith

filter_by_none :
    (p : Violation → Bool) (vs : List Violation)
    → All (λ (v : Violation). p v ≡ false) vs
    → filter_by p vs ≡ []
filter_by_none p [] h = refl
filter_by_none p (v ∷ vs) h = rw h.0 (filter_by_none p vs h.1)

-- If no two of the violations have the same code, plan, wave and family: an edit after which the
-- layout has the violations that it had before is reported with no violation.
pub diff_violations-same : (vs : List Violation) → IsUnique vs → diff_violations vs vs ≡ []
unfolding diff_violations
diff_violations-same vs unique =
    filter_by_none (is_worse vs) vs
      (All-imp vs (λ v found. not_worse vs v found) (prior_count_present vs unique))
