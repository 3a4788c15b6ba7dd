-- ===== src/Planner/Answers/Steps.antt =====
-- The steps of the parsers one by one: what a step that is accepted has found.
use virtvalidation.Base.{
  ◌≡◌, refl, subst, inl, inr, Bool, true, false, not, Option, none, some, List, [], ◌∷◌, arith,
  if◌then◌else◌, Bool-cases, nat_Eq, option_Eq, list_Eq, filter_by, any_by,
}
use virtvalidation.Base.Texts.{Text}
use virtvalidation.Base.Sorting.{IsOrder}
use virtvalidation.Base.Distinct.{contains}
use virtvalidation.Preclassifier.Source.{non_empty}
use virtvalidation.Planner.Answers.{
  ℤ, int_le, Json, Items, Fault, Answer, and_then, require, or_reject, check_risk, allowed_risk,
  items_in, number_le,
}

pub and_then-accepted :
    {K A B : Type 0} (x : Answer K A) (next : A → Answer K B) (b : B)
    → and_then x next ≡ Answer.accepted b
    → (a : A) × (x ≡ Answer.accepted a) × (next a ≡ Answer.accepted b)
unfolding and_then
and_then-accepted (Answer.rejected f) next b h = absurd (cc)
and_then-accepted (Answer.accepted a) next b h = (a, refl, h)

pub accepted_same :
    {K A : Type 0} (a b : A) → ◌≡◌ {A = Answer K A} (Answer.accepted a) (Answer.accepted b) → a ≡ b
accepted_same a b h = cc

pub int_le-IsOrder : IsOrder int_le
int_le-IsOrder = record { total = total_of; trans = trans_of }
  where
    total_of : (a b : ℤ) → int_le a b ≡ false → int_le b a ≡ true
    total_of (ℤ.pos m) (ℤ.pos n) h = ground (arith, h)
    total_of (ℤ.pos m) (ℤ.negsuc n) h = refl
    total_of (ℤ.negsuc m) (ℤ.pos n) h = absurd (cc)
    total_of (ℤ.negsuc m) (ℤ.negsuc n) h = ground (arith, h)

    trans_of : (a b c : ℤ) → int_le a b ≡ true → int_le b c ≡ true → int_le a c ≡ true
    trans_of (ℤ.pos m) (ℤ.pos n) (ℤ.pos o) h k = ground (arith, h, k)
    trans_of (ℤ.pos m) (ℤ.pos n) (ℤ.negsuc o) h k = absurd (cc)
    trans_of (ℤ.pos m) (ℤ.negsuc n) c h k = absurd (cc)
    trans_of (ℤ.negsuc m) b (ℤ.pos o) h k = refl
    trans_of (ℤ.negsuc m) (ℤ.pos n) (ℤ.negsuc o) h k = absurd (cc)
    trans_of (ℤ.negsuc m) (ℤ.negsuc n) (ℤ.negsuc o) h k = ground (arith, h, k)

pub number_le-IsOrder : {K : Type 0} → IsOrder (number_le {K = K})
number_le-IsOrder {K} = record {
  total = λ v w. int_le-IsOrder.total v.wave_number w.wave_number;
  trans = λ u v w. int_le-IsOrder.trans u.wave_number v.wave_number w.wave_number;
}

pub require-accepted :
    {K : Type 0} (b : Bool) (f : Fault K) (r : Bool) → require b f ≡ Answer.accepted r → b ≡ true
unfolding require
require-accepted true f r h = refl
require-accepted false f r h = absurd (cc)

pub or_reject-accepted :
    {K A : Type 0} (o : Option A) (f : Fault K) (a : A)
    → or_reject o f ≡ Answer.accepted a
    → o ≡ some a
unfolding or_reject
or_reject-accepted none f a h = absurd (cc)
or_reject-accepted (some b) f a h = (cc)

pub chosen :
    {K : Type 0} (b : Bool) (n : ℤ) (s t : Text)
    → ◌≡◌ {A = Answer K Text}
        (if b then Answer.accepted s else Answer.rejected (Fault.bad_risk n))
        (Answer.accepted t)
    → (b ≡ true) × (s ≡ t)
chosen true n s t h = (refl, cc)
chosen false n s t h = absurd (cc)

pub check_risk-accepted :
    {K : Type 0} (n : ℤ) (o : Option Json) (t : Text)
    → check_risk {K = K} n o ≡ Answer.accepted t
    → contains allowed_risk t ≡ true
unfolding check_risk
check_risk-accepted n none t h = absurd (cc)
check_risk-accepted n (some Json.null) t h = absurd (cc)
check_risk-accepted n (some (Json.bool b)) t h = absurd (cc)
check_risk-accepted n (some (Json.int m)) t h = absurd (cc)
check_risk-accepted n (some (Json.float s)) t h = absurd (cc)
check_risk-accepted n (some (Json.text s)) t h =
    let branch = chosen (contains allowed_risk s) n s t h in
    subst (λ z. contains allowed_risk z ≡ true) branch.1 branch.0
check_risk-accepted n (some (Json.array items)) t h = absurd (cc)
check_risk-accepted n (some (Json.object fields)) t h = absurd (cc)

pub items_in-item :
    (o : Option Json) (items : Items)
    → items_in o ≡ some items
    → (v : Json) × (rest : Items) × (items ≡ Items.item v rest)
items_in-item none items h = absurd (cc)
items_in-item (some Json.null) items h = absurd (cc)
items_in-item (some (Json.bool b)) items h = absurd (cc)
items_in-item (some (Json.int m)) items h = absurd (cc)
items_in-item (some (Json.float s)) items h = absurd (cc)
items_in-item (some (Json.text s)) items h = absurd (cc)
items_in-item (some (Json.array Items.end)) items h = absurd (cc)
items_in-item (some (Json.array (Items.item v rest))) items h = (v, rest, cc)
items_in-item (some (Json.object fields)) items h = absurd (cc)

pub filter_by-none {ℓ} :
    {A : Type ℓ} (p : A → Bool) (xs : List A)
    → not (non_empty (filter_by p xs)) ≡ true
    → any_by p xs ≡ false
filter_by-none p [] h = refl
filter_by-none p (x ∷ xs) h = elim (Bool-cases (p x)) [
  | inl kept ↦ absurd (ground (arith, kept, h))
  | inr dropped ↦ rw dropped (filter_by-none p xs (rw dropped at h))
]
