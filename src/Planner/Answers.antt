-- ===== src/Planner/Answers.antt =====
-- `_parse_group_plan` and `_parse_plan` of backend/app/core/planner.py: how the answer of a language
-- model becomes waves, or an error. The two differ in what an id is and in the name of its field.
pub mod Steps
pub mod Checked
pub mod Sound
pub mod Complete
use virtvalidation.Base.{
  ℕ, ◌+◌, ◌-◌, ◌≡◌, ap, ◌↔◌, Bool, true, false, not, Option, none, some, List, [], ◌∷◌, ◌++◌, leb,
  nat_eq, if◌then◌else◌, nat_eq_iff, Eq, ◌==◌, nat_Eq, option_Eq, list_Eq, filter_by,
}
use virtvalidation.Base.Texts.{Text, codes}
use virtvalidation.Base.Sorting.{sorted}
use virtvalidation.Base.Distinct.{contains}
use virtvalidation.Base.Rearranged.{collect}
use virtvalidation.Preclassifier.Source.{non_empty}

-- The ints of Python over the native natural numbers.
pub data ℤ : Type 0 where
  pos : ℕ → ℤ
  negsuc : ℕ → ℤ

abbrev pub int_le : ℤ → ℤ → Bool
int_le (pos m) (pos n) = leb m n
int_le (pos m) (negsuc n) = false
int_le (negsuc m) (pos n) = true
int_le (negsuc m) (negsuc n) = leb n m

abbrev int_eq : ℤ → ℤ → Bool
int_eq (pos m) (pos n) = nat_eq m n
int_eq (pos m) (negsuc n) = false
int_eq (negsuc m) (pos n) = false
int_eq (negsuc m) (negsuc n) = nat_eq m n

pub int_eq_iff : (m n : ℤ) → (int_eq m n ≡ true) ↔ (m ≡ n)
int_eq_iff (pos m) (pos n) =
    ((λ h. ap ℤ.pos ((nat_eq_iff m n).0 h)), (λ h. (nat_eq_iff m n).1 (cc)))
int_eq_iff (pos m) (negsuc n) = ((λ h. absurd (cc)), (λ h. absurd (cc)))
int_eq_iff (negsuc m) (pos n) = ((λ h. absurd (cc)), (λ h. absurd (cc)))
int_eq_iff (negsuc m) (negsuc n) =
    ((λ h. ap ℤ.negsuc ((nat_eq_iff m n).0 h)), (λ h. (nat_eq_iff m n).1 (cc)))

instance abbrev pub int_Eq : Eq ℤ
int_Eq = record { beq = int_eq; beq_iff = int_eq_iff }

-- The values that `json.loads` returns; a number that is not an int is kept as its text.
mutual
  pub data Json : Type 0 where
    null : Json
    bool : Bool → Json
    int : ℤ → Json
    float : Text → Json
    text : Text → Json
    array : Items → Json
    object : Fields → Json

  pub data Items : Type 0 where
    end : Items
    item : Json → Items → Items

  pub data Fields : Type 0 where
    done : Fields
    field : Text → Json → Fields → Fields

-- `d.get(name)`
unfoldable pub get_field : Text → Fields → Option Json
get_field name Fields.done = none
get_field name (Fields.field key value fields) =
    let rest = get_field name fields in if key == name then some value else rest

-- `isinstance(v, int)`, which holds of a bool too, and `isinstance(v, str)`
abbrev pub as_int : Json → Option ℤ
as_int (Json.int n) = some n
as_int (Json.bool true) = some (ℤ.pos 1)
as_int (Json.bool false) = some (ℤ.pos 0)
as_int v = none

abbrev pub as_text : Json → Option Text
as_text (Json.text t) = some t
as_text v = none

-- What is wrong with an answer: a PlannerError with the wave number that its message names, or the
-- TypeError of the test on the risk, for a value that has no hash.
pub data Fault (K : Type 0) : Type 0 where
  not_json : Fault K
  not_an_object : Fault K
  no_waves : Fault K
  wave_not_an_object : ℕ → Fault K
  bad_wave_number : Fault K
  no_ids : ℤ → Fault K
  bad_ids : ℤ → Fault K
  unknown_ids : ℤ → List K → Fault K
  repeated_ids : ℤ → List K → Fault K
  bad_risk : ℤ → Fault K
  risk_without_hash : Fault K
  bad_rationale : ℤ → Fault K
  not_placed : List K → Fault K

pub data Answer (K A : Type 0) : Type 0 where
  rejected : Fault K → Answer K A
  accepted : A → Answer K A

-- A step, then the next: a raise ends the parser.
unfoldable pub and_then : {K A B : Type 0} → Answer K A → (A → Answer K B) → Answer K B
and_then (Answer.rejected f) next = Answer.rejected f
and_then (Answer.accepted a) next = next a

-- `if ...: raise`
unfoldable pub require : {K : Type 0} → Bool → Fault K → Answer K Bool
require true f = Answer.accepted true
require false f = Answer.rejected f

unfoldable pub or_reject : {K A : Type 0} → Option A → Fault K → Answer K A
or_reject none f = Answer.rejected f
or_reject (some a) f = Answer.accepted a

abbrev pub allowed_risk : List Text
allowed_risk = codes "low" ∷ codes "medium" ∷ codes "high" ∷ []

unfoldable pub check_risk : {K : Type 0} → ℤ → Option Json → Answer K Text
check_risk n (some (Json.text t)) =
    if contains allowed_risk t then Answer.accepted t else Answer.rejected (Fault.bad_risk n)
check_risk n (some (Json.array items)) = Answer.rejected Fault.risk_without_hash
check_risk n (some (Json.object fields)) = Answer.rejected Fault.risk_without_hash
check_risk n v = Answer.rejected (Fault.bad_risk n)

-- `wave.get("wave_number", idx)`, `wave.get("rationale", "")` and the list of ids, if not empty
abbrev pub number_in : ℕ → Option Json → Option ℤ
number_in idx none = some (ℤ.pos idx)
number_in idx (some v) = as_int v

abbrev pub rationale_in : Option Json → Option Text
rationale_in none = some []
rationale_in (some v) = as_text v

abbrev pub items_in : Option Json → Option Items
items_in (some (Json.array (Items.item v items))) = some (Items.item v items)
items_in v = none

abbrev pub fields_of : Json → Option Fields
fields_of (Json.object fields) = some fields
fields_of v = none

-- A row of `normalized`
pub record AnswerWave (K : Type 0) : Type 0 where
  pub wave_number : ℤ
  pub ids : List K
  pub rationale : Text
  pub estimated_risk : Text

abbrev pub answer_ids : {K : Type 0} → List (AnswerWave K) → List K
answer_ids {K} ws = collect (λ (w : AnswerWave K). w.ids) ws

pub record ParsedPlan (K : Type 0) : Type 0 where
  pub summary : Text
  pub waves : List (AnswerWave K)

abbrev pub number_le : {K : Type 0} → AnswerWave K → AnswerWave K → Bool
number_le v w = int_le v.wave_number w.wave_number

abbrev pub summary_text : Option Json → Text
summary_text (some (Json.text t)) = t
summary_text v = []

-- `read` says which values are ids, `ids_field` is the field that holds them.
module _ {K : Type 0} ⦃e : Eq K⦄ (read : Json → Option K) (ids_field : Text)
    (provided : List K) where
  unfoldable pub read_ids : Items → Option (List K)
  read_ids Items.end = some []
  read_ids (Items.item v items) =
      let rest = read_ids items in
      elim (read v) [ none ↦ none | some k ↦ elim rest [ none ↦ none | some ks ↦ some (k ∷ ks) ] ]

  abbrev pub unknown_in : List K → List K
  unknown_in ids = filter_by (λ k. not (contains provided k)) ids

  -- The body of the loop, from its last check on to the first.
  unfoldable pub wave_rated : Fields → ℤ → List K → Text → Answer K (AnswerWave K)
  unfolding and_then or_reject get_field
  wave_rated fields n ids risk =
      and_then
        (or_reject (rationale_in (get_field (codes "rationale") fields)) (Fault.bad_rationale n))
        (λ rationale.
          Answer.accepted
            (record { wave_number = n; ids = ids; rationale = rationale; estimated_risk = risk }))

  unfoldable pub wave_fresh : Fields → ℤ → List K → Bool → Answer K (AnswerWave K)
  unfolding and_then check_risk get_field wave_rated
  wave_fresh fields n ids fresh =
      and_then (check_risk n (get_field (codes "estimated_risk") fields)) (wave_rated fields n ids)

  unfoldable pub wave_known : List K → Fields → ℤ → List K → Bool → Answer K (AnswerWave K)
  unfolding and_then require wave_fresh
  wave_known seen fields n ids known =
      let repeated = filter_by (contains seen) ids in
      and_then (require (not (non_empty repeated)) (Fault.repeated_ids n repeated))
        (wave_fresh fields n ids)

  unfoldable pub wave_with_ids : List K → Fields → ℤ → List K → Answer K (AnswerWave K)
  unfolding and_then require wave_known
  wave_with_ids seen fields n ids =
      and_then (require (not (non_empty (unknown_in ids))) (Fault.unknown_ids n (unknown_in ids)))
        (wave_known seen fields n ids)

  unfoldable pub wave_with_items : List K → Fields → ℤ → Items → Answer K (AnswerWave K)
  unfolding and_then or_reject read_ids wave_with_ids
  wave_with_items seen fields n items =
      and_then (or_reject (read_ids items) (Fault.bad_ids n)) (wave_with_ids seen fields n)

  unfoldable pub wave_numbered : List K → Fields → ℤ → Answer K (AnswerWave K)
  unfolding and_then or_reject get_field wave_with_items
  wave_numbered seen fields n =
      and_then (or_reject (items_in (get_field ids_field fields)) (Fault.no_ids n))
        (wave_with_items seen fields n)

  unfoldable pub wave_of_fields : List K → ℕ → Fields → Answer K (AnswerWave K)
  unfolding and_then or_reject get_field wave_numbered
  wave_of_fields seen idx fields =
      and_then
        (or_reject (number_in idx (get_field (codes "wave_number") fields)) Fault.bad_wave_number)
        (wave_numbered seen fields)

  unfoldable pub parse_wave : List K → ℕ → Json → Answer K (AnswerWave K)
  unfolding and_then or_reject wave_of_fields
  parse_wave seen idx v =
      and_then (or_reject (fields_of v) (Fault.wave_not_an_object (idx - 1)))
        (wave_of_fields seen idx)

  unfoldable pub parse_waves : List K → ℕ → Items → Answer K (List (AnswerWave K))
  unfolding and_then parse_wave
  parse_waves seen idx Items.end = Answer.accepted []
  parse_waves seen idx (Items.item v items) =
      and_then (parse_wave seen idx v) (λ w.
        and_then (parse_waves (w.ids ++ seen) (idx + 1) items) (λ ws. Answer.accepted (w ∷ ws)))

  -- Behind the loop, then the checks in front of it.
  unfoldable pub plan_of_waves : Fields → List (AnswerWave K) → Answer K (ParsedPlan K)
  unfolding and_then require get_field sorted
  plan_of_waves fields ws =
      let missing = filter_by (λ k. not (contains (answer_ids ws) k)) provided in
      and_then (require (not (non_empty missing)) (Fault.not_placed missing)) (λ placed.
        Answer.accepted (record {
          summary = summary_text (get_field (codes "summary") fields);
          waves = sorted number_le ws;
        }))

  unfoldable pub plan_of_items : Fields → Items → Answer K (ParsedPlan K)
  unfolding and_then parse_waves plan_of_waves
  plan_of_items fields items = and_then (parse_waves [] 1 items) (plan_of_waves fields)

  unfoldable pub plan_of_fields : Fields → Answer K (ParsedPlan K)
  unfolding and_then or_reject get_field plan_of_items
  plan_of_fields fields =
      and_then (or_reject (items_in (get_field (codes "waves") fields)) Fault.no_waves)
        (plan_of_items fields)

  unfoldable pub plan_of_value : Json → Answer K (ParsedPlan K)
  unfolding and_then or_reject plan_of_fields
  plan_of_value v = and_then (or_reject (fields_of v) Fault.not_an_object) plan_of_fields

  -- The whole parser; `decoded` is what `json.loads` returned, none for a JSONDecodeError.
  unfoldable pub parse_answer : Option Json → Answer K (ParsedPlan K)
  unfolding and_then or_reject plan_of_value
  parse_answer decoded = and_then (or_reject decoded Fault.not_json) plan_of_value

unfoldable pub parse_group_plan : List Text → Option Json → Answer Text (ParsedPlan Text)
unfolding parse_answer
parse_group_plan provided decoded = parse_answer as_text (codes "group_ids") provided decoded

unfoldable pub parse_plan : List ℤ → Option Json → Answer ℤ (ParsedPlan ℤ)
unfolding parse_answer
parse_plan provided decoded = parse_answer as_int (codes "vm_ids") provided decoded
