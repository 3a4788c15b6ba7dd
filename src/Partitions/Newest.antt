-- ===== src/Partitions/Newest.antt =====
-- `vm_plan_index` of backend/app/core/plan_membership.py and the newest plan of a VM.
use virtvalidation.Base.{
  ℕ, ◌≤◌, ◌≡◌, refl, sym, ap, ◌∙◌, subst, ◌⊎◌, inl, inr, Bool, true, false, not, ◌&&◌, Option, none,
  some, List, [], ◌∷◌, map, arith, leb, if◌then◌else◌, leb→le, Bool-cases, Option-cases, ◌==◌,
  nat_Eq, option_Eq, list_Eq, ==→eq, ==-refl, All, All-imp, filter_by, any_by, any_by-perm,
  All-perm,
}
use virtvalidation.Base.Dicts.{Dict, get, put, get-put}
use virtvalidation.Base.Texts.{codes}
use virtvalidation.Base.Sorting.{IsOrder, sorted, IsSorted, sorted-perm, sorted-IsSorted}
use native.Mathlib.Bridge.{le_prop}
use virtvalidation.Base.Distinct.{contains, contains-filter_by}
use virtvalidation.Editing.{Plan}
use virtvalidation.Partitions.{
  PlanEntry, enter_plan, enter_plans, live_plans, fill_wave, vm_plan_index,
}

abbrev entry_of : Plan → PlanEntry
entry_of p = record { plan_id = p.id; plan_name = p.name; plan_wave_number = none }

-- The last plan that holds the VM.
abbrev last_holding : ℕ → List Plan → Option Plan
last_holding vid [] = none
last_holding vid (p ∷ ps) =
    let rest = last_holding vid ps in
    elim rest [ some q ↦ some q | none ↦ if contains p.vm_ids vid then some p else none ]

abbrev entry_or : Option PlanEntry → Option Plan → Option PlanEntry
entry_or other none = other
entry_or other (some p) = some (entry_of p)

get-enter_plan :
    (p : Plan) (out : Dict ℕ PlanEntry) (ids : List ℕ) (vid : ℕ)
    → get vid (enter_plan p out ids) ≡ (if contains ids vid then some (entry_of p) else get vid out)
unfolding enter_plan
get-enter_plan p out [] vid = refl
get-enter_plan p out (i ∷ ids) vid =
    ground
      (arith, get-enter_plan p (put i (entry_of p) out) ids vid, get-put i vid (entry_of p) out)

get-enter_plans :
    (wanted : List ℕ) (out : Dict ℕ PlanEntry) (ps : List Plan) (vid : ℕ)
    → get vid (enter_plans wanted out ps)
      ≡ (if contains wanted vid then entry_or (get vid out) (last_holding vid ps) else get vid out)
unfolding enter_plans
get-enter_plans wanted out [] vid = ground arith
get-enter_plans wanted out (p ∷ ps) vid =
    let ids = filter_by (contains p.vm_ids) wanted in
    let here = get-enter_plan p out ids vid in
    let asked = contains-filter_by (contains p.vm_ids) wanted vid in
    get-enter_plans wanted (enter_plan p out ids) ps vid ∙ elim (Bool-cases (contains wanted vid)) [
      | inr other ↦ rw other (ground (arith, here, asked, other))
      | inl this ↦ elim (Option-cases (last_holding vid ps)) [
        | inr (q, later) ↦ rw (this, later) refl
        | inl last ↦ rw (this, last) (ground (arith, here, asked, this))
      ]
    ]

-- `status != "failed"`, and the VM stands in the plan
abbrev is_live : Plan → Bool
is_live p = not (p.status == codes "failed")

abbrev plan_id_le : Plan → Plan → Bool
plan_id_le p q = leb p.id q.id

-- The id of the plan, if it holds the VM, is at most the bound.
abbrev IsUpTo : ℕ → ℕ → Plan → Type 0
IsUpTo vid bound p = (if contains p.vm_ids vid then p.id else 0) ≤ bound

last_holding_absent :
    (vid : ℕ) (ps : List Plan)
    → last_holding vid ps ≡ none
    → All (λ (p : Plan). contains p.vm_ids vid ≡ false) ps
last_holding_absent vid [] h = tt
last_holding_absent vid (p ∷ ps) h = elim (Option-cases (last_holding vid ps)) [
  | inr (q, later) ↦ absurd (ground (arith, later, h))
  | inl last ↦ (ground (arith, last, h), last_holding_absent vid ps last)
]

-- A plan in front of the one that is found has no greater id.
some_above :
    (p : Plan) (ps : List Plan) (bound vid : ℕ)
    → All (λ r. plan_id_le p r ≡ true) ps
    → any_by (λ r. r.id == bound && contains r.vm_ids vid) ps ≡ true
    → (any_by (λ r. r.id == bound && contains r.vm_ids vid) (p ∷ ps) ≡ true) × (p.id ≤ bound)
some_above p [] bound vid h there = absurd (cc)
some_above p (r ∷ ps) bound vid h there =
    elim (Bool-cases (r.id == bound && contains r.vm_ids vid)) [
      | inl this ↦ (
        ground (arith, there),
        omega (arith, leb→le p.id r.id h.0, ==→eq r.id bound (ground (arith, this))),
      )
      | inr other ↦
          let (found, le) = some_above p ps bound vid h.1 (ground (arith, other, there)) in
          (ground (arith, there), le)
    ]

last_holding-newest :
    (vid : ℕ) (ps : List Plan) (q : Plan)
    → IsSorted plan_id_le ps
    → last_holding vid ps ≡ some q
    → All (IsUpTo vid q.id) ps × (any_by (λ p. p.id == q.id && contains p.vm_ids vid) ps ≡ true)
last_holding-newest vid [] q sorted h = absurd (cc)
last_holding-newest vid (p ∷ ps) q sorted h = elim (Option-cases (last_holding vid ps)) [
  | inr (r, later) ↦
      let same : r ≡ q = ground (arith, later, h) in
      let (bound, there) = last_holding-newest vid ps q sorted.1 (later ∙ ap some same) in
      let (found, first) = some_above p ps q.id vid sorted.0 there in
      ((ground (arith, first), bound), found)
  | inl last ↦
      let none_later = last_holding_absent vid ps last in
      let same : p ≡ q = ground (arith, last, h) in
      let held : contains p.vm_ids vid ≡ true = ground (arith, last, h) in
      rw (← same) (
        (ground (arith, held), All-imp ps (λ r away. ground (arith, away)) none_later),
        ground (arith, held, ==-refl p.id),
      )
]

-- `fill_wave` keeps the key and the plan of an entry.
abbrev SamePlan : Option PlanEntry → Option PlanEntry → Type 0
SamePlan none none = Unit
SamePlan (some e) (some f) = (e.plan_id ≡ f.plan_id) × (e.plan_name ≡ f.plan_name)
SamePlan _ _ = ⊥

SamePlan-refl : (o : Option PlanEntry) → SamePlan o o
SamePlan-refl none = tt
SamePlan-refl (some e) = (refl, refl)

get-fill_wave :
    (with_wave : Bool) (plans : List Plan) (d : Dict ℕ PlanEntry) (vid : ℕ)
    → SamePlan (get vid (map (fill_wave with_wave plans) d)) (get vid d)
unfolding fill_wave
get-fill_wave false plans [] vid = tt
get-fill_wave true plans [] vid = tt
get-fill_wave false plans ((k, e) ∷ d) vid = elim (Bool-cases (k == vid)) [
  | inl same ↦ rw (get, same) (refl, refl)
  | inr other ↦ rw (get, other) (get-fill_wave false plans d vid)
]
get-fill_wave true plans ((k, e) ∷ d) vid = elim (Bool-cases (k == vid)) [
  | inl same ↦ rw (get, same) (refl, refl)
  | inr other ↦ rw (get, other) (get-fill_wave true plans d vid)
]

plan_id_le-IsOrder : IsOrder plan_id_le
plan_id_le-IsOrder = record { total = λ p q h. ground arith; trans = λ p q r h k. ground arith }

-- The entry of a VM names the newest of the plans that hold it and did not fail.
pub record IsNewest (plans : List Plan) (vid : ℕ) (entry : PlanEntry) : Type 0 where
  pub held :
      any_by
        (λ (p : Plan). p.id == entry.plan_id && contains p.vm_ids vid)
        (filter_by is_live plans)
      ≡ true
  pub newest : All (IsUpTo vid entry.plan_id) (filter_by is_live plans)

IsUpTo-prop : (vid bound : ℕ) (p : Plan) → IsProp (IsUpTo vid bound p)
IsUpTo-prop vid bound p = le_prop

found-IsNewest :
    (plans : List Plan) (vid : ℕ) (q : Plan)
    → last_holding vid (live_plans plans) ≡ some q
    → IsNewest plans vid (entry_of q)
unfolding live_plans
found-IsNewest plans vid q h =
    let live = filter_by is_live plans in
    let (bound, there) =
      last_holding-newest vid (sorted plan_id_le live) q
        (sorted-IsSorted plan_id_le plan_id_le-IsOrder live) h in
    let order = sorted-perm plan_id_le live in
    record {
      held = sym (any_by-perm (λ (p : Plan). p.id == q.id && contains p.vm_ids vid) order) ∙ there;
      newest = All-perm (IsUpTo vid q.id) (IsUpTo-prop vid q.id) order bound;
    }

same-IsNewest :
    (plans : List Plan) (vid : ℕ) (e f : PlanEntry)
    → e.plan_id ≡ f.plan_id
    → IsNewest plans vid f
    → IsNewest plans vid e
same-IsNewest plans vid e f same h = record {
  held =
      subst
        (λ n.
          any_by (λ (p : Plan). p.id == n && contains p.vm_ids vid) (filter_by is_live plans)
          ≡ true)
        (sym same) h.held;
  newest = subst (λ n. All (IsUpTo vid n) (filter_by is_live plans)) (sym same) h.newest;
}

-- Whether the waves are filled in or not: a VM that was asked for has an entry exactly if some plan
-- that did not fail holds it, and the entry then names the newest of these plans.
pub vm_plan_index-IsNewest :
    (plans : List Plan) (wanted : List ℕ) (with_wave : Bool) (vid : ℕ)
    → contains wanted vid ≡ true
    → ((get vid (vm_plan_index plans wanted with_wave) ≡ none)
        × All (λ (p : Plan). contains p.vm_ids vid ≡ false) (live_plans plans))
      ⊎ ((entry : PlanEntry) × (get vid (vm_plan_index plans wanted with_wave) ≡ some entry)
          × IsNewest plans vid entry)
unfolding vm_plan_index
vm_plan_index-IsNewest plans wanted with_wave vid asked =
    let d = enter_plans wanted [] (live_plans plans) in
    let filled = get-fill_wave with_wave plans d vid in
    let found = get-enter_plans wanted [] (live_plans plans) vid in
    elim (Option-cases (get vid (map (fill_wave with_wave plans) d))) [
      | inl absent ↦ elim (Option-cases (last_holding vid (live_plans plans))) [
        | inl nowhere ↦ inl (absent, last_holding_absent vid (live_plans plans) nowhere)
        | inr (q, there) ↦ absurd (
            subst (λ o. SamePlan o (some (entry_of q))) absent
              (subst (λ o. SamePlan (get vid (map (fill_wave with_wave plans) d)) o)
                (found ∙ rw (asked, there) refl) filled))
      ]
      | inr (entry, present) ↦ elim (Option-cases (last_holding vid (live_plans plans))) [
        | inl nowhere ↦ absurd (
            subst (λ o. SamePlan o none) present
              (subst (λ o. SamePlan (get vid (map (fill_wave with_wave plans) d)) o)
                (found ∙ rw (asked, nowhere) refl) filled))
        | inr (q, there) ↦
            let same : SamePlan (some entry) (some (entry_of q)) =
              subst (λ o. SamePlan o (some (entry_of q))) present
                (subst (λ o. SamePlan (get vid (map (fill_wave with_wave plans) d)) o)
                  (found ∙ rw (asked, there) refl) filled) in
            inr (
              entry,
              present,
              same-IsNewest plans vid entry (entry_of q) same.0 (found-IsNewest plans vid q there),
            )
      ]
    ]
