-- ===== src/Planner/Unknown.antt =====
-- The lookups by group id of `plan_with_groups`, when a wave holds a group that the dict does not.
use virtvalidation.Base.{
  ℕ, ◌≤◌, ◌≡◌, refl, sym, ap, ◌∙◌, ◌⊎◌, inl, inr, Bool, true, false, not, none, some, List, [], ◌∷◌,
  ◌++◌, arith, Bool-cases, Option-cases, ◌==◌, nat_Eq, option_Eq, list_Eq, All, All-append, any_by,
}
use virtvalidation.Base.Dicts.{Dict, get, has_key}
use virtvalidation.Base.Texts.{Text}
use virtvalidation.Group.{VmGroup, group_id}
use virtvalidation.Base.Distinct.{contains, Distinct}
use virtvalidation.Base.Keys.{keys}
use virtvalidation.Base.{any_by-perm}
use virtvalidation.Skeleton.Wave.{Wave}
use virtvalidation.Skeleton.Oversized.{split_oversized_groups}
use virtvalidation.Skeleton.Order.{groups_by_id}
use virtvalidation.Skeleton.Order.Complete.{group_ids, keys-by_id}
use virtvalidation.Skeleton.Packing.{Limits}
use virtvalidation.Skeleton.Assign.{groups_of}
use virtvalidation.Skeleton.Assign.Result.{assign_waves-groups}
use virtvalidation.Preclassifier.Source.{SourceVm, vm_ids_of}
use virtvalidation.Planner.{
  PlanError, Planned, ExpandedWave, expanded_wave, looked_up_ids, expand_waves, expand_and_verify,
  plan_assigned, plan_with_groups,
}
use virtvalidation.Planner.Checked.{expanded_groups, plan_with_groups-assigned}

-- The ids of the groups in the dict.
abbrev IsKnown : Dict Text VmGroup → VmGroup → Type 0
IsKnown by_id g = has_key (group_id g) by_id ≡ true

-- A lookup of every group by its id returns if all are known, and else fails at an unknown one.
unfoldable Lookups : (A : Type 0) → Dict Text VmGroup → List VmGroup → Planned A → Type 0
Lookups A by_id gs r =
    (All (IsKnown by_id) gs × ((a : A) × (r ≡ Planned.returned a)))
    ⊎ ((id : Text) × (r ≡ Planned.failed (PlanError.unknown_group id)))

known_of : (k : Text) (d : Dict Text VmGroup) (g : VmGroup) → get k d ≡ some g → has_key k d ≡ true
known_of k d g h = ap (λ o. elim o [ none ↦ false | some _ ↦ true ]) h

looked_up_ids-Lookups :
    (by_id : Dict Text VmGroup) (gs : List VmGroup)
    → Lookups (List ℕ) by_id gs (looked_up_ids by_id gs)
unfolding looked_up_ids Lookups
looked_up_ids-Lookups by_id [] = inl (tt, ([], refl))
looked_up_ids-Lookups by_id (g ∷ gs) = elim (Option-cases (get (group_id g) by_id)) [
  | inl unknown ↦ inr (group_id g, rw (unknown, looked_up_ids) refl)
  | inr known ↦ elim (looked_up_ids-Lookups by_id gs) [
    | inl rest ↦ inl (
      (known_of (group_id g) by_id known.0 known.1, rest.0),
      ((known.0).vm_ids ++ rest.1.0, rw (known.1, rest.1.1, looked_up_ids) refl),
    )
    | inr bad ↦ inr (bad.0, rw (known.1, bad.1, looked_up_ids) refl)
  ]
]

expand_waves-Lookups :
    (by_id : Dict Text VmGroup) (ws : List Wave)
    → Lookups (List ExpandedWave) by_id (groups_of ws) (expand_waves by_id ws)
unfolding expand_waves Lookups
expand_waves-Lookups by_id [] = inl (tt, ([], refl))
expand_waves-Lookups by_id (w ∷ ws) = elim (looked_up_ids-Lookups by_id w.groups) [
  | inr bad ↦ inr (bad.0, rw (bad.1, expand_waves) refl)
  | inl here ↦ elim (expand_waves-Lookups by_id ws) [
    | inl rest ↦ inl (
      All-append (IsKnown by_id) w.groups (groups_of ws) here.0 rest.0,
      (expanded_wave w here.1.0 ∷ rest.1.0, rw (here.1.1, rest.1.1, expand_waves) refl),
    )
    | inr bad ↦ inr (bad.0, rw (here.1.1, bad.1, expand_waves) refl)
  ]
]

-- A group with an id that no group of the dict has.
abbrev pub is_stranger : List VmGroup → VmGroup → Bool
is_stranger groups g = not (contains (group_ids groups) (group_id g))

known-contains : (k : Text) (d : Dict Text VmGroup) → has_key k d ≡ contains (keys d) k
known-contains k [] = refl
known-contains k ((j, g) ∷ d) = elim (Bool-cases (j == k)) [
  | inl same ↦ ground (arith, same)
  | inr other ↦ ground (arith, other, known-contains k d)
]

no_stranger :
    (groups gs : List VmGroup)
    → Distinct (group_ids groups)
    → All (IsKnown (groups_by_id groups)) gs
    → any_by (is_stranger groups) gs ≡ false
no_stranger groups [] d h = refl
no_stranger groups (g ∷ gs) d h =
    let known : contains (group_ids groups) (group_id g) ≡ true =
      ap (λ l. contains l (group_id g)) (sym (keys-by_id groups d))
      ∙ sym (known-contains (group_id g) (groups_by_id groups))
      ∙ h.0 in
    rw (known, no_stranger groups gs d h.1) refl

assigned_unknown :
    (provided : List ℕ) (groups : List VmGroup) (ws : List Wave)
    → Distinct (group_ids groups)
    → any_by (is_stranger groups) (groups_of ws) ≡ true
    → (id : Text) × (plan_assigned provided groups (some ws)
        ≡ Planned.failed (PlanError.unknown_group id))
unfolding plan_assigned expand_and_verify Lookups
assigned_unknown provided groups [] d h = absurd (cc)
assigned_unknown provided groups (w ∷ ws) d h =
    elim (expand_waves-Lookups (groups_by_id groups) (w ∷ ws)) [
      | inl found ↦ absurd (clash (no_stranger groups (groups_of (w ∷ ws)) d found.0) h)
      | inr bad ↦ (bad.0, rw (bad.1, expand_and_verify) refl)
    ]
  where
    clash : {b : Bool} → b ≡ false → b ≡ true → ⊥
    clash h k = cc

-- If a wave may hold a VM, the VMs have different ids and there is one at least, the groups behind
-- the HA expansion have different ids, before the oversized ones are split and behind the split, and
-- a group behind the split has an id that none has before, then the planner fails with a KeyError
-- for a group id.
pub plan_with_groups-unknown :
    (ha_strategy : Text) (limits : Limits) (v : SourceVm) (vms : List SourceVm)
    → 1 ≤ limits.max_vms
    → Distinct (vm_ids_of (v ∷ vms))
    → Distinct (group_ids (expanded_groups ha_strategy (v ∷ vms)))
    → Distinct
        (group_ids (split_oversized_groups limits.max_vms (expanded_groups ha_strategy (v ∷ vms))))
    → any_by
        (is_stranger (expanded_groups ha_strategy (v ∷ vms)))
        (split_oversized_groups limits.max_vms (expanded_groups ha_strategy (v ∷ vms)))
      ≡ true
    → (id : Text) × (plan_with_groups ha_strategy limits (v ∷ vms)
        ≡ Planned.failed (PlanError.unknown_group id))
plan_with_groups-unknown ha_strategy limits v vms positive distinct before behind stranger =
    let groups = expanded_groups ha_strategy (v ∷ vms) in
    let r = assign_waves-groups limits groups positive behind in
    let bad =
      assigned_unknown (vm_ids_of (v ∷ vms)) groups r.0 before
        (any_by-perm (is_stranger groups) r.2 ∙ stranger) in
    (bad.0, plan_with_groups-assigned ha_strategy limits v vms distinct ∙ rw r.1 bad.1)
